-- ===== src/Collectif/Circuit/Operations.antt =====
-- What every operation keeps, every history of the calls of myrag/app/routers/collectif.py keeps.
use mycollections.Base.{
  ℕ, Bool, true, false, Option, none, some, List, [], ◌∷◌, String, Text, if◌then◌else◌,
  Option-cases, inl, inr, ◌||◌, strip, is_space,
}
use mycollections.Access.{Settings}
use mycollections.Collectif.Circuit.{
  Tables, Resultat, commis, echec, Ligne, Champs, Donnees, Decision, publiee, refusee,
  MotifSignalement, EtatSignalement, Amorce, Auteur, maj_grille, relire, creer_proposition,
  decider_proposition, creer_signalement, traiter_signalement, abonner, initialiser_collection,
  poser_couverture,
}
use mycollections.Collectif.Circuit.Appels.{
  Identite, collection_lisible, est_garant, Rendu, rendre, blanc, sans_champ, est_ouvert, Appel,
  corriger, relecture, proposer, publier, refuser, signaler, traiter, suivre, decider, servir,
  appeler, Geste, appel, creation, import, jouer, tables, histoire, nette, une_proposition,
  un_signalement, grille, rien,
}

module _ (P : Tables → Type 0) where
  pub record Garde : Type 0 where
    pub corrige :
        (now : ℕ) (name : Text) (c : Champs) (s : String) (t : Tables)
        → P t
        → P (tables t (maj_grille now name c s t))
    pub relit :
        (now : ℕ) (name : Text) (s : String) (t : Tables) → P t → P (tables t (relire now name s t))
    pub propose :
        (now : ℕ) (ident : String) (name : Text) (d : Donnees) (s : String) (t : Tables)
        → P t
        → P (tables t (creer_proposition now ident name d s t))
    pub tranche :
        (now : ℕ) (name : Text) (ident : String) (d : Decision) (m : Option Text) (s : String)
        (t : Tables)
        → P t
        → P (tables t (decider_proposition now name ident d m s t))
    pub signale :
        (now : ℕ) (ident : String) (name : Text) (m : MotifSignalement) (texte : Text)
        (f : Option ℕ) (s : String) (t : Tables)
        → P t
        → P (tables t (creer_signalement now ident name m texte f s t))
    pub traite :
        (now : ℕ) (name : Text) (ident : String) (e : EtatSignalement) (s : String) (t : Tables)
        → P t
        → P (tables t (traiter_signalement now name ident e s t))
    pub abonne :
        (name : Text) (s : String) (oui : Bool) (t : Tables)
        → P t
        → P (tables t (abonner name s oui t))
    pub initialise :
        (now : ℕ) (name : Text) (a : Auteur) (d : Option String) (p : Text) (g : Amorce)
        (t : Tables)
        → P t
        → P (tables t (initialiser_collection now name a d p g t))
    pub couvre :
        (now : ℕ) (name couverture nom : Text) (t : Tables)
        → P t
        → P (tables t (poser_couverture now name couverture nom t))

  rendue :
      {A : Type 0} (t : Tables) (f : A → Rendu) (r : Resultat A)
      → P (tables t r)
      → P (tables t (rendre f r))
  rendue t f (commis u a) p = p
  rendue t f (echec e) p = p

  soit :
      (t : Tables) (b : Bool) (r s : Resultat Rendu)
      → P (tables t r)
      → P (tables t s)
      → P (tables t (if b then r else s))
  soit t true r s p q = p
  soit t false r s p q = q

  module _ (garde : Garde) (settings : Settings) where
    Garde-decider :
        (now : ℕ) (moi : Identite) (c : Ligne) (ident : String) (d : Decision) (m : Option Text)
        (t : Tables)
        → P t
        → P (tables t (decider settings now moi c ident d m t))
    unfolding decider
    Garde-decider now moi c ident d m t p =
        soit t (est_garant settings c moi) _ _
          (rendue t une_proposition (decider_proposition now c.fiche.name ident d m moi.hash t)
            (garde.tranche now c.fiche.name ident d m moi.hash t p))
          p

    Garde-servir :
        (now : ℕ) (moi : Identite) (c : Ligne) (a : Appel) (t : Tables)
        → P t
        → P (tables t (servir settings now moi c a t))
    unfolding servir
    Garde-servir now moi c (corriger x) t p =
        soit t (est_garant settings c moi) _ _
          (soit t (sans_champ x) _ _ p (
            rendue t grille (maj_grille now c.fiche.name x moi.hash t)
              (garde.corrige now c.fiche.name x moi.hash t p)))
          p
    Garde-servir now moi c relecture t p =
        rendue t grille (relire now c.fiche.name moi.hash t)
          (garde.relit now c.fiche.name moi.hash t p)
    Garde-servir now moi c (proposer i d) t p =
        soit t (blanc d.apres || blanc d.justification) _ _ p (
          rendue t une_proposition (creer_proposition now i c.fiche.name (nette d) moi.hash t)
            (garde.propose now i c.fiche.name (nette d) moi.hash t p))
    Garde-servir now moi c (publier i) t p = Garde-decider now moi c i publiee none t p
    Garde-servir now moi c (refuser i m) t p =
        soit t (blanc m) _ _ p (Garde-decider now moi c i refusee (some (strip is_space m)) t p)
    Garde-servir now moi c (signaler i m texte f) t p = soit t (blanc texte) _ _ p (
        rendue t un_signalement
          (creer_signalement now i c.fiche.name m (strip is_space texte) f moi.hash t)
          (garde.signale now i c.fiche.name m (strip is_space texte) f moi.hash t p))
    Garde-servir now moi c (traiter i e) t p = soit t (est_ouvert e) _ _ p (
        soit t (est_garant settings c moi) _ _
          (rendue t un_signalement (traiter_signalement now c.fiche.name i e moi.hash t)
            (garde.traite now c.fiche.name i e moi.hash t p))
          p)
    Garde-servir now moi c (suivre oui) t p =
        rendue t Rendu.abonne (abonner c.fiche.name moi.hash oui t)
          (garde.abonne c.fiche.name moi.hash oui t p)

    Garde-jouer : (now : ℕ) (g : Geste) (t : Tables) → P t → P (tables t (jouer settings now g t))
    unfolding jouer appeler
    Garde-jouer now (appel name moi a) t p =
        elim (Option-cases (collection_lisible settings name moi t)) [
          | inl h ↦ rw (h, tables) p
          | inr (c, h) ↦ rw (h, tables) (Garde-servir now moi c a t p)
        ]
    Garde-jouer now (creation name a d pressenti g) t p =
        rendue t (λ x. rien) (initialiser_collection now name a d pressenti g t)
          (garde.initialise now name a d pressenti g t p)
    Garde-jouer now (import name couverture nom) t p =
        rendue t (λ x. rien) (poser_couverture now name couverture nom t)
          (garde.couvre now name couverture nom t p)

    pub Garde-histoire : (l : List (ℕ × Geste)) (t : Tables) → P t → P (histoire settings l t)
    unfolding histoire
    Garde-histoire [] t p = p
    Garde-histoire ((now, g) ∷ l) t p = Garde-histoire l _ (Garde-jouer now g t p)
