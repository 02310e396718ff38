-- ===== src/Collectif/Circuit/Cas.antt =====
-- The cases of the operations of myrag/app/services/collectif_store.py on the circuit: the tables stay as
-- they are, or take one form.
use mycollections.Base.{
  filter, contains, any, not, Bool, true, false, List, ℕ, ◌≡◌, ◌⊎◌, refl, Option, none, some,
  String, string_eq, text_eq, ◌==◌, Text, is_some, Bool-cases, Option-cases, inl, inr,
}
use mycollections.Collectif.Circuit.{
  posee, grille_de, relues, relire, Auteur, Amorce, Ligne, initialisees, initialiser_collection,
  collection_de, abonner, est_abonne, Tables, Decision, MotifSignalement, EtatSignalement,
  Proposition, EtatProposition, Signalement, Donnees, trouver, signale, proposee, decidee,
  refus_sans_motif, tranchees, deposees, traitees, signalees, signale_par, decider_proposition,
  creer_proposition, traiter_signalement, creer_signalement,
}
use mycollections.Collectif.Circuit.Appels.{tables}

pub EtatProposition-cases :
    (e : EtatProposition) → (e ≡ proposee) ⊎ ((d : Decision) × (e ≡ decidee d))
EtatProposition-cases proposee = inl refl
EtatProposition-cases (decidee d) = inr (d, refl)

module _ (P : Tables → Type 0) (t : Tables) (p : P t) (now : ℕ) (name : Text) (ident : String)
    (s : String) where
  pub decider_proposition_cas :
      (d : Decision) (m : Option Text)
      → ((q : Proposition)
          → trouver ident t.propositions ≡ some q
          → q.etat ≡ proposee
          → P (tranchees now name d m s t q))
      → P (tables t (decider_proposition now name ident d m s t))
  unfolding decider_proposition
  decider_proposition_cas d m k = elim (Option-cases (trouver ident t.propositions)) [
    | inl h ↦ rw (h, tables) p
    | inr (q, h) ↦
        rw (h, tables)
          (elim (Bool-cases (q.collection_name == name)) [
            | inr n ↦ rw (n, tables) p
            | inl n ↦
                rw (n, tables)
                  (elim (EtatProposition-cases q.etat) [
                    | inr (e, z) ↦ rw (z, tables) p
                    | inl z ↦
                        rw (z, tables)
                          (elim (Bool-cases (refus_sans_motif d m)) [
                            | inl r ↦ rw (r, tables) p
                            | inr r ↦ rw (r, tables) (k q h z)
                          ])
                  ])
          ])
  ]

  pub creer_proposition_cas :
      (d : Donnees)
      → (trouver ident t.propositions ≡ none → P (deposees now ident name d s t))
      → P (tables t (creer_proposition now ident name d s t))
  unfolding creer_proposition
  creer_proposition_cas d k = elim (Option-cases (trouver ident t.propositions)) [
    | inl h ↦ rw (h, tables) (k h)
    | inr (q, h) ↦ rw (h, tables) p
  ]

  pub traiter_signalement_cas :
      (e : EtatSignalement)
      → ((q : Signalement) → P (traitees now name ident e s t q))
      → P (tables t (traiter_signalement now name ident e s t))
  unfolding traiter_signalement
  traiter_signalement_cas e k = elim (Option-cases (signale ident t.signalements)) [
    | inl h ↦ rw (h, tables) p
    | inr (q, h) ↦
        rw (h, tables)
          (elim (Bool-cases (q.collection_name == name)) [
            | inr n ↦ rw (n, tables) p
            | inl n ↦ rw (n, tables) (k q)
          ])
  ]

  pub creer_signalement_cas :
      (m : MotifSignalement) (texte : Text) (f : Option ℕ)
      → P (signalees now name (signale_par now ident name m texte f s) t)
      → P (tables t (creer_signalement now ident name m texte f s t))
  unfolding creer_signalement
  creer_signalement_cas m texte f k = elim (Bool-cases (is_some (signale ident t.signalements))) [
    | inl h ↦ rw (h, tables) p
    | inr h ↦ rw (h, tables) k
  ]

module _ (P : Tables → Type 0) (t : Tables) (p : P t) (name : Text) where
  pub relire_cas :
      (now : ℕ) (s : String)
      → P (record t { grilles = posee (grille_de name t.grilles) t.grilles })
      → (contains (grille_de name t.grilles).relecteurs s ≡ false → P (relues now name s t))
      → P (tables t (relire now name s t))
  unfolding relire
  relire_cas now s a k = elim (Bool-cases (contains (grille_de name t.grilles).relecteurs s)) [
    | inl h ↦ rw (h, tables) a
    | inr h ↦ rw (h, tables) (k h)
  ]

  pub initialiser_collection_cas :
      (now : ℕ) (a : Auteur) (d : Option String) (w : Text) (g : Amorce)
      → ((c : Ligne) → P (initialisees now name a d w g t c))
      → P (tables t (initialiser_collection now name a d w g t))
  unfolding initialiser_collection
  initialiser_collection_cas now a d w g k =
      elim (Option-cases (collection_de name t.collections)) [
        | inl h ↦ rw (h, tables) p
        | inr (c, h) ↦ rw (h, tables) (k c)
      ]

  pub abonner_cas :
      (s : String) (oui : Bool)
      → ((l : List (Text × String)) → P (record t { abonnes = l }))
      → P (tables t (abonner name s oui t))
  unfolding abonner
  abonner_cas s true k = elim (Bool-cases (any (est_abonne name s) t.abonnes)) [
    | inl h ↦ rw (h, tables) p
    | inr h ↦ rw (h, tables) (k _)
  ]
  abonner_cas s false k = k (filter (λ a. not (est_abonne name s a)) t.abonnes)
