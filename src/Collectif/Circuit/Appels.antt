-- ===== src/Collectif/Circuit/Appels.antt =====
-- The calls of myrag/app/routers/collectif.py, and the rights of myrag/app/routers/_collectif_commun.py.
-- The right to read comes first, then the checks of the body, then the guarantor.
use mycollections.Base.{
  ℕ, Bool, true, false, ◌&&◌, ◌||◌, not, Option, none, some, List, [], ◌∷◌, String, string_eq, ◌==◌,
  Text, is_empty, is_space, strip, is_some, if◌then◌else◌,
}
use mycollections.Access.{Settings, Claim, can_read, is_superadmin}
use mycollections.Collectif.Circuit.{
  Tables, Resultat, commis, echec, introuvable, interdit, invalide, Ligne, collection_de, Champs,
  Donnees, Decision, publiee, refusee, MotifSignalement, EtatSignalement, ouvert, GrilleControle,
  Proposition, Signalement, Amorce, Auteur, maj_grille, relire, creer_proposition,
  decider_proposition, creer_signalement, traiter_signalement, abonner, initialiser_collection,
  poser_couverture,
}

-- The person who calls: the groups and the sub of the token, and the condensed sub.
pub record Identite : Type 0 where
  pub groups : Option Claim
  pub sub : Option Text
  pub hash : String

unfoldable pub collection_lisible : Settings → Text → Identite → Tables → Option Ligne
collection_lisible settings name moi t = elim (collection_de name t.collections) [
  | none ↦ none
  | some c ↦ if can_read settings c.fiche moi.groups moi.sub then some c else none
]

unfoldable pub est_garant : Settings → Ligne → Identite → Bool
est_garant settings c moi =
    is_superadmin settings moi.groups
    || elim c.garant_hash [ none ↦ false | some g ↦ not (g == "") && g == moi.hash ]

pub data Rendu : Type 0 where
  grille : GrilleControle → Rendu
  une_proposition : Proposition → Rendu
  un_signalement : Signalement → Rendu
  abonne : Bool → Rendu
  rien : Rendu

abbrev pub rendre : {A : Type 0} → (A → Rendu) → Resultat A → Resultat Rendu
rendre f (commis t a) = commis t (f a)
rendre f (echec e) = echec e

-- 404 where the collection is not there or may not be read.
abbrev pub lisible : Settings → Text → Identite → Tables → (Ligne → Resultat Rendu) → Resultat Rendu
lisible settings name moi t suite = elim (collection_lisible settings name moi t) [
  | none ↦ echec introuvable
  | some c ↦ suite c
]

abbrev pub exiger_garant : Settings → Ligne → Identite → Resultat Rendu → Resultat Rendu
exiger_garant settings c moi r = if est_garant settings c moi then r else echec interdit

abbrev pub blanc : Text → Bool
blanc t = is_empty (strip is_space t)

-- `(v or "").strip() or None`
abbrev pub source_nette : Option Text → Option Text
source_nette none = none
source_nette (some s) = if blanc s then none else some (strip is_space s)

abbrev pub nette : Donnees → Donnees
nette d = record d {
  apres = strip is_space d.apres;
  justification = strip is_space d.justification;
  source = source_nette d.source;
}

abbrev pub sans_champ : Champs → Bool
sans_champ c =
    not (is_some c.source_licence)
    && (not (is_some c.donnees_perso) && (not (is_some c.fraicheur) && not (is_some c.couverture)))

abbrev pub est_ouvert : EtatSignalement → Bool
est_ouvert ouvert = true
est_ouvert _ = false

pub data Appel : Type 0 where
  corriger : Champs → Appel
  relecture : Appel
  proposer : String → Donnees → Appel
  publier : String → Appel
  refuser : String → Text → Appel
  signaler : String → MotifSignalement → Text → Option ℕ → Appel
  traiter : String → EtatSignalement → Appel
  suivre : Bool → Appel

unfoldable pub decider :
    Settings → ℕ → Identite → Ligne → String → Decision → Option Text → Tables → Resultat Rendu
decider settings now moi c ident d motif t =
    exiger_garant settings c moi
      (rendre une_proposition (decider_proposition now c.fiche.name ident d motif moi.hash t))

unfoldable pub servir : Settings → ℕ → Identite → Ligne → Appel → Tables → Resultat Rendu
servir settings now moi c (corriger champs) t = exiger_garant settings c moi (
    if sans_champ champs
    then echec invalide
    else rendre grille (maj_grille now c.fiche.name champs moi.hash t))
servir settings now moi c relecture t = rendre grille (relire now c.fiche.name moi.hash t)
servir settings now moi c (proposer ident d) t =
    if blanc d.apres || blanc d.justification
    then echec invalide
    else rendre une_proposition (creer_proposition now ident c.fiche.name (nette d) moi.hash t)
servir settings now moi c (publier ident) t = decider settings now moi c ident publiee none t
servir settings now moi c (refuser ident m) t =
    if blanc m
    then echec invalide
    else decider settings now moi c ident refusee (some (strip is_space m)) t
servir settings now moi c (signaler ident m texte fichier) t =
    if blanc texte
    then echec invalide
    else rendre un_signalement
        (creer_signalement now ident c.fiche.name m (strip is_space texte) fichier moi.hash t)
servir settings now moi c (traiter ident e) t =
    if est_ouvert e
    then echec invalide
    else exiger_garant settings c moi
        (rendre un_signalement (traiter_signalement now c.fiche.name ident e moi.hash t))
servir settings now moi c (suivre oui) t = rendre abonne (abonner c.fiche.name moi.hash oui t)

unfoldable pub appeler : Settings → ℕ → Text → Identite → Appel → Tables → Resultat Rendu
appeler settings now name moi a t = lisible settings name moi t (λ c. servir settings now moi c a t)

-- What changes the circuit: a call of a person, the creation of a collection, an import.
pub data Geste : Type 0 where
  appel : Text → Identite → Appel → Geste
  creation : Text → Auteur → Option String → Text → Amorce → Geste
  import : Text → Text → Text → Geste

unfoldable pub jouer : Settings → ℕ → Geste → Tables → Resultat Rendu
jouer settings now (appel name moi a) t = appeler settings now name moi a t
jouer settings now (creation name auteur d pressenti a) t =
    rendre (λ x. rien) (initialiser_collection now name auteur d pressenti a t)
jouer settings now (import name couverture nom) t =
    rendre (λ x. rien) (poser_couverture now name couverture nom t)

abbrev pub tables : {A : Type 0} → Tables → Resultat A → Tables
tables t (commis u a) = u
tables t (echec e) = t

-- A history of gestures, each with its time.
unfoldable pub histoire : Settings → List (ℕ × Geste) → Tables → Tables
histoire settings [] t = t
histoire settings ((now, g) ∷ l) t = histoire settings l (tables t (jouer settings now g t))
