-- ===== src/Resana/Perimetre.antt =====
-- myrag/app/services/resana_perimetre.py: which folders a collection indexes. A set is a list without
-- order; the sorted children are given by the order of the lower-cased titles, `lower` being Python's.
-- The two walks are loops on a stack, whose fuel is one more than the stack and all the folders.
pub mod Parcours
pub mod Fermeture
pub mod Tri
pub mod Arbre
pub mod Inventaire
mod Tests
use mycollections.Base.{
  ℕ, zero, suc, ◌+◌, ◌-◌, ◌≡◌, Bool, true, false, ◌&&◌, ◌||◌, not, Option, none, some, List, [],
  ◌∷◌, ◌++◌, map, String, string_eq, Text, contains, filter, length, any, ltb, leb, nat_beq,
  is_some, is_empty, if◌then◌else◌, ◌==◌, ◌/◌,
}
use mycollections.Collectif.Etats.{jour}

pub record Dossier : Type 0 where
  pub id : String
  pub titre : Text
  pub parent_id : Option String

pub record DocumentResana : Type 0 where
  pub ref : String
  pub dossier_id : Option String

abbrev pub enfant_de : String → Dossier → Bool
enfant_de ident d = elim d.parent_id [ none ↦ false | some p ↦ p == ident ]

-- `par.get(ident, [])`
abbrev pub enfants : List Dossier → String → List Dossier
enfants dossiers ident = filter (enfant_de ident) dossiers

abbrev pub text_leb : Text → Text → Bool
text_leb [] t = true
text_leb (a ∷ s) [] = false
text_leb (a ∷ s) (b ∷ t) = ltb a b || nat_beq a b && text_leb s t

-- A stable sort by the lower-cased titles.
abbrev pub inserer : (Text → Text) → Dossier → List Dossier → List Dossier
inserer lower d [] = d ∷ []
inserer lower d (e ∷ l) =
    let reste = inserer lower d l in
    if text_leb (lower d.titre) (lower e.titre) then d ∷ e ∷ l else e ∷ reste

abbrev pub trier : (Text → Text) → List Dossier → List Dossier
trier lower [] = []
trier lower (d ∷ l) = inserer lower d (trier lower l)

-- `pile.extend(...)`: the end of the stack is the head of the list.
abbrev pub empiler : List String → List String → List String
empiler [] pile = pile
empiler (i ∷ l) pile = empiler l (i ∷ pile)

unfoldable pub vider : ℕ → List Dossier → List String → List String → Option (List String)
vider zero dossiers pile rendu = none
vider (suc f) dossiers [] rendu = some rendu
vider (suc f) dossiers (i ∷ pile) rendu =
    let saute = vider f dossiers pile rendu in
    let entre =
      vider f dossiers (empiler (map (λ d. d.id) (enfants dossiers i)) pile) (i ∷ rendu) in
    if contains rendu i then saute else entre

-- The excluded folders and all that they hold.
unfoldable pub exclus_effectifs : List String → List Dossier → Option (List String)
exclus_effectifs exclus dossiers =
    vider (suc (length exclus + length dossiers)) dossiers (empiler exclus []) []

-- The walk down from a folder: its children stand on the stack before what was there.
unfoldable pub descendre :
    ℕ
    → (Text → Text)
    → List Dossier
    → List Dossier
    → List String
    → List Dossier
    → Option (List Dossier)
descendre zero lower dossiers pile vus rendu = none
descendre (suc f) lower dossiers [] vus rendu = some rendu
descendre (suc f) lower dossiers (d ∷ pile) vus rendu =
    let saute = descendre f lower dossiers pile vus rendu in
    let entre =
      descendre f lower dossiers (trier lower (enfants dossiers d.id) ++ pile) (d.id ∷ vus)
        (rendu ++ d ∷ []) in
    if contains vus d.id then saute else entre

-- The folders under `racine`, itself left out, depth first.
unfoldable pub sous_arbre : (Text → Text) → String → List Dossier → Option (List Dossier)
sous_arbre lower racine dossiers =
    descendre (suc (length dossiers)) lower dossiers (trier lower (enfants dossiers racine))
      (racine ∷ []) []

-- A document without a folder, or whose folder is not excluded.
abbrev pub garde : List String → DocumentResana → Bool
garde exclus d = elim d.dossier_id [ none ↦ true | some i ↦ i == "" || not (contains exclus i) ]

unfoldable pub dans_le_perimetre : List DocumentResana → List String → List DocumentResana
dans_le_perimetre docs exclus = filter (garde exclus) docs

-- The folder of a document where the tree knows it.
abbrev pub cle : List Dossier → DocumentResana → Option String
cle arbre d = elim d.dossier_id [
  | none ↦ none
  | some i ↦ if contains (map (λ x. x.id) arbre) i then some i else none
]

abbrev pub range_dans : List Dossier → String → DocumentResana → Bool
range_dans arbre ident d = elim (cle arbre d) [ none ↦ false | some i ↦ i == ident ]

unfoldable pub a_la_racine : List Dossier → List DocumentResana → ℕ
a_la_racine arbre docs = length (filter (λ d. not (is_some (cle arbre d))) docs)

-- `directs.get(ident, 0)`
unfoldable pub directs : List Dossier → List DocumentResana → String → ℕ
directs arbre docs ident = length (filter (range_dans arbre ident) docs)

-- The depth of the folders of the tree, in its order.
abbrev pub profondeur_de : String → List (String × ℕ) → ℕ
profondeur_de ident [] = 0
profondeur_de ident ((i, n) ∷ l) = if i == ident then n else profondeur_de ident l

abbrev pub sous : String → List (String × ℕ) → Option String → ℕ
sous racine connues none = suc (profondeur_de "" connues)
sous racine connues (some p) = if p == racine then 0 else suc (profondeur_de p connues)

unfoldable pub profondeurs : String → List (String × ℕ) → List Dossier → List (String × ℕ)
profondeurs racine connues [] = connues
profondeurs racine connues (d ∷ l) =
    profondeurs racine ((d.id, sous racine connues d.parent_id) ∷ connues) l

pub data EtatTravail : Type 0 where
  en_cours partiel echec interrompu autre_etat : EtatTravail

abbrev pub inachevee : EtatTravail → Bool
inachevee partiel = true
inachevee echec = true
inachevee interrompu = true
inachevee _ = false

abbrev pub est_en_cours : EtatTravail → Bool
est_en_cours en_cours = true
est_en_cours _ = false

pub data Raison : Type 0 where
  selection interrompue a_faire erreurs_de_lecture : Raison

-- What the configuration of a collection says of its last reading, in microseconds.
pub record Cfg : Type 0 where
  pub exclus : List String
  pub etat : EtatTravail
  pub en_erreur : Bool
  pub documents : ℕ
  pub derniere_lecture : Option ℕ

abbrev pub si : Bool → Raison → List Raison → List Raison
si true r l = r ∷ l
si false r l = l

-- The coverage is total when there is no reason against it.
unfoldable pub raisons : Cfg → List Raison
raisons c = si (not (is_empty c.exclus)) selection (
    si (inachevee c.etat || est_en_cours c.etat && ltb 0 c.documents) interrompue
      (if ltb 0 c.documents then si c.en_erreur erreurs_de_lecture [] else a_faire ∷ []))

pub data Avis : Type 0 where
  resana_incomplet : Avis
  resana_ancien : ℕ → Avis

-- `(maintenant - derniere).days`; a date to come is no invitation.
unfoldable pub avis : Cfg → Bool → ℕ → ℕ → Option Avis
avis c est_importeur maintenant seuil_jours =
    if not est_importeur
    then none
    else if est_en_cours c.etat
    then none
    else if inachevee c.etat
    then some resana_incomplet
    else elim c.derniere_lecture [
      | none ↦ none
      | some d ↦
          if ltb maintenant d || ltb ((maintenant - d) / jour) seuil_jours
          then none
          else some (resana_ancien ((maintenant - d) / jour))
    ]
