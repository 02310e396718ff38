-- ===== src/Sensibilite.antt =====
-- The levels of sensitivity (class Sensitivity of myrag/app/services/chunker.py) and the rule of the
-- ceiling (myrag/app/services/sensibilite.py). A value is a text; `or` on an empty or absent one is
-- `none`. The sentences of a refusal are data; the settings of destinations are the pairs of the JSON
-- object, `none` where the text is no JSON object.
pub mod Plafond
mod Tests
use mycollections.Base.{
  ℕ, suc, ◌≡◌, Bool, true, false, not, Option, none, some, List, [], ◌∷◌, String, string_eq, ◌==◌,
  filter, leb, if◌then◌else◌, is_empty, contains,
}

pub data Sensitivity : Type 0 where
  public internal personal personal_sensitive controlled restricted : Sensitivity

-- `Sensitivity(value)`, the old values included (`_missing_`); `none` is a ValueError.
unfoldable pub valider_sensibilite : String → Option Sensitivity
valider_sensibilite v =
    if v == "public"
    then some public
    else if v == "internal"
    then some internal
    else if v == "personal"
    then some personal
    else if v == "personal_sensitive"
    then some personal_sensitive
    else if v == "controlled"
    then some controlled
    else if v == "restricted"
    then some restricted
    else if v == "confidential"
    then some restricted
    else if v == "secret"
    then some restricted
    else none

abbrev pub echelle : List Sensitivity
echelle = public ∷ internal ∷ personal ∷ personal_sensitive ∷ controlled ∷ restricted ∷ []

-- `ECHELLE.index`
abbrev pub index : Sensitivity → ℕ
index public = 0
index internal = 1
index personal = 2
index personal_sensitive = 3
index controlled = 4
index restricted = 5

abbrev ou_defaut : Option Sensitivity → Sensitivity → Sensitivity
ou_defaut none defaut = defaut
ou_defaut (some s) defaut = s

pub niveau : Option String → Sensitivity → Sensitivity
niveau none defaut = defaut
niveau (some v) defaut = if v == "" then defaut else ou_defaut (valider_sensibilite v) defaut

pub rang : String → ℕ
rang v = index (niveau (some v) restricted)

pub compatible : String → String → Bool
compatible contenu plafond = leb (rang contenu) (rang plafond)

-- The value of a level.
abbrev pub valeur : Sensitivity → String
valeur public = "public"
valeur internal = "internal"
valeur personal = "personal"
valeur personal_sensitive = "personal_sensitive"
valeur controlled = "controlled"
valeur restricted = "restricted"

pub niveaux_permis : String → List Sensitivity
niveaux_permis plancher = filter (λ n. leb (rang plancher) (rang (valeur n))) echelle

pub data Destination : Type 0 where
  chat recherche navigateur : Destination

abbrev destination : String → Option Destination
destination d =
    if d == "chat"
    then some chat
    else if d == "recherche"
    then some recherche
    else if d == "navigateur"
    then some navigateur
    else none

abbrev meme : Destination → Destination → Bool
meme chat chat = true
meme recherche recherche = true
meme navigateur navigateur = true
meme _ _ = false

-- A pair of a known destination and a known level is kept, any other one is skipped.
abbrev retenue :
    Option Destination
    → Option Sensitivity
    → List (Destination × Sensitivity)
    → List (Destination × Sensitivity)
retenue (some d) (some s) reste = (d, s) ∷ reste
retenue _ _ reste = reste

pub plafonds_destinations : Option (List (String × String)) → List (Destination × Sensitivity)
plafonds_destinations none = []
plafonds_destinations (some []) = []
plafonds_destinations (some ((d, v) ∷ l)) =
    retenue (destination d) (valider_sensibilite v) (plafonds_destinations (some l))

abbrev chercher : Destination → List (Destination × Sensitivity) → Option Sensitivity
chercher d [] = none
chercher d ((e, s) ∷ l) = if meme d e then some s else chercher d l

pub plafond : Option (List (String × String)) → Destination → Option Sensitivity
plafond reglage d = chercher d (plafonds_destinations reglage)

pub admise : Option (List (String × String)) → Option String → Destination → Bool
admise reglage collection_sensibilite d = elim (plafond reglage d) [
  | none ↦ true
  | some p ↦ compatible (valeur (niveau collection_sensibilite internal)) (valeur p)
]

-- The sentence names the destination, its ceiling and the level of the collection.
pub data Phrase : Type 0 where
  trop_haut : Destination → Sensitivity → Sensitivity → Phrase
  trop_bas : String → Sensitivity → Phrase

pub refus_destination :
    Option (List (String × String)) → Option String → Destination → Option Phrase
refus_destination reglage collection_sensibilite d = elim (plafond reglage d) [
  | none ↦ none
  | some p ↦
      let n = niveau collection_sensibilite internal in
      if compatible (valeur n) (valeur p) then none else some (trop_haut d p n)
]

pub refus_plancher : String → String → String → Option Phrase
refus_plancher demande plancher origine =
    if compatible plancher demande
    then none
    else some (trop_bas origine (niveau (some plancher) internal))
