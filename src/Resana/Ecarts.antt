-- ===== src/Resana/Ecarts.antt =====
-- myrag/app/services/resana_ecarts.py: why a document of Résana is left out, and the CSV of them. `lower`
-- stands for str.lower. The csv writer of Python's library, with `;` and lines that end in CR LF,
-- quotes a field that holds `;`, a quote, CR or LF, and doubles its quotes; rows have eight fields.
pub mod Table
pub mod Lecteur
pub mod Explique
pub mod Relecture
mod Tests
use mycollections.Base.{
  ℕ, Bool, true, false, ◌||◌, Option, none, some, List, [], ◌∷◌, ◌++◌, map, String, string_eq,
  nat_eq, ◌==◌, Text, text, any, starts_with, is_empty, if◌then◌else◌,
}
use mathlib.Core.Option
use mycollections.Resana.Ecarts.Table.{Explication, explications, par_texte}

abbrev pub chercher : String → List Explication → Option Explication
chercher code [] = none
chercher code (e ∷ l) = let reste = chercher code l in if e.code == code then some e else reste

-- `code in EXPLICATIONS`
abbrev pub connue : String → Bool
connue code = any (λ e. e.code == code) explications

-- `s in t`
abbrev pub dans : Text → Text → Bool
dans s [] = is_empty s
dans s (c ∷ t) = starts_with s (c ∷ t) || dans s t

abbrev pub premier : (Text → Text) → Text → List (Text × String) → String
premier lower texte [] = "autre"
premier lower texte ((debut, c) ∷ l) =
    let reste = premier lower texte l in if dans (lower debut) texte then c else reste

-- `x or ""`
abbrev pub ou_vide : Option Text → Text
ou_vide none = []
ou_vide (some t) = t

unfoldable pub coder : (Text → Text) → Option Text → Option String → String
coder lower raison none = premier lower (lower (ou_vide raison)) par_texte
coder lower raison (some code) =
    if connue code then code else premier lower (lower (ou_vide raison)) par_texte

abbrev pub alias : String → String
alias code = if code == "document_vide" then "vide" else code

unfoldable pub code_erreur_resana : String → String
code_erreur_resana code = if connue (alias code) then alias code else "autre"

-- Nothing stands for the exception of a missing key.
unfoldable pub expliquer : String → Option Explication
expliquer code = chercher (if connue code then code else "autre") explications

-- A spreadsheet runs a cell that begins with one of these: = + - @ TAB CR.
abbrev pub formule : Text → Bool
formule [] = false
formule (c ∷ s) = c == b'=' || (c == b'+' || (c == b'-' || (c == b'@' || (c == 9 || c == 13))))

abbrev pub neutralisee : Text → Text
neutralisee s = if formule s then b'\'' ∷ s else s

unfoldable pub cellule : Option Text → Text
cellule v = neutralisee (ou_vide v)

pub record Ecarte : Type 0 where
  pub titre : Option Text
  pub chemin : Option Text
  pub extension : Option Text
  pub raison : Option Text
  pub code : Option String
  pub doublon_de_titre : Option Text
  pub url : Option Text

abbrev pub raison_ou : Option Text → Text → Option Text
raison_ou none libelle = some libelle
raison_ou (some t) libelle = if is_empty t then some libelle else some t

unfoldable pub colonnes_csv : List Text
colonnes_csv =
    text "titre"
    ∷ text "dossier"
    ∷ text "format"
    ∷ text "raison"
    ∷ text "explication"
    ∷ text "quoi_faire"
    ∷ text "meme_contenu_que"
    ∷ text "adresse_resana"
    ∷ []

abbrev pub cellules : Ecarte → Explication → List Text
cellules e ex =
    cellule e.titre
    ∷ cellule e.chemin
    ∷ cellule e.extension
    ∷ cellule (raison_ou e.raison ex.libelle)
    ∷ cellule (some ex.explication)
    ∷ cellule (some ex.quoi_faire)
    ∷ cellule e.doublon_de_titre
    ∷ cellule e.url
    ∷ []

unfoldable pub ligne : (Text → Text) → Ecarte → Option (List Text)
ligne lower e = Option.map (cellules e) (expliquer (coder lower e.raison e.code))

-- The characters that make the writer quote a field.
abbrev pub special : ℕ → Bool
special c = c == b';' || (c == b'"' || (c == 13 || c == 10))

abbrev pub doubler : Text → Text
doubler [] = []
doubler (c ∷ s) = if c == b'"' then b'"' ∷ b'"' ∷ doubler s else c ∷ doubler s

unfoldable pub champ_csv : Text → Text
champ_csv s = if any special s then b'"' ∷ doubler s ++ b'"' ∷ [] else s

unfoldable pub ligne_csv : List Text → Text
ligne_csv [] = 13 ∷ 10 ∷ []
ligne_csv (s ∷ []) = champ_csv s ++ 13 ∷ 10 ∷ []
ligne_csv (s ∷ t ∷ l) = champ_csv s ++ b';' ∷ ligne_csv (t ∷ l)

unfoldable pub lignes_csv : List (List Text) → Text
lignes_csv [] = []
lignes_csv (r ∷ l) = ligne_csv r ++ lignes_csv l

abbrev pub lignes : (Text → Text) → List Ecarte → Option (List (List Text))
lignes lower [] = some []
lignes lower (e ∷ l) = elim (ligne lower e) [
  | none ↦ none
  | some r ↦ Option.map (λ reste. r ∷ reste) (lignes lower l)
]

unfoldable pub vers_csv : (Text → Text) → List Ecarte → Option Text
vers_csv lower ecartes =
    Option.map (λ l. 65279 ∷ lignes_csv (colonnes_csv ∷ l)) (lignes lower ecartes)
