-- ===== src/Resana/Ecarts/Lecteur.antt =====
-- A reference reader of CSV with `;`, quotes and lines that end in CR LF, one character at a time.
use mycollections.Base.{
  ℕ, Option, none, some, List, [], ◌∷◌, ◌++◌, nat_eq, ◌==◌, Text, if◌then◌else◌,
}

-- At the start of a field, in a bare one, in a quoted one, after a quote in it, after CR.
pub data Place : Type 0 where
  debut nu cite guillemet retour : Place

-- The field that is read, the fields of its row before it, and the rows before.
pub data Lecteur : Type 0 where
  lecteur : Place → Text → List Text → List (List Text) → Lecteur
  perdu : Lecteur

abbrev pub libre : ℕ → Text → List Text → List (List Text) → Lecteur
libre c a l r =
    if c == b';'
    then lecteur debut [] (l ++ a ∷ []) r
    else if c == 13
    then lecteur retour a l r
    else if c == 10
    then perdu
    else lecteur nu (a ++ c ∷ []) l r

abbrev pub pas : Lecteur → ℕ → Lecteur
pas perdu c = perdu
pas (lecteur debut a l r) c = if c == b'"' then lecteur cite a l r else libre c a l r
pas (lecteur nu a l r) c = if c == b'"' then perdu else libre c a l r
pas (lecteur cite a l r) c =
    if c == b'"' then lecteur guillemet a l r else lecteur cite (a ++ c ∷ []) l r
pas (lecteur guillemet a l r) c =
    if c == b'"'
    then lecteur cite (a ++ c ∷ []) l r
    else if c == b';'
    then lecteur debut [] (l ++ a ∷ []) r
    else if c == 13
    then lecteur retour a l r
    else perdu
pas (lecteur retour a l r) c =
    if c == 10 then lecteur debut [] [] (r ++ (l ++ a ∷ []) ∷ []) else perdu

abbrev pub lire_depuis : Lecteur → Text → Lecteur
lire_depuis e [] = e
lire_depuis e (c ∷ s) = lire_depuis (pas e c) s

-- The rows, where the text ends with one.
abbrev pub lues : Lecteur → Option (List (List Text))
lues (lecteur debut [] [] r) = some r
lues e = none

-- The mark of the bytes' order comes first.
abbrev pub lire_csv : Text → Option (List (List Text))
lire_csv [] = none
lire_csv (c ∷ s) = if c == 65279 then lues (lire_depuis (lecteur debut [] [] []) s) else none
