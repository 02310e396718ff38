-- ===== src/Collectif/Journal.antt =====
-- myrag/app/services/journal.py: the thread of an object, read page by page. The table holds the latest
-- event first, which is the order of the query; what bounds a page is a date.
pub mod Pages
mod Tests
use mycollections.Base.{
  ℕ, zero, suc, Bool, true, false, ◌&&◌, Option, none, some, List, [], ◌∷◌, ◌++◌, String, string_eq,
  ◌==◌, filter, take, length, ltb, if◌then◌else◌, min, max,
}
use mycollections.Collectif.Demandes.{Evenement, Objet, sur_demande, sur_collection}

abbrev pub limite_max : ℕ
limite_max = 200

abbrev pub meme_objet : Objet → Objet → Bool
meme_objet (sur_demande i) (sur_demande j) = i == j
meme_objet (sur_collection i) (sur_collection j) = i == j
meme_objet _ _ = false

abbrev pub est_avant : Option ℕ → Evenement → Bool
est_avant none e = true
est_avant (some a) e = ltb e.cree_le a

-- The rows of an object before a date.
abbrev pub fil : Objet → Option ℕ → List Evenement → List Evenement
fil objet avant l = filter (λ e. meme_objet objet e.objet && est_avant avant e) l

-- `lignes[-1].cree_le`
abbrev pub dernier : List Evenement → Option ℕ
dernier [] = none
dernier (e ∷ []) = some e.cree_le
dernier (e ∷ f ∷ l) = dernier (f ∷ l)

abbrev pub bornee : ℕ → ℕ
bornee limite = max 1 (min limite limite_max)

abbrev pub couper : ℕ → List Evenement → List Evenement × Option ℕ
couper limite lignes =
    if ltb limite (length lignes)
    then (take limite lignes, dernier (take limite lignes))
    else (lignes, none)

-- A page, and the date to go on from where there is more.
unfoldable pub lire : Objet → ℕ → Option ℕ → List Evenement → List Evenement × Option ℕ
lire objet limite avant l = couper (bornee limite) (take (suc (bornee limite)) (fil objet avant l))
