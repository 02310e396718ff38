-- ===== src/Harnais/Fusion.antt =====
-- _avec_quota of myrag/app/harnais/fusion.py: which passages stay when there are too many. A passage
-- is its key, as a text; `source` gives the source of the passage that stands for the key.
pub mod Places
pub mod Quota
mod Tests
use mycollections.Base.{
  ℕ, suc, ◌≡◌, Bool, true, false, ◌&&◌, List, [], ◌∷◌, ◌++◌, String, string_eq, contains, filter,
  length, ltb, leb, take, ◌==◌, if◌then◌else◌,
}

module _ (source : String → String) where
  -- `pris.get(s, 0)`: how often the source was taken.
  abbrev pub compte : String → List String → ℕ
  compte s [] = 0
  compte s (t ∷ l) = let reste = compte s l in if t == s then suc reste else reste

  -- The best passages of the sources that always answer, up to the quota of each.
  abbrev pub reserves : List String → ℕ → List String → List String → List String
  reserves toujours quota pris [] = []
  reserves toujours quota pris (c ∷ l) =
      elim (contains toujours (source c) && ltb (compte (source c) pris) quota) [
        | true ↦ c ∷ reserves toujours quota (source c ∷ pris) l
        | false ↦ reserves toujours quota pris l
      ]

  -- `choisis.add(c)`
  abbrev pub ajoute : String → List String → List String
  ajoute c l = if contains l c then l else c ∷ l

  abbrev pub completer : ℕ → List String → List String → List String
  completer limite choisis [] = choisis
  completer limite choisis (c ∷ l) = elim (leb limite (length choisis)) [
    | true ↦ choisis
    | false ↦ completer limite (ajoute c choisis) l
  ]

  unfoldable pub avec_quota : List String → List String → ℕ → ℕ → List String
  avec_quota classes toujours quota limite =
      let choisis = completer limite (take limite (reserves toujours quota [] classes)) classes in
      filter (contains choisis) classes
