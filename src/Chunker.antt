-- ===== src/Chunker.antt =====
-- myrag/app/services/chunker.py: the split of a text by length. A text is its code points; the name
-- of a file is a constructor with its number. The `while` loop takes fuel, one unit for a round, and
-- answers `none` where the fuel runs out; chunk_by_length gives one unit more than the text has
-- characters, and Chunker.Longueur proves that this is enough.
pub mod Fenetres
pub mod Longueur
pub mod Pieces
mod Tests
use mycollections.Base.{
  ℕ, zero, suc, ◌+◌, ◌-◌, ◌/◌, ◌≤◌, ◌<◌, ◌≡◌, min, max, Bool, true, false, Option, none, some, List,
  [], ◌∷◌, take, drop, length, ltb, leb, nat_beq, if◌then◌else◌, Text, is_empty, is_space, strip,
}
use mycollections.Sensibilite.{Sensitivity}

pub data NomFichier : Type 0 where
  chunk : ℕ → NomFichier

pub record Morceau : Type 0 where
  pub content : Text
  pub filename : NomFichier
  pub page : ℕ
  pub sensitivity : Sensitivity

-- text[pos:end]
abbrev pub tranche : Text → ℕ → ℕ → Text
tranche t pos fin = take (fin - pos) (drop pos t)

-- The last place of a character, counted from i.
pub dernier : ℕ → ℕ → Text → Option ℕ
dernier c i [] = none
dernier c i (d ∷ s) = elim (dernier c (i + 1) s) [
  | some j ↦ some j
  | none ↦ if nat_beq d c then some i else none
]

-- text.rfind(c, pos, end), with `none` for -1
pub rfind : ℕ → Text → ℕ → ℕ → Option ℕ
unfolding dernier
rfind c t pos fin = dernier c pos (tranche t pos fin)

-- max of two places, -1 included
abbrev pub plus_loin : Option ℕ → Option ℕ → Option ℕ
plus_loin none b = b
plus_loin (some a) none = some a
plus_loin (some a) (some b) = some (max a b)

abbrev pub couper : ℕ → ℕ → Option ℕ → ℕ
couper seuil fin none = fin
couper seuil fin (some break_at) = if ltb seuil break_at then break_at + 1 else fin

-- The end of the window that starts at pos.
pub fin_de : Text → ℕ → ℕ → ℕ
unfolding rfind
fin_de t max_chars pos =
    let fin = min (pos + max_chars) (length t) in
    if ltb fin (length t)
    then couper (pos + max_chars / 2) fin (plus_loin (rfind b'.' t pos fin) (rfind 10 t pos fin))
    else fin

abbrev morceau : Text → ℕ → Sensitivity → Morceau
morceau contenu page sensitivity = record {
  content = contenu;
  filename = chunk page;
  page = page;
  sensitivity = sensitivity;
}

abbrev pub ajouter : Morceau → Option (List Morceau) → Option (List Morceau)
ajouter m none = none
ajouter m (some l) = some (m ∷ l)

-- One round with the text of its window, then the rest of the loop, from the page that follows.
abbrev pub tour : Text → ℕ → Sensitivity → (ℕ → Option (List Morceau)) → Option (List Morceau)
tour contenu page s reste =
    if is_empty contenu then reste page else ajouter (morceau contenu page s) (reste (page + 1))

pub boucle : ℕ → Text → ℕ → ℕ → Sensitivity → ℕ → ℕ → Option (List Morceau)
boucle zero t max_chars overlap s pos page = none
boucle (suc fuel) t max_chars overlap s pos page =
    let fin = fin_de t max_chars pos in
    let suite = λ (p : ℕ). boucle fuel t max_chars overlap s (max (pos + 1) (fin - overlap)) p in
    if ltb pos (length t)
    then tour (strip is_space (tranche t pos fin)) page s
        (λ p. if leb (length t) fin then some [] else suite p)
    else some []

pub chunk_by_length : Text → ℕ → ℕ → Sensitivity → Option (List Morceau)
unfolding boucle fin_de
chunk_by_length t max_chars overlap s =
    if is_empty (strip is_space t) then some [] else boucle (length t + 1) t max_chars overlap s 0 1
