-- ===== src/Chunker/Fenetres.antt =====
-- The windows that the loop of chunk_by_length (myrag/app/services/chunker.py) goes through, and the
-- bounds of one window.
use mycollections.Base.{
  ℕ, ◌+◌, ◌-◌, ◌/◌, ◌≤◌, ◌<◌, ◌≡◌, inl, inr, refl, min, Option, none, some, List, [], ◌∷◌, arith,
  drop, length, length-take, ltb, Text, Bool-cases, Option-cases,
}
use mycollections.Chunker.{tranche, dernier, rfind, plus_loin, couper, fin_de}

pub record Fenetre : Type 0 where
  pub debut : ℕ
  pub fin : ℕ

-- The windows cover what lies between r and n: each starts at or before the place that is reached,
-- goes back by o at most, is not empty and has m characters at most.
abbrev pub Couvre : ℕ → ℕ → ℕ → ℕ → List Fenetre → Type 0
Couvre n m o r [] = r ≡ n
Couvre n m o r (f ∷ l) =
    (f.debut ≤ r)
    × (r ≤ f.debut + o)
    × (f.debut < f.fin)
    × (f.fin ≤ n)
    × (f.fin ≤ f.debut + m)
    × Couvre n m o f.fin l

-- No character is lost: every place is in a window.
pub Couvre-place :
    (n m o r : ℕ) (l : List Fenetre) (i : ℕ)
    → Couvre n m o r l
    → r ≤ i
    → i < n
    → (f : Fenetre) × (f.debut ≤ i) × (i < f.fin)
Couvre-place n m o r [] i c le lt = absurd (omega arith)
Couvre-place n m o r (f ∷ l) i c le lt = elim (Bool-cases (ltb i f.fin)) [
  | inl inside ↦ (f, ground arith, ground arith)
  | inr beyond ↦ Couvre-place n m o f.fin l i (c.5) (ground arith) lt
]

dernier_bounds :
    (c i : ℕ) (s : Text) (j : ℕ) → dernier c i s ≡ some j → (i ≤ j) × (j < i + length s)
unfolding dernier
dernier_bounds c i [] j h = cc
dernier_bounds c i (d ∷ s) j h = elim (Option-cases (dernier c (i + 1) s)) [
  | inl e ↦ ground arith
  | inr (k, e) ↦ let b = dernier_bounds c (i + 1) s k e in ground arith
]

module _ (t : Text) (pos fin : ℕ) where
  rfind_bounds : (c j : ℕ) → pos ≤ fin → rfind c t pos fin ≡ some j → (pos ≤ j) × (j < fin)
  unfolding rfind
  rfind_bounds c j le h =
      let b = dernier_bounds c pos (tranche t pos fin) j h in
      omega (arith, length-take {0} (fin - pos) (drop pos t))

  plus_loin_bounds :
      (a b : Option ℕ) (j : ℕ)
      → ((k : ℕ) → a ≡ some k → k < fin)
      → ((k : ℕ) → b ≡ some k → k < fin)
      → plus_loin a b ≡ some j
      → j < fin
  plus_loin_bounds none b j ha hb h = hb j h
  plus_loin_bounds (some a) none j ha hb h = ha j h
  plus_loin_bounds (some a) (some b) j ha hb h =
      let x = ha a refl in let y = hb b refl in ground arith

  couper_bounds :
      (seuil : ℕ) (o : Option ℕ)
      → pos ≤ seuil
      → pos < fin
      → ((j : ℕ) → o ≡ some j → j < fin)
      → (pos < couper seuil fin o) × (couper seuil fin o ≤ fin)
  couper_bounds seuil none le lt h = (lt, omega arith)
  couper_bounds seuil (some j) le lt h = let x = h j refl in ground arith

-- A window is not empty, stays in the text and has max_chars characters at most.
pub fin_de_bounds :
    (t : Text) (m pos : ℕ)
    → 1 ≤ m
    → pos < length t
    → (pos < fin_de t m pos) × (fin_de t m pos ≤ length t) × (fin_de t m pos ≤ pos + m)
unfolding fin_de
fin_de_bounds t m pos hm lt =
    let fin = min (pos + m) (length t) in
    let in_window : (c k : ℕ) → rfind c t pos fin ≡ some k → k < fin =
      λ c k e. (rfind_bounds t pos fin c k (omega arith) e).1 in
    let b =
      couper_bounds t pos fin (pos + m / 2) (plus_loin (rfind b'.' t pos fin) (rfind 10 t pos fin))
        (omega arith) (omega arith)
        (λ j e.
          plus_loin_bounds t pos fin (rfind b'.' t pos fin) (rfind 10 t pos fin) j (in_window b'.')
            (in_window 10) e) in
    elim (Bool-cases (ltb fin (length t))) [
      | inl more ↦ rw more (b.0, omega (arith, b.1), omega (arith, b.1))
      | inr last ↦ rw last (omega arith, omega arith, omega arith)
    ]
