-- ===== src/Harnais/Execution/Ordre.antt =====
-- The order of the tasks of myrag/app/harnais/execution.py, and what is found among those that are done.
use mycollections.Base.{
  ℕ, ◌≤◌, ◌≡◌, ◌⊎◌, refl, sym, subst, inl, inr, arith, true, false, some, List, [], ◌∷◌, ◌++◌, In,
  leb, nat_beq, nat_beq_iff, Bool-cases,
}
use mycollections.Harnais.Contrat.{Etape}
use mycollections.Harnais.Execution.{SortieEtape, placer, ranger, trouvee}

abbrev pub Croissantes : List Etape → Type 0
Croissantes [] = Unit {0}
Croissantes (e ∷ l) = ((f : Etape) → In f l → e.n ≤ f.n) × Croissantes l

le_of : (a b : ℕ) → leb a b ≡ true → a ≤ b
le_of a b h = ground (arith, h)

ge_of : (a b : ℕ) → leb a b ≡ false → b ≤ a
ge_of a b h = ground (arith, h)

In-of_placer : (f e : Etape) (l : List Etape) → In f (placer e l) → (f ≡ e) ⊎ In f l
In-of_placer f e [] (inl q) = inl q
In-of_placer f e [] (inr i) = absurd i
In-of_placer f e (g ∷ l) i = elim (Bool-cases (leb e.n g.n)) [
  | inl h ↦ elim (rw h at i) [ inl q ↦ inl q | inr j ↦ inr j ]
  | inr h ↦ elim (rw h at i) [
    | inl q ↦ inr (inl q)
    | inr j ↦ elim (In-of_placer f e l j) [ inl q ↦ inl q | inr k ↦ inr (inr k) ]
  ]
]

In-placer : (f e : Etape) (l : List Etape) → (f ≡ e) ⊎ In f l → In f (placer e l)
In-placer f e [] (inl q) = inl q
In-placer f e [] (inr i) = absurd i
In-placer f e (g ∷ l) i = elim (Bool-cases (leb e.n g.n)) [
  | inl h ↦ rw h i
  | inr h ↦ rw h (elim i [
    | inl q ↦ inr (In-placer f e l (inl q))
    | inr (inl q) ↦ inl q
    | inr (inr j) ↦ inr (In-placer f e l (inr j))
  ])
]

Croissantes-placer : (e : Etape) (l : List Etape) → Croissantes l → Croissantes (placer e l)
Croissantes-placer e [] c = ((λ f i. absurd i), tt)
Croissantes-placer e (g ∷ l) (a, c) = elim (Bool-cases (leb e.n g.n)) [
  | inl h ↦ rw h (
    (λ f i. elim i [
      | inl q ↦ subst (λ (z : Etape). e.n ≤ z.n) (sym q) (le_of e.n g.n h)
      | inr j ↦ omega (arith, a f j, le_of e.n g.n h)
    ]),
    (a, c),
  )
  | inr h ↦ rw h (
    (λ f i. elim (In-of_placer f e l i) [
      | inl q ↦ subst (λ (z : Etape). g.n ≤ z.n) (sym q) (ge_of e.n g.n h)
      | inr j ↦ a f j
    ]),
    Croissantes-placer e l c,
  )
]

pub In-ranger : (f : Etape) (l : List Etape) → In f l → In f (ranger l)
In-ranger f [] i = absurd i
In-ranger f (e ∷ l) (inl q) = In-placer f e (ranger l) (inl q)
In-ranger f (e ∷ l) (inr i) = In-placer f e (ranger l) (inr (In-ranger f l i))

pub In-of_ranger : (f : Etape) (l : List Etape) → In f (ranger l) → In f l
In-of_ranger f [] i = absurd i
In-of_ranger f (e ∷ l) i = elim (In-of_placer f e (ranger l) i) [
  | inl q ↦ inl q
  | inr j ↦ inr (In-of_ranger f l j)
]

pub Croissantes-ranger : (l : List Etape) → Croissantes (ranger l)
Croissantes-ranger [] = tt
Croissantes-ranger (e ∷ l) = Croissantes-placer e (ranger l) (Croissantes-ranger l)

-- What is found stays found, and the last added is found.
pub trouvee-append :
    (n : ℕ) (l k : List (ℕ × SortieEtape)) (s : SortieEtape)
    → trouvee n l ≡ some s
    → trouvee n (l ++ k) ≡ some s
trouvee-append n [] k s h = cc
trouvee-append n ((m, x) ∷ l) k s h = elim (Bool-cases (nat_beq m n)) [
  | inl q ↦ rw q (rw q at h)
  | inr q ↦ rw q (trouvee-append n l k s (rw q at h))
]

pub trouvee-last :
    (n : ℕ) (l : List (ℕ × SortieEtape)) (s : SortieEtape)
    → (x : SortieEtape) × (trouvee n (l ++ (n, s) ∷ []) ≡ some x)
trouvee-last n [] s = (s, rw ((nat_beq_iff n n).1 refl) refl)
trouvee-last n ((m, y) ∷ l) s = elim (Bool-cases (nat_beq m n)) [
  | inl q ↦ (y, rw q refl)
  | inr q ↦ let (x, h) = trouvee-last n l s in (x, rw q h)
]
