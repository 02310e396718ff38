-- ===== src/Harnais/Execution/Boucle.antt =====
-- The tasks of myrag/app/harnais/execution.py, one after the other: each finds what it awaits.
use mycollections.Base.{
  ℕ, ◌≤◌, ◌<◌, ◌≡◌, ◌⊎◌, refl, sym, ◌∙◌, subst, ap, inl, inr, arith, Bool, Option, some, List, [],
  ◌∷◌, ◌++◌, String, In, In-of_map, In-append_cases,
}
use mycollections.Harnais.Contrat.{Etape, Plan, IsPlan}
use mycollections.Harnais.Execution.{
  SortieEtape, Connecteur, trouvee, une, boucle, executer, ranger,
}
use mycollections.Harnais.Execution.Ordre.{
  Croissantes, Croissantes-ranger, In-ranger, In-of_ranger, trouvee-append, trouvee-last,
}
use mycollections.Harnais.Execution.Sources.{De, une_total}

-- Every outcome is that of a step of the plan.
abbrev pub Venues : List Etape → List (ℕ × SortieEtape) → Type 0
Venues etapes l =
    (n : ℕ) (s : SortieEtape) → In (n, s) l → (e : Etape) × In e etapes × (e.n ≡ n) × De e s

abbrev pub Faite : List (ℕ × SortieEtape) → Etape → Type 0
Faite l e = (s : SortieEtape) × (trouvee e.n l ≡ some s)

not_avant : (e f : Etape) (a : ℕ) → a < e.n → a ≡ f.n → (f ≡ e) ⊎ (e.n ≤ f.n) → ⊥
not_avant e f a lt q (inl h) =
    let same : f.n ≡ e.n = ap (λ (z : Etape). z.n) h in omega (arith, lt, q, same)
not_avant e f a lt q (inr le) = omega (arith, lt, q, le)

apres_une :
    (etapes : List Etape) (faites : List (ℕ × SortieEtape)) (e : Etape) (s : SortieEtape)
    → Venues etapes faites
    → In e etapes
    → De e s
    → Venues etapes (faites ++ (e.n, s) ∷ [])
apres_une etapes faites e s venues i d n x w =
    elim (In-append_cases (n, x) faites ((e.n, s) ∷ []) w) [
      | inl j ↦ venues n x j
      | inr (inl q) ↦ (
        e,
        i,
        sym (ap (λ (z : ℕ × SortieEtape). z.0) q),
        subst (De e) (sym (ap (λ (z : ℕ × SortieEtape). z.1) q)) d,
      )
      | inr (inr j) ↦ absurd j
    ]

reste_apres :
    (etapes : List Etape) (faites : List (ℕ × SortieEtape)) (e : Etape) (l : List Etape)
    (s : SortieEtape)
    → ((f : Etape) → In f etapes → In f (e ∷ l) ⊎ Faite faites f)
    → (f : Etape) → In f etapes
    → In f l ⊎ Faite (faites ++ (e.n, s) ∷ []) f
reste_apres etapes faites e l s couvert f i = elim (couvert f i) [
  | inl (inl q) ↦
      inr (
        subst (λ (z : Etape). Faite (faites ++ (e.n, s) ∷ []) z) (sym q)
          (trouvee-last e.n faites s))
  | inl (inr j) ↦ inl j
  | inr (x, h) ↦ inr (x, trouvee-append f.n faites ((e.n, s) ∷ []) x h)
]

module _ (conns : String → Option Connecteur) (plus : ℕ → ℕ → Bool) (plan : Plan)
    (v : IsPlan plan) where
  pretes :
      (faites : List (ℕ × SortieEtape)) (e : Etape) (l : List Etape)
      → Croissantes (e ∷ l)
      → In e plan.etapes
      → ((f : Etape) → In f plan.etapes → In f (e ∷ l) ⊎ Faite faites f)
      → (a : ℕ) → In a e.attend
      → (s : SortieEtape) × (trouvee a faites ≡ some s)
  pretes faites e l (c, _) i couvert a w =
      let (lt, known) = v.ordered e i a w in
      let (f, j, q) = In-of_map (λ (z : Etape). z.n) a plan.etapes known in
      elim (couvert f j) [
        | inl (inl h) ↦ absurd (not_avant e f a lt q (inl h))
        | inl (inr k) ↦ absurd (not_avant e f a lt q (inr (c f k)))
        | inr d ↦ subst (λ z. (s : SortieEtape) × (trouvee z faites ≡ some s)) (sym q) d
      ]

  boucle_suite :
      (faites : List (ℕ × SortieEtape)) (e : Etape) (l : List Etape) (s : SortieEtape)
      → une conns plus plan faites e ≡ some s
      → boucle conns plus plan faites (e ∷ l) ≡ boucle conns plus plan (faites ++ (e.n, s) ∷ []) l
  unfolding boucle
  boucle_suite faites e l s k = rw (k, boucle) refl

  boucle_total :
      (l : List Etape) (faites : List (ℕ × SortieEtape))
      → Croissantes l
      → ((e : Etape) → In e l → In e plan.etapes)
      → Venues plan.etapes faites
      → ((f : Etape) → In f plan.etapes → In f l ⊎ Faite faites f)
      → (r : List (ℕ × SortieEtape)) × (boucle conns plus plan faites l ≡ some r)
        × Venues plan.etapes r
        × ((f : Etape) → In f plan.etapes → Faite r f)
  unfolding boucle
  boucle_total [] faites c de venues couvert =
      (faites, refl, venues, λ f i. elim (couvert f i) [ inl j ↦ absurd j | inr d ↦ d ])
  boucle_total (e ∷ l) faites (m, c) de venues couvert =
      let i = de e (inl refl) in
      let (s, k, d) = une_total conns plus plan faites e (pretes faites e l (m, c) i couvert) in
      let (r, q, ok, toutes) =
        boucle_total l (faites ++ (e.n, s) ∷ []) c (λ f j. de f (inr j))
          (apres_une plan.etapes faites e s venues i d)
          (reste_apres plan.etapes faites e l s couvert) in
      (r, boucle_suite faites e l s k ∙ q, ok, toutes)

  -- Run on a plan that passes its checks, every step has an outcome, and each passage of an outcome
  -- bears the source of a step of the plan with that number.
  pub executer_lem :
      (r : List (ℕ × SortieEtape)) × (executer conns plus plan ≡ some r)
      × Venues plan.etapes r
      × ((f : Etape) → In f plan.etapes → Faite r f)
  unfolding executer
  executer_lem =
      boucle_total (ranger plan.etapes) [] (Croissantes-ranger plan.etapes)
        (λ e i. In-of_ranger e plan.etapes i) (λ n s i. absurd i)
        (λ f i. inl (In-ranger f plan.etapes i))
