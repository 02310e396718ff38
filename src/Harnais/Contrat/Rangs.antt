-- ===== src/Harnais/Contrat/Rangs.antt =====
-- sources_ordonnees of myrag/app/harnais/contrat.py: growing ranks, the sources without a rank last,
-- those of one rank in the order of the card.
use mycollections.Base.{
  ℕ, ◌≤◌, ◌≡◌, refl, sym, subst, ap, ◌∙◌, inl, inr, arith, Bool, true, false, ◌⊎◌, Option, none,
  some, List, [], ◌∷◌, filter, In, In-of_filter, leb, nat_beq, Bool-cases, Option-cases,
  if◌then◌else◌,
}
use mycollections.Harnais.Contrat.{Source, FicheAssistant, avant, inserer, trier, sources_ordonnees}

-- The rank of a source is at most that of another; no rank comes after all.
abbrev pub PrecedeRang : Source → Source → Type 0
PrecedeRang s t = (b : ℕ) → t.rang ≡ some b → (a : ℕ) × (s.rang ≡ some a) × (a ≤ b)

abbrev pub Croissantes : List Source → Type 0
Croissantes [] = Unit {0}
Croissantes (s ∷ l) = ((t : Source) → In t l → PrecedeRang s t) × Croissantes l

abbrev meme : Option ℕ → Option ℕ → Bool
meme none none = true
meme (some a) (some b) = nat_beq a b
meme _ _ = false

abbrev pub de_rang : Option ℕ → Source → Bool
de_rang o s = meme o s.rang

le_of_leb : (a b : ℕ) → leb a b ≡ true → a ≤ b
le_of_leb a b h = ground (arith, h)

ge_of_not_leb : (a b : ℕ) → leb a b ≡ false → b ≤ a
ge_of_not_leb a b h = ground (arith, h)

PrecedeRang-of_avant : (s t : Source) → avant s t ≡ true → PrecedeRang s t
PrecedeRang-of_avant s t h b e = elim (Option-cases s.rang) [
  | inl n ↦ cc (rw (n, e) at h)
  | inr (a, m) ↦ (a, m, le_of_leb a b (rw (m, e) at h))
]

PrecedeRang-of_not_avant : (s t : Source) → avant s t ≡ false → PrecedeRang t s
PrecedeRang-of_not_avant s t h a e = elim (Option-cases t.rang) [
  | inl n ↦ cc (rw (e, n) at h)
  | inr (b, m) ↦ (b, m, ge_of_not_leb a b (rw (e, m) at h))
]

-- Sources that the sort exchanges are of different ranks.
ecart : (o : Option ℕ) (s t : Source) → avant s t ≡ false → de_rang o s ≡ true → de_rang o t ≡ false
ecart o s t h e = rangs o s.rang t.rang h e
  where
    rangs :
        (o a b : Option ℕ)
        → (elim a [
          | none ↦ elim b [ none ↦ true | some b ↦ false ]
          | some a ↦ elim b [ none ↦ true | some b ↦ leb a b ]
        ])
          ≡ false
        → meme o a ≡ true
        → meme o b ≡ false
    rangs none none none h e = cc
    rangs none none (some b) h e = refl
    rangs (some n) none b h e = cc
    rangs none (some a) b h e = cc
    rangs (some n) (some a) none h e = refl
    rangs (some n) (some a) (some b) h e = ground (arith, h, e)

In-inserer : (x s : Source) (l : List Source) → In x (inserer s l) → (x ≡ s) ⊎ In x l
In-inserer x s [] (inl e) = inl e
In-inserer x s [] (inr i) = absurd i
In-inserer x s (t ∷ l) i = elim (Bool-cases (avant s t)) [
  | inl h ↦ elim (rw h at i) [ inl e ↦ inl e | inr j ↦ inr j ]
  | inr h ↦ elim (rw h at i) [
    | inl e ↦ inr (inl e)
    | inr j ↦ elim (In-inserer x s l j) [ inl e ↦ inl e | inr k ↦ inr (inr k) ]
  ]
]

PrecedeRang-trans : (s t r : Source) → PrecedeRang s t → PrecedeRang t r → PrecedeRang s r
PrecedeRang-trans s t r h k b e =
    let (a, m, le) = k b e in let (c, n, less) = h a m in (c, n, omega (arith, le, less))

Croissantes-inserer : (s : Source) (l : List Source) → Croissantes l → Croissantes (inserer s l)
Croissantes-inserer s [] u = ((λ t i. absurd i), tt)
Croissantes-inserer s (t ∷ l) (h, u) = elim (Bool-cases (avant s t)) [
  | inl p ↦
      let q = PrecedeRang-of_avant s t p in
      rw p (
        (λ r i. elim i [
          | inl e ↦ subst (λ z. PrecedeRang s z) (sym e) q
          | inr j ↦ PrecedeRang-trans s t r q (h r j)
        ]),
        (h, u),
      )
  | inr p ↦ rw p (
    (λ r i. elim (In-inserer r s l i) [
      | inl e ↦ subst (λ z. PrecedeRang t z) (sym e) (PrecedeRang-of_not_avant s t p)
      | inr j ↦ h r j
    ]),
    Croissantes-inserer s l u,
  )
]

Croissantes-trier : (l : List Source) → Croissantes (trier l)
Croissantes-trier [] = tt
Croissantes-trier (s ∷ l) = Croissantes-inserer s (trier l) (Croissantes-trier l)

Croissantes-filter :
    (p : Source → Bool) (l : List Source) → Croissantes l → Croissantes (filter p l)
Croissantes-filter p [] u = tt
Croissantes-filter p (s ∷ l) (h, u) = elim (Bool-cases (p s)) [
  | inl q ↦ rw q ((λ t i. h t (In-of_filter t p l i).0), Croissantes-filter p l u)
  | inr q ↦ rw q (Croissantes-filter p l u)
]

filter-inserer :
    (o : Option ℕ) (s : Source) (l : List Source)
    → filter (de_rang o) (inserer s l) ≡ filter (de_rang o) (s ∷ l)
filter-inserer o s [] = refl
filter-inserer o s (t ∷ l) = elim (Bool-cases (avant s t)) [
  | inl h ↦ rw h refl
  | inr h ↦ elim (Bool-cases (de_rang o s)) [
    | inl e ↦ let f = ecart o s t h e in rw h (rw (filter-inserer o s l) (rw (e, f) refl))
    | inr e ↦ rw h (rw (filter-inserer o s l) (rw e refl))
  ]
]

filter-trier :
    (o : Option ℕ) (l : List Source) → filter (de_rang o) (trier l) ≡ filter (de_rang o) l
filter-trier o [] = refl
filter-trier o (s ∷ l) =
    filter-inserer o s (trier l) ∙ ap (λ z. if de_rang o s then s ∷ z else z) (filter-trier o l)

filter_comm :
    (p q : Source → Bool) (l : List Source) → filter p (filter q l) ≡ filter q (filter p l)
filter_comm p q [] = refl
filter_comm p q (s ∷ l) = elim (Bool-cases (p s)) [
  | inl a ↦ elim (Bool-cases (q s)) [
    | inl b ↦ rw (a, b) (rw a (ap (λ z. s ∷ z) (filter_comm p q l)))
    | inr b ↦ rw (a, b) (filter_comm p q l)
  ]
  | inr a ↦ elim (Bool-cases (q s)) [
    | inl b ↦ rw (a, b) (rw a (filter_comm p q l))
    | inr b ↦ rw (a, b) (filter_comm p q l)
  ]
]

-- The sources of a card that a test keeps come by growing rank, and those of one rank as on the card.
pub sources_ordonnees-rangs :
    (p : Source → Bool) (fiche : FicheAssistant)
    → Croissantes (filter p (sources_ordonnees fiche))
      × ((o : Option ℕ)
          → filter (de_rang o) (filter p (sources_ordonnees fiche))
            ≡ filter (de_rang o) (filter p fiche.sources))
unfolding sources_ordonnees
sources_ordonnees-rangs p fiche = (
  Croissantes-filter p (trier fiche.sources) (Croissantes-trier fiche.sources),
  λ o.
      filter_comm (de_rang o) p (trier fiche.sources)
      ∙ ap (filter p) (filter-trier o fiche.sources)
      ∙ filter_comm p (de_rang o) fiche.sources,
)
