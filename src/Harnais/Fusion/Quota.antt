-- ===== src/Harnais/Fusion/Quota.antt =====
-- The bound and the order of the passages that the quota of myrag/app/harnais/fusion.py keeps.
use mycollections.Base.{
  ℕ, suc, ◌+◌, ◌-◌, ◌*◌, min, ◌≤◌, ◌≡◌, refl, subst, true, false, List, [], ◌∷◌, String, string_eq,
  contains, filter, length, leb, take, ◌==◌, if◌then◌else◌, Bool-cases, inl, inr, arith, In,
  In→contains, length-take,
}
use mycollections.Harnais.Fusion.{reserves, ajoute, completer, avec_quota}
use mycollections.Harnais.Fusion.Places.{
  de_source, places-nil, length-reserves, compte-reserves, compte-filter, compte-take,
}

-- No key twice.
abbrev pub Distincts : List String → Type 0
Distincts [] = Unit {0}
Distincts (c ∷ l) = (contains l c ≡ false) × Distincts l

abbrev retire : String → List String → List String
retire c [] = []
retire c (d ∷ l) = let reste = retire c l in if c == d then reste else d ∷ reste

length-retire : (c : String) (l : List String) → length (retire c l) ≤ length l
length-retire c [] = omega arith
length-retire c (d ∷ l) = ground (arith, length-retire c l)

length-retire_lt :
    (c : String) (l : List String) → contains l c ≡ true → suc (length (retire c l)) ≤ length l
length-retire_lt c [] h = cc
length-retire_lt c (d ∷ l) h = elim (Bool-cases (c == d)) [
  | inl p ↦ rw p (omega (arith, length-retire c l))
  | inr p ↦ rw p (omega (arith, length-retire_lt c l (rw p at h)))
]

contains-retire :
    (c x : String) (l : List String) → (x == c) ≡ false → contains (retire c l) x ≡ contains l x
contains-retire c x [] h = refl
contains-retire c x (d ∷ l) h = elim (Bool-cases (c == d)) [
  | inl p ↦ rw p (rw (← string_eq.eq_of_same c d p) (rw h (contains-retire c x l h)))
  | inr p ↦ rw p (rw (contains-retire c x l h) refl)
]

other_of_contains :
    (c x : String) (l : List String) → contains l c ≡ false → In x l → (x == c) ≡ false
other_of_contains c x l h i = elim (Bool-cases (x == c)) [
  | inl p ↦
      let q = string_eq.eq_of_same x c p in
      ground (arith, h, In→contains l c (subst (λ z. In z l) q i))
  | inr p ↦ p
]

filter-retire :
    (c : String) (ch l : List String)
    → ((x : String) → In x l → (x == c) ≡ false)
    → filter (contains ch) l ≡ filter (contains (retire c ch)) l
filter-retire c ch [] h = refl
filter-retire c ch (x ∷ l) h =
    rw (contains-retire c x ch (h x (inl refl)))
      (rw (filter-retire c ch l (λ y i. h y (inr i))) refl)

length-filter-contains :
    (ch l : List String) → Distincts l → length (filter (contains ch) l) ≤ length ch
length-filter-contains ch [] u = omega arith
length-filter-contains ch (c ∷ l) (n, u) = elim (Bool-cases (contains ch c)) [
  | inl p ↦ rw p (
      rw (filter-retire c ch l (λ x i. other_of_contains c x l n i))
        (omega (arith, length-filter-contains (retire c ch) l u, length-retire_lt c ch p)))
  | inr p ↦ rw p (length-filter-contains ch l u)
]

module _ (source : String → String) where
  completer-length :
      (limite : ℕ) (choisis l : List String)
      → length choisis ≤ limite
      → length (completer source limite choisis l) ≤ limite
  completer-length limite choisis [] h = h
  completer-length limite choisis (c ∷ l) h = elim (Bool-cases (leb limite (length choisis))) [
    | inl p ↦ rw (p, completer) h
    | inr p ↦
        rw (p, completer)
          (completer-length limite (ajoute source c choisis) l (ground (arith, h, p)))
  ]

  In-completer :
      (limite : ℕ) (choisis l : List String) (x : String)
      → In x choisis
      → In x (completer source limite choisis l)
  In-completer limite choisis [] x i = i
  In-completer limite choisis (c ∷ l) x i = elim (Bool-cases (leb limite (length choisis))) [
    | inl p ↦ rw (p, completer) i
    | inr p ↦
        rw (p, completer)
          (In-completer limite (ajoute source c choisis) l x
            (elim (Bool-cases (contains choisis c)) [ inl q ↦ rw q i | inr q ↦ rw q (inr i) ]))
  ]

  -- Of distinct passages, at most `limite` stay. Of a source that always answers as many stay as the
  -- quota asks for, or all that it has, less what the quotas of all such sources ask for beyond `limite`.
  pub avec_quota-length :
      (classes toujours : List String) (quota limite : ℕ)
      → Distincts classes
      → (length (avec_quota source classes toujours quota limite) ≤ limite)
        × ((s : String)
            → In s toujours
            → min quota (de_source source s classes)
              ≤ de_source source s (avec_quota source classes toujours quota limite)
                + (length toujours * quota - limite))
  unfolding avec_quota
  avec_quota-length classes toujours quota limite u =
      let all_kept = reserves source toujours quota [] classes in
      let r = take limite all_kept in
      let short : length r ≤ limite = omega (arith, length-take limite all_kept) in
      let ch = completer source limite r classes in
      (
        omega (arith, length-filter-contains ch classes u, completer-length limite r classes short),
        λ s i.
            let kept =
              compte-filter source toujours quota s (contains ch) limite [] classes
                (λ x j. In→contains ch x (In-completer limite r classes x j)) in
            omega (
              arith,
              kept,
              compte-take source s limite all_kept,
              compte-reserves source toujours quota s [] classes (In→contains toujours s i),
              length-reserves source toujours quota [] classes,
              places-nil source toujours quota,
            ),
      )
