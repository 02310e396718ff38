-- ===== src/Harnais/Fusion/Places.antt =====
-- What the sources that always answer keep by the quota of myrag/app/harnais/fusion.py.
use mycollections.Base.{
  ℕ, zero, suc, ◌+◌, ◌-◌, ◌*◌, ◌<◌, ltb, min, map, Bool, ◌&&◌, ◌≤◌, ◌≡◌, refl, subst, true, false,
  List, [], ◌∷◌, String, string_eq, contains, filter, length, take, ◌==◌, if◌then◌else◌, Bool-cases,
  inl, inr, arith, In,
}
use mycollections.Harnais.Fusion.{compte, reserves}

lt_of : (a b : ℕ) → ltb a b ≡ true → a < b
lt_of a b h = ground (arith, h)

left_of : (a b : Bool) → (a && b) ≡ true → a ≡ true
left_of a b h = ground (arith, h)

right_of : (a b : Bool) → (a && b) ≡ true → b ≡ true
right_of a b h = ground (arith, h)

module _ (source : String → String) where
  -- How many passages of a list the source gives.
  abbrev pub de_source : String → List String → ℕ
  de_source s l = compte source s (map source l)

  -- What the quotas of the sources still have room for.
  abbrev pub places : List String → ℕ → List String → ℕ
  places [] quota pris = 0
  places (s ∷ l) quota pris = (quota - compte source s pris) + places l quota pris

  pub places-nil : (l : List String) (quota : ℕ) → places l quota [] ≡ length l * quota
  places-nil [] quota = omega arith
  places-nil (s ∷ l) quota = ground (arith, places-nil l quota)

  places-le :
      (l : List String) (quota : ℕ) (x : String) (pris : List String)
      → places l quota (x ∷ pris) ≤ places l quota pris
  places-le [] quota x pris = omega arith
  places-le (s ∷ l) quota x pris = ground (arith, places-le l quota x pris)

  -- A passage that is kept takes a place.
  places-lt :
      (l : List String) (quota : ℕ) (x : String) (pris : List String)
      → contains l x ≡ true
      → ltb (compte source x pris) quota ≡ true
      → suc (places l quota (x ∷ pris)) ≤ places l quota pris
  places-lt [] quota x pris h q = cc
  places-lt (s ∷ l) quota x pris h q = elim (Bool-cases (x == s)) [
    | inl e ↦
        let room : ltb (compte source s pris) quota ≡ true =
          subst (λ z. ltb (compte source z pris) quota ≡ true) (string_eq.eq_of_same x s e) q in
        let lt = lt_of (compte source s pris) quota room in
        rw e (omega (arith, places-le l quota x pris, lt))
    | inr e ↦ rw e (omega (arith, places-lt l quota x pris (autre e h) q))
  ]
    where
      autre : (x == s) ≡ false → contains (s ∷ l) x ≡ true → contains l x ≡ true
      autre e h = ground (arith, e, h)

  module _ (toujours : List String) (quota : ℕ) where
    pub length-reserves :
        (pris l : List String)
        → length (reserves source toujours quota pris l) ≤ places toujours quota pris
    length-reserves pris [] = omega arith
    length-reserves pris (c ∷ l) =
        elim (Bool-cases
          (contains toujours (source c) && ltb (compte source (source c) pris) quota)) [
            | inl h ↦
                rw (h, reserves)
                  (omega (
                    arith,
                    length-reserves (source c ∷ pris) l,
                    places-lt toujours quota (source c) pris (left_of _ _ h) (right_of _ _ h),
                  ))
            | inr h ↦ rw (h, reserves) (length-reserves pris l)
          ]

    -- A source gives all that it has, or its quota.
    pub compte-reserves :
        (s : String) (pris l : List String)
        → contains toujours s ≡ true
        → min quota (compte source s pris + de_source s l)
          ≤ compte source s pris + de_source s (reserves source toujours quota pris l)
    compte-reserves s pris [] t = omega arith
    compte-reserves s pris (c ∷ l) t =
        elim (Bool-cases
          (contains toujours (source c) && ltb (compte source (source c) pris) quota)) [
            | inl h ↦ rw (h, reserves) (ground (arith, compte-reserves s (source c ∷ pris) l t))
            | inr h ↦
                rw (h, reserves)
                  (elim (Bool-cases (source c == s)) [
                    | inr e ↦ rw e (compte-reserves s pris l t)
                    | inl e ↦
                        let full =
                          subst
                            (λ z. (contains toujours z && ltb (compte source z pris) quota) ≡ false)
                            (string_eq.eq_of_same (source c) s e) h in
                        rw e
                          (omega (arith, plein (compte source s pris) (contains toujours s) t full))
                  ])
          ]
      where
        plein : (n : ℕ) (b : Bool) → b ≡ true → (b && ltb n quota) ≡ false → quota ≤ n
        plein n b t h = ground (arith, t, h)

    -- Those that are kept among the first stay, with the count of each source.
    pub compte-filter :
        (s : String) (p : String → Bool) (n : ℕ) (pris l : List String)
        → ((x : String) → In x (take n (reserves source toujours quota pris l)) → p x ≡ true)
        → de_source s (take n (reserves source toujours quota pris l)) ≤ de_source s (filter p l)
    compte-filter s p zero pris l f = omega arith
    compte-filter s p (suc n) pris [] f = omega arith
    compte-filter s p (suc n) pris (c ∷ l) f =
        elim (Bool-cases
          (contains toujours (source c) && ltb (compte source (source c) pris) quota)) [
            | inl h ↦
                let (here, next) =
                  tete (reserves source toujours quota (source c ∷ pris) l)
                    (rw (h, reserves) at f) in
                let le = compte-filter s p n (source c ∷ pris) l next in
                rw (h, reserves)
                  (rw here (
                    un_de_chaque (source c)
                      (de_source s (take n (reserves source toujours quota (source c ∷ pris) l)))
                      (de_source s (filter p l)) le))
            | inr h ↦
                let le = compte-filter s p (suc n) pris l (rw (h, reserves) at f) in
                rw (h, reserves) (plus_un le)
          ]
      where
        tete :
            (r : List String)
            → ((x : String) → In x (take (suc n) (c ∷ r)) → p x ≡ true)
            → (p c ≡ true) × ((x : String) → In x (take n r) → p x ≡ true)
        tete r g = (g c (inl refl), λ x i. g x (inr i))

        un_de_chaque :
            (t : String) (a b : ℕ)
            → a ≤ b
            → (if t == s then suc a else a) ≤ (if t == s then suc b else b)
        un_de_chaque t a b h = ground (arith, h)

        un_de_plus : (t : String) (a b : ℕ) → a ≤ b → a ≤ (if t == s then suc b else b)
        un_de_plus t a b h = ground (arith, h)

        plus_un : {a : ℕ} → a ≤ de_source s (filter p l) → a ≤ de_source s (filter p (c ∷ l))
        plus_un {a} h = elim (Bool-cases (p c)) [
          | inl q ↦ rw q (un_de_plus (source c) _ (de_source s (filter p l)) h)
          | inr q ↦ rw q h
        ]

  pub compte-take :
      (s : String) (n : ℕ) (l : List String)
      → de_source s l ≤ de_source s (take n l) + (length l - n)
  compte-take s zero [] = omega arith
  compte-take s (suc n) [] = omega arith
  compte-take s zero (c ∷ l) = ground (arith, compte-take s zero l)
  compte-take s (suc n) (c ∷ l) = ground (arith, compte-take s n l)
