-- ===== src/Harnais/Plan/Rangees.antt =====
-- The steps that myrag/app/harnais/plan/regles.py numbers from 1, one after the other.
use mycollections.Base.{
  ℕ, suc, ◌+◌, ◌≤◌, ◌<◌, ◌≡◌, ◌⊎◌, ◌∙◌, refl, sym, subst, true, false, Option, none, some, List, [],
  ◌∷◌, ◌++◌, map, String, string_eq, Text, strip, is_space, all, leb, In, inl, inr, arith, is_some,
  is_empty, length, contains, Bool-cases, if◌then◌else◌,
}
use mycollections.Harnais.Contrat.{
  question_max, Etape, Plan, EtapeConsigne, IsEtape, numeros, Uniques, Precede, un,
}
use mycollections.Harnais.Plan.{admise, valider, numeroter, attente, suivre}

-- A question that is within its bounds once it is stripped.
abbrev pub Posee : Text → Type 0
Posee q = (1 ≤ length (strip is_space q)) × (length (strip is_space q) ≤ question_max)

admise_of : (q : Text) → (1 ≤ length q) × (length q ≤ question_max) → admise q ≡ true
admise_of q (a, b) = ground (arith, a, b)

module _ (lisibles : List String) where
  -- Valid steps that ask readable sources, with the numbers that follow n, each awaiting numbers from 1 to those before it.
  abbrev pub Rangees : ℕ → List Etape → Type 0
  Rangees n [] = Unit {0}
  Rangees n (e ∷ l) =
      (e.n ≡ suc n)
      × (IsEtape e × (contains lisibles e.source ≡ true))
      × ((a : ℕ) → In a e.attend → (1 ≤ a) × (a ≤ n))
      × Rangees (suc n) l

  -- Readable sources with weights between one ten-thousandth and one.
  abbrev pub Poids : List (String × ℕ) → Type 0
  Poids [] = Unit {0}
  Poids (x ∷ l) = (contains lisibles x.0 ≡ true) × (1 ≤ x.1) × (x.1 ≤ un) × Poids l

  pub Poids-append : (l k : List (String × ℕ)) → Poids l → Poids k → Poids (l ++ k)
  Poids-append [] k u v = v
  Poids-append (x ∷ l) k (y, a, b, u) v = (y, a, b, Poids-append l k u v)

  pub Poids-map :
      {A : Type 0} (f : A → String) (p : ℕ) (l : List A)
      → ((x : A) → In x l → contains lisibles (f x) ≡ true)
      → 1 ≤ p
      → p ≤ un
      → Poids (map (λ x. (f x, p)) l)
  Poids-map f p [] h a b = tt
  Poids-map f p (x ∷ l) h a b = (h x (inl refl), a, b, Poids-map f p l (λ y i. h y (inr i)) a b)

  pub Rangees-numeroter :
      (n : ℕ) (q : Text) (l : List (String × ℕ)) → Posee q → Poids l → Rangees n (numeroter n q l)
  Rangees-numeroter n q [] k u = tt
  Rangees-numeroter n q ((s, p) ∷ l) k (y, a, b, u) = (
    refl,
    (
      record {
        numbered = omega arith;
        weighted = a;
        bounded = b;
        asked = k;
        relay = λ h. ground (arith, h);
      },
      y,
    ),
    λ x i. absurd i,
    Rangees-numeroter (suc n) q l k u,
  )

  Rangees-append :
      (n : ℕ) (l m : List Etape) → Rangees n l → Rangees (length l + n) m → Rangees n (l ++ m)
  Rangees-append n [] m u v = subst (λ k. Rangees k m) (omega arith) v
  Rangees-append n (e ∷ l) m (a, b, c, u) v =
      (a, b, c, Rangees-append (suc n) l m u (subst (λ k. Rangees k m) (omega arith) v))

  pub Rangees-append_first :
      (l m : List Etape) → Rangees 0 l → Rangees (length l) m → Rangees 0 (l ++ m)
  Rangees-append_first l m u v = Rangees-append 0 l m u (subst (λ k. Rangees k m) (omega arith) v)

  attente-bornes :
      (n : ℕ) (avec : Option String) (p : Option ℕ)
      → ((a : ℕ) → p ≡ some a → (1 ≤ a) × (a ≤ n))
      → (a : ℕ) → In a (attente avec p)
      → (1 ≤ a) × (a ≤ n)
  attente-bornes n none p h a i = absurd i
  attente-bornes n (some t) none h a i = absurd i
  attente-bornes n (some t) (some b) h a (inl q) = rw q (h b refl)
  attente-bornes n (some t) (some b) h a (inr i) = absurd i

  relais-attente :
      (avec : Option String) (attend : List ℕ)
      → is_some (if is_empty attend then none else avec) ≡ true
      → is_empty attend ≡ false
  relais-attente avec [] h = cc
  relais-attente avec (a ∷ l) h = refl

  pub Rangees-suivre :
      (q : Text) (n : ℕ) (p : Option ℕ) (l : List EtapeConsigne)
      → Posee q
      → ((a : ℕ) → p ≡ some a → (1 ≤ a) × (a ≤ n))
      → Rangees n (suivre lisibles q n p l)
  unfolding suivre
  Rangees-suivre q n p [] asked h = tt
  Rangees-suivre q n p (e ∷ l) asked h = elim (Bool-cases (contains lisibles e.source)) [
    | inl k ↦
        rw (k, Rangees)
          (
            refl,
            (
              record {
                numbered = omega arith;
                weighted = omega arith;
                bounded = omega arith;
                asked = asked;
                relay = relais-attente e.avec (attente e.avec p);
              },
              k,
            ),
            attente-bornes n e.avec p h,
            Rangees-suivre q (suc n) (some (suc n)) l asked (λ a r. ground (arith, r)),
          )
    | inr k ↦ rw (k, Rangees) (Rangees-suivre q n none l asked (λ a r. ground (arith, r)))
  ]

  -- What the numbers of such steps are.
  numeros-bornes : (n a : ℕ) (l : List Etape) → Rangees n l → In a (numeros l) → n < a
  numeros-bornes n a [] u i = absurd i
  numeros-bornes n a (e ∷ l) (q, b, c, u) (inl r) = omega (arith, q, r)
  numeros-bornes n a (e ∷ l) (q, b, c, u) (inr i) = omega (arith, numeros-bornes (suc n) a l u i)

  pub Uniques-of_Rangees : (n : ℕ) (l : List Etape) → Rangees n l → Uniques (numeros l)
  Uniques-of_Rangees n [] u = tt
  Uniques-of_Rangees n (e ∷ l) (q, b, c, u) =
      (λ i. omega (arith, q, numeros-bornes (suc n) e.n l u i), Uniques-of_Rangees (suc n) l u)

  pub IsEtape-of_Rangees :
      (n : ℕ) (l : List Etape) (e : Etape)
      → Rangees n l
      → In e l
      → IsEtape e × (contains lisibles e.source ≡ true)
  IsEtape-of_Rangees n [] e u i = absurd i
  IsEtape-of_Rangees n (x ∷ l) e (q, b, c, u) (inl r) =
      subst (λ z. IsEtape z × (contains lisibles z.source ≡ true)) (sym r) b
  IsEtape-of_Rangees n (x ∷ l) e (q, b, c, u) (inr i) = IsEtape-of_Rangees (suc n) l e u i

  -- No validator refuses a plan of such steps.
  all-of_Rangees : (n : ℕ) (l : List Etape) → Rangees n l → all (λ e. admise e.question) l ≡ true
  all-of_Rangees n [] u = refl
  all-of_Rangees n (e ∷ l) (q, b, c, u) =
      rw (admise_of e.question b.0.asked) (all-of_Rangees (suc n) l u)

  pub valider-of_Rangees : (p : Plan) → 1 ≤ p.version → Rangees 0 p.etapes → valider p ≡ some p
  valider-of_Rangees p v u =
      let one : leb 1 p.version ≡ true = ground (arith, v) in
      rw (all-of_Rangees 0 p.etapes u) (rw one refl)

  le-cases : (a n : ℕ) → a ≤ suc n → (a ≤ n) ⊎ (a ≡ suc n)
  le-cases a n h = ground (arith, h)

  -- Each awaited number is before, and is a number of the list or of what stands before the list.
  pub Precede-of_Rangees :
      (n : ℕ) (l : List Etape) (ns : List ℕ) (e : Etape)
      → ((a : ℕ) → 1 ≤ a → a ≤ n → In a ns)
      → ((a : ℕ) → In a (numeros l) → In a ns)
      → Rangees n l
      → In e l
      → Precede ns e
  Precede-of_Rangees n [] ns e h k u i = absurd i
  Precede-of_Rangees n (x ∷ l) ns e h k (q, b, c, u) (inl r) = λ a j.
      let (one, less) = c a (subst (λ z. In a z.attend) r j) in
      (subst (λ z. a < z.n) (sym r) (omega (arith, q, less)), h a one less)
  Precede-of_Rangees n (x ∷ l) ns e h k (q, b, c, u) (inr i) =
      Precede-of_Rangees (suc n) l ns e
        (λ a one less. elim (le-cases a n less) [
          | inl z ↦ h a one z
          | inr z ↦ k a (inl (z ∙ sym q))
        ])
        (λ a j. k a (inr j)) u i
