-- ===== src/Debit/Comptes.antt =====
-- The dictionary of the counts of myrag/app/services/fenetre_par_minute.py.
use mycollections.Base.{
  ℕ, ◌≤◌, ◌<◌, ◌≡◌, ◌⊎◌, refl, sym, subst, inl, inr, arith, Bool, true, false, List, [], ◌∷◌,
  String, string_eq, ◌==◌, filter, length, ltb, nat_beq, if◌then◌else◌, Bool-cases, In, map,
  Distincts, In-of_filter, In-map, In-of_map,
}
use mycollections.Debit.{Compte, compte_de, evincer, poser}

abbrev pub cles : List Compte → List String
cles l = map (λ c. c.cle) l

abbrev pub Passees : ℕ → List Compte → Type 0
Passees a l = (c : Compte) → In c l → c.minute ≤ a

compte-absent : (k : String) (m : ℕ) (l : List Compte) → ¬ In k (cles l) → compte_de k m l ≡ 0
compte-absent k m [] n = refl
compte-absent k m (c ∷ l) n = elim (Bool-cases (c.cle == k)) [
  | inl h ↦ absurd (n (inl (sym (string_eq.eq_of_same c.cle k h))))
  | inr h ↦ rw h (compte-absent k m l (λ i. n (inr i)))
]

pub compte_zero :
    (k : String) (a m : ℕ) (l : List Compte) → Passees a l → a < m → compte_de k m l ≡ 0
compte_zero k a m [] p h = refl
compte_zero k a m (c ∷ l) p h = elim (Bool-cases (c.cle == k)) [
  | inl q ↦ rw q (ground (arith, p c (inl refl), h))
  | inr q ↦ rw q (compte_zero k a m l (λ d i. p d (inr i)) h)
]

pub compte-poser_same :
    (c : Compte) (m : ℕ) (l : List Compte)
    → compte_de c.cle m (poser c l) ≡ (if nat_beq c.minute m then c.compte else 0)
compte-poser_same c m [] = rw (string_eq.same_refl c.cle) refl
compte-poser_same c m (d ∷ l) = elim (Bool-cases (d.cle == c.cle)) [
  | inl h ↦ rw h (rw (string_eq.same_refl c.cle) refl)
  | inr h ↦ rw h (rw h (compte-poser_same c m l))
]

pub compte-poser_other :
    (k : String) (c : Compte) (m : ℕ) (l : List Compte)
    → (c.cle == k) ≡ false
    → compte_de k m (poser c l) ≡ compte_de k m l
compte-poser_other k c m [] h = rw h refl
compte-poser_other k c m (d ∷ l) h = elim (Bool-cases (d.cle == c.cle)) [
  | inl q ↦ rw (q, h) (rw (string_eq.eq_of_same d.cle c.cle q) (rw h refl))
  | inr q ↦ rw q (rw (compte-poser_other k c m l h) refl)
]

cles-filter :
    (k : String) (p : Compte → Bool) (l : List Compte) → In k (cles (filter p l)) → In k (cles l)
cles-filter k p l i =
    let (c, j, e) = In-of_map (λ (x : Compte). x.cle) k (filter p l) i in
    subst (λ z. In z (cles l)) (sym e) (In-map (λ (x : Compte). x.cle) c l (In-of_filter c p l j).0)

Distincts-filter :
    (p : Compte → Bool) (l : List Compte) → Distincts (cles l) → Distincts (cles (filter p l))
Distincts-filter p [] u = u
Distincts-filter p (c ∷ l) (n, u) = elim (Bool-cases (p c)) [
  | inl h ↦ rw h ((λ i. n (cles-filter c.cle p l i)), Distincts-filter p l u)
  | inr h ↦ rw h (Distincts-filter p l u)
]

compte-filter :
    (k : String) (m : ℕ) (l : List Compte)
    → Distincts (cles l)
    → compte_de k m (filter (λ c. nat_beq c.minute m) l) ≡ compte_de k m l
compte-filter k m [] u = refl
compte-filter k m (c ∷ l) (n, u) = elim (Bool-cases (nat_beq c.minute m)) [
  | inl h ↦ rw h (elim (Bool-cases (c.cle == k)) [
    | inl q ↦ rw (q, h) refl
    | inr q ↦ rw q (compte-filter k m l u)
  ])
  | inr h ↦ rw h (elim (Bool-cases (c.cle == k)) [
    | inl q ↦ rw q (
        compte-absent k m _ (λ i. n (
          subst (λ z. In z (cles l)) (sym (string_eq.eq_of_same c.cle k q))
            (cles-filter k (λ c. nat_beq c.minute m) l i))))
    | inr q ↦ rw q (compte-filter k m l u)
  ])
]

cles-poser :
    (k : String) (c : Compte) (l : List Compte)
    → In k (cles (poser c l))
    → ¬ In k (cles l)
    → k ≡ c.cle
cles-poser k c [] (inl e) n = e
cles-poser k c [] (inr i) n = absurd i
cles-poser k c (d ∷ l) i n = elim (Bool-cases (d.cle == c.cle)) [
  | inl h ↦ elim (rw h at i) [ inl e ↦ e | inr j ↦ absurd (n (inr j)) ]
  | inr h ↦ elim (rw h at i) [
    | inl e ↦ absurd (n (inl e))
    | inr j ↦ cles-poser k c l j (λ z. n (inr z))
  ]
]

Distincts-poser : (c : Compte) (l : List Compte) → Distincts (cles l) → Distincts (cles (poser c l))
Distincts-poser c [] u = ((λ i. absurd i), tt)
Distincts-poser c (d ∷ l) (n, u) = elim (Bool-cases (d.cle == c.cle)) [
  | inl h ↦
      rw h ((λ i. n (subst (λ z. In z (cles l)) (sym (string_eq.eq_of_same d.cle c.cle h)) i)), u)
  | inr h ↦ rw h (
    (λ i. ground (
      arith,
      h,
      subst (λ z. (d.cle == z) ≡ true) (cles-poser d.cle c l i n) (string_eq.same_refl d.cle),
    )),
    Distincts-poser c l u,
  )
]

In-poser : (d c : Compte) (l : List Compte) → In d (poser c l) → (d ≡ c) ⊎ In d l
In-poser d c [] (inl e) = inl e
In-poser d c [] (inr i) = absurd i
In-poser d c (x ∷ l) i = elim (Bool-cases (x.cle == c.cle)) [
  | inl h ↦ elim (rw h at i) [ inl e ↦ inl e | inr j ↦ inr (inr j) ]
  | inr h ↦ elim (rw h at i) [
    | inl e ↦ inr (inl e)
    | inr j ↦ elim (In-poser d c l j) [ inl e ↦ inl e | inr z ↦ inr (inr z) ]
  ]
]

-- The dictionary has each key once, and nothing of a minute to come.
pub record Etat (a : ℕ) (l : List Compte) : Type 0 where
  pub uniques : Distincts (cles l)
  pub passees : Passees a l

pub Etat-evincer : (a s m : ℕ) (l : List Compte) → Etat a l → Etat a (evincer s m l)
Etat-evincer a s m l w = elim (Bool-cases (ltb s (length l))) [
  | inl h ↦ rw h (record {
    uniques = Distincts-filter (λ c. nat_beq c.minute m) l w.uniques;
    passees = λ c i. w.passees c (In-of_filter c (λ c. nat_beq c.minute m) l i).0;
  })
  | inr h ↦ rw h w
]

pub Etat-poser :
    (a : ℕ) (c : Compte) (l : List Compte) → a ≤ c.minute → Etat a l → Etat c.minute (poser c l)
Etat-poser a c l h w = record {
  uniques = Distincts-poser c l w.uniques;
  passees = λ d i. elim (In-poser d c l i) [
    | inl e ↦ subst (λ (z : Compte). z.minute ≤ c.minute) (sym e) (omega arith)
    | inr j ↦ omega (arith, w.passees d j, h)
  ];
}

pub compte-evincer :
    (k : String) (s m : ℕ) (l : List Compte)
    → Distincts (cles l)
    → compte_de k m (evincer s m l) ≡ compte_de k m l
compte-evincer k s m l u = elim (Bool-cases (ltb s (length l))) [
  | inl h ↦ rw h (compte-filter k m l u)
  | inr h ↦ rw h refl
]
