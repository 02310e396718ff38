-- ===== src/Nommage/Forme.antt =====
-- The texts of letters, figures and single dashes between them (myrag/app/services/nommage.py).
use mycollections.Base.{
  ℕ, zero, suc, ◌≡◌, ◌⊎◌, refl, inl, inr, arith, Bool, true, false, ◌&&◌, ◌||◌, [], ◌∷◌, ◌++◌, Text,
  all, nat_eq, ◌==◌, contains, take, is_empty, strip_right, Bool-cases, if◌then◌else◌,
}
use mycollections.Nommage.{tiret, lettre, chiffre, signe, debute, apres, sans_tete, avant_dernier}

-- What may follow a letter, without the final newline.
abbrev pub corps : Text → Bool
corps [] = true
corps (c ∷ t) = let suite = corps t in if signe c then suite else c == tiret && (debute t && suite)

-- The same, cut anywhere.
abbrev pub coupe : Text → Bool
coupe [] = true
coupe (c ∷ t) =
    let suite = coupe t in
    if signe c then suite else c == tiret && ((debute t || is_empty t) && suite)

pub apres_of_corps : (t : Text) → corps t ≡ true → apres t ≡ true
apres_of_corps [] h = refl
apres_of_corps (c ∷ t) h = ground (arith, h, apres_of_corps t)

pub signe_of_lettre : (c : ℕ) → lettre c ≡ true → signe c ≡ true
signe_of_lettre c h = ground (arith, h)

pub signe-not_dash : (c : ℕ) → signe c ≡ true → (c == tiret) ≡ false
signe-not_dash c h = ground (arith, h)

dash-not_sign : (c : ℕ) → (c == tiret) ≡ true → signe c ≡ false
dash-not_sign c h = ground (arith, h)

pub corps-append : (m t : Text) → all signe m ≡ true → corps t ≡ true → corps (m ++ t) ≡ true
corps-append [] t a h = h
corps-append (c ∷ m) t a h = ground (arith, a, corps-append m t)

pub corps-sans_tete :
    (t : Text)
    → corps t ≡ true
    → (sans_tete t ≡ [])
      ⊎ ((c : ℕ) × (u : Text) × (sans_tete t ≡ c ∷ u) × (lettre c ≡ true) × (corps u ≡ true))
corps-sans_tete [] h = inl refl
corps-sans_tete (c ∷ t) h = elim (Bool-cases (chiffre c || c == tiret)) [
  | inl p ↦ rw p (corps-sans_tete t (ground (arith, p, h)))
  | inr p ↦ rw p (inr (c, t, refl, ground (arith, p, h), ground (arith, p, h)))
]

debute-take :
    (n : ℕ) (t : Text) → debute t ≡ true → (debute (take n t) || is_empty (take n t)) ≡ true
debute-take zero t h = refl
debute-take (suc n) [] h = cc
debute-take (suc n) (c ∷ t) h = rw h refl

pub coupe-take : (n : ℕ) (t : Text) → corps t ≡ true → coupe (take n t) ≡ true
coupe-take zero t h = refl
coupe-take (suc n) [] h = refl
coupe-take (suc n) (c ∷ t) h = ground (arith, h, coupe-take n t, debute-take n t)

pub dash_sym : (c : ℕ) → (tiret == c) ≡ true → (c == tiret) ≡ true
dash_sym c h = ground (arith, h)

-- After a sign, what is cut at the last dash still begins with it.
debute-avant_dernier :
    (t : Text) → debute t ≡ true → contains t tiret ≡ true → debute (avant_dernier t) ≡ true
debute-avant_dernier [] h k = cc
debute-avant_dernier (c ∷ t) h k = elim (Bool-cases (contains t tiret)) [
  | inl p ↦ rw p h
  | inr p ↦ elim (Bool-cases (tiret == c)) [
    | inl q ↦ cc (dash-not_sign c (dash_sym c q), h)
    | inr q ↦ cc (rw (q, p) at k)
  ]
]

not-empty : (t : Text) → contains t tiret ≡ true → is_empty t ≡ false
not-empty [] k = cc
not-empty (c ∷ t) k = refl

pub corps-avant_dernier :
    (t : Text) → coupe t ≡ true → contains t tiret ≡ true → corps (avant_dernier t) ≡ true
corps-avant_dernier [] h k = refl
corps-avant_dernier (c ∷ t) h k = elim (Bool-cases (contains t tiret)) [
  | inl p ↦ rw p (elim (Bool-cases (signe c)) [
    | inl q ↦ rw q (corps-avant_dernier t (rw q at h) p)
    | inr q ↦
        rw q (
          ground
            (arith, rw q at h, not-empty t p, corps-avant_dernier t, debute-avant_dernier t, p))
  ])
  | inr p ↦ elim (Bool-cases (tiret == c)) [
    | inl q ↦ rw p (rw (dash_sym c q) refl)
    | inr q ↦ cc (rw (q, p) at k)
  ]
]

not-empty_of_debute : (t : Text) → debute t ≡ true → is_empty t ≡ false
not-empty_of_debute [] h = cc
not-empty_of_debute (c ∷ t) h = refl

pub strip_right-cons :
    (c : ℕ) (t : Text)
    → strip_right (λ d. d == tiret) t ≡ t
    → ((c == tiret) ≡ false) ⊎ (is_empty t ≡ false)
    → strip_right (λ d. d == tiret) (c ∷ t) ≡ c ∷ t
strip_right-cons c [] h (inl p) = rw p refl
strip_right-cons c [] h (inr p) = cc
strip_right-cons c (d ∷ t) h p = rw (h, strip_right) refl

pub corps-strip_right : (t : Text) → corps t ≡ true → strip_right (λ c. c == tiret) t ≡ t
corps-strip_right [] h = refl
corps-strip_right (c ∷ t) h = elim (Bool-cases (signe c)) [
  | inl q ↦ strip_right-cons c t (corps-strip_right t (rw q at h)) (inl (signe-not_dash c q))
  | inr q ↦
      strip_right-cons c t (corps-strip_right t (ground (arith, rw q at h)))
        (inr (not-empty_of_debute t (ground (arith, rw q at h))))
]

pub corps-take :
    (n : ℕ) (t : Text)
    → corps t ≡ true
    → contains (take (suc n) t) tiret ≡ false
    → corps (take n t) ≡ true
corps-take zero t h k = refl
corps-take (suc n) [] h k = refl
corps-take (suc n) (c ∷ t) h k = elim (Bool-cases (signe c)) [
  | inl q ↦ rw q (corps-take n t (rw q at h) (ground (arith, k)))
  | inr q ↦ ground (arith, rw q at h, k)
]
