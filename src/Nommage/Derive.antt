-- ===== src/Nommage/Derive.antt =====
-- The identifier that myrag/app/services/nommage.py derives from a title.
use mycollections.Base.{
  ℕ, ◌+◌, ◌≤◌, ◌≡◌, ◌≢◌, ◌⊎◌, refl, sym, subst, ap, ◌∙◌, inl, inr, arith, true, false, not, some,
  List, [], ◌∷◌, ◌++◌, Text, all, nat_eq, text_eq, ◌==◌, contains, take, is_empty, strip,
  Bool-cases, length, length-take, ltb, In, filter, In-of_filter,
}
use mycollections.Nommage.{
  tiret, lettre, signe, debute, format, joindre, avant_dernier, abreger, mots_de, utiles, ou_mots,
  mots_vides, Reglages, deriver_identifiant, Source, format_refuse, motif_de_refus,
}
use mycollections.Nommage.Forme.{
  corps, apres_of_corps, signe_of_lettre, corps-append, corps-sans_tete, coupe-take,
  corps-avant_dernier, corps-strip_right, corps-take, strip_right-cons, signe-not_dash, dash_sym,
}

-- The words are runs of signs.
abbrev Mots : List Text → Type 0
Mots l = (m : Text) → In m l → (all signe m ≡ true) × (is_empty m ≡ false)

all-snoc : (m : Text) (c : ℕ) → all signe m ≡ true → signe c ≡ true → all signe (m ++ c ∷ []) ≡ true
all-snoc [] c a h = rw h refl
all-snoc (d ∷ m) c a h = ground (arith, a, all-snoc m c)

Mots-mots_de : (m t : Text) → all signe m ≡ true → Mots (mots_de m t)
Mots-mots_de [] [] a n i = absurd i
Mots-mots_de (d ∷ m) [] a n (inl e) =
    subst (λ z. (all signe z ≡ true) × (is_empty z ≡ false)) (sym e) (a, refl)
Mots-mots_de (d ∷ m) [] a n (inr i) = absurd i
Mots-mots_de m (c ∷ t) a n i = elim (Bool-cases (signe c)) [
  | inl h ↦ Mots-mots_de (m ++ c ∷ []) t (all-snoc m c a h) n (rw h at i)
  | inr h ↦ elim (Bool-cases (is_empty m)) [
    | inl e ↦ Mots-mots_de [] t refl n (rw e at (rw h at i))
    | inr e ↦ elim (rw e at (rw h at i)) [
      | inl q ↦ subst (λ z. (all signe z ≡ true) × (is_empty z ≡ false)) (sym q) (a, e)
      | inr j ↦ Mots-mots_de [] t refl n j
    ]
  ]
]

Mots-ou_mots : (l k : List Text) → Mots l → Mots k → Mots (ou_mots l k)
Mots-ou_mots [] k a b = b
Mots-ou_mots (m ∷ l) k a b = a

Mots-utiles : (l : List Text) → Mots l → Mots (utiles l)
Mots-utiles l a =
    Mots-ou_mots (filter (λ m. not (contains mots_vides m)) l) l
      (λ m i. a m (In-of_filter m (λ n. not (contains mots_vides n)) l i).0) a

debute-mot : (m t : Text) → all signe m ≡ true → is_empty m ≡ false → debute (m ++ t) ≡ true
debute-mot [] t a e = cc
debute-mot (c ∷ m) t a e = ground (arith, a)

append_nil : (m : Text) → m ++ [] ≡ m
append_nil [] = refl
append_nil (c ∷ m) = ap (λ z. c ∷ z) (append_nil m)

debute-joindre : (m : Text) (l : List Text) → Mots (m ∷ l) → debute (joindre (m ∷ l)) ≡ true
debute-joindre m [] a =
    let (b, e) = a m (inl refl) in subst (λ z. debute z ≡ true) (append_nil m) (debute-mot m [] b e)
debute-joindre m (n ∷ l) a = let (b, e) = a m (inl refl) in debute-mot m _ b e

corps-joindre : (l : List Text) → Mots l → corps (joindre l) ≡ true
corps-joindre [] a = refl
corps-joindre (m ∷ []) a =
    subst (λ z. corps z ≡ true) (append_nil m) (corps-append m [] (a m (inl refl)).0 refl)
corps-joindre (m ∷ n ∷ l) a =
    let b : Mots (n ∷ l) = λ w i. a w (inr i) in
    corps-append m (tiret ∷ joindre (n ∷ l)) (a m (inl refl)).0
      (rw (debute-joindre n l b) (corps-joindre (n ∷ l) b))

length-avant_dernier :
    (t : Text) → contains t tiret ≡ true → length (avant_dernier t) + 1 ≤ length t
length-avant_dernier [] k = cc
length-avant_dernier (c ∷ t) k = elim (Bool-cases (contains t tiret)) [
  | inl p ↦ rw p (omega (arith, length-avant_dernier t p))
  | inr p ↦ elim (Bool-cases (tiret == c)) [
    | inl q ↦ rw p (rw (dash_sym c q) (omega arith))
    | inr q ↦ cc (rw (q, p) at k)
  ]
]

lettre-not_dash : (c : ℕ) → lettre c ≡ true → (tiret == c) ≡ false
lettre-not_dash c h = ground (arith, h)

-- What is cut keeps its first letter and its form, and fits.
abreger_lem :
    (c : ℕ) (u : Text)
    → lettre c ≡ true
    → corps u ≡ true
    → (v : Text) × (abreger (c ∷ u) ≡ c ∷ v) × (corps v ≡ true) × (length (c ∷ v) ≤ 40)
abreger_lem c u h w = elim (Bool-cases (ltb 40 (length (c ∷ u)))) [
  | inr p ↦ (u, rw p refl, w, ground (arith, p))
  | inl p ↦ elim (Bool-cases (contains (take 40 u) tiret)) [
    | inl q ↦ (
      avant_dernier (take 40 u),
      rw p (rw (lettre-not_dash c h) (rw q refl)),
      corps-avant_dernier (take 40 u) (coupe-take 40 u w) q,
      omega (arith, length-avant_dernier (take 40 u) q, length-take 40 u),
    )
    | inr q ↦ (
      take 39 u,
      rw p (rw (lettre-not_dash c h) (rw q refl)),
      corps-take 39 u w q,
      omega (arith, length-take 39 u),
    )
  ]
]

format_of : (c : ℕ) (v : Text) → lettre c ≡ true → corps v ≡ true → format (c ∷ v) ≡ true
unfolding format
format_of c v h w = rw h (apres_of_corps v w)

strip_lem :
    (c : ℕ) (v : Text) → lettre c ≡ true → corps v ≡ true → strip (λ d. d == tiret) (c ∷ v) ≡ c ∷ v
strip_lem c v h w =
    let n = signe-not_dash c (signe_of_lettre c h) in
    rw n (strip_right-cons c v (corps-strip_right v w) (inl n))

deriver_cases :
    (r : Reglages) (titre : Text)
    → (deriver_identifiant r titre ≡ [])
      ⊎ ((format (deriver_identifiant r titre) ≡ true)
          × (length (deriver_identifiant r titre) ≤ 40))
unfolding deriver_identifiant
deriver_cases r titre =
    let l = mots_de [] (r.lower (r.sans_accents titre)) in
    let a = Mots-mots_de [] (r.lower (r.sans_accents titre)) refl in
    let j = joindre (utiles l) in
    let fin = λ (z : Text). strip (λ d. d == tiret) z in
    elim (corps-sans_tete j (corps-joindre (utiles l) (Mots-utiles l a))) [
      | inl e ↦ inl (ap (λ z. fin (abreger z)) e)
      | inr (c, u, e, h, w) ↦
          let (v, b, x, y) = abreger_lem c u h w in
          let q = ap (λ z. fin (abreger z)) e ∙ ap fin b ∙ strip_lem c v h x in
          inr (subst (λ z. (format z ≡ true) × (length z ≤ 40)) (sym q) (format_of c v h x, y))
    ]

refus-format :
    (r : Reglages) (n : Text) (s : Source)
    → (n ≡ []) ⊎ (format n ≡ true)
    → motif_de_refus r n s ≢ some format_refuse
unfolding motif_de_refus
refus-format r n s (inl e) q = cc (subst (λ z. motif_de_refus r z s ≡ some format_refuse) e q)
refus-format r n s (inr f) q = ground (arith, f, q)

-- The identifier that is derived from a title has at most 40 characters; it is empty, or has the format
-- that is asked for, and so is never refused for its format.
pub deriver_identifiant_lem :
    (r : Reglages) (titre : Text) (s : Source)
    → (length (deriver_identifiant r titre) ≤ 40)
      × ((deriver_identifiant r titre ≡ []) ⊎ (format (deriver_identifiant r titre) ≡ true))
      × (motif_de_refus r (deriver_identifiant r titre) s ≢ some format_refuse)
deriver_identifiant_lem r titre s = elim (deriver_cases r titre) [
  | inl e ↦ (
    subst (λ z. length z ≤ 40) (sym e) (omega arith),
    inl e,
    refus-format r (deriver_identifiant r titre) s (inl e),
  )
  | inr (f, h) ↦ (h, inr f, refus-format r (deriver_identifiant r titre) s (inr f))
]
