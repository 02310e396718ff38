-- ===== src/Debit/Plafond.antt =====
-- How many calls of a person pass in a minute (myrag/app/services/fenetre_par_minute.py).
use mycollections.Base.{
  ℕ, suc, ◌+◌, ◌≤◌, ◌≡◌, sym, subst, ap, inl, inr, arith, true, false, not, List, [], ◌∷◌, String,
  string_eq, ◌==◌, ltb, nat_beq, nat_beq_iff, Bool-cases, min,
}
use mycollections.Debit.{Fenetre, minute_de, compte_de}
use mycollections.Debit.Comptes.{Etat, compte_zero}
use mycollections.Debit.Appels.{
  appels, acceptes, Croissant, nat_beq-gt, ici_ailleurs, lt-of_ltb, gt-of, appels_zero, suivante,
  suivante_same, suivante_other, Etat-suivante, ici_other, ici_same, passe_un, acceptes-cons,
}

-- What passes from a state on, in one minute of one key, is what is left under the ceiling.
abbrev Reste : String → ℕ → Fenetre → List (String × ℕ) → Type 0
Reste k m f l =
    acceptes k m f l + min f.plafond (compte_de k m f.comptes)
    ≡ min f.plafond (compte_de k m f.comptes + appels k m l)

Reste-nil : (k : String) (m : ℕ) (f : Fenetre) → Reste k m f []
unfolding acceptes
Reste-nil k m f = omega arith

module _ (cle : String) (t a : ℕ) (f : Fenetre) (l : List (String × ℕ))
    (h : nat_beq f.plafond 0 ≡ false) (e : Etat a f.comptes) where
  Reste-same :
      Reste cle (minute_de t) (suivante cle t f) l → Reste cle (minute_de t) f ((cle, t) ∷ l)
  Reste-same r =
      let n = compte_de cle (minute_de t) f.comptes in
      omega (
        arith,
        r,
        acceptes-cons cle (minute_de t) cle t f l h,
        suivante_same cle t f,
        ici_same cle t (not (ltb f.plafond (suc n))),
        ici_same cle t true,
        passe_un f.plafond n,
      )

  Reste-other :
      (k : String)
      → (cle == k) ≡ false
      → Reste k (minute_de t) (suivante cle t f) l
      → Reste k (minute_de t) f ((cle, t) ∷ l)
  Reste-other k z r = omega (
    arith,
    r,
    acceptes-cons k (minute_de t) cle t f l h,
    suivante_other k cle a t f e z,
    ici_other k (minute_de t) cle t
        (not (ltb f.plafond (suc (compte_de cle (minute_de t) f.comptes)))) z,
    ici_other k (minute_de t) cle t true z,
  )

  -- A call of another minute: before it nothing is counted, after it nothing comes.
  Reste-ailleurs :
      (k : String) (m : ℕ)
      → a ≤ minute_de t
      → Croissant (minute_de t) l
      → nat_beq (minute_de t) m ≡ false
      → Reste k m (suivante cle t f) l
      → Reste k m f ((cle, t) ∷ l)
  Reste-ailleurs k m b w n r =
      let s = acceptes-cons k m cle t f l h in
      let x =
        ici_ailleurs k m cle t (not (ltb f.plafond (suc (compte_de cle (minute_de t) f.comptes))))
          n in
      let y = ici_ailleurs k m cle t true n in
      elim (Bool-cases (ltb (minute_de t) m)) [
        | inl z ↦ omega (
          arith,
          r,
          s,
          x,
          y,
          compte_zero k a m f.comptes e.passees (omega (arith, b, lt-of_ltb (minute_de t) m z)),
          compte_zero k (minute_de t) m (suivante cle t f).comptes
              (Etat-suivante cle a t f b e).passees (lt-of_ltb (minute_de t) m z),
        )
        | inr z ↦
            omega (arith, r, s, x, y, appels_zero k (minute_de t) m l w (gt-of (minute_de t) m n z))
      ]

acceptes-Reste :
    (k : String) (m a : ℕ) (f : Fenetre) (l : List (String × ℕ))
    → nat_beq f.plafond 0 ≡ false
    → Croissant a l
    → Etat a f.comptes
    → Reste k m f l
acceptes-Reste k m a f [] h w e = Reste-nil k m f
acceptes-Reste k m a f ((cle, t) ∷ l) h (b, w) e =
    let r =
      acceptes-Reste k m (minute_de t) (suivante cle t f) l h w (Etat-suivante cle a t f b e) in
    elim (Bool-cases (nat_beq (minute_de t) m)) [
      | inr n ↦ Reste-ailleurs cle t a f l h e k m b w n r
      | inl n ↦
          let q = (nat_beq_iff (minute_de t) m).0 n in
          subst (λ z. Reste k z (suivante cle t f) l → Reste k z f ((cle, t) ∷ l)) q
            (elim (Bool-cases (cle == k)) [
              | inr z ↦ Reste-other cle t a f l h e k z
              | inl z ↦
                  subst
                    (λ y.
                      Reste y (minute_de t) (suivante cle t f) l
                      → Reste y (minute_de t) f ((cle, t) ∷ l))
                    (string_eq.eq_of_same cle k z) (Reste-same cle t a f l h e)
            ])
            r
    ]

-- From an empty count and a positive ceiling, while the clock does not go back, in each minute exactly
-- as many calls of a person pass as the person makes, up to the ceiling, whatever the others call and
-- whatever counts are dropped for want of room.
pub acceptes-appels :
    (k : String) (m a : ℕ) (f : Fenetre) (l : List (String × ℕ))
    → 1 ≤ f.plafond
    → f.comptes ≡ []
    → Croissant a l
    → acceptes k m f l ≡ min f.plafond (appels k m l)
acceptes-appels k m a f l p c w =
    let r =
      acceptes-Reste k m a f l (nat_beq-gt f.plafond 0 (omega (arith, p))) w
        (subst (Etat a) (sym c) (record { uniques = tt; passees = λ d i. absurd i })) in
    omega (arith, r, ap (compte_de k m) c)
