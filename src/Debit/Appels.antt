-- ===== src/Debit/Appels.antt =====
-- The calls that pass, and what a call does to the counts (myrag/app/services/fenetre_par_minute.py).
use mycollections.Base.{
  ℕ, suc, ◌+◌, ◌≤◌, ◌<◌, ◌≡◌, refl, ap, ◌∙◌, inl, inr, arith, Bool, true, false, ◌&&◌, not, List,
  [], ◌∷◌, String, string_eq, ◌==◌, ltb, nat_beq, nat_beq_iff, if◌then◌else◌, Bool-cases, min,
  is_some,
}
use mycollections.Debit.{Compte, Fenetre, minute_de, compte_de, evincer, poser, compter}
use mycollections.Debit.Comptes.{
  Etat, compte-poser_same, compte-poser_other, compte-evincer, Etat-evincer, Etat-poser,
}

-- The calls, each with its key and its time in seconds.
abbrev pub compte_ici : String → ℕ → String → ℕ → Bool → ℕ
compte_ici k m cle t passe = if cle == k && (nat_beq (minute_de t) m && passe) then 1 else 0

abbrev pub appels : String → ℕ → List (String × ℕ) → ℕ
appels k m [] = 0
appels k m ((cle, t) ∷ l) = compte_ici k m cle t true + appels k m l

-- The calls that pass, one after the other.
unfoldable pub acceptes : String → ℕ → Fenetre → List (String × ℕ) → ℕ
acceptes k m f [] = 0
acceptes k m f ((cle, t) ∷ l) =
    compte_ici k m cle t (not (is_some (compter cle t f).0)) + acceptes k m (compter cle t f).1 l

-- The clock does not go back.
abbrev pub Croissant : ℕ → List (String × ℕ) → Type 0
Croissant a [] = Unit {0}
Croissant a ((cle, t) ∷ l) = (a ≤ minute_de t) × Croissant (minute_de t) l

pub nat_beq-gt : (n m : ℕ) → m < n → nat_beq n m ≡ false
nat_beq-gt n m h = ground arith

pub nat_beq-lt : (n m : ℕ) → n < m → nat_beq n m ≡ false
nat_beq-lt n m h = ground arith

pub ici_ailleurs :
    (k : String) (m : ℕ) (cle : String) (t : ℕ) (p : Bool)
    → nat_beq (minute_de t) m ≡ false
    → compte_ici k m cle t p ≡ 0
ici_ailleurs k m cle t p h = elim (Bool-cases (cle == k)) [
  | inl q ↦ rw (q, h) refl
  | inr q ↦ rw q refl
]

pub lt-of_ltb : (n m : ℕ) → ltb n m ≡ true → n < m
lt-of_ltb n m h = ground (arith, h)

pub gt-of : (n m : ℕ) → nat_beq n m ≡ false → ltb n m ≡ false → m < n
gt-of n m h k = ground (arith, h, k)

pub appels_zero :
    (k : String) (a m : ℕ) (l : List (String × ℕ)) → Croissant a l → m < a → appels k m l ≡ 0
appels_zero k a m [] w h = refl
appels_zero k a m ((cle, t) ∷ l) (b, w) h = omega (
  arith,
  appels_zero k (minute_de t) m l w (omega (arith, b, h)),
  ici_ailleurs k m cle t true (nat_beq-gt (minute_de t) m (omega (arith, b, h))),
)

abbrev pub suivante : String → ℕ → Fenetre → Fenetre
suivante cle t f = record f {
  comptes =
      poser
        (record {
          cle = cle;
          minute = minute_de t;
          compte = suc (compte_de cle (minute_de t) f.comptes);
        })
        (evincer f.taille_max (minute_de t) f.comptes);
}

pub compter_lem :
    (cle : String) (t : ℕ) (f : Fenetre)
    → nat_beq f.plafond 0 ≡ false
    → ((compter cle t f).1 ≡ suivante cle t f)
      × (not (is_some (compter cle t f).0)
          ≡ not (ltb f.plafond (suc (compte_de cle (minute_de t) f.comptes))))
unfolding compter
compter_lem cle t f h = rw h (
  refl,
  elim (Bool-cases (ltb f.plafond (suc (compte_de cle (minute_de t) f.comptes)))) [
    | inl p ↦ rw p refl
    | inr p ↦ rw p refl
  ],
)

pub suivante_same :
    (cle : String) (t : ℕ) (f : Fenetre)
    → compte_de cle (minute_de t) (suivante cle t f).comptes
      ≡ suc (compte_de cle (minute_de t) f.comptes)
suivante_same cle t f =
    let c : Compte = record {
      cle = cle;
      minute = minute_de t;
      compte = suc (compte_de cle (minute_de t) f.comptes);
    } in
    compte-poser_same c (minute_de t) (evincer f.taille_max (minute_de t) f.comptes)
    ∙ rw ((nat_beq_iff (minute_de t) (minute_de t)).1 refl) refl

pub suivante_other :
    (k cle : String) (a t : ℕ) (f : Fenetre)
    → Etat a f.comptes
    → (cle == k) ≡ false
    → compte_de k (minute_de t) (suivante cle t f).comptes ≡ compte_de k (minute_de t) f.comptes
suivante_other k cle a t f w h =
    compte-poser_other k
      (record {
        cle = cle;
        minute = minute_de t;
        compte = suc (compte_de cle (minute_de t) f.comptes);
      })
      (minute_de t) (evincer f.taille_max (minute_de t) f.comptes) h
    ∙ compte-evincer k f.taille_max (minute_de t) f.comptes w.uniques

pub Etat-suivante :
    (cle : String) (a t : ℕ) (f : Fenetre)
    → a ≤ minute_de t
    → Etat a f.comptes
    → Etat (minute_de t) (suivante cle t f).comptes
Etat-suivante cle a t f h w =
    Etat-poser a
      (record {
        cle = cle;
        minute = minute_de t;
        compte = suc (compte_de cle (minute_de t) f.comptes);
      })
      (evincer f.taille_max (minute_de t) f.comptes) h
      (Etat-evincer a f.taille_max (minute_de t) f.comptes w)

pub ici_other :
    (k : String) (m : ℕ) (cle : String) (t : ℕ) (p : Bool)
    → (cle == k) ≡ false
    → compte_ici k m cle t p ≡ 0
ici_other k m cle t p h = rw h refl

pub ici_same :
    (k : String) (t : ℕ) (p : Bool) → compte_ici k (minute_de t) k t p ≡ (if p then 1 else 0)
ici_same k t p =
    rw (string_eq.same_refl k) (rw ((nat_beq_iff (minute_de t) (minute_de t)).1 refl) refl)

pub passe_un : (p n : ℕ) → (if not (ltb p (suc n)) then 1 else 0) + min p n ≡ min p (suc n)
passe_un p n = ground arith

pub acceptes-cons :
    (k : String) (m : ℕ) (cle : String) (t : ℕ) (f : Fenetre) (l : List (String × ℕ))
    → nat_beq f.plafond 0 ≡ false
    → acceptes k m f ((cle, t) ∷ l)
      ≡ compte_ici k m cle t (not (ltb f.plafond (suc (compte_de cle (minute_de t) f.comptes))))
        + acceptes k m (suivante cle t f) l
unfolding acceptes
acceptes-cons k m cle t f l h =
    let (a, b) = compter_lem cle t f h in
    ap (λ z. compte_ici k m cle t z + acceptes k m (compter cle t f).1 l) b
    ∙ ap
        (λ z.
          compte_ici k m cle t (not (ltb f.plafond (suc (compte_de cle (minute_de t) f.comptes))))
          + acceptes k m z l)
        a
