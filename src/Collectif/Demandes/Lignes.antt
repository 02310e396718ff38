-- ===== src/Collectif/Demandes/Lignes.antt =====
-- The rows of the requests of myrag/app/services/collectif_store.py: one row for each id.
use mycollections.Base.{
  arith, ◌≡◌, ◌⊎◌, refl, sym, subst, Bool, true, false, none, some, List, [], ◌∷◌, String,
  string_eq, ◌==◌, In, Bool-cases, filter, inl, inr,
}
use mycollections.Collectif.Demandes.{Demande, trouver, existe, remplacee}

pub string_eq_of_same : (s t : String) → (s == t) ≡ true → s ≡ t
string_eq_of_same s t h = string_eq.eq_of_same s t h

pub string_same_refl : (s : String) → (s == s) ≡ true
string_same_refl s = string_eq.same_refl s

-- No two rows have one id.
abbrev pub Uniques : List Demande → Type 0
Uniques [] = Unit {0}
Uniques (d ∷ l) = (existe d.id l ≡ false) × Uniques l

pub existe-remplacee :
    (i : String) (d : Demande) (l : List Demande) → existe i (remplacee d l) ≡ existe i l
existe-remplacee i d [] = refl
existe-remplacee i d (e ∷ l) = elim (Bool-cases (e.id == d.id)) [
  | inl h ↦ let q = string_eq_of_same e.id d.id h in rw h (rw q (rw (existe-remplacee i d l) refl))
  | inr h ↦ rw h (rw (existe-remplacee i d l) refl)
]

pub Uniques-remplacee : (d : Demande) (l : List Demande) → Uniques l → Uniques (remplacee d l)
Uniques-remplacee d [] u = u
Uniques-remplacee d (e ∷ l) (n, u) = elim (Bool-cases (e.id == d.id)) [
  | inl h ↦
      let q = string_eq_of_same e.id d.id h in
      rw h (rw (← q) (rw (existe-remplacee e.id d l) n), Uniques-remplacee d l u)
  | inr h ↦ rw h (rw (existe-remplacee e.id d l) n, Uniques-remplacee d l u)
]

pub trouver-remplacee_self :
    (d : Demande) (l : List Demande) → existe d.id l ≡ true → trouver d.id (remplacee d l) ≡ some d
trouver-remplacee_self d [] h = cc
trouver-remplacee_self d (e ∷ l) h = elim (Bool-cases (e.id == d.id)) [
  | inl p ↦ rw p (rw (string_same_refl d.id) refl)
  | inr p ↦ rw p (rw p (trouver-remplacee_self d l (rw p at h)))
]

pub trouver-remplacee_other :
    (i : String) (d : Demande) (l : List Demande)
    → (d.id == i) ≡ false
    → trouver i (remplacee d l) ≡ trouver i l
trouver-remplacee_other i d [] h = refl
trouver-remplacee_other i d (e ∷ l) h = elim (Bool-cases (e.id == d.id)) [
  | inl p ↦
      let q = string_eq_of_same e.id d.id p in rw p (rw q (rw h (trouver-remplacee_other i d l h)))
  | inr p ↦ rw p (rw (trouver-remplacee_other i d l h) refl)
]

pub existe-In : (d : Demande) (l : List Demande) → In d l → existe d.id l ≡ true
existe-In d [] i = absurd i
existe-In d (e ∷ l) (inl q) = rw (← q) (rw (string_same_refl d.id) refl)
existe-In d (e ∷ l) (inr i) = ground (arith, existe-In d l i)

pub trouver-some :
    (i : String) (d : Demande) (l : List Demande) → trouver i l ≡ some d → (d.id ≡ i) × In d l
trouver-some i d [] h = cc
trouver-some i d (e ∷ l) h = elim (Bool-cases (e.id == i)) [
  | inl p ↦
      let q : e ≡ d = ground (arith, h, p) in (rw (← q) (string_eq_of_same e.id i p), inl (sym q))
  | inr p ↦ let (q, j) = trouver-some i d l (rw p at h) in (q, inr j)
]

pub existe-trouver :
    (i : String) (d : Demande) (l : List Demande) → trouver i l ≡ some d → existe i l ≡ true
existe-trouver i d [] h = cc
existe-trouver i d (e ∷ l) h = elim (Bool-cases (e.id == i)) [
  | inl p ↦ rw p refl
  | inr p ↦ rw p (existe-trouver i d l (rw p at h))
]

pub trouver-In : (d : Demande) (l : List Demande) → Uniques l → In d l → trouver d.id l ≡ some d
trouver-In d [] u i = absurd i
trouver-In d (e ∷ l) (n, u) (inl q) = rw q (rw (string_same_refl e.id) refl)
trouver-In d (e ∷ l) (n, u) (inr i) = elim (Bool-cases (e.id == d.id)) [
  | inl p ↦
      let q = string_eq_of_same e.id d.id p in absurd (ground (arith, existe-In d l i, rw q at n))
  | inr p ↦ rw p (trouver-In d l u i)
]

pub trouver-none : (i : String) (l : List Demande) → existe i l ≡ false → trouver i l ≡ none
trouver-none i [] h = refl
trouver-none i (e ∷ l) h = elim (Bool-cases (e.id == i)) [
  | inl p ↦ ground (arith, p, h)
  | inr p ↦ rw p (trouver-none i l (rw p at h))
]

pub existe-filter :
    (i : String) (p : Demande → Bool) (l : List Demande)
    → existe i l ≡ false
    → existe i (filter p l) ≡ false
existe-filter i p [] h = refl
existe-filter i p (e ∷ l) h = ground (arith, existe-filter i p l)

pub Uniques-filter : (p : Demande → Bool) (l : List Demande) → Uniques l → Uniques (filter p l)
Uniques-filter p [] u = u
Uniques-filter p (e ∷ l) (n, u) = elim (Bool-cases (p e)) [
  | inl h ↦ rw h (existe-filter e.id p l n, Uniques-filter p l u)
  | inr h ↦ rw h (Uniques-filter p l u)
]

pub other_id :
    (d e : Demande) (l : List Demande) → existe d.id l ≡ false → In e l → (d.id == e.id) ≡ false
other_id d e l n i = elim (Bool-cases (d.id == e.id)) [
  | inl p ↦
      let q = string_eq_of_same d.id e.id p in
      ground (arith, existe-In e l i, subst (λ z. existe z l ≡ false) q n)
  | inr p ↦ p
]

pub In-remplacee : (d e : Demande) (l : List Demande) → In e (remplacee d l) → (e ≡ d) ⊎ In e l
In-remplacee d e [] i = absurd i
In-remplacee d e (x ∷ l) (inl p) = elim (Bool-cases (x.id == d.id)) [
  | inl h ↦ inl (rw h at p)
  | inr h ↦ inr (inl (rw h at p))
]
In-remplacee d e (x ∷ l) (inr i) = elim (In-remplacee d e l i) [
  | inl p ↦ inl p
  | inr j ↦ inr (inr j)
]
