-- ===== src/Resana/Perimetre/Parcours.antt =====
-- The stack of exclus_effectifs (myrag/app/services/resana_perimetre.py): each round takes one from
-- the stack and the folders whose parent was not met.
use mycollections.Base.{
  ℕ, ◌+◌, ◌≤◌, ◌≡◌, ◌⊎◌, refl, sym, subst, inl, inr, arith, Bool, true, false, not, Option, none,
  some, List, [], ◌∷◌, String, string_eq, In, contains, filter, length, Bool-cases, ◌==◌,
}
use mycollections.Resana.Perimetre.{Dossier, enfant_de, enfants, empiler}

abbrev pub parent_vu : List String → Dossier → Bool
parent_vu vus d = elim d.parent_id [ none ↦ false | some p ↦ contains vus p ]

-- The folders whose parent was not met.
abbrev pub attente : List String → List Dossier → ℕ
attente vus l = length (filter (λ d. not (parent_vu vus d)) l)

attente-one :
    (vus : List String) (i : String) (d : Dossier)
    → contains vus i ≡ false
    → (o : Option String) → d.parent_id ≡ o
    → ((enfant_de i d ≡ true) × (parent_vu vus d ≡ false) × (parent_vu (i ∷ vus) d ≡ true))
      ⊎ ((enfant_de i d ≡ false) × (parent_vu (i ∷ vus) d ≡ parent_vu vus d))
attente-one vus i d n none h = inr (rw (h, enfant_de) refl, rw (h, parent_vu) refl)
attente-one vus i d n (some p) h = elim (Bool-cases (p == i)) [
  | inl e ↦ inl (
    rw (h, enfant_de) e,
    rw (h, parent_vu) (subst (λ z. contains vus z ≡ false) (sym (string_eq.eq_of_same p i e)) n),
    rw (h, parent_vu) (rw e refl),
  )
  | inr e ↦ inr (rw (h, enfant_de) e, rw (h, parent_vu) (rw e refl))
]

pub attente-enfants :
    (vus : List String) (i : String) (l : List Dossier)
    → contains vus i ≡ false
    → attente (i ∷ vus) l + length (enfants l i) ≡ attente vus l
attente-enfants vus i [] n = omega arith
attente-enfants vus i (d ∷ l) n = elim (attente-one vus i d n d.parent_id refl) [
  | inl (a, b, c) ↦ rw (a, b, c) (omega (arith, attente-enfants vus i l n))
  | inr (a, b) ↦
      rw (a, b)
        (elim (Bool-cases (parent_vu vus d)) [
          | inl c ↦ rw c (attente-enfants vus i l n)
          | inr c ↦ rw c (omega (arith, attente-enfants vus i l n))
        ])
]

pub attente-le : (vus : List String) (l : List Dossier) → attente vus l ≤ length l
attente-le vus [] = omega arith
attente-le vus (d ∷ l) = ground (arith, attente-le vus l)

pub length-empiler : (l pile : List String) → length (empiler l pile) ≡ length l + length pile
length-empiler [] pile = omega arith
length-empiler (i ∷ l) pile = omega (arith, length-empiler l (i ∷ pile))

pub In-empiler_pile : (x : String) (l pile : List String) → In x pile → In x (empiler l pile)
In-empiler_pile x [] pile i = i
In-empiler_pile x (y ∷ l) pile i = In-empiler_pile x l (y ∷ pile) (inr i)

pub In-empiler : (x : String) (l pile : List String) → In x l → In x (empiler l pile)
In-empiler x [] pile i = absurd i
In-empiler x (y ∷ l) pile (inl e) = In-empiler_pile x l (y ∷ pile) (inl e)
In-empiler x (y ∷ l) pile (inr i) = In-empiler x l (y ∷ pile) i

pub In-of_empiler : (x : String) (l pile : List String) → In x (empiler l pile) → In x l ⊎ In x pile
In-of_empiler x [] pile i = inr i
In-of_empiler x (y ∷ l) pile i = elim (In-of_empiler x l (y ∷ pile) i) [
  | inl j ↦ inl (inr j)
  | inr (inl e) ↦ inl (inl e)
  | inr (inr j) ↦ inr j
]
