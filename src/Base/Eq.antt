-- ===== src/Base/Eq.antt =====
-- Decidable equality as an interface, and `in` over a list through it.
use Prim.Native.Nat.{ℕ}
use Prim.Native.String.{String}
use mathlib.Core.Path.{◌≡◌, refl}
use mathlib.Core.Logic.{inl, inr}
use mathlib.Core.Bool.{Bool, true, false, ◌||◌}
use mathlib.Core.List.{List, [], ◌∷◌}
use native.Mathlib.Omega.{arith}
use text.Mathlib.Text.{◌==◌ as string_same}
use text.Mathlib.TextEquality.{eq_iff}
use text.Mathlib.TextPositions.{eq_refl}
use mycollections.Base.Tests.{nat_beq, nat_beq_iff, Bool-cases}
use mycollections.Base.Lists.{In}

-- What `==` is on a type of the program: a test that holds on equal values, and on those only.
pub record Eq (A : Type 0) : Type 0 where
  pub same : A → A → Bool
  pub same_refl : (a : A) → same a a ≡ true
  pub eq_of_same : (a b : A) → same a b ≡ true → a ≡ b

instance abbrev pub nat_eq : Eq ℕ
nat_eq = record {
  same = nat_beq;
  same_refl = λ n. (nat_beq_iff n n).1 refl;
  eq_of_same = λ n k. (nat_beq_iff n k).0;
}

instance abbrev pub string_eq : Eq String
string_eq = record { same = string_same; same_refl = eq_refl; eq_of_same = λ s t. (eq_iff s t).0 }

module _ {A : Type 0} ⦃e : Eq A⦄ where
  infix 50 ◌==◌
  abbrev pub ◌==◌ : A → A → Bool
  a == b = e.same a b

  -- `a in xs`
  abbrev pub contains : List A → A → Bool
  contains [] a = false
  contains (x ∷ xs) a = a == x || contains xs a

  pub contains→In : (xs : List A) (a : A) → contains xs a ≡ true → In a xs
  contains→In [] a h = cc
  contains→In (x ∷ xs) a h = elim (Bool-cases (a == x)) [
    | inl here ↦ inl (e.eq_of_same a x here)
    | inr other ↦ inr (contains→In xs a (rw other at h))
  ]

  pub In→contains : (xs : List A) (a : A) → In a xs → contains xs a ≡ true
  In→contains [] a i = absurd i
  In→contains (x ∷ xs) a (inl p) = rw (← p) (rw (e.same_refl a))
  In→contains (x ∷ xs) a (inr i) = ground (arith, In→contains xs a i)
