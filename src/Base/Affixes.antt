-- ===== src/Base/Affixes.antt =====
-- `str.startswith`, `str.endswith`, slices and `str.split` on one character, with their laws.
use Prim.Native.Nat.{ℕ, zero, suc, ◌-◌}
use mathlib.Core.Path.{◌≡◌, refl, ap, sym, ◌∙◌}
use mathlib.Core.Bool.{Bool, true, false, ◌&&◌}
use mathlib.Core.List.{List, [], ◌∷◌, ◌++◌}
use native.Mathlib.Omega.{arith}
use mycollections.Base.Tests.{nat_beq, leb, if◌then◌else◌}
use mycollections.Base.Lists.{length, take, drop, length-append}
use mycollections.Base.Texts.{Text, text_beq, text_beq_iff}

abbrev pub starts_with : Text → Text → Bool
starts_with [] s = true
starts_with (c ∷ p) [] = false
starts_with (c ∷ p) (d ∷ s) = nat_beq c d && starts_with p s

abbrev pub ends_with : Text → Text → Bool
ends_with p s = leb (length p) (length s) && text_beq (drop (length s - length p) s) p

-- `s.split(c)`
abbrev pub split : ℕ → Text → List Text
split c [] = [] ∷ []
split c (d ∷ s) = elim (split c s) [
  | [] ↦ []
  | t ∷ l ↦ if nat_beq c d then [] ∷ t ∷ l else (d ∷ t) ∷ l
]

pub take-append-drop : (n : ℕ) (s : Text) → take n s ++ drop n s ≡ s
take-append-drop zero s = refl
take-append-drop (suc n) [] = refl
take-append-drop (suc n) (x ∷ s) = ap (λ (t : Text). x ∷ t) (take-append-drop n s)

pub drop-append : (p s : Text) → drop (length p) (p ++ s) ≡ s
drop-append [] s = refl
drop-append (x ∷ p) s = drop-append p s

pub take-append : (p s : Text) → take (length p) (p ++ s) ≡ p
take-append [] s = refl
take-append (x ∷ p) s = ap (λ (t : Text). x ∷ t) (take-append p s)

pub starts_with-append : (p s : Text) → starts_with p (p ++ s) ≡ true
starts_with-append [] s = refl
starts_with-append (x ∷ p) s = ground (arith, starts_with-append p s)

pub starts_with_split : (p s : Text) → starts_with p s ≡ true → s ≡ p ++ drop (length p) s
starts_with_split [] s h = refl
starts_with_split (c ∷ p) [] h = cc
starts_with_split (c ∷ p) (d ∷ s) h = ground (arith, starts_with_split p s)

pub ends_with-append : (s p : Text) → ends_with p (s ++ p) ≡ true
ends_with-append s p =
    let e : length (s ++ p) - length p ≡ length s = omega (arith, length-append {0} s p) in
    rw (e, drop-append s p) (ground (arith, length-append {0} s p, (text_beq_iff p p).1 refl))

pub ends_with_split : (p s : Text) → ends_with p s ≡ true → s ≡ take (length s - length p) s ++ p
ends_with_split p s h =
    let e : drop (length s - length p) s ≡ p = (text_beq_iff _ p).0 (ground arith) in
    sym (take-append-drop (length s - length p) s) ∙ ap (λ t. take (length s - length p) s ++ t) e
