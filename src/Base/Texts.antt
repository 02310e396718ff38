-- ===== src/Base/Texts.antt =====
-- Python texts that the program walks, as lists of code points.
use Prim.Native.Nat.{ℕ, ◌≤◌}
use Prim.Native.Char.{code}
use Prim.Native.String.{String}
use mathlib.Core.Path.{◌≡◌, refl, ◌∙◌}
use mathlib.Core.Logic.{◌↔◌}
use mathlib.Core.Bool.{Bool, true, false, ◌&&◌, ◌||◌}
use mathlib.Core.List.{List, [], ◌∷◌}
use native.Mathlib.Omega.{arith}
use mycollections.Base.Tests.{nat_beq, leb, if◌then◌else◌}
use mycollections.Base.Lists.{all, length}
use mycollections.Base.Eq.{Eq}

abbrev pub Text : Type 0
Text = List ℕ

-- The code points of a literal.
abbrev pub text : String → Text
text String.[] = []
text (String.◌∷◌ c s) = code c ∷ text s

abbrev pub text_beq : Text → Text → Bool
text_beq [] [] = true
text_beq [] (y ∷ ys) = false
text_beq (x ∷ xs) [] = false
text_beq (x ∷ xs) (y ∷ ys) = nat_beq x y && text_beq xs ys

pub text_beq_iff : (s t : Text) → (text_beq s t ≡ true) ↔ (s ≡ t)
text_beq_iff [] [] = (λ h. refl, λ h. refl)
text_beq_iff [] (y ∷ ys) = (λ h. cc, λ h. cc)
text_beq_iff (x ∷ xs) [] = (λ h. cc, λ h. cc)
text_beq_iff (x ∷ xs) (y ∷ ys) = ground (arith, text_beq_iff xs ys)

instance abbrev pub text_eq : Eq Text
text_eq = record {
  same = text_beq;
  same_refl = λ s. (text_beq_iff s s).1 refl;
  eq_of_same = λ s t. (text_beq_iff s t).0;
}

-- What `str.isspace`, and so `str.strip`, takes for white space.
abbrev pub is_space : ℕ → Bool
is_space c =
    leb 9 c && leb c 13
    || leb 28 c && leb c 32
    || nat_beq c 133
    || nat_beq c 160
    || nat_beq c 5760
    || leb 8192 c && leb c 8202
    || nat_beq c 8232
    || nat_beq c 8233
    || nat_beq c 8239
    || nat_beq c 8287
    || nat_beq c 12288

-- `s.lstrip(chars)`, with the characters as a test.
abbrev pub strip_left : (ℕ → Bool) → Text → Text
strip_left p [] = []
strip_left p (c ∷ s) = let rest = strip_left p s in if p c then rest else c ∷ s

abbrev pub strip_right : (ℕ → Bool) → Text → Text
strip_right p [] = []
strip_right p (c ∷ s) = elim (strip_right p s) [
  | [] ↦ if p c then [] else c ∷ []
  | d ∷ t ↦ c ∷ d ∷ t
]

abbrev pub strip : (ℕ → Bool) → Text → Text
strip p s = strip_right p (strip_left p s)

-- `bool(s)` for a text.
abbrev pub is_empty {ℓ} : {A : Type ℓ} → List A → Bool
is_empty [] = true
is_empty (x ∷ xs) = false

module _ (p : ℕ → Bool) where
  is_empty-strip_left : (s : Text) → is_empty (strip_left p s) ≡ all p s
  is_empty-strip_left [] = refl
  is_empty-strip_left (c ∷ s) = ground (arith, is_empty-strip_left s)

  is_empty-strip_right : (s : Text) → is_empty (strip_right p s) ≡ all p s
  is_empty-strip_right [] = refl
  is_empty-strip_right (c ∷ s) = ground (arith, is_empty-strip_right s)

  all-strip_left : (s : Text) → all p (strip_left p s) ≡ all p s
  all-strip_left [] = refl
  all-strip_left (c ∷ s) = ground (arith, all-strip_left s)

  -- A text is stripped to nothing exactly when all its characters go.
  pub is_empty-strip : (s : Text) → is_empty (strip p s) ≡ all p s
  is_empty-strip s = is_empty-strip_right (strip_left p s) ∙ all-strip_left s

  length-strip_left-le : (s : Text) → length (strip_left p s) ≤ length s
  length-strip_left-le [] = omega arith
  length-strip_left-le (c ∷ s) = ground (arith, length-strip_left-le s)

  length-strip_right-le : (s : Text) → length (strip_right p s) ≤ length s
  length-strip_right-le [] = omega arith
  length-strip_right-le (c ∷ s) = ground (arith, length-strip_right-le s)

  pub length-strip-le : (s : Text) → length (strip p s) ≤ length s
  length-strip-le s = omega (arith, length-strip_left-le s, length-strip_right-le (strip_left p s))
