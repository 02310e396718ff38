-- ===== src/Base/SansDouble.antt =====
-- Lists that hold nothing twice.
use mathlib.Core.Path.{sym}
use mathlib.Core.Logic.{inl, inr}
use mathlib.Core.List.{List, [], ◌∷◌, ◌++◌}
use mycollections.Base.Lists.{In, In-append_cases}

abbrev pub Distincts : {A : Type 0} → List A → Type 0
Distincts [] = Unit {0}
Distincts (i ∷ l) = (¬ In i l) × Distincts l

pub Distincts-snoc :
    {A : Type 0} (l : List A) (i : A) → Distincts l → ¬ In i l → Distincts (l ++ i ∷ [])
Distincts-snoc [] i u n = ((λ j. absurd j), tt)
Distincts-snoc (x ∷ l) i (m, u) n = (
  λ j. elim (In-append_cases x l (i ∷ []) j) [
    | inl k ↦ m k
    | inr (inl e) ↦ n (inl (sym e))
    | inr (inr k) ↦ absurd k
  ],
  Distincts-snoc l i u (λ k. n (inr k)),
)
