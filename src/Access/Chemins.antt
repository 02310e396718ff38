-- ===== src/Access/Chemins.antt =====
-- The paths of groups in myrag/app/services/access.py: which claims are read, and which paths name a
-- collection.
use mathlib.Core.List.{append_assoc}
use mathlib.Core.Bool.{◌&&◌}
use mycollections.Base.{
  if◌then◌else◌, ◌<◌, ◌≡◌, ◌↔◌, ◌∙◌, refl, sym, ap, inl, inr, Bool, true, false, none, some, List,
  [], ◌∷◌, ◌++◌, In, any, arith, drop, length, Bool-cases, Text, is_empty, strip_right, starts_with,
  starts_with-append, starts_with_split, drop-append, contains, nat_eq, text_beq, ends_with,
  ends_with-append, ends_with_split, text_beq_iff, take, take-append, ltb, ◌-◌, length-append,
}
use mycollections.Access.{
  slash, is_slash, Settings, Claim, root, textes, court, chemins, apres, leaf, superadmin,
  admin_suffix, nom_de,
}

pub any_of_In : (p : Text → Bool) (g : Text) (l : List Text) → In g l → p g ≡ true → any p l ≡ true
any_of_In p g [] i h = absurd i
any_of_In p g (x ∷ l) i h = ground (arith, any_of_In p g l)

-- One value with no leading slash, and the claim gives no path.
pub chemins-court :
    (groups : Claim) (g : Text) → In g (textes groups) → court g ≡ true → chemins (some groups) ≡ []
unfolding chemins
chemins-court groups g i h = rw (any_of_In court g (textes groups) i h)

-- The direct children of the root, and nothing else, have a leaf.
pub record IsEnfant (settings : Settings) (path x : Text) : Type 0 where
  pub at_root : strip_right is_slash path ≡ root settings ++ slash ∷ x
  pub not_empty : is_empty x ≡ false
  pub no_slash : contains x slash ≡ false

apres_sound :
    (prefix p x : Text)
    → apres prefix p ≡ some x
    → (p ≡ prefix ++ x) × (is_empty x ≡ false) × (contains x slash ≡ false)
apres_sound prefix p x h = elim (Bool-cases (starts_with prefix p)) [
  | inl found ↦
      let reste : drop (length prefix) p ≡ x = ground arith in
      (
        starts_with_split prefix p found ∙ ap (λ (t : Text). prefix ++ t) reste,
        ground arith,
        ground arith,
      )
  | inr absent ↦ ground arith
]

apres_complete :
    (prefix x : Text)
    → is_empty x ≡ false
    → contains x slash ≡ false
    → apres prefix (prefix ++ x) ≡ some x
apres_complete prefix x e n = ground (arith, starts_with-append prefix x, drop-append prefix x)

leaf_sound :
    (settings : Settings) (path x : Text) → leaf settings path ≡ some x → IsEnfant settings path x
unfolding leaf
leaf_sound settings path x h =
    let (at, e, n) = apres_sound _ _ x h in
    record {
      at_root = at ∙ append_assoc (root settings) (slash ∷ []) x;
      not_empty = e;
      no_slash = n;
    }

leaf_complete :
    (settings : Settings) (path x : Text) → IsEnfant settings path x → leaf settings path ≡ some x
unfolding leaf
leaf_complete settings path x c =
    rw (c.at_root ∙ sym (append_assoc (root settings) (slash ∷ []) x))
      (apres_complete (root settings ++ slash ∷ []) x c.not_empty c.no_slash)

-- A path has the leaf x exactly when it is, up to final slashes, the root, a slash and x, with x not
-- empty and free of slashes.
pub leaf_iff :
    (settings : Settings) (path x : Text) → (leaf settings path ≡ some x) ↔ IsEnfant settings path x
leaf_iff settings path x = (leaf_sound settings path x, leaf_complete settings path x)

is_empty_of_length : (n : Text) → 0 < length n → is_empty n ≡ false
is_empty_of_length [] h = absurd (omega arith)
is_empty_of_length (c ∷ n) h = refl

length_of_is_empty : (n : Text) → is_empty n ≡ false → 0 < length n
length_of_is_empty [] h = cc
length_of_is_empty (c ∷ n) h = omega arith

nom_de_sound :
    (f n : Text) → nom_de true f ≡ some n → (f ≡ n ++ admin_suffix) × (is_empty n ≡ false)
nom_de_sound f n h =
    let (suffixed, long, cut) = parts (text_beq f superadmin) (ends_with admin_suffix f) h in
    let e : f ≡ n ++ admin_suffix =
      ends_with_split admin_suffix f suffixed ∙ ap (λ (t : Text). t ++ admin_suffix) cut in
    (e, is_empty_of_length n (omega (arith, ap length e, length-append {0} n admin_suffix)))
  where
    parts :
        (b e : Bool)
        → (if b then none else if e && ltb 6 (length f) then some (take (length f - 6) f) else none)
          ≡ some n
        → (e ≡ true) × (6 < length f) × (take (length f - 6) f ≡ n)
    parts b e h = ground arith

text_beq-superadmin : (n : Text) → text_beq (n ++ admin_suffix) superadmin ≡ false
text_beq-superadmin n = elim (Bool-cases (text_beq (n ++ admin_suffix) superadmin)) [
  | inl same ↦
      let e : n ++ admin_suffix ≡ superadmin = (text_beq_iff _ _).0 same in
      let no : ends_with admin_suffix (n ++ admin_suffix) ≡ false = ap (ends_with admin_suffix) e in
      cc (ends_with-append n admin_suffix)
  | inr other ↦ other
]

nom_de_complete : (n : Text) → is_empty n ≡ false → nom_de true (n ++ admin_suffix) ≡ some n
nom_de_complete n h =
    let long = length_of_is_empty n h in
    let e : length (n ++ admin_suffix) - 6 ≡ length n =
      omega (arith, length-append {0} n admin_suffix) in
    rw (text_beq-superadmin n, ends_with-append n admin_suffix, e, take-append n admin_suffix)
      (ground (arith, length-append {0} n admin_suffix))

-- A leaf names the managers of a collection exactly when it is the collection's name, not empty,
-- followed by -admin.
pub nom_de-admin_iff :
    (f n : Text) → (nom_de true f ≡ some n) ↔ ((f ≡ n ++ admin_suffix) × (is_empty n ≡ false))
nom_de-admin_iff f n = (nom_de_sound f n, λ (e, h). rw e (nom_de_complete n h))
