-- ===== src/Access/Lecture.antt =====
-- Who may read a collection: can_read of myrag/app/services/access.py.
use mathlib.Core.Bool.{◌||◌, false≢true}
use mycollections.Base.{
  In-map, In-of_map, ◌≡◌, ◌↔◌, ◌⊎◌, ◌∙◌, refl, sym, ap, inl, inr, Bool, true, false, ◌&&◌, Option,
  none, some, List, [], ◌∷◌, map, In, arith, Bool-cases, Text, is_empty, contains, ◌-◌, contains→In,
  In→contains, text_eq, text, text_beq, ends_with, length, ltb, if◌then◌else◌, take,
}
use mycollections.Access.{
  Settings, Claim, Fiche, textes, court, chemins, leaf, superadmin, admin_suffix, nom_de,
  nom_du_groupe, noms, collections, normalise, is_superadmin, est_createur,
  visible_collection_names, writable_collection_names, can_read_collection, can_write_collection,
  groups_match, can_write, can_read, scope_is,
}
use mycollections.Access.Chemins.{any_of_In, chemins-court, IsEnfant, leaf_iff}
use mycollections.Access.Droits.{
  IsMembre, IsMembre-of, chemins_of, any_inv, noms_inv, noms_of, IsOperateur-of, gestion_of,
  PeutEcrire, can_write_iff,
}

-- A name that stands for itself as a leaf: neither superadmin nor <other name>-admin.
abbrev pub Simple : Text → Type 0
Simple n =
    (text_beq n superadmin ≡ false)
    × ((ends_with admin_suffix n && ltb (length admin_suffix) (length n)) ≡ false)

-- Why a person may read a collection. A name is `autorise` through a group of the card, and
-- `lecteur` through the group <root>/<name>.
pub data PeutLire (settings : Settings) (f : Fiche) (groups : Option Claim) (sub : Option Text)
    : Type 0 where
  ecrit : PeutEcrire settings f groups sub → PeutLire settings f groups sub
  publique : scope_is f.scope (text "public") ≡ true → PeutLire settings f groups sub
  lecteur :
      (g : Text)
      → scope_is f.scope (text "private") ≡ false
      → IsMembre groups g
      → IsEnfant settings g f.name
      → Simple f.name
      → PeutLire settings f groups sub
  autorise :
      (g p : Text) (l : List Text)
      → scope_is f.scope (text "private") ≡ false
      → IsMembre groups g
      → f.scope_groups ≡ some l
      → In p l
      → normalise g ≡ normalise p
      → PeutLire settings f groups sub

is_empty_of_In : (a : Text) (l : List Text) → In a l → is_empty l ≡ false
is_empty_of_In a [] i = absurd i
is_empty_of_In a (x ∷ l) i = refl

or_true : (b : Bool) → (b || true) ≡ true
or_true true = refl
or_true false = refl

module _ (settings : Settings) (groups : Option Claim) where
  -- A leaf gives a name to read in two ways.
  nom_de-false :
      (f n : Text) → nom_de false f ≡ some n → ((f ≡ n) × Simple n) ⊎ (nom_de true f ≡ some n)
  nom_de-false f n h =
      ways (text_beq f superadmin) (ends_with admin_suffix f && ltb 6 (length f)) refl refl h
    where
      ways :
          (b e : Bool)
          → text_beq f superadmin ≡ b
          → (ends_with admin_suffix f && ltb 6 (length f)) ≡ e
          → (if b then none else if e then some (take (length f - 6) f) else some f) ≡ some n
          → ((f ≡ n) × Simple n) ⊎ (nom_de true f ≡ some n)
      ways true e p q h = cc
      ways false true p q h = inr (rw (p, q) h)
      ways false false p q h = let same : f ≡ n = cc in inl (same, rw (← same) (p, q))

  lu_of :
      (n : Text)
      → In n (collections settings groups false)
      → ((g : Text) × IsMembre groups g × IsEnfant settings g n × Simple n)
        ⊎ In n (collections settings groups true)
  unfolding collections
  lu_of n i =
      let (g, j, e) = noms_inv settings false (chemins groups) n i in
      found g j (leaf settings g) refl e
    where
      found :
          (g : Text)
          → In g (chemins groups)
          → (o : Option Text) → leaf settings g ≡ o
          → (elim o [ none ↦ none | some f ↦ nom_de false f ]) ≡ some n
          → ((g : Text) × IsMembre groups g × IsEnfant settings g n × Simple n)
            ⊎ In n (noms settings true (chemins groups))
      found g j none p e = cc
      found g j (some f) p e = elim (nom_de-false f n e) [
        | inl (same, simple) ↦
            inl (g, IsMembre-of groups g j, (leaf_iff settings g n).0 (p ∙ ap some same), simple)
        | inr admin ↦
            inr (noms_of settings true (chemins groups) g n j (rw (p, nom_du_groupe) admin))
      ]

  of_lu :
      (g n : Text)
      → IsMembre groups g
      → IsEnfant settings g n
      → Simple n
      → In n (collections settings groups false)
  unfolding collections
  of_lu g n m c simple =
      noms_of settings false (chemins groups) g n (chemins_of groups g m)
        (rw ((leaf_iff settings g n).1 c, nom_du_groupe) (rw (simple.0, simple.1) refl))

  autorise_of :
      (a : Option (List Text))
      → groups_match groups a ≡ true
      → (g p : Text) × (l : List Text) × IsMembre groups g
        × (a ≡ some l)
        × In p l
        × (normalise g ≡ normalise p)
  unfolding groups_match
  autorise_of none h = cc
  autorise_of (some l) h =
      let (n, i, c) =
        any_inv (λ n. contains (map normalise l) n) (map normalise (chemins groups))
          (ground arith) in
      let (g, j, e) = In-of_map normalise n (chemins groups) i in
      let (p, k, q) = In-of_map normalise n l (contains→In _ n c) in
      (g, p, l, IsMembre-of groups g j, refl, k, sym e ∙ q)

  of_autorise :
      (g p : Text) (l : List Text)
      → IsMembre groups g
      → In p l
      → normalise g ≡ normalise p
      → groups_match groups (some l) ≡ true
  unfolding groups_match
  of_autorise g p l m i e =
      let j = chemins_of groups g m in
      let c = In→contains (map normalise l) (normalise g) (rw e (In-map normalise p l i)) in
      let a =
        any_of_In (λ n. contains (map normalise l) n) (normalise g) (map normalise (chemins groups))
          (In-map normalise g (chemins groups) j) c in
      rw (is_empty_of_In g (chemins groups) j, is_empty_of_In p l i) a

module _ (settings : Settings) (f : Fiche) (groups : Option Claim) (sub : Option Text) where
  ouvert :
      scope_is f.scope (text "private") ≡ false
      → can_write settings f groups sub ≡ false
      → can_read_collection settings f.name groups || groups_match groups f.scope_groups ≡ true
      → PeutLire settings f groups sub
  unfolding can_read_collection visible_collection_names
  ouvert shared w h = elim (Bool-cases (is_superadmin settings groups)) [
    | inl s ↦ PeutLire.ecrit (PeutEcrire.administre (IsOperateur-of settings groups s))
    | inr no_s ↦ elim (Bool-cases (groups_match groups f.scope_groups)) [
      | inl m ↦
          let (g, p, l, membre, e, i, q) = autorise_of settings groups f.scope_groups m in
          PeutLire.autorise g p l shared membre e i q
      | inr no_m ↦ elim (lu_of settings groups f.name (contains→In _ _ (ground arith))) [
        | inl (g, membre, c, simple) ↦ PeutLire.lecteur g shared membre c simple
        | inr admin ↦ PeutLire.ecrit (PeutEcrire.gere (gestion_of settings groups f.name admin))
      ]
    ]
  ]

  read_of : can_read settings f groups sub ≡ true → PeutLire settings f groups sub
  unfolding can_read
  read_of h = elim (Bool-cases (can_write settings f groups sub)) [
    | inl w ↦ PeutLire.ecrit ((can_write_iff settings f groups sub).0 w)
    | inr no_w ↦ elim (Bool-cases (scope_is f.scope (text "public"))) [
      | inl p ↦ PeutLire.publique p
      | inr no_p ↦ elim (Bool-cases (scope_is f.scope (text "private"))) [
        | inl s ↦ absurd (false≢true (rw (no_w, no_p, s) at h))
        | inr shared ↦ ouvert shared no_w (rw (no_w, no_p, shared) at h)
      ]
    ]
  ]

  lu_en_groupe :
      scope_is f.scope (text "private") ≡ false
      → can_read_collection settings f.name groups || groups_match groups f.scope_groups ≡ true
      → can_read settings f groups sub ≡ true
  unfolding can_read
  lu_en_groupe shared h = ground arith

  of_read : PeutLire settings f groups sub → can_read settings f groups sub ≡ true
  unfolding can_read can_read_collection visible_collection_names
  of_read (PeutLire.ecrit w) = rw ((can_write_iff settings f groups sub).1 w)
  of_read (PeutLire.publique p) = ground arith
  of_read (PeutLire.lecteur g shared m c simple) =
      let i =
        In→contains (collections settings groups false) f.name
          (of_lu settings groups g f.name m c simple) in
      lu_en_groupe shared (ground arith)
  of_read (PeutLire.autorise g p l shared m e i q) =
      let a = of_autorise settings groups g p l m i q in
      lu_en_groupe shared (rw (e, a) (or_true (can_read_collection settings f.name groups)))

-- A person may read a collection exactly when a reason says so: the right to write it, a public
-- scope, or, unless its scope is private, membership of a group of its card or of <root>/<name>, the
-- latter where the name is neither superadmin nor <other name>-admin.
pub can_read_iff :
    (settings : Settings) (f : Fiche) (groups : Option Claim) (sub : Option Text)
    → (can_read settings f groups sub ≡ true) ↔ PeutLire settings f groups sub
can_read_iff settings f groups sub = (read_of settings f groups sub, of_read settings f groups sub)

module _ (settings : Settings) (groups : Option Claim) (e : chemins groups ≡ []) where
  not_operateur : is_superadmin settings groups ≡ false
  unfolding is_superadmin
  not_operateur = rw e (ground arith)

  collections-nil : (b : Bool) → collections settings groups b ≡ []
  unfolding collections
  collections-nil b = rw e

  groups_match-nil : (a : Option (List Text)) → groups_match groups a ≡ false
  unfolding groups_match
  groups_match-nil none = refl
  groups_match-nil (some l) = rw e

  write-nil :
      (f : Fiche) (sub : Option Text)
      → can_write settings f groups sub ≡ est_createur f.created_by sub
  unfolding can_write can_write_collection writable_collection_names
  write-nil f sub = rw (not_operateur, collections-nil true) (ground arith)

  read-nil :
      (f : Fiche) (sub : Option Text)
      → can_read settings f groups sub
        ≡ (est_createur f.created_by sub || scope_is f.scope (text "public"))
  unfolding can_read can_read_collection visible_collection_names
  read-nil f sub =
      rw (write-nil f sub, not_operateur, collections-nil false, groups_match-nil f.scope_groups)
        (ground arith)

-- A claim with one value that is no whole path gives no right at all: what is left is what the
-- creator and the public scope give.
pub droits-court :
    (settings : Settings) (f : Fiche) (groups : Claim) (sub : Option Text) (g : Text)
    → In g (textes groups)
    → court g ≡ true
    → (can_write settings f (some groups) sub ≡ est_createur f.created_by sub)
      × (can_read settings f (some groups) sub
          ≡ (est_createur f.created_by sub || scope_is f.scope (text "public")))
droits-court settings f groups sub g i h =
    let e = chemins-court groups g i h in
    (write-nil settings (some groups) e f sub, read-nil settings (some groups) e f sub)
