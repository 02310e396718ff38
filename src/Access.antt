-- ===== src/Access.antt =====
-- myrag/app/services/access.py: who reads and who writes a collection, from the groups of the
-- token. A value of the `groups` claim is `none` where it is no text; a set of names is a list,
-- read through membership only. The settings are a record. The warning of `chemins` is left out: it
-- is logged once, and no answer depends on it.
pub mod Chemins
pub mod Droits
pub mod Lecture
mod Tests
use mycollections.Base.{
  ℕ, ◌-◌, ◌≡◌, Bool, true, false, ◌&&◌, ◌||◌, not, Option, none, some, List, [], ◌∷◌, ◌++◌, map,
  any, filter, length, take, drop, if◌then◌else◌, nat_beq, ltb, Text, text, text_beq, is_empty,
  is_space, strip, strip_right, starts_with, ends_with, split, contains, nat_eq, text_eq,
}

abbrev pub slash : ℕ
slash = b'/'

abbrev is_slash : ℕ → Bool
is_slash c = nat_beq c slash

abbrev pub superadmin : Text
superadmin = text "superadmin"

abbrev pub admin_suffix : Text
admin_suffix = text "-admin"

-- The settings that are read here (myrag/app/config.py).
pub record Settings : Type 0 where
  pub myrag_group_root : Text
  pub myrag_superadmin_groupes : Text
  pub auth_enabled : Bool

abbrev pub Claim : Type 0
Claim = List (Option Text)

unfoldable pub root : Settings → Text
root settings = strip_right is_slash settings.myrag_group_root

unfoldable pub normalise : Text → Text
normalise path = slash ∷ strip is_slash path

-- `[g for g in groups or [] if isinstance(g, str)]`
abbrev pub textes : Claim → List Text
textes [] = []
textes (none ∷ l) = textes l
textes (some g ∷ l) = g ∷ textes l

abbrev pub court : Text → Bool
court g = not (starts_with (slash ∷ []) g)

unfoldable pub chemins : Option Claim → List Text
chemins none = []
chemins (some groups) = let valeurs = textes groups in if any court valeurs then [] else valeurs

abbrev feuille : Text → Option Text
feuille f = if is_empty f || contains f slash then none else some f

-- What is left of a path behind a prefix.
abbrev apres : Text → Text → Option Text
apres prefix p = if not (starts_with prefix p) then none else feuille (drop (length prefix) p)

unfoldable pub leaf : Settings → Text → Option Text
leaf settings path = apres (root settings ++ slash ∷ []) (strip_right is_slash path)

abbrev pub groupe_dev : Text
groupe_dev = text "/__dev__/superadmin"

-- The comprehension over the values of MYRAG_SUPERADMIN_GROUPES.
abbrev configures : List Text → List Text
configures [] = []
configures (v ∷ l) =
    let reste = configures l in
    if starts_with (slash ∷ []) (strip is_space v)
    then normalise (strip is_space v) ∷ reste
    else reste

unfoldable pub groupes_superadmin : Settings → List Text
groupes_superadmin settings =
    let valeurs = configures (split b',' settings.myrag_superadmin_groupes) in
    if not settings.auth_enabled then groupe_dev ∷ valeurs else valeurs

unfoldable pub is_superadmin : Settings → Option Claim → Bool
is_superadmin settings groups =
    let cibles = groupes_superadmin settings in
    not (is_empty cibles) && any (λ g. contains cibles (normalise g)) (chemins groups)

-- The name that one leaf gives, if any.
abbrev nom_de : Bool → Text → Option Text
nom_de admin_only f =
    if text_beq f superadmin
    then none
    else if ends_with admin_suffix f && ltb (length admin_suffix) (length f)
    then some (take (length f - length admin_suffix) f)
    else if admin_only
    then none
    else some f

abbrev nom_du_groupe : Settings → Bool → Text → Option Text
nom_du_groupe settings admin_only g = elim (leaf settings g) [
  | none ↦ none
  | some f ↦ nom_de admin_only f
]

abbrev noms : Settings → Bool → List Text → List Text
noms settings admin_only [] = []
noms settings admin_only (g ∷ l) = elim (nom_du_groupe settings admin_only g) [
  | none ↦ noms settings admin_only l
  | some n ↦ n ∷ noms settings admin_only l
]

unfoldable pub collections : Settings → Option Claim → Bool → List Text
collections settings groups admin_only = noms settings admin_only (chemins groups)

-- `none` stands for all the collections.
unfoldable pub visible_collection_names : Settings → Option Claim → Option (List Text)
visible_collection_names settings groups =
    if is_superadmin settings groups then none else some (collections settings groups false)

unfoldable pub writable_collection_names : Settings → Option Claim → Option (List Text)
writable_collection_names settings groups =
    if is_superadmin settings groups then none else some (collections settings groups true)

abbrev permet : Option (List Text) → Text → Bool
permet none name = true
permet (some allowed) name = contains allowed name

unfoldable pub can_read_collection : Settings → Text → Option Claim → Bool
can_read_collection settings name groups = permet (visible_collection_names settings groups) name

unfoldable pub can_write_collection : Settings → Text → Option Claim → Bool
can_write_collection settings name groups = permet (writable_collection_names settings groups) name

-- `bool(norm_user & norm_auth)`, after the early return on an empty side.
unfoldable pub groups_match : Option Claim → Option (List Text) → Bool
groups_match user_groups none = false
groups_match user_groups (some authorized_paths) =
    let user_paths = chemins user_groups in
    if is_empty user_paths || is_empty authorized_paths
    then false
    else any (λ n. contains (map normalise authorized_paths) n) (map normalise user_paths)

-- `created_by and user_sub and created_by == user_sub`
unfoldable pub est_createur : Option Text → Option Text → Bool
est_createur (some c) (some s) = not (is_empty c) && not (is_empty s) && text_beq c s
est_createur _ _ = false

-- The attributes of the card that the rule reads, with the name.
pub record Fiche : Type 0 where
  pub name : Text
  pub scope : Option Text
  pub scope_groups : Option (List Text)
  pub created_by : Option Text

unfoldable pub can_write : Settings → Fiche → Option Claim → Option Text → Bool
can_write settings f user_groups user_sub =
    if is_superadmin settings user_groups
    then true
    else if est_createur f.created_by user_sub
    then true
    else can_write_collection settings f.name user_groups

abbrev pub scope_is : Option Text → Text → Bool
scope_is none s = false
scope_is (some t) s = text_beq t s

unfoldable pub can_read : Settings → Fiche → Option Claim → Option Text → Bool
can_read settings f user_groups user_sub =
    if can_write settings f user_groups user_sub
    then true
    else if scope_is f.scope (text "public")
    then true
    else if scope_is f.scope (text "private")
    then false
    else can_read_collection settings f.name user_groups || groups_match user_groups f.scope_groups
