-- ===== src/Access/Droits.antt =====
-- Who may write and who may read a collection: can_write and can_read of
-- myrag/app/services/access.py against a list of reasons.
use mycollections.Base.{
  ◌≡◌, ◌↔◌, ◌∙◌, refl, ap, inl, inr, Bool, true, false, not, ◌&&◌, Option, none, some, List, [],
  ◌∷◌, ◌++◌, In, any, arith, Bool-cases, Text, is_empty, contains, contains→In, In→contains,
  text_eq, text_beq_iff,
}
use mycollections.Access.{
  Settings, Claim, Fiche, textes, court, chemins, leaf, admin_suffix, nom_de, nom_du_groupe, noms,
  collections, normalise, groupes_superadmin, is_superadmin, est_createur,
  writable_collection_names, can_write_collection, can_write,
}
use mycollections.Access.Chemins.{any_of_In, IsEnfant, leaf_iff, nom_de-admin_iff}

-- The person is in the group g: the claim is there, it has g, and all its values are whole paths.
pub record IsMembre (groups : Option Claim) (g : Text) : Type 0 where
  pub claim : Claim
  pub given : groups ≡ some claim
  pub member : In g (textes claim)
  pub whole : any court (textes claim) ≡ false

pub IsMembre-of : (groups : Option Claim) (g : Text) → In g (chemins groups) → IsMembre groups g
unfolding chemins
IsMembre-of none g i = absurd i
IsMembre-of (some l) g i = elim (Bool-cases (any court (textes l))) [
  | inl short ↦ absurd (rw short at i)
  | inr whole ↦ record { claim = l; given = refl; member = rw whole at i; whole = whole }
]

pub chemins_of : (groups : Option Claim) (g : Text) → IsMembre groups g → In g (chemins groups)
unfolding chemins
chemins_of groups g m = rw (m.given, m.whole) m.member

pub any_inv :
    (p : Text → Bool) (l : List Text) → any p l ≡ true → (g : Text) × In g l × (p g ≡ true)
any_inv p [] h = cc
any_inv p (x ∷ l) h = elim (Bool-cases (p x)) [
  | inl e ↦ (x, inl refl, e)
  | inr e ↦ let (g, i, q) = any_inv p l (rw e at h) in (g, inr i, q)
]

module _ (settings : Settings) where
  pub noms_inv :
      (b : Bool) (l : List Text) (n : Text)
      → In n (noms settings b l)
      → (g : Text) × In g l × (nom_du_groupe settings b g ≡ some n)
  noms_inv b [] n i = absurd i
  noms_inv b (x ∷ l) n i = split (nom_du_groupe settings b x) refl (noms_inv b l n) i
    where
      split :
          (o : Option Text)
          → nom_du_groupe settings b x ≡ o
          → (In n (noms settings b l) → (g : Text) × In g l × (nom_du_groupe settings b g ≡ some n))
          → In n (elim o [ none ↦ noms settings b l | some m ↦ m ∷ noms settings b l ])
          → (g : Text) × In g (x ∷ l) × (nom_du_groupe settings b g ≡ some n)
      split none e ih i = let (g, j, q) = ih i in (g, inr j, q)
      split (some m) e ih (inl same) = (x, inl refl, rw same e)
      split (some m) e ih (inr i) = let (g, j, q) = ih i in (g, inr j, q)

  pub noms_of :
      (b : Bool) (l : List Text) (g n : Text)
      → In g l
      → nom_du_groupe settings b g ≡ some n
      → In n (noms settings b l)
  noms_of b [] g n i h = absurd i
  noms_of b (x ∷ l) g n (inl e) h = rw (rw e at h, noms) (inl refl)
  noms_of b (x ∷ l) g n (inr i) h = push (nom_du_groupe settings b x) (noms_of b l g n i h)
    where
      push :
          (o : Option Text)
          → In n (noms settings b l)
          → In n (elim o [ none ↦ noms settings b l | some m ↦ m ∷ noms settings b l ])
      push none i = i
      push (some m) i = inr i

-- An operator: a group of the person is one of the configured ones, up to the slashes at its ends.
pub record IsOperateur (settings : Settings) (groups : Option Claim) : Type 0 where
  pub group : Text
  pub membre : IsMembre groups group
  pub listed : In (normalise group) (groupes_superadmin settings)

-- A manager: a group of the person is the direct child <name>-admin of the root.
pub record IsGestionnaire (settings : Settings) (groups : Option Claim) (name : Text) : Type 0 where
  pub group : Text
  pub membre : IsMembre groups group
  pub child : IsEnfant settings group (name ++ admin_suffix)
  pub named : is_empty name ≡ false

module _ (settings : Settings) (groups : Option Claim) where
  pub IsOperateur-of : is_superadmin settings groups ≡ true → IsOperateur settings groups
  unfolding is_superadmin
  IsOperateur-of h =
      let (g, i, c) =
        any_inv (λ g. contains (groupes_superadmin settings) (normalise g)) (chemins groups)
          (ground arith) in
      record { group = g; membre = IsMembre-of groups g i; listed = contains→In _ _ c }

  pub of_operateur : IsOperateur settings groups → is_superadmin settings groups ≡ true
  unfolding is_superadmin
  of_operateur o =
      let c = In→contains (groupes_superadmin settings) (normalise o.group) o.listed in
      let a =
        any_of_In (λ g. contains (groupes_superadmin settings) (normalise g)) o.group
          (chemins groups) (chemins_of groups o.group o.membre) c in
      rw a (not_empty (groupes_superadmin settings) o.listed)
    where
      not_empty : (l : List Text) → In (normalise o.group) l → (not (is_empty l) && true) ≡ true
      not_empty [] i = absurd i
      not_empty (x ∷ l) i = refl

  pub gestion_of :
      (n : Text) → In n (collections settings groups true) → IsGestionnaire settings groups n
  unfolding collections
  gestion_of n i =
      let (g, j, e) = noms_inv settings true (chemins groups) n i in
      found g j (leaf settings g) refl e
    where
      found :
          (g : Text)
          → In g (chemins groups)
          → (o : Option Text) → leaf settings g ≡ o
          → (elim o [ none ↦ none | some f ↦ nom_de true f ]) ≡ some n
          → IsGestionnaire settings groups n
      found g j none p e = cc
      found g j (some f) p e =
          let (q, named) = (nom_de-admin_iff f n).0 e in
          record {
            group = g;
            membre = IsMembre-of groups g j;
            child = (leaf_iff settings g (n ++ admin_suffix)).0 (p ∙ ap some q);
            named = named;
          }

  pub of_gestion :
      (n : Text) → IsGestionnaire settings groups n → In n (collections settings groups true)
  unfolding collections
  of_gestion n m =
      let l = (leaf_iff settings m.group (n ++ admin_suffix)).1 m.child in
      noms_of settings true (chemins groups) m.group n (chemins_of groups m.group m.membre)
        (rw (l, nom_du_groupe) ((nom_de-admin_iff (n ++ admin_suffix) n).1 (refl, m.named)))

pub est_createur_iff :
    (c s : Option Text)
    → (est_createur c s ≡ true) ↔ ((t : Text) × (c ≡ some t) × (s ≡ some t) × (is_empty t ≡ false))
unfolding est_createur
est_createur_iff none s = (λ h. cc, λ (t, a, b, e). cc)
est_createur_iff (some c) none = (λ h. cc, λ (t, a, b, e). cc)
est_createur_iff (some c) (some s) = (
  λ h. (c, refl, ground (arith, text_beq_iff c s), ground arith),
  λ (t, a, b, e). ground (arith, text_beq_iff c s, text_beq_iff t t),
)

-- Why a person may write a collection.
pub data PeutEcrire (settings : Settings) (f : Fiche) (groups : Option Claim) (sub : Option Text)
    : Type 0 where
  administre : IsOperateur settings groups → PeutEcrire settings f groups sub
  cree :
      (t : Text)
      → f.created_by ≡ some t
      → sub ≡ some t
      → is_empty t ≡ false
      → PeutEcrire settings f groups sub
  gere : IsGestionnaire settings groups f.name → PeutEcrire settings f groups sub

module _ (settings : Settings) (f : Fiche) (groups : Option Claim) (sub : Option Text) where
  write_of : can_write settings f groups sub ≡ true → PeutEcrire settings f groups sub
  unfolding can_write can_write_collection writable_collection_names
  write_of h = elim (Bool-cases (is_superadmin settings groups)) [
    | inl s ↦ PeutEcrire.administre (IsOperateur-of settings groups s)
    | inr not_s ↦ elim (Bool-cases (est_createur f.created_by sub)) [
      | inl c ↦ let (t, a, b, e) = (est_createur_iff _ _).0 c in PeutEcrire.cree t a b e
      | inr not_c ↦
          PeutEcrire.gere
            (gestion_of settings groups f.name (contains→In _ _ (rw (not_s, not_c) at h)))
    ]
  ]

  of_write : PeutEcrire settings f groups sub → can_write settings f groups sub ≡ true
  unfolding can_write can_write_collection writable_collection_names
  of_write (PeutEcrire.administre o) = rw (of_operateur settings groups o)
  of_write (PeutEcrire.cree t a b e) =
      let c = (est_createur_iff f.created_by sub).1 (t, a, b, e) in ground arith
  of_write (PeutEcrire.gere m) =
      let c =
        In→contains (collections settings groups true) f.name
          (of_gestion settings groups f.name m) in
      ground arith

-- A person may write a collection exactly when a reason says so: operator, creator, or member of
-- the group <root>/<name>-admin, the groups being read from a claim of whole paths only.
pub can_write_iff :
    (settings : Settings) (f : Fiche) (groups : Option Claim) (sub : Option Text)
    → (can_write settings f groups sub ≡ true) ↔ PeutEcrire settings f groups sub
can_write_iff settings f groups sub =
    (write_of settings f groups sub, of_write settings f groups sub)
