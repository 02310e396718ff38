-- ===== src/Access/Tests.antt =====
-- The rights of myrag/app/services/access.py at concrete inputs.
use mycollections.Base.{
  String, ◌≡◌, ◌↔◌, refl, inl, inr, true, false, ◌||◌, Option, none, some, [], ◌∷◌, text,
}
use mycollections.Access.{
  Settings, Claim, Fiche, chemins, root, leaf, normalise, groupes_superadmin, is_superadmin,
  collections, visible_collection_names, writable_collection_names, can_read_collection,
  can_write_collection, groups_match, est_createur, can_write, can_read, scope_is,
}
use mycollections.Access.Chemins.{IsEnfant, leaf_iff}
use mycollections.Access.Droits.{PeutEcrire, can_write_iff}
use mycollections.Access.Lecture.{PeutLire, can_read_iff, droits-court}

abbrev beta : Settings
beta = record {
  myrag_group_root = text "/myrag/";
  myrag_superadmin_groupes = text "superadmin, /g/admins/";
  auth_enabled = true;
}

abbrev ceseda : Fiche
ceseda = record {
  name = text "ceseda";
  scope = some (text "group");
  scope_groups = some (text "/prefectures" ∷ []);
  created_by = some (text "u1");
}

abbrev claim : String → Option Claim
claim g = some (some (text g) ∷ none ∷ [])

abbrev courte : Claim
courte = some (text "/myrag/ceseda-admin") ∷ some (text "superadmin") ∷ []

program : Unit {0}
unfolding root leaf normalise groupes_superadmin chemins is_superadmin collections
    visible_collection_names writable_collection_names can_read_collection can_write_collection
    groups_match est_createur can_write can_read
program = tt

gestion :
    (can_write beta ceseda (claim "/myrag/ceseda-admin") none ≡ true)
    × (can_write beta ceseda (claim "/myrag/ceseda") none ≡ false)
    × (can_write beta ceseda (claim "/g/admins") none ≡ true)
    × (can_write beta ceseda none (some (text "u1")) ≡ true)
    × (can_write beta ceseda (some courte) none ≡ false)
unfolding program
gestion = (refl, refl, refl, refl, refl)

lecture :
    (can_read beta ceseda (claim "/myrag/ceseda") none ≡ true)
    × (can_read beta ceseda (claim "/prefectures/") none ≡ true)
    × (can_read beta ceseda (claim "/autres") none ≡ false)
unfolding program
lecture = (refl, refl, refl)

-- The members of the group of a collection whose name looks like that of an administrators' group.
nom_en_admin :
    can_read beta
      (record ceseda { name = text "bofip-admin"; scope_groups = none; created_by = none })
      (claim "/myrag/bofip-admin")
      none
    ≡ false
unfolding program
nom_en_admin = refl

leaf_iff_example :
    (leaf beta (text "/myrag/ceseda/") ≡ some (text "ceseda"))
    ↔ IsEnfant beta (text "/myrag/ceseda/") (text "ceseda")
leaf_iff_example = leaf_iff beta (text "/myrag/ceseda/") (text "ceseda")

can_write_iff_example :
    (can_write beta ceseda (claim "/myrag/ceseda-admin") none ≡ true)
    ↔ PeutEcrire beta ceseda (claim "/myrag/ceseda-admin") none
can_write_iff_example = can_write_iff beta ceseda (claim "/myrag/ceseda-admin") none

can_read_iff_example :
    (can_read beta ceseda (claim "/prefectures/") none ≡ true)
    ↔ PeutLire beta ceseda (claim "/prefectures/") none
can_read_iff_example = can_read_iff beta ceseda (claim "/prefectures/") none

droits-court_example :
    (can_write beta ceseda (some courte) none ≡ est_createur (some (text "u1")) none)
    × (can_read beta ceseda (some courte) none
        ≡ (est_createur (some (text "u1")) none || scope_is (some (text "group")) (text "public")))
droits-court_example =
    droits-court beta ceseda courte none (text "superadmin") (inr (inl refl)) refl
