-- ===== src/Harnais/Fusion/Tests.antt =====
-- The quota of myrag/app/harnais/fusion.py at a concrete input.
use mycollections.Base.{
  ◌≤◌, ◌≡◌, refl, String, string_eq, List, [], ◌∷◌, In, length, min, ◌+◌, ◌*◌, ◌-◌, if◌then◌else◌,
  ◌==◌,
}
use mycollections.Harnais.Fusion.{avec_quota}
use mycollections.Harnais.Fusion.Places.{de_source}
use mycollections.Harnais.Fusion.Quota.{Distincts, avec_quota-length}

abbrev source : String → String
source c = if c == "c4" then "codes" else "arrets"

abbrev classes : List String
classes = "a1" ∷ "a2" ∷ "a3" ∷ "c4" ∷ []

garde : avec_quota source classes ("codes" ∷ []) 1 2 ≡ "a1" ∷ "c4" ∷ []
unfolding avec_quota
garde = refl

classes-Distincts : Distincts classes
classes-Distincts = (refl, (refl, (refl, (refl, tt))))

avec_quota-length_example :
    (length (avec_quota source classes ("codes" ∷ []) 1 2) ≤ 2)
    × ((s : String)
        → In s ("codes" ∷ [])
        → min 1 (de_source source s classes)
          ≤ de_source source s (avec_quota source classes ("codes" ∷ []) 1 2) + (1 * 1 - 2))
avec_quota-length_example = avec_quota-length source classes ("codes" ∷ []) 1 2 classes-Distincts
