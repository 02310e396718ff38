-- ===== src/Harnais/Perimetre.antt =====
-- myrag/app/harnais/perimetre.py: what an assistant may search for this person.
pub mod Restriction
mod Tests
use mycollections.Base.{
  ℕ, ◌+◌, ◌≡◌, Bool, true, false, ◌&&◌, ◌||◌, not, Option, none, some, List, [], ◌∷◌, map, String,
  filter, length, contains, string_eq, nat_eq, is_empty, if◌then◌else◌, Text, text_eq,
}
use mycollections.Access
use mycollections.Access.{Settings, Claim}
use mycollections.Harnais.Contrat.{
  TypeSource, collection, connecteur, Source, FicheAssistant, sources_ordonnees, Etape, Plan,
  numeros,
}

-- The card of a collection as the perimeter sees it: archived or not, and what access reads.
pub record Collection : Type 0 where
  pub archived_at : Option ℕ
  pub fiche : Access.Fiche

pub collection_lisible : Settings → Option Collection → Option Claim → Option Text → Bool
collection_lisible settings none groupes sub = false
collection_lisible settings (some col) groupes sub = elim col.archived_at [
  | some d ↦ false
  | none ↦ Access.can_read settings col.fiche groupes sub
]

abbrev lisible :
    Settings
    → (String → Option Collection)
    → List String
    → Option Claim
    → Option Text
    → Source
    → Bool
lisible settings collections connecteurs groupes sub s = elim s.type [
  | collection ↦ collection_lisible settings (collections s.id) groupes sub
  | connecteur ↦ contains connecteurs s.id
]

pub sources_lisibles :
    Settings
    → FicheAssistant
    → (String → Option Collection)
    → Option Claim
    → Option Text
    → List String
    → List String
sources_lisibles settings fiche collections groupes sub connecteurs =
    map (λ s. s.id)
      (filter (lisible settings collections connecteurs groupes sub) (sources_ordonnees fiche))

-- `len(set(l))`
abbrev pub distincts : List String → ℕ
distincts [] = 0
distincts (x ∷ l) = let reste = distincts l in if contains l x then reste else 1 + reste

abbrev pub permise : List String → Etape → Bool
permise lisibles e = contains lisibles e.source

abbrev pub gardees : List String → List Etape → List Etape
gardees lisibles etapes = filter (permise lisibles) etapes

-- {e.n for e in plan.etapes} - {e.n for e in gardees}
abbrev pub retirees : List String → List Etape → List ℕ
retirees lisibles etapes =
    filter (λ n. not (contains (numeros (gardees lisibles etapes)) n)) (numeros etapes)

abbrev pub attend_encore : List ℕ → Etape → List ℕ
attend_encore sans e = filter (λ a. not (contains sans a)) e.attend

abbrev pub reprise : List ℕ → Etape → Etape
reprise sans e =
    let attend = attend_encore sans e in
    record e { attend = attend; avec = if is_empty attend then none else e.avec }

unfoldable pub restreindre_plan : Plan → List String → Plan
restreindre_plan plan lisibles = record plan {
  etapes = map (reprise (retirees lisibles plan.etapes)) (gardees lisibles plan.etapes);
  sources_ignorees =
      plan.sources_ignorees
      + distincts (map (λ e. e.source) (filter (λ e. not (permise lisibles e)) plan.etapes));
}
