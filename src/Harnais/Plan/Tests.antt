-- ===== src/Harnais/Plan/Tests.antt =====
-- The planners of myrag/app/harnais/plan at concrete inputs.
use mycollections.Base.{
  ℕ, ◌*◌, ◌/◌, ◌≡◌, refl, ap, filter, contains, string_eq, inl, inr, false, Option, none, some,
  List, [], ◌∷◌, map, String, In, Text, text, arith,
}
use mycollections.Harnais.Contrat.{
  collection, toujours, selon_question, sur_consigne, Source, FicheAssistant, Etape, Plan, IsPlan,
  sources_ordonnees,
}
use mycollections.Harnais.Plan.{
  Planificateur, Contexte, Cle, plan, plan_de_toutes, reconnaitre, suivre, etapes_de_consigne,
  etapes_par_regimes, etapes_du_plan, visees,
}
use mycollections.Harnais.Plan.Rangees.{Posee}
use mycollections.Harnais.Contrat.Rangs.{Croissantes, de_rang}
use mycollections.Harnais.Plan.Toutes.{plan_de_toutes-IsPlan}
use mycollections.Harnais.Plan.Regles.{IsPlanificateur, plan_total}

program : Unit {0}
unfolding plan plan_de_toutes reconnaitre suivre etapes_de_consigne etapes_par_regimes
    etapes_du_plan visees sources_ordonnees
program = tt

-- A matcher that keeps the first candidate.
abbrev premier : Text → List (Cle × String) → List (Cle × ℕ)
premier q [] = []
premier q ((c, t) ∷ l) = (c, 9000) ∷ []

abbrev premiere : Text → List (String × Text) → List (String × ℕ)
premiere q [] = []
premiere q ((s, t) ∷ l) = (s, 2000) ∷ []

abbrev par_regles : Planificateur
par_regles = record {
  version = 1;
  apparier_consignes = premier;
  apparier_sources = premiere;
  descriptions = λ s. text "textes";
  arrondi = λ x. x / 100 * 100;
  seuil = 3000;
  seuil_source = 1500;
}

premier-keys :
    (q : Text) (l : List (Cle × String)) (c : Cle) (s : ℕ)
    → In (c, s) (premier q l)
    → (t : String) × In (c, t) l
premier-keys q [] c s i = absurd i
premier-keys q ((d, t) ∷ l) c s (inl e) = (t, inl (ap (λ z. (z.0, t)) e))
premier-keys q ((d, t) ∷ l) c s (inr i) = absurd i

par_regles-IsPlanificateur : IsPlanificateur par_regles
par_regles-IsPlanificateur = record {
  keys = premier-keys;
  versioned = omega arith;
  positive = omega arith;
  rounded = λ x a b. (omega (arith, a), omega (arith, b));
}

abbrev source_de : String → Source
source_de i = record { id = i; type = collection; regime = toujours; rang = none }

abbrev fiche : FicheAssistant
fiche = record {
  assistant = "droit";
  sources =
      source_de "codes"
      ∷ record (source_de "arrets") { regime = selon_question }
      ∷ record (source_de "notes") { regime = sur_consigne }
      ∷ [];
  consignes =
      record {
        id = "relais";
        quand = some "un article";
        exemples = [];
        chercher =
            record { source = "notes"; avec = none }
            ∷ record { source = "arrets"; avec = some "article_trouve" }
            ∷ [];
      }
      ∷ [];
  validation_requise = false;
}

abbrev contexte : Contexte
contexte = record { valide = false; sources_lisibles = "codes" ∷ "arrets" ∷ "notes" ∷ [] }

abbrev sources_de : Option Plan → List (String × List ℕ)
sources_de none = []
sources_de (some p) = map (λ e. (e.source, e.attend)) p.etapes

relais :
    sources_de (plan par_regles fiche (text "un article") contexte)
    ≡ ("notes", []) ∷ ("arrets", 1 ∷ []) ∷ ("codes", []) ∷ []
unfolding program
relais = refl

posee : Posee (text " un article")
posee = (omega arith, omega arith)

plan_total_example :
    (p : Plan) × (plan par_regles fiche (text " un article") contexte ≡ some p)
    × IsPlan p
    × ((e : Etape) → In e p.etapes → In e.source contexte.sources_lisibles)
plan_total_example =
    plan_total par_regles par_regles-IsPlanificateur fiche (text " un article") contexte posee

-- A question of white space, or a version 0, is refused.
refusees :
    (plan par_regles fiche (text "  ") contexte ≡ none)
    × (plan_de_toutes 1 fiche (text "  ") contexte ≡ none)
    × (plan_de_toutes 0 fiche (text "un article") contexte ≡ none)
unfolding program
refusees = (refl, refl, refl)

plan_de_toutes-IsPlan_example :
    (p : Plan) × (plan_de_toutes 1 fiche (text " un article") contexte ≡ some p)
    × IsPlan p
    × (l : List Source) × (map (λ e. e.source) p.etapes ≡ map (λ s. s.id) l)
    × Croissantes l
    × ((o : Option ℕ)
        → filter (de_rang o) l
          ≡ filter
              (de_rang o)
              (filter (λ s. contains contexte.sources_lisibles s.id) fiche.sources))
plan_de_toutes-IsPlan_example =
    plan_de_toutes-IsPlan 1 fiche (text " un article") contexte (omega arith) posee
