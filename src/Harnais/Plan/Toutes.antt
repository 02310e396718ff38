-- ===== src/Harnais/Plan/Toutes.antt =====
-- The planner of all sources (myrag/app/harnais/plan/toutes_les_sources.py).
use mycollections.Base.{
  ℕ, ◌≡◌, ◌∙◌, refl, ap, List, [], ◌∷◌, map, String, string_eq, Text, Option, none, some, ◌≤◌, ◌-◌,
  ◌&&◌, filter, length, arith, contains, In-of_filter, suc,
}
use mycollections.Harnais.Contrat.{
  Plan, toutes_les_sources, IsPlan, numeros, un, Source, FicheAssistant, sources_ordonnees,
}
use mycollections.Harnais.Contrat.Rangs.{Croissantes, de_rang, sources_ordonnees-rangs}
use mycollections.Harnais.Plan.{Contexte, plan_de_toutes, lisibles_de, numeroter}
use mycollections.Harnais.Plan.Rangees.{
  Posee, valider-of_Rangees, Rangees, Poids-map, Rangees-numeroter, Uniques-of_Rangees,
  IsEtape-of_Rangees, Precede-of_Rangees,
}

sources-numeroter :
    (n : ℕ) (q : Text) (l : List (String × ℕ))
    → map (λ e. e.source) (numeroter n q l) ≡ map (λ x. x.0) l
sources-numeroter n q [] = refl
sources-numeroter n q ((s, p) ∷ l) = ap (λ (t : List String). s ∷ t) (sources-numeroter (suc n) q l)

map-paires :
    (l : List Source) → map (λ (x : String × ℕ). x.0) (map (λ s. (s.id, un)) l) ≡ map (λ s. s.id) l
map-paires [] = refl
map-paires (s ∷ l) = ap (λ (t : List String). s.id ∷ t) (map-paires l)

-- The plan that is checked.
abbrev brouillon : ℕ → FicheAssistant → Text → Contexte → Plan
brouillon version fiche question c =
    let etapes =
      numeroter 0 question (map (λ s. (s.id, un)) (lisibles_de fiche c.sources_lisibles)) in
    record {
      assistant = fiche.assistant;
      version = version;
      planificateur = toutes_les_sources;
      consigne = none;
      score_consigne = none;
      reponse_fiable = none;
      etapes = etapes;
      sources_ignorees = length fiche.sources - length etapes;
      a_valider = fiche.validation_requise && c.valide;
    }

Rangees-toutes :
    (v : ℕ) (fiche : FicheAssistant) (q : Text) (c : Contexte)
    → Posee q
    → Rangees c.sources_lisibles 0 (brouillon v fiche q c).etapes
Rangees-toutes v fiche q c asked = Rangees-numeroter c.sources_lisibles 0 q _ asked (
    Poids-map c.sources_lisibles (λ s. s.id) un (lisibles_de fiche c.sources_lisibles)
      (λ s i.
        (In-of_filter s (λ x. contains c.sources_lisibles x.id) (sources_ordonnees fiche) i).1)
      (omega arith) (omega arith))

-- For a question of 1 to 1000 characters once it is stripped and a version of at least 1, the planner
-- ends with a plan, which is valid. Its steps ask the sources of a list whose ranks grow, those without
-- a rank last, and whose sources of each rank, or of none, are the readable ones of the card with this
-- rank, in the order of the card.
pub plan_de_toutes-IsPlan :
    (version : ℕ) (fiche : FicheAssistant) (question : Text) (c : Contexte)
    → 1 ≤ version
    → Posee question
    → (p : Plan) × (plan_de_toutes version fiche question c ≡ some p)
      × IsPlan p
      × (l : List Source) × (map (λ e. e.source) p.etapes ≡ map (λ s. s.id) l)
      × Croissantes l
      × ((o : Option ℕ)
          → filter (de_rang o) l
            ≡ filter (de_rang o) (filter (λ s. contains c.sources_lisibles s.id) fiche.sources))
unfolding plan_de_toutes
plan_de_toutes-IsPlan v fiche q c known asked =
    let u = Rangees-toutes v fiche q c asked in
    let p = brouillon v fiche q c in
    let l = p.etapes in
    (
      p,
      valider-of_Rangees c.sources_lisibles p known u,
      record {
        versioned = known;
        scored = λ s h. cc;
        trusted = λ r h. cc;
        steps = λ x i. (IsEtape-of_Rangees c.sources_lisibles 0 l x u i).0;
        unique = Uniques-of_Rangees c.sources_lisibles 0 l u;
        ordered = λ x i.
            Precede-of_Rangees c.sources_lisibles 0 l (numeros l) x
              (λ a one less. absurd (omega (arith, one, less))) (λ a j. j) u i;
        exclusive = λ h. ground (arith, h);
      },
      lisibles_de fiche c.sources_lisibles,
      sources-numeroter 0 q _ ∙ map-paires (lisibles_de fiche c.sources_lisibles),
      (sources_ordonnees-rangs (λ s. contains c.sources_lisibles s.id) fiche).0,
      (sources_ordonnees-rangs (λ s. contains c.sources_lisibles s.id) fiche).1,
    )
