-- ===== src/Harnais/Perimetre/Tests.antt =====
-- The restriction of a plan at a concrete input: the source of step 1 is not readable, and step 2,
-- which awaited it with a relay, goes alone.
use mycollections.Base.{
  ℕ, suc, ◌≤◌, ◌≡◌, refl, inl, inr, none, some, List, [], ◌∷◌, String, In, arith, false, string_eq,
  text, text_eq,
}
use mycollections.Harnais.Contrat.{Etape, Plan, regles, IsPlan, IsEtape}
use mycollections.Harnais.Perimetre.{restreindre_plan}
use mycollections.Harnais.Perimetre.Restriction.{
  restreindre_plan-IsPlan, restreindre_plan-lisibles, restreindre_plan_idem,
}

abbrev premiere : Etape
premiere = record {
  n = 1;
  source = "codes";
  question = text "délai ?";
  poids = 10000;
  attend = [];
  avec = none;
}

abbrev seconde : Etape
seconde = record premiere { n = 2; source = "notes"; attend = 1 ∷ []; avec = some "article_trouve" }

abbrev plan : Plan
plan = record {
  assistant = "aide";
  version = 1;
  planificateur = regles;
  consigne = none;
  score_consigne = none;
  reponse_fiable = none;
  etapes = premiere ∷ seconde ∷ [];
  sources_ignorees = 0;
  a_valider = false;
}

abbrev permis : List String
permis = "notes" ∷ []

plan-IsPlan : IsPlan plan
plan-IsPlan = record {
  versioned = omega arith;
  scored = λ s h. cc;
  trusted = λ r h. cc;
  steps = pas;
  unique = (λ i. elim i [ inl e ↦ omega arith | inr r ↦ r ], (λ i. i, tt));
  ordered = avant;
  exclusive = λ h. cc;
}
  where
    pas : (e : Etape) → In e plan.etapes → IsEtape e
    pas e (inl h) = rw h (record {
      numbered = omega arith;
      weighted = omega arith;
      bounded = omega arith;
      asked = (omega arith, omega arith);
      relay = λ k. cc;
    })
    pas e (inr (inl h)) = rw h (record {
      numbered = omega arith;
      weighted = omega arith;
      bounded = omega arith;
      asked = (omega arith, omega arith);
      relay = λ k. refl;
    })
    pas e (inr (inr i)) = absurd i

    avant :
        (e : Etape) → In e plan.etapes → (a : ℕ) → In a e.attend → (suc a ≤ e.n) × In a (1 ∷ 2 ∷ [])
    avant e (inl h) a i = absurd (rw h at i)
    avant e (inr (inl h)) a i = elim (rw h at i) [
      | inl q ↦ (rw (h, q) (omega arith), inl q)
      | inr r ↦ absurd r
    ]
    avant e (inr (inr i)) a j = absurd i

restreint : (restreindre_plan plan permis).etapes ≡ record seconde { attend = []; avec = none } ∷ []
unfolding restreindre_plan
restreint = refl

restreindre_plan-IsPlan_example : IsPlan (restreindre_plan plan permis)
restreindre_plan-IsPlan_example = restreindre_plan-IsPlan plan permis plan-IsPlan

restreindre_plan-lisibles_example :
    ((e : Etape) → In e (restreindre_plan plan permis).etapes → In e.source permis)
    × ((e : Etape)
        → In e plan.etapes
        → In e.source permis
        → (r : Etape) × In r (restreindre_plan plan permis).etapes
          × (r.n ≡ e.n)
          × (r.source ≡ e.source)
          × (r.question ≡ e.question)
          × (r.poids ≡ e.poids))
restreindre_plan-lisibles_example = restreindre_plan-lisibles plan permis

restreindre_plan_idem_example :
    restreindre_plan (restreindre_plan plan permis) permis ≡ restreindre_plan plan permis
restreindre_plan_idem_example = restreindre_plan_idem plan permis
