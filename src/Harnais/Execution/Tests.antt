-- ===== src/Harnais/Execution/Tests.antt =====
-- The execution of a restricted plan at a concrete input: the connector also answers with a passage of
-- another source.
use mycollections.Base.{
  ℕ, ◌≤◌, ◌≡◌, refl, inl, inr, none, some, false, Option, List, [], ◌∷◌, String, In, arith, suc,
  string_eq, text, text_eq, ltb,
}
use mycollections.Harnais.Contrat.{Etape, Plan, regles, IsPlan, IsEtape}
use mycollections.Harnais.Perimetre.{restreindre_plan}
use mycollections.Harnais.Execution.{Passage, SortieEtape, Connecteur, trouves, trouvee, executer}
use mycollections.Harnais.Execution.Lisibles.{executer-lisibles}

abbrev etape : Etape
etape = record {
  n = 1;
  source = "notes";
  question = text "délai ?";
  poids = 10000;
  attend = [];
  avec = none;
}

abbrev suivante : Etape
suivante = record etape { n = 2; attend = 1 ∷ []; avec = some "article_trouve" }

abbrev plan : Plan
plan = record {
  assistant = "aide";
  version = 1;
  planificateur = regles;
  consigne = none;
  score_consigne = none;
  reponse_fiable = none;
  etapes = etape ∷ suivante ∷ [];
  sources_ignorees = 0;
  a_valider = false;
}

abbrev des_notes : Passage
des_notes = record { source = "notes"; rang = 1; score = some 4; ident = none }

abbrev egare : Passage
egare = record des_notes { source = "codes" }

abbrev un_connecteur : Connecteur
un_connecteur = record { cle = 1; chercher = λ e l. trouves (egare ∷ des_notes ∷ l); groupe = none }

abbrev connecteurs : String → Option Connecteur
connecteurs s = some un_connecteur

plan-IsPlan : IsPlan plan
plan-IsPlan = record {
  versioned = omega arith;
  scored = λ s h. cc;
  trusted = λ r h. cc;
  steps = pas;
  unique = (λ i. elim i [ inl e ↦ omega arith | inr r ↦ r ], (λ i. i, tt));
  ordered = avant;
  exclusive = λ h. cc;
}
  where
    pas : (e : Etape) → In e plan.etapes → IsEtape e
    pas e (inl h) = rw h (record {
      numbered = omega arith;
      weighted = omega arith;
      bounded = omega arith;
      asked = (omega arith, omega arith);
      relay = λ k. cc;
    })
    pas e (inr (inl h)) = rw h (record {
      numbered = omega arith;
      weighted = omega arith;
      bounded = omega arith;
      asked = (omega arith, omega arith);
      relay = λ k. refl;
    })
    pas e (inr (inr i)) = absurd i

    avant :
        (e : Etape) → In e plan.etapes → (a : ℕ) → In a e.attend → (suc a ≤ e.n) × In a (1 ∷ 2 ∷ [])
    avant e (inl h) a i = absurd (rw h at i)
    avant e (inr (inl h)) a i = elim (rw h at i) [
      | inl q ↦ (rw (h, q) (omega arith), inl q)
      | inr r ↦ absurd r
    ]
    avant e (inr (inr i)) a j = absurd i

executer-lisibles_example :
    (r : List (ℕ × SortieEtape)) × (executer connecteurs ltb (restreindre_plan plan ("notes" ∷ []))
      ≡ some r)
    × ((e : Etape)
        → In e (restreindre_plan plan ("notes" ∷ [])).etapes
        → (s : SortieEtape) × (trouvee e.n r ≡ some s))
    × ((n : ℕ) (s : SortieEtape) (p : Passage)
        → In (n, s) r
        → In p s.passages
        → In p.source ("notes" ∷ []))
executer-lisibles_example = executer-lisibles connecteurs ltb plan ("notes" ∷ []) plan-IsPlan
