-- ===== src/Harnais/Plan/Regles.antt =====
-- The planner by rules (myrag/app/harnais/plan/regles.py): it always makes a valid plan.
use mycollections.Base.{
  ℕ, suc, ◌+◌, ◌≤◌, ◌≡◌, refl, ap, subst, Bool, true, Option, none, some, List, [], ◌∷◌, ◌++◌, map,
  String, string_eq, In, inl, inr, arith, contains, filter, Bool-cases, Option-cases,
  In-append_cases, In-of_filter, get_elem?, leb, min, max, contains→In, Text, some_inj, is_some,
  if◌then◌else◌,
}
use mycollections.Harnais.Contrat.{
  Etape, IsPlan, Plan, numeros, un, Source, FicheAssistant, Consigne, sources_ordonnees,
}
use mycollections.Harnais.Plan.{
  Planificateur, Contexte, Cle, textes_de, candidats, reconnaitre, retenue, reconnue, candidats_de,
  consigne_a, par_defaut, peser, peser_tout, score_de, decrites, choisies, ou_toutes,
  etapes_par_regimes, etapes_de_consigne, etapes_du_plan, a_etapes, plan, plan_fait, est_toujours,
  est_selon, lisibles_de, numeroter,
}
use mycollections.Harnais.Plan.Rangees.{
  Posee, valider-of_Rangees, Rangees, Poids, Poids-append, Poids-map, Rangees-numeroter,
  Rangees-append_first, Rangees-suivre, Uniques-of_Rangees, IsEtape-of_Rangees, Precede-of_Rangees,
}

-- What the planner relies on: the matcher answers with keys that it was given, a source needs a
-- score above 0, and rounding a weight between a half and one leaves a weight.
pub record IsPlanificateur (r : Planificateur) : Type 0 where
  pub keys :
      (q : Text) (l : List (Cle × String)) (c : Cle) (s : ℕ)
      → In (c, s) (r.apparier_consignes q l)
      → (t : String) × In (c, t) l
  pub versioned : 1 ≤ r.version
  pub positive : 1 ≤ r.seuil_source
  pub rounded : (x : ℕ) → 5000 ≤ x → x ≤ un → (1 ≤ r.arrondi x) × (r.arrondi x ≤ un)

In-textes_de :
    (i j : ℕ) (l : List String) (c : Cle) (t : String) → In (c, t) (textes_de i j l) → c.0 ≡ i
In-textes_de i j [] c t h = absurd h
In-textes_de i j (x ∷ l) c t (inl q) = ap (λ z. z.0.0) q
In-textes_de i j (x ∷ l) c t (inr h) = In-textes_de i (suc j) l c t h

In-candidats_de :
    (i : ℕ) (o : Option String) (l : List String) (c : Cle) (t : String)
    → In (c, t) (candidats_de i o l)
    → c.0 ≡ i
In-candidats_de i none l c t h = absurd h
In-candidats_de i (some q) l c t h = In-textes_de i 0 (q ∷ l) c t h

-- The key of a candidate is the place of a consigne.
In-candidats :
    (k : ℕ) (l : List Consigne) (c : Cle) (t : String)
    → In (c, t) (candidats k l)
    → (m : ℕ) × (c.0 ≡ k + m) × ((x : Consigne) × (get_elem? l m ≡ some x))
In-candidats k [] c t h = absurd h
In-candidats k (x ∷ l) c t h =
    elim (In-append_cases (c, t) (candidats_de k x.quand x.exemples) (candidats (suc k) l) h) [
      | inl i ↦
          let e = In-candidats_de k x.quand x.exemples c t i in (0, omega (arith, e), (x, refl))
      | inr i ↦
          let (m, e, (y, g)) = In-candidats (suc k) l c t i in (suc m, omega (arith, e), (y, g))
    ]

module _ (r : Planificateur) (ok : IsPlanificateur r) where
  retenue_total :
      (fiche : FicheAssistant) (q : Text) (l : List (Cle × ℕ))
      → ((c : Cle) (s : ℕ) → In (c, s) l → (t : String) × In (c, t) (candidats 0 fiche.consignes))
      → (o : Option Consigne × ℕ) × (retenue r fiche l ≡ some o) × (o.1 ≤ un)
  retenue_total fiche q [] h = (_, refl, omega arith)
  retenue_total fiche q ((c, s) ∷ l) h = elim (Bool-cases (leb r.seuil s)) [
    | inl p ↦
        let (t, i) = h c s (inl refl) in
        let (m, e, (x, g)) = In-candidats 0 fiche.consignes c t i in
        let g' : get_elem? fiche.consignes c.0 ≡ some x =
          subst (λ z. get_elem? fiche.consignes z ≡ some x) (omega (arith, e)) g in
        ((some x, min un s), rw p (rw (g', consigne_a) refl), omega arith)
    | inr p ↦ ((par_defaut fiche, 0), rw p refl, omega arith)
  ]

  reconnue_total :
      (fiche : FicheAssistant) (q : Text) (l : List (Cle × String))
      → l ≡ candidats 0 fiche.consignes
      → (o : Option Consigne × ℕ) × (reconnue r fiche q l ≡ some o) × (o.1 ≤ un)
  reconnue_total fiche q [] e = (_, refl, omega arith)
  reconnue_total fiche q (x ∷ l) e =
      retenue_total fiche q (r.apparier_consignes q (x ∷ l)) (λ c s i.
        let (t, j) = ok.keys q (x ∷ l) c s i in
        (t, subst (λ (z : List (Cle × String)). In (c, t) z) e j))

  module _ (lisibles : List String) where
    peser_total :
        (scores : List (String × ℕ)) (s : String)
        → contains lisibles s ≡ true
        → (o : List (String × ℕ)) × (peser r scores s ≡ some o) × Poids lisibles o
    peser_total scores s k = elim (Option-cases (score_de s scores)) [
      | inl h ↦ ([], rw (h, peser) (ground (arith, ok.positive)), tt)
      | inr (n, h) ↦ elim (Bool-cases (leb r.seuil_source n)) [
        | inl p ↦
            let (a, b) = ok.rounded (min un (max 5000 n)) (omega arith) (omega arith) in
            ((s, r.arrondi (min un (max 5000 n))) ∷ [], rw (h, peser) (rw p refl), (k, a, b, tt))
        | inr p ↦ ([], rw (h, peser) (rw p refl), tt)
      ]
    ]

    peser_tout_total :
        (scores : List (String × ℕ)) (l : List Source)
        → ((s : Source) → In s l → contains lisibles s.id ≡ true)
        → (o : List (String × ℕ)) × (peser_tout r scores l ≡ some o) × Poids lisibles o
    peser_tout_total scores [] h = ([], refl, tt)
    peser_tout_total scores (s ∷ l) h =
        let (a, e, u) = peser_total scores s.id (h s (inl refl)) in
        let (b, f, v) = peser_tout_total scores l (λ x i. h x (inr i)) in
        (a ++ b, rw (e, peser_tout) (rw f refl), Poids-append lisibles a b u v)

    choisies_total :
        (q : Text) (selon : List Source) (d : List (String × Text))
        → ((s : Source) → In s selon → contains lisibles s.id ≡ true)
        → (o : List (String × ℕ)) × (choisies r q selon d ≡ some o) × Poids lisibles o
    choisies_total q selon [] h = ([], refl, tt)
    choisies_total q selon (x ∷ d) h = peser_tout_total (r.apparier_sources q (x ∷ d)) selon h

    Poids-ou_toutes :
        (selon : List Source) (l : List (String × ℕ))
        → ((s : Source) → In s selon → contains lisibles s.id ≡ true)
        → Poids lisibles l
        → Poids lisibles (ou_toutes selon l)
    Poids-ou_toutes selon [] h u =
        Poids-map lisibles (λ s. s.id) 5000 selon h (omega arith) (omega arith)
    Poids-ou_toutes selon (x ∷ l) h u = u

    filtre_lisible :
        (fiche : FicheAssistant) (p : Source → Bool) (s : Source)
        → In s (filter p (lisibles_de fiche lisibles))
        → contains lisibles s.id ≡ true
    filtre_lisible fiche p s i =
        (In-of_filter s (λ x. contains lisibles x.id) (sources_ordonnees fiche)
          (In-of_filter s p (lisibles_de fiche lisibles) i).0).1

    etapes_par_regimes_total :
        (fiche : FicheAssistant) (q : Text)
        → Posee q
        → (l : List Etape) × (etapes_par_regimes r fiche q lisibles ≡ some l) × Rangees lisibles 0 l
    unfolding etapes_par_regimes
    etapes_par_regimes_total fiche q asked =
        let selon = filter (λ s. est_selon s.regime) (lisibles_de fiche lisibles) in
        let (o, e, u) =
          choisies_total q selon (decrites r selon)
            (filtre_lisible fiche (λ s. est_selon s.regime)) in
        (
          numeroter 0 q (
              ou_toutes selon (
                map (λ s. (s.id, un))
                  (filter (λ s. est_toujours s.regime) (lisibles_de fiche lisibles))
                ++ o)),
          rw (e, etapes_par_regimes) refl,
          Rangees-numeroter lisibles 0 q _ asked (
              Poids-ou_toutes selon _ (filtre_lisible fiche (λ s. est_selon s.regime)) (
                Poids-append lisibles _ o
                  (Poids-map lisibles (λ s. s.id) un _
                    (filtre_lisible fiche (λ s. est_toujours s.regime)) (omega arith) (omega arith))
                  u)),
        )

    Rangees-etapes_de_consigne :
        (fiche : FicheAssistant) (c : Consigne) (q : Text)
        → Posee q
        → Rangees lisibles 0 (etapes_de_consigne fiche c q lisibles)
    unfolding etapes_de_consigne
    Rangees-etapes_de_consigne fiche c q asked =
        Rangees-append_first lisibles _ _
          (Rangees-suivre lisibles q 0 none c.chercher asked (λ a h. ground (arith, h)))
          (Rangees-numeroter lisibles _ q _ asked (
            Poids-map lisibles (λ s. s.id) 5000 _ (filtre_lisible fiche _) (omega arith)
              (omega arith)))

    etapes_du_plan_total :
        (fiche : FicheAssistant) (q : Text) (o : Option Consigne)
        → Posee q
        → (l : List Etape) × (etapes_du_plan r fiche q lisibles o ≡ some l) × Rangees lisibles 0 l
    unfolding etapes_du_plan
    etapes_du_plan_total fiche q o asked = elim (Option-cases (a_etapes o)) [
      | inl h ↦
          let (l, e, u) = etapes_par_regimes_total fiche q asked in (l, rw (h, etapes_du_plan) e, u)
      | inr (c, h) ↦ (
        etapes_de_consigne fiche c q lisibles,
        rw (h, etapes_du_plan) refl,
        Rangees-etapes_de_consigne fiche c q asked,
      )
    ]

  IsPlan-of_Rangees :
      (lisibles : List String) (fiche : FicheAssistant) (c : Contexte) (k : Option Consigne) (s : ℕ)
      (l : List Etape)
      → s ≤ un
      → Rangees lisibles 0 l
      → IsPlan (plan_fait r fiche c k s l)
  IsPlan-of_Rangees lisibles fiche c k s l le u = record {
    versioned = ok.versioned;
    scored = λ x h. score_le k x h;
    trusted = λ x h. cc;
    steps = λ x i. (IsEtape-of_Rangees lisibles 0 l x u i).0;
    unique = Uniques-of_Rangees lisibles 0 l u;
    ordered = λ x i.
        Precede-of_Rangees lisibles 0 l (numeros l) x
          (λ a one less. absurd (omega (arith, one, less))) (λ a j. j) u i;
    exclusive = λ h. ground (arith, h);
  }
    where
      score_le :
          (k : Option Consigne) (x : ℕ) → (if is_some k then some s else none) ≡ some x → x ≤ un
      score_le none x h = cc
      score_le (some y) x h = subst (λ z. z ≤ un) (some_inj s x h) le

  -- For a question of 1 to 1000 characters once it is stripped, and whatever the card, the planner
  -- ends with a plan, which is valid and asks readable sources only; where its version is at least 1,
  -- the matcher answers with keys that it was given, a source needs a score above 0, and rounding a
  -- weight between a half and one leaves a weight.
  pub plan_total :
      (fiche : FicheAssistant) (question : Text) (c : Contexte)
      → Posee question
      → (p : Plan) × (plan r fiche question c ≡ some p)
        × IsPlan p
        × ((e : Etape) → In e p.etapes → In e.source c.sources_lisibles)
  unfolding plan reconnaitre
  plan_total fiche question c asked =
      let ((k, s), e, le) = reconnue_total fiche question (candidats 0 fiche.consignes) refl in
      let (l, f, u) = etapes_du_plan_total c.sources_lisibles fiche question k asked in
      (
        plan_fait r fiche c k s l,
        rw (e, plan)
            (rw f
              (valider-of_Rangees c.sources_lisibles (plan_fait r fiche c k s l) ok.versioned u)),
        IsPlan-of_Rangees c.sources_lisibles fiche c k s l le u,
        λ x i.
            contains→In c.sources_lisibles x.source
              (IsEtape-of_Rangees c.sources_lisibles 0 l x u i).1,
      )
