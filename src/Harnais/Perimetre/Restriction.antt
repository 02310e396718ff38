-- ===== src/Harnais/Perimetre/Restriction.antt =====
-- restreindre_plan of myrag/app/harnais/perimetre.py: what it keeps of a plan.
use native.Mathlib.Nat.{add-zero}
use mycollections.Base.{
  ℕ, ◌≡◌, refl, ap, inl, inr, Bool, true, false, not, Option, none, List, [], ◌∷◌, map, String, In,
  In-map, In-of_map, In-filter, In-of_filter, filter-eq_self, filter-eq_nil, filter, contains,
  contains→In, In→contains, string_eq, nat_eq, is_empty, arith, Bool-cases, if◌then◌else◌,
}
use mycollections.Harnais.Contrat.{Etape, Plan, numeros, Uniques, IsEtape, IsPlan}
use mycollections.Harnais.Perimetre.{
  permise, gardees, retirees, attend_encore, reprise, restreindre_plan,
}

numeros-reprise : (sans : List ℕ) (l : List Etape) → numeros (map (reprise sans) l) ≡ numeros l
numeros-reprise sans [] = refl
numeros-reprise sans (e ∷ l) = ap (λ (t : List ℕ). e.n ∷ t) (numeros-reprise sans l)

Uniques-filter :
    (p : Etape → Bool) (l : List Etape) → Uniques (numeros l) → Uniques (numeros (filter p l))
Uniques-filter p [] u = u
Uniques-filter p (e ∷ l) u = split (p e) (Uniques-filter p l u.1)
  where
    split :
        (b : Bool)
        → Uniques (numeros (filter p l))
        → Uniques (numeros (if b then e ∷ filter p l else filter p l))
    split true ih = (
      λ i.
          let (e', j, q) = In-of_map (λ (e : Etape). e.n) e.n (filter p l) i in
          u.0 (rw q (In-map (λ (e : Etape). e.n) e' l (In-of_filter e' p l j).0)),
      ih,
    )
    split false ih = ih

module _ (lisibles : List String) (etapes : List Etape) where
  -- An awaited number that is still awaited belongs to a step that is kept.
  encore_gardee :
      (a : ℕ)
      → In a (numeros etapes)
      → not (contains (retirees lisibles etapes) a) ≡ true
      → In a (numeros (gardees lisibles etapes))
  encore_gardee a i h = elim (Bool-cases (contains (numeros (gardees lisibles etapes)) a)) [
    | inl kept ↦ contains→In _ a kept
    | inr gone ↦
        let r =
          In-filter a (λ n. not (contains (numeros (gardees lisibles etapes)) n)) (numeros etapes) i
            (rw gone) in
        cc (In→contains (retirees lisibles etapes) a r)
  ]

  IsEtape-reprise : (sans : List ℕ) (e : Etape) → IsEtape e → IsEtape (reprise sans e)
  IsEtape-reprise sans e v = record {
    numbered = v.numbered;
    weighted = v.weighted;
    bounded = v.bounded;
    asked = v.asked;
    relay = ground arith;
  }

-- A valid plan restricted to readable sources is a valid plan.
pub restreindre_plan-IsPlan :
    (plan : Plan) (lisibles : List String) → IsPlan plan → IsPlan (restreindre_plan plan lisibles)
unfolding restreindre_plan
restreindre_plan-IsPlan plan lisibles v = record {
  versioned = v.versioned;
  scored = v.scored;
  trusted = v.trusted;
  steps = λ e i.
      let (o, j, q) = origine e i in
      rw q (IsEtape-reprise lisibles plan.etapes sans o (v.steps o j));
  unique = rw (numeros-reprise sans kept) (Uniques-filter (permise lisibles) plan.etapes v.unique);
  ordered = λ e i a w.
      let (o, j, q) = origine e i in
      let (aw, still) = In-of_filter a (λ a. not (contains sans a)) o.attend (rw q at w) in
      let (lt, known) = v.ordered o j a aw in
      (rw q lt, rw (numeros-reprise sans kept) (encore_gardee lisibles plan.etapes a known still));
  exclusive = λ r. rw (v.exclusive r);
}
  where
    sans : List ℕ
    sans = retirees lisibles plan.etapes

    kept : List Etape
    kept = gardees lisibles plan.etapes

    origine :
        (e : Etape)
        → In e (map (reprise sans) kept)
        → (o : Etape) × In o plan.etapes × (e ≡ reprise sans o)
    origine e i =
        let (o, j, q) = In-of_map (reprise sans) e kept i in
        (o, (In-of_filter o (permise lisibles) plan.etapes j).0, q)

-- Every step that is left asks a readable source, and every step that asks one is left, with its
-- number, source, question and weight.
pub restreindre_plan-lisibles :
    (plan : Plan) (lisibles : List String)
    → ((e : Etape) → In e (restreindre_plan plan lisibles).etapes → In e.source lisibles)
      × ((e : Etape)
          → In e plan.etapes
          → In e.source lisibles
          → (r : Etape) × In r (restreindre_plan plan lisibles).etapes
            × (r.n ≡ e.n)
            × (r.source ≡ e.source)
            × (r.question ≡ e.question)
            × (r.poids ≡ e.poids))
unfolding restreindre_plan
restreindre_plan-lisibles plan lisibles = (
  λ e i.
      let (o, j, q) =
        In-of_map (reprise (retirees lisibles plan.etapes)) e (gardees lisibles plan.etapes) i in
      rw q (contains→In lisibles o.source (In-of_filter o (permise lisibles) plan.etapes j).1),
  λ e i s. (
    reprise (retirees lisibles plan.etapes) e,
    In-map (reprise (retirees lisibles plan.etapes)) e (gardees lisibles plan.etapes)
        (In-filter e (permise lisibles) plan.etapes i (In→contains lisibles e.source s)),
    refl,
    refl,
    refl,
    refl,
  ),
)

reprise-nil : (sans : List ℕ) (e : Etape) → reprise [] (reprise sans e) ≡ reprise sans e
reprise-nil sans e =
    let l = attend_encore sans e in
    let same : filter (λ a. not (contains [] a)) l ≡ l = filter-eq_self _ l (λ a i. refl) in
    rw same (ap (λ (o : Option String). record e { attend = l; avec = o }) (twice (is_empty l)))
  where
    twice :
        (b : Bool) → (if b then none else if b then none else e.avec) ≡ (if b then none else e.avec)
    twice true = refl
    twice false = refl

reprises-nil :
    (sans : List ℕ) (l : List Etape)
    → map (reprise []) (map (reprise sans) l) ≡ map (reprise sans) l
reprises-nil sans [] = refl
reprises-nil sans (e ∷ l) = cc (reprise-nil sans e, reprises-nil sans l)

-- Restricting twice to the same sources is restricting once: the count of ignored sources does not
-- grow either.
pub restreindre_plan_idem :
    (plan : Plan) (lisibles : List String)
    → restreindre_plan (restreindre_plan plan lisibles) lisibles ≡ restreindre_plan plan lisibles
unfolding restreindre_plan
restreindre_plan_idem plan lisibles =
    let kept = gardees lisibles plan.etapes in
    let sans = retirees lisibles plan.etapes in
    let l = map (reprise sans) kept in
    let readable : (e : Etape) → In e l → permise lisibles e ≡ true = λ e i.
      let (o, j, q) = In-of_map (reprise sans) e kept i in
      rw q (In-of_filter o (permise lisibles) plan.etapes j).1 in
    let all_kept : gardees lisibles l ≡ l = filter-eq_self (permise lisibles) l readable in
    let none_lost : filter (λ e. not (permise lisibles e)) l ≡ [] =
      filter-eq_nil _ l (λ e i. rw (readable e i)) in
    let none_out : retirees lisibles l ≡ [] =
      filter-eq_nil _ (numeros l) (λ n i. rw all_kept (rw (In→contains (numeros l) n i))) in
    rw (none_out, all_kept, none_lost, reprises-nil sans kept) (rw add-zero)
