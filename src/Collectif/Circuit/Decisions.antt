-- ===== src/Collectif/Circuit/Decisions.antt =====
-- The decisions on proposals of myrag/app/services/collectif_store.py, and their events in the journal.
use mycollections.Base.{
  ℕ, ◌+◌, ◌≡◌, refl, sym, subst, ap, ◌∙◌, Bool, true, false, Option, none, some, List, [], ◌∷◌,
  String, string_eq, text_eq, ◌==◌, Text, Bool-cases, inl, inr, if◌then◌else◌, arith, some_inj,
}
use mycollections.Access.{Settings}
use mycollections.Collectif.Circuit.{
  Tables, Proposition, EtatProposition, proposee, decidee, Decision, sur_collection,
  sur_proposition, sur_signalement, TypeEvenement, proposition_decidee, Evenement, trouver,
  remplacee, tranchee, ecrire, prevenir, maj_grille, poser_couverture, Donnees, tranchees, deposees,
}
use mycollections.Collectif.Circuit.Appels.{histoire, Geste}
use mycollections.Collectif.Circuit.Operations.{Garde, Garde-histoire}
use mycollections.Collectif.Circuit.Cas.{
  relire_cas, initialiser_collection_cas, abonner_cas, creer_proposition_cas,
  decider_proposition_cas, creer_signalement_cas, traiter_signalement_cas,
}

abbrev pub decide : TypeEvenement → Bool
decide (proposition_decidee d) = true
decide _ = false

abbrev pub decide_de : String → Evenement → Bool
decide_de i e = elim e.objet [
  | sur_collection n ↦ false
  | sur_proposition j ↦ if j == i then decide e.type else false
  | sur_signalement j ↦ false
]

abbrev pub un : Bool → ℕ
un true = 1
un false = 0

-- How many decisions on a proposal the journal holds.
abbrev pub decisions : String → List Evenement → ℕ
decisions i [] = 0
decisions i (e ∷ l) = un (decide_de i e) + decisions i l

abbrev pub est_decidee : EtatProposition → Bool
est_decidee proposee = false
est_decidee (decidee d) = true

-- One where the proposal is there and decided.
abbrev pub decidees : Option Proposition → ℕ
decidees none = 0
decidees (some p) = un (est_decidee p.etat)

abbrev Tracee : Tables → Type 0
Tracee t = (i : String) → decisions i t.journal ≡ decidees (trouver i t.propositions)

pub id_of_trouver :
    (i : String) (l : List Proposition) (p : Proposition) → trouver i l ≡ some p → p.id ≡ i
id_of_trouver i [] p h = cc
id_of_trouver i (q ∷ l) p h = elim (Bool-cases (q.id == i)) [
  | inl e ↦ ap (λ z. z.id) (sym (some_inj q p (rw e at h))) ∙ string_eq.eq_of_same q.id i e
  | inr e ↦ id_of_trouver i l p (rw e at h)
]

pub trouver-remplacee_same :
    (p : Proposition) (l : List Proposition) (q : Proposition)
    → trouver p.id l ≡ some q
    → trouver p.id (remplacee p l) ≡ some p
trouver-remplacee_same p [] q h = cc
trouver-remplacee_same p (r ∷ l) q h = elim (Bool-cases (r.id == p.id)) [
  | inl e ↦ rw e (rw (string_eq.same_refl p.id) refl)
  | inr e ↦ rw e (rw e (trouver-remplacee_same p l q (rw e at h)))
]

pub trouver-remplacee_other :
    (i : String) (p : Proposition) (l : List Proposition)
    → (p.id == i) ≡ false
    → trouver i (remplacee p l) ≡ trouver i l
trouver-remplacee_other i p [] h = refl
trouver-remplacee_other i p (r ∷ l) h = elim (Bool-cases (r.id == p.id)) [
  | inl e ↦ rw e (
      rw h
        (trouver-remplacee_other i p l h ∙ sym (rw (string_eq.eq_of_same r.id p.id e) (rw h refl))))
  | inr e ↦ rw e (rw (trouver-remplacee_other i p l h) refl)
]

Tracee-deposees :
    (now : ℕ) (i : String) (name : Text) (d : Donnees) (s : String) (t : Tables)
    → Tracee t
    → trouver i t.propositions ≡ none
    → Tracee (deposees now i name d s t)
unfolding ecrire
Tracee-deposees now i name d s t v h j = elim (Bool-cases (i == j)) [
  | inl e ↦
      let q = string_eq.eq_of_same i j e in
      let z = subst (λ k. decisions k t.journal ≡ decidees (trouver k t.propositions)) q (v i) in
      rw e (omega (arith, z, ap decidees (subst (λ k. trouver k t.propositions ≡ none) q h)))
  | inr e ↦ rw e (omega (arith, v j))
]

Tracee-tranchees :
    (now : ℕ) (name : Text) (i : String) (d : Decision) (m : Option Text) (s : String) (t : Tables)
    (p : Proposition)
    → Tracee t
    → trouver i t.propositions ≡ some p
    → p.etat ≡ proposee
    → Tracee (tranchees now name d m s t p)
unfolding ecrire prevenir
Tracee-tranchees now name i d m s t p v h z j =
    let a = id_of_trouver i t.propositions p h in
    let g : trouver p.id t.propositions ≡ some p =
      subst (λ k. trouver k t.propositions ≡ some p) (sym a) h in
    let c = tranchee now d m s p in
    elim (Bool-cases (p.id == j)) [
      | inl e ↦
          let q = string_eq.eq_of_same p.id j e in
          let y : decisions p.id t.journal ≡ 0 =
            v p.id ∙ ap decidees g ∙ ap (λ k. un (est_decidee k)) z in
          let x = ap decidees (trouver-remplacee_same c t.propositions p g) in
          rw e (
            omega (
              arith,
              subst (λ k. decisions k t.journal ≡ 0) q y,
              subst (λ k. decidees (trouver k (remplacee c t.propositions)) ≡ 1) q x,
            ))
      | inr e ↦
          rw e (omega (arith, v j, ap decidees (trouver-remplacee_other j c t.propositions e)))
    ]

Garde-Tracee : Garde Tracee
unfolding maj_grille poser_couverture ecrire prevenir
Garde-Tracee = record {
  corrige = λ now name c s t v j. omega (arith, v j);
  relit = λ now name s t v. relire_cas Tracee t v name now s v (λ h j. omega (arith, v j));
  propose = λ now i name d s t v.
      creer_proposition_cas Tracee t v now name i s d (Tracee-deposees now i name d s t v);
  tranche = λ now name i d m s t v.
      decider_proposition_cas Tracee t v now name i s d m
        (λ q h z. Tracee-tranchees now name i d m s t q v h z);
  signale = λ now i name m texte f s t v.
      creer_signalement_cas Tracee t v now name i s m texte f (λ j. omega (arith, v j));
  traite = λ now name i e s t v.
      traiter_signalement_cas Tracee t v now name i s e (λ q j. omega (arith, v j));
  abonne = λ name s oui t v. abonner_cas Tracee t v name s oui (λ l. v);
  initialise = λ now name a d p g t v.
      initialiser_collection_cas Tracee t v name now a d p g (λ c j. omega (arith, v j));
  couvre = λ now name c nom t v j. omega (arith, v j);
}

-- After any history of the circuit that starts without proposals and with an empty journal, the journal
-- holds one decision on each proposal that is decided, and none on the others: a proposal is never
-- decided twice.
pub histoire-decisions :
    (settings : Settings) (l : List (ℕ × Geste)) (t : Tables) (i : String)
    → t.propositions ≡ []
    → t.journal ≡ []
    → decisions i (histoire settings l t).journal
      ≡ decidees (trouver i (histoire settings l t).propositions)
histoire-decisions settings l t i p j =
    Garde-histoire Tracee Garde-Tracee settings l t
      (λ k. ap (decisions k) j ∙ sym (ap (λ z. decidees (trouver k z)) p)) i
