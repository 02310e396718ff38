-- ===== src/Collectif/Circuit/Histoire.antt =====
-- What a decision on a proposal leaves for good, and who may take it (myrag/app/routers/collectif.py).
use mycollections.Base.{
  ℕ, ◌≡◌, ◌↔◌, refl, sym, subst, ap, ◌∙◌, true, Option, none, some, List, String, string_eq,
  text_eq, ◌==◌, Text, Bool-cases, Option-cases, inl, inr, some_inj,
}
use mycollections.Access.{Settings}
use mycollections.Collectif.Circuit.{
  Tables, Ligne, commis, Proposition, proposee, decidee, Decision, publiee, trouver, tranchee,
  remplacee, ecrire, prevenir, maj_grille, poser_couverture, decider_proposition, Donnees,
  tranchees, deposees,
}
use mycollections.Collectif.Circuit.Appels.{
  histoire, Geste, Identite, Rendu, une_proposition, collection_lisible, est_garant, appeler,
  servir, decider, publier, rendre, lisible,
}
use mycollections.Collectif.Circuit.Operations.{Garde, Garde-histoire}
use mycollections.Collectif.Circuit.Cas.{
  relire_cas, initialiser_collection_cas, abonner_cas, EtatProposition-cases, creer_proposition_cas,
  decider_proposition_cas, creer_signalement_cas, traiter_signalement_cas,
}
use mycollections.Collectif.Circuit.Decisions.{
  trouver-remplacee_other, trouver-remplacee_same, id_of_trouver,
}

module _ (p : Proposition) (e : Decision) (f : p.etat ≡ decidee e) where
  abbrev Gardee : Tables → Type 0
  Gardee t = trouver p.id t.propositions ≡ some p

  Gardee-deposees :
      (now : ℕ) (i : String) (name : Text) (d : Donnees) (s : String) (t : Tables)
      → Gardee t
      → trouver i t.propositions ≡ none
      → Gardee (deposees now i name d s t)
  unfolding ecrire
  Gardee-deposees now i name d s t v h = elim (Bool-cases (i == p.id)) [
    | inl q ↦ cc (v, subst (λ k. trouver k t.propositions ≡ none) (string_eq.eq_of_same i p.id q) h)
    | inr q ↦ rw q v
  ]

  Gardee-tranchees :
      (now : ℕ) (name : Text) (i : String) (d : Decision) (m : Option Text) (s : String)
      (t : Tables) (q : Proposition)
      → Gardee t
      → trouver i t.propositions ≡ some q
      → q.etat ≡ proposee
      → Gardee (tranchees now name d m s t q)
  unfolding ecrire prevenir
  Gardee-tranchees now name i d m s t q v h z =
      let a = id_of_trouver i t.propositions q h in
      elim (Bool-cases (q.id == p.id)) [
        | inl b ↦
            let y : q ≡ p = some_inj q p (
              sym h
              ∙ subst (λ k. trouver k t.propositions ≡ some p)
                  (sym (string_eq.eq_of_same q.id p.id b) ∙ a) v) in
            cc (z, f, ap (λ k. k.etat) y)
        | inr b ↦ trouver-remplacee_other p.id (tranchee now d m s q) t.propositions b ∙ v
      ]

  Garde-Gardee : Garde Gardee
  unfolding maj_grille poser_couverture ecrire prevenir
  Garde-Gardee = record {
    corrige = λ now name c s t v. v;
    relit = λ now name s t v. relire_cas Gardee t v name now s v (λ h. v);
    propose = λ now i name d s t v.
        creer_proposition_cas Gardee t v now name i s d (Gardee-deposees now i name d s t v);
    tranche = λ now name i d m s t v.
        decider_proposition_cas Gardee t v now name i s d m
          (λ q h z. Gardee-tranchees now name i d m s t q v h z);
    signale =
        λ now i name m texte g s t v. creer_signalement_cas Gardee t v now name i s m texte g v;
    traite = λ now name i x s t v. traiter_signalement_cas Gardee t v now name i s x (λ q. v);
    abonne = λ name s oui t v. abonner_cas Gardee t v name s oui (λ l. v);
    initialise =
        λ now name a d w g t v. initialiser_collection_cas Gardee t v name now a d w g (λ c. v);
    couvre = λ now name c nom t v. v;
  }

-- A proposal that is decided stays as it is, whatever history of the circuit follows.
pub histoire-decidee :
    (settings : Settings) (l : List (ℕ × Geste)) (t : Tables) (p : Proposition) (e : Decision)
    → p.etat ≡ decidee e
    → trouver p.id t.propositions ≡ some p
    → trouver p.id (histoire settings l t).propositions ≡ some p
histoire-decidee settings l t p e f h =
    Garde-histoire (Gardee p e f) (Garde-Gardee p e f) settings l t h

-- Who publishes what: a reader of the collection who is its guarantor or an operator, a proposal on
-- this collection that waits.
pub record PeutPublier (settings : Settings) (name : Text) (moi : Identite) (ident : String)
    (t : Tables) : Type 0 where
  pub collection : Ligne
  pub proposition : Proposition
  pub readable : collection_lisible settings name moi t ≡ some collection
  pub guarantor : est_garant settings collection moi ≡ true
  pub there : trouver ident t.propositions ≡ some proposition
  pub same : (proposition.collection_name == collection.fiche.name) ≡ true
  pub waits : proposition.etat ≡ proposee

module _ (settings : Settings) (now : ℕ) (name : Text) (moi : Identite) (ident : String)
    (t u : Tables) (r : Rendu) where
  publier_only :
      appeler settings now name moi (publier ident) t ≡ commis u r
      → PeutPublier settings name moi ident t
  unfolding appeler servir decider decider_proposition
  publier_only h = elim (Option-cases (collection_lisible settings name moi t)) [
    | inl a ↦ cc (rw (a, lisible) at h)
    | inr (c, a) ↦
        let h1 = rw (a, lisible) at h in
        elim (Bool-cases (est_garant settings c moi)) [
          | inr b ↦ cc (rw b at h1)
          | inl b ↦
              let h2 = rw b at h1 in
              elim (Option-cases (trouver ident t.propositions)) [
                | inl d ↦ cc (rw (d, rendre) at h2)
                | inr (p, d) ↦
                    let h3 = rw (d, rendre) at h2 in
                    elim (Bool-cases (p.collection_name == c.fiche.name)) [
                      | inr n ↦ cc (rw (n, rendre) at h3)
                      | inl n ↦
                          let h4 = rw (n, rendre) at h3 in
                          elim (EtatProposition-cases p.etat) [
                            | inr (e, z) ↦ cc (rw (z, rendre) at h4)
                            | inl z ↦ record {
                              collection = c;
                              proposition = p;
                              readable = a;
                              guarantor = b;
                              there = d;
                              same = n;
                              waits = z;
                            }
                          ]
                    ]
              ]
        ]
  ]

publier_ok :
    (settings : Settings) (now : ℕ) (name : Text) (moi : Identite) (ident : String) (t : Tables)
    (w : PeutPublier settings name moi ident t)
    → appeler settings now name moi (publier ident) t
      ≡ commis
          (tranchees now w.collection.fiche.name publiee none moi.hash t w.proposition)
          (une_proposition (tranchee now publiee none moi.hash w.proposition))
unfolding appeler servir decider decider_proposition
publier_ok settings now name moi ident t w =
    rw (w.readable, lisible)
      (rw w.guarantor (rw (w.there, rendre) (rw (w.same, rendre) (rw (w.waits, rendre) refl))))

publiee_lue :
    (settings : Settings) (now : ℕ) (name : Text) (moi : Identite) (ident : String) (t : Tables)
    (w : PeutPublier settings name moi ident t)
    → trouver ident
        (tranchees now w.collection.fiche.name publiee none moi.hash t w.proposition).propositions
      ≡ some (tranchee now publiee none moi.hash w.proposition)
unfolding ecrire prevenir
publiee_lue settings now name moi ident t w =
    let c = tranchee now publiee none moi.hash w.proposition in
    let a = id_of_trouver ident t.propositions w.proposition w.there in
    subst (λ k. trouver k (remplacee c t.propositions) ≡ some c) a
      (trouver-remplacee_same c t.propositions w.proposition
        (subst (λ k. trouver k t.propositions ≡ some w.proposition) (sym a) w.there))

-- Publishing a proposal succeeds exactly for a reader of its collection who is its guarantor or an
-- operator, on a proposal on this collection that waits; the row of the tables that are then left is
-- the proposal that is returned, and it is published.
pub publier_iff :
    (settings : Settings) (now : ℕ) (name : Text) (moi : Identite) (ident : String) (t : Tables)
    → ((u : Tables) × (p : Proposition) × (appeler settings now name moi (publier ident) t
          ≡ commis u (une_proposition p))
        × (trouver ident u.propositions ≡ some p)
        × (p.etat ≡ decidee publiee))
      ↔ PeutPublier settings name moi ident t
publier_iff settings now name moi ident t = (
  λ (u, p, h, _, e). publier_only settings now name moi ident t u (une_proposition p) h,
  λ w. (
    tranchees now w.collection.fiche.name publiee none moi.hash t w.proposition,
    tranchee now publiee none moi.hash w.proposition,
    publier_ok settings now name moi ident t w,
    publiee_lue settings now name moi ident t w,
    refl,
  ),
)
