-- ===== src/Collectif/Circuit/Grilles.antt =====
-- The readers of the grids: relire and the other writes of a grid of
-- myrag/app/services/collectif_store.py.
use mycollections.Base.{
  ℕ, ◌≡◌, refl, sym, subst, false, List, [], ◌∷◌, String, string_eq, text_eq, ◌==◌, Text, contains,
  In→contains, In, inl, inr, Bool-cases, Distincts, Distincts-snoc, length,
}
use mycollections.Access.{Settings}
use mycollections.Collectif.Circuit.Appels.{histoire, Geste}
use mycollections.Collectif.Circuit.Cas.{
  relire_cas, initialiser_collection_cas, abonner_cas, creer_proposition_cas,
  decider_proposition_cas, creer_signalement_cas, traiter_signalement_cas,
}
use mycollections.Collectif.Circuit.Operations.{Garde, Garde-histoire}
use mycollections.Collectif.Circuit.{
  amorcee, Tables, GrilleControle, ecrire, prevenir, grille_de, posee, relue, maj_grille,
  poser_couverture,
}

-- A grid counts its readers, each of them once.
abbrev pub Comptee : GrilleControle → Type 0
Comptee g = (g.relecture_n ≡ length g.relecteurs) × Distincts g.relecteurs

abbrev pub Comptees : List GrilleControle → Type 0
Comptees l = (g : GrilleControle) → In g l → Comptee g

Comptee-grille_de :
    (name : Text) (l : List GrilleControle) → Comptees l → Comptee (grille_de name l)
Comptee-grille_de name [] c = (refl, tt)
Comptee-grille_de name (g ∷ l) c = elim (Bool-cases (g.collection_name == name)) [
  | inl h ↦ rw h (c g (inl refl))
  | inr h ↦ rw h (Comptee-grille_de name l (λ k i. c k (inr i)))
]

pub Comptees-posee :
    (g : GrilleControle) (l : List GrilleControle) → Comptee g → Comptees l → Comptees (posee g l)
Comptees-posee g [] p c k (inl e) = subst Comptee (sym e) p
Comptees-posee g [] p c k (inr i) = absurd i
Comptees-posee g (h ∷ l) p c k i = elim (Bool-cases (h.collection_name == g.collection_name)) [
  | inl q ↦ elim (rw q at i) [ inl e ↦ subst Comptee (sym e) p | inr j ↦ c k (inr j) ]
  | inr q ↦ elim (rw q at i) [
    | inl e ↦ c k (inl e)
    | inr j ↦ Comptees-posee g l p (λ m z. c m (inr z)) k j
  ]
]

Comptee-relue :
    (now : ℕ) (s : String) (g : GrilleControle)
    → contains g.relecteurs s ≡ false
    → Comptee g
    → Comptee (relue now s g)
Comptee-relue now s g h (n, u) =
    (refl, Distincts-snoc g.relecteurs s u (λ i. cc (In→contains g.relecteurs s i)))

Garde-Comptees : Garde (λ t. Comptees t.grilles)
unfolding maj_grille poser_couverture ecrire prevenir
Garde-Comptees = record {
  corrige = λ now name c s t v. Comptees-posee _ t.grilles (Comptee-grille_de name t.grilles v) v;
  relit = λ now name s t v.
      let g = grille_de name t.grilles in
      relire_cas (λ u. Comptees u.grilles) t v name now s
        (Comptees-posee g t.grilles (Comptee-grille_de name t.grilles v) v)
        (λ h.
          Comptees-posee (relue now s g) t.grilles
            (Comptee-relue now s g h (Comptee-grille_de name t.grilles v)) v);
  propose = λ now i name d s t v.
      creer_proposition_cas (λ u. Comptees u.grilles) t v now name i s d (λ h. v);
  tranche = λ now name i d m s t v.
      decider_proposition_cas (λ u. Comptees u.grilles) t v now name i s d m (λ q h z. v);
  signale = λ now i name m texte f s t v.
      creer_signalement_cas (λ u. Comptees u.grilles) t v now name i s m texte f v;
  traite = λ now name i e s t v.
      traiter_signalement_cas (λ u. Comptees u.grilles) t v now name i s e (λ q. v);
  abonne = λ name s oui t v. abonner_cas (λ u. Comptees u.grilles) t v name s oui (λ l. v);
  initialise = λ now name a d p g t v.
      initialiser_collection_cas (λ u. Comptees u.grilles) t v name now a d p g
        (λ c.
          Comptees-posee (amorcee g (grille_de name t.grilles)) t.grilles
            (Comptee-grille_de name t.grilles v) v);
  couvre = λ now name c nom t v. Comptees-posee _ t.grilles (Comptee-grille_de name t.grilles v) v;
}

-- After any history of the circuit that starts without grids, the number of readings of each grid is
-- the number of its readers, and no reader counts twice.
pub histoire-relecture_n :
    (settings : Settings) (l : List (ℕ × Geste)) (t : Tables) (g : GrilleControle)
    → t.grilles ≡ []
    → In g (histoire settings l t).grilles
    → (g.relecture_n ≡ length g.relecteurs) × Distincts g.relecteurs
histoire-relecture_n settings l t g e i =
    Garde-histoire (λ u. Comptees u.grilles) Garde-Comptees settings l t
      (subst Comptees (sym e) (λ k z. absurd z)) g i
