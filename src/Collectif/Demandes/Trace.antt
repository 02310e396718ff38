-- ===== src/Collectif/Demandes/Trace.antt =====
-- What a write of myrag/app/services/collectif_store.py does to the journal that its requests follow.
use mycollections.Base.{
  ◌≡◌, refl, sym, ◌∙◌, ap, subst, false, none, some, List, [], ◌∷◌, String, string_eq, ◌==◌,
  Bool-cases, inl, inr, In,
}
use mycollections.Collectif.Etats.{ouverte}
use mycollections.Collectif.Demandes.{
  Base, Demande, Moment, Objet, sur_demande, TypeEvenement, Signature, Detail, ecrire, ranger,
  changer, prevenir, abonner_dans, trouver, existe, remplacee, ObjetAbonnement, ranger_fiche, Fiche,
  Soutien, est_abonne,
}
use mycollections.Collectif.Demandes.Lignes.{
  In-remplacee, trouver-some, Uniques-remplacee, trouver-remplacee_self, trouver-remplacee_other,
  existe-trouver, trouver-none, string_eq_of_same, string_same_refl,
}
use mycollections.Collectif.Demandes.Suivi.{
  Saine, Effet, rien, passe, effet, etat_journal, etat_ligne, Suivie, suite-passe, sur,
}

-- An event that names no state leaves the requests at the states of the journal.
pub Suivie-ecrire :
    (m : Moment) (o : Objet) (t : TypeEvenement) (s : Signature) (x : Detail) (b : Base)
    → effet x ≡ rien
    → Suivie b
    → Suivie (ecrire m o t s x b)
unfolding Suivie ecrire
Suivie-ecrire m o t s x b h (u, f, c) =
    (u, λ i. elim (Bool-cases (sur i o)) [ inl p ↦ rw p (rw h (f i)) | inr p ↦ rw p (f i) ], c)

Saine-remplacee :
    (d' d : Demande) (b : Base)
    → trouver d'.id b.demandes ≡ some d
    → (Saine d → Saine d')
    → ((e : Demande) → In e b.demandes → Saine e)
    → (e : Demande) → In e (remplacee d' b.demandes)
    → Saine e
Saine-remplacee d' d b t w c e i = elim (In-remplacee d' e b.demandes i) [
  | inl q ↦ subst Saine (sym q) (w (c d (trouver-some d'.id d b.demandes t).1))
  | inr j ↦ c e j
]

Saine-new :
    (d e : Demande) (l : List Demande)
    → Saine d
    → ((x : Demande) → In x l → Saine x)
    → In e (d ∷ l)
    → Saine e
Saine-new d e l w c (inl q) = subst Saine (sym q) w
Saine-new d e l w c (inr i) = c e i

pub Suivie-ranger :
    (d' d : Demande) (b : Base)
    → trouver d'.id b.demandes ≡ some d
    → d'.etat ≡ d.etat
    → (Saine d → Saine d')
    → Suivie b
    → Suivie (ranger d' b)
unfolding Suivie ranger
Suivie-ranger d' d b t h w (u, f, c) = (
  Uniques-remplacee d' b.demandes u,
  λ i. elim (Bool-cases (d'.id == i)) [
    | inl p ↦
        let q = string_eq_of_same d'.id i p in
        rw (← q) (
          rw (trouver-remplacee_self d' b.demandes (existe-trouver d'.id d b.demandes t))
            (ap some h ∙ (sym (ap etat_ligne t) ∙ f d'.id)))
    | inr p ↦ rw (trouver-remplacee_other i d' b.demandes p) (f i)
  ],
  Saine-remplacee d' d b t w c,
)

pub Suivie-changer :
    (m : Moment) (d' d : Demande) (s : Signature) (x : Detail) (b : Base)
    → trouver d'.id b.demandes ≡ some d
    → effet x ≡ passe d.etat d'.etat
    → (Saine d → Saine d')
    → Suivie b
    → Suivie (changer m d' s x b)
unfolding Suivie changer ranger ecrire
Suivie-changer m d' d s x b t h w (u, f, c) = (
  Uniques-remplacee d' b.demandes u,
  λ i. elim (Bool-cases (d'.id == i)) [
    | inl p ↦
        let q = string_eq_of_same d'.id i p in
        let r : etat_journal i b.journal ≡ some d.etat =
          subst (λ z. etat_journal z b.journal ≡ some d.etat) q (sym (f d'.id) ∙ ap etat_ligne t) in
        rw (← q) (
          rw (trouver-remplacee_self d' b.demandes (existe-trouver d'.id d b.demandes t))
            (rw (string_same_refl d'.id) (rw h (rw r (sym (suite-passe d.etat d'.etat))))))
    | inr p ↦ rw p (rw (trouver-remplacee_other i d' b.demandes p) (f i))
  ],
  Saine-remplacee d' d b t w c,
)

pub Suivie-prevenir : (g : List String) (n : String) (b : Base) → Suivie b → Suivie (prevenir g n b)
unfolding Suivie prevenir
Suivie-prevenir [] n b v = v
Suivie-prevenir (x ∷ l) n b v = v

pub Suivie-abonner_dans :
    (o : ObjetAbonnement) (j s : String) (b : Base) → Suivie b → Suivie (abonner_dans o j s b)
unfolding Suivie abonner_dans
Suivie-abonner_dans o j s b v = elim (Bool-cases (est_abonne o j s b.abonnements)) [
  | inl p ↦ rw p v
  | inr p ↦ rw p v
]

pub trouver-ecrire :
    (i : String) (d : Demande) (m : Moment) (o : Objet) (t : TypeEvenement) (s : Signature)
    (x : Detail) (b : Base)
    → trouver i b.demandes ≡ some d
    → trouver i (ecrire m o t s x b).demandes ≡ some d
unfolding ecrire
trouver-ecrire i d m o t s x b h = h

pub trouver-changer_other :
    (i : String) (m : Moment) (d : Demande) (s : Signature) (x : Detail) (b : Base)
    → (d.id == i) ≡ false
    → trouver i (changer m d s x b).demandes ≡ trouver i b.demandes
unfolding changer ranger ecrire
trouver-changer_other i m d s x b h = trouver-remplacee_other i d b.demandes h

pub Suivie-soutiens : (l : List Soutien) (b : Base) → Suivie b → Suivie (record b { soutiens = l })
unfolding Suivie
Suivie-soutiens l b v = v

pub Suivie-ranger_fiche : (c : Fiche) (b : Base) → Suivie b → Suivie (ranger_fiche c b)
unfolding Suivie
Suivie-ranger_fiche c b v = v

pub abonner_dans-requests :
    (o : ObjetAbonnement) (j s : String) (b : Base)
    → ((abonner_dans o j s b).demandes ≡ b.demandes) × ((abonner_dans o j s b).journal ≡ b.journal)
unfolding abonner_dans
abonner_dans-requests o j s b = elim (Bool-cases (est_abonne o j s b.abonnements)) [
  | inl p ↦ rw p (refl, refl)
  | inr p ↦ rw p (refl, refl)
]

-- A new request, with its first event.
pub Suivie-creation :
    (m : Moment) (d : Demande) (t : TypeEvenement) (s : Signature) (x : Detail) (b c : Base)
    → c.demandes ≡ d ∷ b.demandes
    → c.journal ≡ b.journal
    → existe d.id b.demandes ≡ false
    → d.etat ≡ ouverte
    → effet x ≡ Effet.nait
    → Saine d
    → Suivie b
    → Suivie (ecrire m (sur_demande d.id) t s x c)
unfolding Suivie ecrire
Suivie-creation m d t s x b c k j n o h w (u, f, a) =
    rw (k, j)
      (
        (n, u),
        λ i. elim (Bool-cases (d.id == i)) [
          | inl p ↦
              let q = string_eq_of_same d.id i p in
              let r : etat_journal i b.journal ≡ none =
                subst (λ z. etat_journal z b.journal ≡ none) q
                  (sym (f d.id) ∙ ap etat_ligne (trouver-none d.id b.demandes n)) in
              rw (← q) (rw (string_same_refl d.id) (rw h (rw r (ap some o))))
          | inr p ↦ rw p (f i)
        ],
        λ e i. Saine-new d e b.demandes w a i,
      )
