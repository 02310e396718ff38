-- ===== src/Collectif/Demandes/Vie.antt =====
-- The operations of myrag/app/services/collectif_store.py on requests keep the journal faithful.
use mycollections.Base.{
  ℕ, arith, ◌≡◌, refl, sym, ◌∙◌, ap, subst, Bool, true, false, ◌&&◌, not, Option, none, some, List,
  [], ◌∷◌, String, string_eq, ◌==◌, if◌then◌else◌, Bool-cases, Option-cases, inl, inr, In, is_some,
  In-of_filter,
}
use mycollections.Collectif.Etats.{
  EtatDemande, ouverte, chantier, a_confirmer, realisee, close, est_a_confirmer, Etat,
  demande_atteint_le_chantier,
}
use mycollections.Collectif.Demandes.{
  Base, Demande, Donnees, Moment, changer, prevenir, trouver, existe, tables, est_ouverte,
  creer_demande, echeances_de, echeances, echue, repondue, confirmer_satisfaction, modifier_demande,
  recalculer_etat, retirer_soutien, retirer_garant, clore_demande, solliciter, Modif, poser,
  garants_de, demande, doublon_absent, nb_soutiens, a_garant, soutien_pose, est_tous, est_en_cours,
  personne, reponse,
}
use mycollections.Collectif.Demandes.Lignes.{
  Uniques, Uniques-filter, trouver-In, trouver-some, other_id,
}
use mycollections.Collectif.Demandes.Suivi.{
  Suivie, Uniques-of, passe, Saine-en_cours, Saine-sans_contact, recontact-of_Saine, Saine-poser,
  Saine-livree,
}
use mycollections.Collectif.Demandes.Trace.{
  Suivie-ecrire, Suivie-ranger, Suivie-changer, Suivie-prevenir, Suivie-creation, trouver-ecrire,
  trouver-changer_other, Suivie-soutiens, abonner_dans-requests,
}

-- The row that is found has the id that it is asked by.
pub retrouver :
    (i : String) (d : Demande) (b : Base)
    → trouver i b.demandes ≡ some d
    → trouver d.id b.demandes ≡ some d
retrouver i d b t =
    subst (λ z. trouver z b.demandes ≡ some d) (sym (trouver-some i d b.demandes t).0) t

pub Suivie-creer_demande :
    (m : Moment) (i : String) (x : Donnees) (s : String) (n : ℕ) (b : Base)
    → Suivie b
    → Suivie (tables (creer_demande m i x s n b))
unfolding creer_demande
Suivie-creer_demande m i x s n b v = elim (Bool-cases (existe i b.demandes)) [
  | inl p ↦ rw p v
  | inr p ↦ elim (Bool-cases (is_some x.contact && not x.recontact)) [
    | inl q ↦ rw p (rw q v)
    | inr q ↦ rw p (
        rw q (
          let (k, j) = abonner_dans-requests demande i s (record b { demandes = _ ∷ b.demandes }) in
          Suivie-creation m _ _ _ _ b _ k j p refl refl
            (Saine-en_cours _ refl refl (λ z. ground (arith, z, q))) v))
  ]
]

pub Suivie-recalculer_etat :
    (m : Moment) (d : Demande) (b : Base)
    → trouver d.id b.demandes ≡ some d
    → Suivie b
    → Suivie (recalculer_etat m d b)
unfolding recalculer_etat
Suivie-recalculer_etat m d b t v =
    elim (Bool-cases (
      est_ouverte d.etat
      && demande_atteint_le_chantier (nb_soutiens d.id b) (a_garant d.id b) d.seuil)) [
        | inl p ↦ rw p (
            Suivie-changer m _ d _ _ _ (trouver-ecrire d.id d m _ _ _ _ b t) refl
              (λ w. Saine-en_cours _ refl refl (recontact-of_Saine d w))
              (Suivie-ecrire m _ _ _ _ b refl v))
        | inr p ↦ rw p v
      ]

pub Suivie-clore_demande :
    (m : Moment) (i s : String) (j motif : Option String) (b : Base)
    → Suivie b
    → Suivie (tables (clore_demande m i s j motif b))
unfolding clore_demande
Suivie-clore_demande m i s j motif b v = elim (Option-cases (trouver i b.demandes)) [
  | inl t ↦ rw (t, tables) v
  | inr (d, t) ↦
      rw (t, tables)
        (elim (Bool-cases (doublon_absent j b.demandes)) [
          | inl p ↦ rw p v
          | inr p ↦ elim (Bool-cases (not (is_some j) && not (is_some motif))) [
            | inl q ↦ rw p (rw q v)
            | inr q ↦ rw p (
                rw q (
                  Suivie-changer m _ d _ _ b (retrouver i d b t) refl
                    (λ w. Saine-sans_contact _ refl refl) v))
          ]
        ])
]

pub Suivie-echeances_de :
    (m : Moment) (l : List Demande) (b : Base)
    → Uniques l
    → ((d : Demande) → In d l → (trouver d.id b.demandes ≡ some d) × (d.etat ≡ a_confirmer))
    → Suivie b
    → Suivie (echeances_de m l b)
unfolding echeances_de
Suivie-echeances_de m [] b u h v = v
Suivie-echeances_de m (d ∷ l) b (n, u) h v =
    Suivie-echeances_de m l _ u
      (λ e i. (
        trouver-changer_other e.id m (echue m d) _ _ b (other_id d e l n i) ∙ (h e (inr i)).0,
        (h e (inr i)).1,
      ))
      (Suivie-changer m (echue m d) d _ _ b (h d (inl refl)).0
        (ap (λ z. passe z realisee) (sym (h d (inl refl)).1)) (λ w. Saine-sans_contact _ refl refl)
        v)

pub Suivie-retirer_garant :
    (m : Moment) (i s : String) (b : Base) → Suivie b → Suivie (tables (retirer_garant m i s b))
unfolding retirer_garant
Suivie-retirer_garant m i s b v = elim (Option-cases (trouver i b.demandes)) [
  | inl t ↦ rw (t, tables) v
  | inr (d, t) ↦ rw (t, tables) (Suivie-ecrire m _ _ _ _ _ refl (Suivie-soutiens _ b v))
]

attend_confirmation : (d : Demande) → est_a_confirmer d.etat ≡ true → d.etat ≡ a_confirmer
attend_confirmation d h = go d.etat h
  where
    go : (e : EtatDemande) → est_a_confirmer e ≡ true → e ≡ a_confirmer
    go ouverte h = cc
    go chantier h = cc
    go a_confirmer h = refl
    go realisee h = cc
    go close h = cc

pub Suivie-echeances : (m : Moment) (b : Base) → Suivie b → Suivie (echeances m b)
unfolding echeances
Suivie-echeances m b v =
    Suivie-echeances_de m _ b (Uniques-filter _ _ (Uniques-filter _ b.demandes (Uniques-of b v)))
      (λ d i.
        let (j, z) = In-of_filter d _ _ i in
        let (k, c) = In-of_filter d _ b.demandes j in
        (trouver-In d b.demandes (Uniques-of b v) k, attend_confirmation d c))
      v

pub Suivie-repondue :
    (m : Moment) (i s : String) (oui : Bool) (motif : Option String) (d : Demande) (b : Base)
    (g : Base → List String)
    → trouver d.id b.demandes ≡ some d
    → Suivie b
    → let apres =
        changer m
          (repondue m oui motif d)
          (personne s)
          (reponse d.etat (repondue m oui motif d).etat oui motif)
          b in
      Suivie (if oui then apres else prevenir (g apres) i apres)
Suivie-repondue m i s true motif d b g t v =
    Suivie-changer m _ d _ _ b t refl (λ w. Saine-sans_contact _ refl refl) v
Suivie-repondue m i s false motif d b g t v =
    Suivie-prevenir _ i _ (
      Suivie-changer m _ d _ _ b t refl (λ w. Saine-en_cours _ refl refl (recontact-of_Saine d w))
        v)

pub Suivie-confirmer_satisfaction :
    (m : Moment) (i s : String) (oui : Bool) (motif : Option String) (b : Base)
    → Suivie b
    → Suivie (tables (confirmer_satisfaction m i s oui motif b))
unfolding confirmer_satisfaction
Suivie-confirmer_satisfaction m i s oui motif b v =
    elim (Option-cases (trouver i (echeances m b).demandes)) [
      | inl t ↦ rw (t, tables) (Suivie-echeances m b v)
      | inr (d, t) ↦
          rw (t, tables)
            (elim (Bool-cases (not (est_a_confirmer d.etat))) [
              | inl p ↦ rw p (Suivie-echeances m b v)
              | inr p ↦ rw p (
                  Suivie-repondue m i s oui motif d (echeances m b) (garants_de i)
                    (retrouver i d (echeances m b) t) (Suivie-echeances m b v))
            ])
    ]

pub Suivie-modifier_demande :
    (m : Moment) (i : String) (f : Modif) (s : String) (b : Base)
    → Suivie b
    → Suivie (tables (modifier_demande m i f s b))
unfolding modifier_demande
Suivie-modifier_demande m i f s b v = elim (Option-cases (trouver i b.demandes)) [
  | inl t ↦ rw (t, tables) v
  | inr (d, t) ↦
      rw (t, tables)
        (elim (Bool-cases
          (is_some (poser f d.donnees).contact && not (poser f d.donnees).recontact)) [
            | inl p ↦ rw p v
            | inr p ↦ rw p (
                Suivie-ecrire m _ _ _ _ _ refl
                  (Suivie-ranger _ d b (retrouver i d b t) refl (Saine-poser f m.now d) v))
          ])
]

pub Suivie-retirer_soutien :
    (m : Moment) (i s : String) (b : Base) → Suivie b → Suivie (tables (retirer_soutien m i s b))
unfolding retirer_soutien
Suivie-retirer_soutien m i s b v = elim (Option-cases (trouver i b.demandes)) [
  | inl t ↦ rw (t, tables) v
  | inr (d, t) ↦
      rw (t, tables)
        (elim (Option-cases (soutien_pose i s b.soutiens)) [
          | inl p ↦ rw p v
          | inr (x, p) ↦ rw p (Suivie-ecrire m _ _ _ _ _ refl (Suivie-soutiens _ b v))
        ])
]

pub Suivie-solliciter :
    (m : Moment) (n : String) (e : Etat) (j : Option String) (b : Base)
    → Suivie b
    → Suivie (solliciter m n e j b)
unfolding solliciter
Suivie-solliciter m n e none b v = v
Suivie-solliciter m n e (some i) b v = elim (Option-cases (trouver i b.demandes)) [
  | inl t ↦ rw (t, solliciter) v
  | inr (d, t) ↦
      rw (t, solliciter)
        (elim (Bool-cases (est_tous e && not (i == "") && est_en_cours d.etat)) [
          | inl p ↦ rw p (
              Suivie-prevenir _ d.id _
                (Suivie-changer m _ d _ _ b (retrouver i d b t) refl (Saine-livree m n d) v))
          | inr p ↦ rw p v
        ])
]
