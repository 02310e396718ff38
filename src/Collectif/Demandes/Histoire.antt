-- ===== src/Collectif/Demandes/Histoire.antt =====
-- A history of the requests of myrag/app/services/collectif_store.py: calls of its operations, one
-- after the other, on tables that are empty at first.
use mycollections.Base.{
  ℕ, ◌≡◌, ◌⊎◌, refl, sym, subst, Bool, true, false, ◌&&◌, not, Option, some, List, [], ◌∷◌, String,
  string_eq, ◌==◌, if◌then◌else◌, Bool-cases, Option-cases, inl, inr, In, find,
}
use mycollections.Collectif.Etats.{
  Etat, Nom, transition_collection, arrivee, refus, Refus, Decision,
}
use mycollections.Collectif.Demandes.{
  Base, Demande, Moment, ecrire, tables, Role, trouver, est_garant, soutenir, changer_etat,
  terminee, poser_soutien, autre_garant, temps_borne, abonner_dans, demande, soutien_ajoute,
  soutien_de, personne, sur_demande, Fiche,
}
use mycollections.Collectif.Demandes.Suivi.{Suivie, Saine, etat_journal, etat_ligne}
use mycollections.Collectif.Demandes.Gestes.{
  Geste, lecture, creation_de, confirmation, modification, soutien_par, retrait_soutien,
  retrait_garant, cloture, passage_de, jouer, Appel, histoire, vide,
}
use mycollections.Collectif.Demandes.Trace.{
  Suivie-ecrire, Suivie-prevenir, Suivie-abonner_dans, Suivie-soutiens, Suivie-ranger_fiche,
  trouver-ecrire, abonner_dans-requests,
}
use mycollections.Collectif.Demandes.Vie.{
  retrouver, Suivie-creer_demande, Suivie-echeances, Suivie-confirmer_satisfaction,
  Suivie-modifier_demande, Suivie-retirer_soutien, Suivie-retirer_garant, Suivie-clore_demande,
  Suivie-solliciter, Suivie-recalculer_etat,
}

-- The request is still there once the support is written.
trouver-note :
    (m : Moment) (i s : String) (r : Role) (t : Option ℕ) (n : ℕ) (d : Demande) (b : Base)
    → trouver d.id b.demandes ≡ some d
    → trouver d.id
        (ecrire m
          (sur_demande i)
          soutien_ajoute
          (personne s)
          (soutien_de r t n)
          (abonner_dans demande i s (poser_soutien i s r t b))).demandes
      ≡ some d
unfolding poser_soutien
trouver-note m i s r t n d b h = trouver-ecrire d.id d m _ _ _ _ _ (
    subst (λ l. trouver d.id l ≡ some d)
      (sym (abonner_dans-requests demande i s (poser_soutien i s r t b)).0) h)

Suivie-si : (c : Bool) (b b' : Base) → Suivie b → Suivie b' → Suivie (if c then b else b')
Suivie-si true b b' v w = v
Suivie-si false b b' v w = w

Suivie-soutenir :
    (m : Moment) (i s : String) (r : Role) (t : Option ℕ) (b : Base)
    → Suivie b
    → Suivie (tables (soutenir m i s r t b))
unfolding soutenir poser_soutien
Suivie-soutenir m i s r t b v = elim (Option-cases (trouver i b.demandes)) [
  | inl h ↦ rw (h, tables) v
  | inr (d, h) ↦
      rw (h, tables)
        (elim (Bool-cases (terminee d.etat)) [
          | inl p ↦ rw p v
          | inr p ↦ elim (Bool-cases (est_garant r && autre_garant i s b.soutiens)) [
            | inl q ↦ rw p (rw q v)
            | inr q ↦ elim (Bool-cases (not (temps_borne t))) [
              | inl k ↦ rw p (rw q (rw k v))
              | inr k ↦ rw p (
                  rw q (
                    rw k (
                      let w =
                        Suivie-recalculer_etat m d _
                          (trouver-note m i s r t _ d b (retrouver i d b h))
                          (Suivie-ecrire m _ _ _ _ _ refl
                            (Suivie-abonner_dans demande i s _ (Suivie-soutiens _ b v))) in
                      Suivie-si _ _ _ (Suivie-prevenir _ i _ w) w)))
            ]
          ]
        ])
]

Decision-cases : (x : Decision) → ((e : Etat) × (x ≡ arrivee e)) ⊎ ((r : Refus) × (x ≡ refus r))
Decision-cases (arrivee e) = inl (e, refl)
Decision-cases (refus r) = inr (r, refl)

Suivie-changer_etat :
    (m : Moment) (n : String) (c : Nom) (s : String) (forcer : Bool) (motif : String) (b : Base)
    → Suivie b
    → Suivie (tables (changer_etat m n c s forcer motif b))
unfolding changer_etat
Suivie-changer_etat m n c s forcer motif b v =
    elim (Option-cases (find (λ x. x.name == n) b.collections)) [
      | inl h ↦ rw (h, tables) v
      | inr (x, h) ↦
          rw (h, tables)
            (elim (Decision-cases (transition_collection x.etat_collab c x.grille forcer)) [
              | inl (e, p) ↦ rw p (
                  Suivie-prevenir _ n _ (
                    Suivie-solliciter m n e x.demande_id _
                      (Suivie-ecrire m _ _ _ _ _ refl (Suivie-ranger_fiche _ b v))))
              | inr (r, p) ↦ rw p v
            ])
    ]

Suivie-jouer : (m : Moment) (g : Geste) (b : Base) → Suivie b → Suivie (jouer m g b)
unfolding jouer
Suivie-jouer m lecture b v = Suivie-echeances m b v
Suivie-jouer m (creation_de i x s n) b v = Suivie-creer_demande m i x s n b v
Suivie-jouer m (confirmation i s oui motif) b v = Suivie-confirmer_satisfaction m i s oui motif b v
Suivie-jouer m (modification i c s) b v = Suivie-modifier_demande m i c s b v
Suivie-jouer m (soutien_par i s r t) b v = Suivie-soutenir m i s r t b v
Suivie-jouer m (retrait_soutien i s) b v = Suivie-retirer_soutien m i s b v
Suivie-jouer m (retrait_garant i s) b v = Suivie-retirer_garant m i s b v
Suivie-jouer m (cloture i s j motif) b v = Suivie-clore_demande m i s j motif b v
Suivie-jouer m (passage_de n c s forcer motif) b v = Suivie-changer_etat m n c s forcer motif b v

Suivie-histoire : (l : List Appel) (b : Base) → Suivie b → Suivie (histoire l b)
unfolding histoire
Suivie-histoire [] b v = v
Suivie-histoire (a ∷ l) b v = Suivie-histoire l _ (Suivie-jouer a.moment a.geste b v)

Suivie-vide : (c : List Fiche) → Suivie (vide c)
unfolding Suivie
Suivie-vide c = (tt, λ i. refl, λ d i. absurd i)

-- After any history of calls, refused ones included, that starts without requests, replaying the
-- journal of an id, each passage from the state before, gives the state of its request, and
-- nothing for an id that has no request.
pub histoire-etat_journal :
    (l : List Appel) (c : List Fiche) (i : String)
    → etat_ligne (trouver i (histoire l (vide c)).demandes)
      ≡ etat_journal i (histoire l (vide c)).journal
unfolding Suivie
histoire-etat_journal l c i = (Suivie-histoire l (vide c) (Suivie-vide c)).1 i

-- After any history of calls that starts without requests, a request that is over keeps no mail,
-- one that waits for its author has the date at which it was asked, and a request with a mail has
-- the author's wish to be called.
pub histoire-Saine :
    (l : List Appel) (c : List Fiche) (d : Demande) → In d (histoire l (vide c)).demandes → Saine d
unfolding Suivie
histoire-Saine l c d i = (Suivie-histoire l (vide c) (Suivie-vide c)).2 d i
