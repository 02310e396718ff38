-- ===== src/Collectif/Demandes/Seuil.antt =====
-- soutenir of myrag/app/services/collectif_store.py: when a request becomes a chantier.
use mycollections.Base.{
  ℕ, ◌≡◌, refl, subst, ◌∙◌, ap, Bool, true, false, ◌&&◌, not, Option, some, List, [], ◌∷◌, String,
  if◌then◌else◌, Bool-cases, inl, inr, leb,
}
use mycollections.Collectif.Etats.{demande_atteint_le_chantier}
use mycollections.Collectif.Demandes.{
  Base, Demande, DemandeFiche, Moment, Role, Resultat, commis, echec, trouver, soutenir, recalculee,
  recalculer_etat, est_ouverte, terminee, est_garant, autre_garant, temps_borne, nb_soutiens,
  a_garant, enrichir, prevenir, changer, ranger, ecrire, abonner_dans, demande, poser_soutien,
  sur_demande, soutien_ajoute, personne, soutien_de,
}

soutiens-prevenir :
    (g : List String) (n : String) (b : Base) → (prevenir g n b).soutiens ≡ b.soutiens
unfolding prevenir
soutiens-prevenir [] n b = refl
soutiens-prevenir (x ∷ g) n b = refl

soutiens-recalculer_etat :
    (m : Moment) (d : Demande) (b : Base) → (recalculer_etat m d b).soutiens ≡ b.soutiens
unfolding recalculer_etat changer ranger ecrire
soutiens-recalculer_etat m d b =
    elim (Bool-cases (
      est_ouverte d.etat
      && demande_atteint_le_chantier (nb_soutiens d.id b) (a_garant d.id b) d.seuil)) [
        | inl p ↦ rw p refl
        | inr p ↦ rw p refl
      ]

abbrev rendue : DemandeFiche → Resultat DemandeFiche → DemandeFiche
rendue f (commis b g) = g
rendue f (echec e b) = f

comptes-soutiens :
    (i : String) (x y : Base)
    → x.soutiens ≡ y.soutiens
    → (nb_soutiens i x ≡ nb_soutiens i y) × (a_garant i x ≡ a_garant i y)
unfolding nb_soutiens a_garant
comptes-soutiens i x y h = rw h (refl, refl)

et_vrai : (a b c : Bool) → a && (b && c) ≡ true → false ≡ (a && not (b && c))
et_vrai true true true h = refl
et_vrai true true false h = cc
et_vrai true false c h = cc
et_vrai false b c h = cc

et_faux : (a b c : Bool) → a && (b && c) ≡ false → a ≡ (a && not (b && c))
et_faux true true true h = cc
et_faux true true false h = refl
et_faux true false c h = refl
et_faux false b c h = refl

-- The state and the counts of the row that a support leaves, its tables having the supports that
-- decided.
recalculee-Seuil :
    (m : Moment) (d : Demande) (note x : Base)
    → x.soutiens ≡ note.soutiens
    → est_ouverte (recalculee m d note).etat ≡ (
        est_ouverte d.etat
        && not (
            a_garant (recalculee m d note).id x
            && leb (recalculee m d note).seuil (nb_soutiens (recalculee m d note).id x)))
unfolding recalculee demande_atteint_le_chantier
recalculee-Seuil m d note x h =
    let (n, g) = comptes-soutiens d.id x note h in
    elim (Bool-cases
      (est_ouverte d.etat && (a_garant d.id note && leb d.seuil (nb_soutiens d.id note)))) [
        | inl p ↦
            rw (p, recalculee)
              (rw n (
                rw g (
                  et_vrai (est_ouverte d.etat) (a_garant d.id note)
                    (leb d.seuil (nb_soutiens d.id note)) p)))
        | inr p ↦
            rw (p, recalculee)
              (rw n (
                rw g (
                  et_faux (est_ouverte d.etat) (a_garant d.id note)
                    (leb d.seuil (nb_soutiens d.id note)) p)))
      ]

-- What an accepted support says of the request: the card of a request that stays open or not.
Decide : Demande → DemandeFiche → Type 0
Decide d f = est_ouverte f.demande.etat ≡ (est_ouverte d.etat && not (f.garant && f.seuil_atteint))

enrichir-Decide :
    (m : Moment) (d : Demande) (s : String) (note x : Base)
    → x.soutiens ≡ note.soutiens
    → Decide d (enrichir m x (recalculee m d note) s)
unfolding Decide enrichir
enrichir-Decide m d s note x h = recalculee-Seuil m d note x h

soutiens-si :
    (c : Bool) (x y note : Base)
    → x.soutiens ≡ note.soutiens
    → y.soutiens ≡ note.soutiens
    → (if c then x else y).soutiens ≡ note.soutiens
soutiens-si true x y note h k = h
soutiens-si false x y note h k = k

-- Where a support is accepted, the request on the card that is returned is open exactly when it was
-- open and the card has no guarantor or fewer distinct supports than the threshold.
pub soutenir-Seuil :
    (m : Moment) (i s : String) (r : Role) (t : Option ℕ) (b b' : Base) (d : Demande)
    (f : DemandeFiche)
    → trouver i b.demandes ≡ some d
    → soutenir m i s r t b ≡ commis b' f
    → est_ouverte f.demande.etat ≡ (est_ouverte d.etat && not (f.garant && f.seuil_atteint))
unfolding soutenir Decide
soutenir-Seuil m i s r t b b' d f h e =
    let e1 = rw (h, soutenir) at e in
    elim (Bool-cases (terminee d.etat)) [
      | inl p ↦ cc (rw p at e1)
      | inr p ↦ elim (Bool-cases (est_garant r && autre_garant i s b.soutiens)) [
        | inl q ↦ cc (rw q at (rw p at e1))
        | inr q ↦ elim (Bool-cases (not (temps_borne t))) [
          | inl k ↦ cc (rw k at (rw q at (rw p at e1)))
          | inr k ↦
              let e2 = rw k at (rw q at (rw p at e1)) in
              let soutenu = abonner_dans demande i s (poser_soutien i s r t b) in
              let note =
                ecrire m (sur_demande i) soutien_ajoute (personne s)
                  (soutien_de r t (nb_soutiens i soutenu)) soutenu in
              subst (Decide d) (ap (rendue f) e2) (
                enrichir-Decide m d s note _ (
                  soutiens-si _ _ _ note
                    (soutiens-prevenir _ i _ ∙ soutiens-recalculer_etat m d note)
                    (soutiens-recalculer_etat m d note)))
        ]
      ]
    ]
