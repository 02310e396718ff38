-- ===== src/Resana/Perimetre/Arbre.antt =====
-- sous_arbre and inventaire of myrag/app/services/resana_perimetre.py.
use mycollections.Base.{
  Distincts, Distincts-snoc, ℕ, zero, suc, ◌+◌, ◌<◌, ◌≡◌, ◌⊎◌, refl, sym, subst, ap, ◌∙◌, inl, inr,
  arith, true, false, some, List, [], ◌∷◌, ◌++◌, String, string_eq, In, contains, contains→In,
  In→contains, length, Bool-cases, In-filter, In-of_filter, In-append_left, In-append_right,
  In-append_cases, length-append, Text,
}
use mycollections.Resana.Perimetre.{Dossier, enfant_de, enfants, trier, descendre, sous_arbre}
use mycollections.Resana.Perimetre.Parcours.{attente, attente-enfants, attente-le}
use mycollections.Resana.Perimetre.Tri.{ids, ids-snoc, length-trier, In-trier, In-of_trier}
use mycollections.Resana.Perimetre.Fermeture.{enfant_de_iff}

module _ (lower : Text → Text) (racine : String) (dossiers : List Dossier) where
  -- The folders that a walk has met: their ids, and what is left on the stack.
  record Etat (pile : List Dossier) (vus : List String) (rendu : List Dossier) : Type 0 where
    racine_vue : In racine vus
    vu_rendu : (x : String) → In x (ids rendu) → In x vus
    rendu_vu : (x : String) → In x vus → (x ≡ racine) ⊎ In x (ids rendu)
    distincts : Distincts (ids rendu)
    sans_racine : ¬ In racine (ids rendu)
    connus : (d : Dossier) → In d rendu → In d dossiers
    connue : (d : Dossier) → In d pile → In d dossiers
    ouverte :
        (p : String) (d : Dossier)
        → In p vus
        → In d dossiers
        → d.parent_id ≡ some p
        → In d.id vus ⊎ In d pile

  -- What sous_arbre should give: each folder once, the root left out, all that is below, and only
  -- folders that are there.
  pub record IsArbre (r : List Dossier) : Type 0 where
    pub once : Distincts (ids r)
    pub root : ¬ In racine (ids r)
    pub known : (d : Dossier) → In d r → In d dossiers
    pub closed :
        (p : String) (d : Dossier)
        → (p ≡ racine) ⊎ In p (ids r)
        → In d dossiers
        → d.parent_id ≡ some p
        → (d.id ≡ racine) ⊎ In d.id (ids r)

  Etat-saute :
      (d : Dossier) (pile : List Dossier) (vus : List String) (rendu : List Dossier)
      → contains vus d.id ≡ true
      → Etat (d ∷ pile) vus rendu
      → Etat pile vus rendu
  Etat-saute d pile vus rendu h s = record {
    racine_vue = s.racine_vue;
    vu_rendu = s.vu_rendu;
    rendu_vu = s.rendu_vu;
    distincts = s.distincts;
    sans_racine = s.sans_racine;
    connus = s.connus;
    connue = λ x i. s.connue x (inr i);
    ouverte = λ p x a b c. elim (s.ouverte p x a b c) [
      | inl i ↦ inl i
      | inr (inl e) ↦ inl (subst (λ (z : Dossier). In z.id vus) (sym e) (contains→In vus d.id h))
      | inr (inr i) ↦ inr i
    ];
  }

  Etat-entre :
      (d : Dossier) (pile : List Dossier) (vus : List String) (rendu : List Dossier)
      → contains vus d.id ≡ false
      → Etat (d ∷ pile) vus rendu
      → Etat (trier lower (enfants dossiers d.id) ++ pile) (d.id ∷ vus) (rendu ++ d ∷ [])
  Etat-entre d pile vus rendu h s =
      let neuf : ¬ In d.id vus = λ i. ground (arith, h, In→contains vus d.id i) in
      let suite = trier lower (enfants dossiers d.id) in
      record {
        racine_vue = inr s.racine_vue;
        vu_rendu = λ x i.
            elim (In-append_cases x (ids rendu) (d.id ∷ [])
              (subst (λ (z : List String). In x z) (ids-snoc rendu d) i)) [
                | inl j ↦ inr (s.vu_rendu x j)
                | inr (inl e) ↦ inl e
                | inr (inr k) ↦ absurd k
              ];
        rendu_vu = λ x i. elim i [
          | inl e ↦ inr (
              subst (λ (z : List String). In x z) (sym (ids-snoc rendu d))
                (In-append_right x (ids rendu) (d.id ∷ []) (inl e)))
          | inr j ↦ elim (s.rendu_vu x j) [
            | inl e ↦ inl e
            | inr k ↦ inr (
                subst (λ (z : List String). In x z) (sym (ids-snoc rendu d))
                  (In-append_left x (ids rendu) (d.id ∷ []) k))
          ]
        ];
        distincts =
            subst Distincts (sym (ids-snoc rendu d))
              (Distincts-snoc (ids rendu) d.id s.distincts (λ i. neuf (s.vu_rendu d.id i)));
        sans_racine = λ i.
            elim (In-append_cases racine (ids rendu) (d.id ∷ [])
              (subst (λ (z : List String). In racine z) (ids-snoc rendu d) i)) [
                | inl j ↦ s.sans_racine j
                | inr (inl e) ↦ neuf (subst (λ z. In z vus) e s.racine_vue)
                | inr (inr k) ↦ k
              ];
        connus = λ x i. elim (In-append_cases x rendu (d ∷ []) i) [
          | inl j ↦ s.connus x j
          | inr (inl e) ↦ s.connue x (inl e)
          | inr (inr k) ↦ absurd k
        ];
        connue = λ x i. elim (In-append_cases x suite pile i) [
          | inl j ↦
              (In-of_filter x (enfant_de d.id) dossiers
                (In-of_trier lower x (enfants dossiers d.id) j)).0
          | inr j ↦ s.connue x (inr j)
        ];
        ouverte = λ p x a b c. elim a [
          | inl e ↦ inr (
              In-append_left x suite pile (
                In-trier lower x (enfants dossiers d.id)
                  (In-filter x (enfant_de d.id) dossiers b (enfant_de_iff d.id x (c ∙ ap some e)))))
          | inr j ↦ elim (s.ouverte p x j b c) [
            | inl k ↦ inl (inr k)
            | inr (inl e) ↦ inl (inl (ap (λ (z : Dossier). z.id) e))
            | inr (inr k) ↦ inr (In-append_right x suite pile k)
          ]
        ];
      }

  IsArbre-fin : (vus : List String) (rendu : List Dossier) → Etat [] vus rendu → IsArbre rendu
  IsArbre-fin vus rendu s = record {
    once = s.distincts;
    root = s.sans_racine;
    known = s.connus;
    closed = λ p d a b c.
        elim (s.ouverte p d
          (elim a [ inl e ↦ subst (λ z. In z vus) (sym e) s.racine_vue | inr i ↦ s.vu_rendu p i ]) b
          c) [ inl i ↦ s.rendu_vu d.id i | inr i ↦ absurd i ];
  }

  descendre_total :
      (f : ℕ) (pile : List Dossier) (vus : List String) (rendu : List Dossier)
      → length pile + attente vus dossiers < f
      → Etat pile vus rendu
      → (r : List Dossier) × (descendre f lower dossiers pile vus rendu ≡ some r) × IsArbre r
  unfolding descendre
  descendre_total zero pile vus rendu h s = absurd (omega (arith, h))
  descendre_total (suc f) [] vus rendu h s = (rendu, refl, IsArbre-fin vus rendu s)
  descendre_total (suc f) (d ∷ pile) vus rendu h s = elim (Bool-cases (contains vus d.id)) [
    | inl p ↦
        let (r, e, w) =
          descendre_total f pile vus rendu (omega (arith, h)) (Etat-saute d pile vus rendu p s) in
        (r, rw p e, w)
    | inr p ↦
        let suite = trier lower (enfants dossiers d.id) in
        let (r, e, w) =
          descendre_total f (suite ++ pile) (d.id ∷ vus) (rendu ++ d ∷ [])
            (omega (
              arith,
              h,
              attente-enfants vus d.id dossiers p,
              length-append suite pile,
              length-trier lower (enfants dossiers d.id),
            ))
            (Etat-entre d pile vus rendu p s) in
        (r, rw p e, w)
  ]

-- sous_arbre ends, whatever the links, with each folder below the root once: no id twice, the root
-- left out, only folders of the data, and with a folder all the folders whose parent it is.
pub sous_arbre_total :
    (lower : Text → Text) (racine : String) (dossiers : List Dossier)
    → (r : List Dossier) × (sous_arbre lower racine dossiers ≡ some r)
      × IsArbre lower racine dossiers r
unfolding sous_arbre
sous_arbre_total lower racine dossiers =
    descendre_total lower racine dossiers (suc (length dossiers))
      (trier lower (enfants dossiers racine)) (racine ∷ []) []
      (omega (
        arith,
        attente-le [] dossiers,
        attente-enfants [] racine dossiers refl,
        length-trier lower (enfants dossiers racine),
      ))
      (record {
        racine_vue = inl refl;
        vu_rendu = λ x i. absurd i;
        rendu_vu = λ x i. elim i [ inl e ↦ inl e | inr j ↦ absurd j ];
        distincts = tt;
        sans_racine = λ i. i;
        connus = λ d i. absurd i;
        connue = λ d i.
            (In-of_filter d (enfant_de racine) dossiers
              (In-of_trier lower d (enfants dossiers racine) i)).0;
        ouverte = λ p d a b c. elim a [
          | inl e ↦ inr (
              In-trier lower d (enfants dossiers racine) (
                In-filter d (enfant_de racine) dossiers b (enfant_de_iff racine d (c ∙ ap some e))))
          | inr j ↦ absurd j
        ];
      })
