-- ===== src/Resana/Perimetre/Fermeture.antt =====
-- What exclus_effectifs of myrag/app/services/resana_perimetre.py gives: the excluded folders and all
-- below them, and nothing else.
use mycollections.Base.{
  ℕ, zero, suc, ◌+◌, ◌<◌, ◌≡◌, ◌⊎◌, ◌≢◌, ◌↔◌, refl, sym, subst, ap, ◌∙◌, inl, inr, arith, true,
  some, List, [], ◌∷◌, map, String, string_eq, In, contains, contains→In, In→contains, length,
  Bool-cases, Option-cases, some_inj, length-map, In-map, In-of_map, In-filter, In-of_filter, ◌==◌,
}
use mycollections.Resana.Perimetre.{
  Dossier, DocumentResana, enfant_de, enfants, empiler, vider, exclus_effectifs, dans_le_perimetre,
  garde,
}
use mycollections.Resana.Perimetre.Parcours.{
  attente, attente-enfants, attente-le, length-empiler, In-empiler_pile, In-empiler, In-of_empiler,
}

-- An excluded folder, or a folder whose parent is one of these.
pub data Sous (exclus : List String) (dossiers : List Dossier) : String → Type 0 where
  choisi : {i : String} → In i exclus → Sous exclus dossiers i
  enfant :
      {i : String} (p : String) (d : Dossier)
      → Sous exclus dossiers p
      → In d dossiers
      → d.parent_id ≡ some p
      → i ≡ d.id
      → Sous exclus dossiers i

pub enfant_de_iff : (i : String) (d : Dossier) → d.parent_id ≡ some i → enfant_de i d ≡ true
enfant_de_iff i d h = rw (h, enfant_de) (string_eq.same_refl i)

pub parent-of_enfant_de : (i : String) (d : Dossier) → enfant_de i d ≡ true → d.parent_id ≡ some i
parent-of_enfant_de i d h = elim (Option-cases d.parent_id) [
  | inl e ↦ cc (rw (e, enfant_de) at h)
  | inr (p, e) ↦ e ∙ ap some (string_eq.eq_of_same p i (rw (e, enfant_de) at h))
]

module _ (dossiers : List Dossier) where
  -- The children of what was met are met, or on the stack.
  abbrev Ouverte : List String → List String → Type 0
  Ouverte pile rendu =
      (p : String) (d : Dossier)
      → In p rendu
      → In d dossiers
      → d.parent_id ≡ some p
      → In d.id rendu ⊎ In d.id pile

  -- What a walk from a stack gives.
  record Fini (pile rendu r : List String) : Type 0 where
    garde_rendu : (x : String) → In x rendu → In x r
    prend : (x : String) → In x pile → In x r
    ferme : (p : String) (d : Dossier) → In p r → In d dossiers → d.parent_id ≡ some p → In d.id r

  Ouverte-saute :
      (i : String) (pile rendu : List String)
      → contains rendu i ≡ true
      → Ouverte (i ∷ pile) rendu
      → Ouverte pile rendu
  Ouverte-saute i pile rendu h o p d a b c = elim (o p d a b c) [
    | inl j ↦ inl j
    | inr (inl e) ↦ inl (subst (λ z. In z rendu) (sym e) (contains→In rendu i h))
    | inr (inr j) ↦ inr j
  ]

  Ouverte-entre :
      (i : String) (pile rendu : List String)
      → Ouverte (i ∷ pile) rendu
      → Ouverte (empiler (map (λ d. d.id) (enfants dossiers i)) pile) (i ∷ rendu)
  Ouverte-entre i pile rendu o p d (inl e) b c = inr (
      In-empiler d.id (map (λ z. z.id) (enfants dossiers i)) pile (
        In-map (λ (z : Dossier). z.id) d (enfants dossiers i)
          (In-filter d (enfant_de i) dossiers b (enfant_de_iff i d (c ∙ ap some e)))))
  Ouverte-entre i pile rendu o p d (inr a) b c = elim (o p d a b c) [
    | inl j ↦ inl (inr j)
    | inr (inl e) ↦ inl (inl e)
    | inr (inr j) ↦ inr (In-empiler_pile d.id (map (λ z. z.id) (enfants dossiers i)) pile j)
  ]

  Fini-saute :
      (i : String) (pile rendu r : List String)
      → contains rendu i ≡ true
      → Fini pile rendu r
      → Fini (i ∷ pile) rendu r
  Fini-saute i pile rendu r h f = record {
    garde_rendu = f.garde_rendu;
    prend = λ x j. elim j [
      | inl e ↦ f.garde_rendu x (subst (λ z. In z rendu) (sym e) (contains→In rendu i h))
      | inr k ↦ f.prend x k
    ];
    ferme = f.ferme;
  }

  Fini-entre :
      (i : String) (pile rendu r : List String)
      → Fini (empiler (map (λ d. d.id) (enfants dossiers i)) pile) (i ∷ rendu) r
      → Fini (i ∷ pile) rendu r
  Fini-entre i pile rendu r f = record {
    garde_rendu = λ x j. f.garde_rendu x (inr j);
    prend = λ x j. elim j [
      | inl e ↦ f.garde_rendu x (inl e)
      | inr k ↦ f.prend x (In-empiler_pile x (map (λ d. d.id) (enfants dossiers i)) pile k)
    ];
    ferme = f.ferme;
  }

  -- With enough fuel the walk ends, and with all that is to be met.
  vider_total :
      (f : ℕ) (pile rendu : List String)
      → length pile + attente rendu dossiers < f
      → Ouverte pile rendu
      → (r : List String) × (vider f dossiers pile rendu ≡ some r) × Fini pile rendu r
  unfolding vider
  vider_total zero pile rendu h o = absurd (omega (arith, h))
  vider_total (suc f) [] rendu h o = (
    rendu,
    refl,
    record {
      garde_rendu = λ x j. j;
      prend = λ x j. absurd j;
      ferme = λ p d a b c. elim (o p d a b c) [ inl j ↦ j | inr j ↦ absurd j ];
    },
  )
  vider_total (suc f) (i ∷ pile) rendu h o = elim (Bool-cases (contains rendu i)) [
    | inl p ↦
        let (r, e, w) =
          vider_total f pile rendu (omega (arith, h)) (Ouverte-saute i pile rendu p o) in
        (r, rw p e, Fini-saute i pile rendu r p w)
    | inr p ↦
        let suite = empiler (map (λ d. d.id) (enfants dossiers i)) pile in
        let (r, e, w) =
          vider_total f suite (i ∷ rendu)
            (omega (
              arith,
              h,
              attente-enfants rendu i dossiers p,
              length-empiler (map (λ d. d.id) (enfants dossiers i)) pile,
              length-map (λ (d : Dossier). d.id) (enfants dossiers i),
            ))
            (Ouverte-entre i pile rendu o) in
        (r, rw p e, Fini-entre i pile rendu r w)
  ]

  -- What a walk meets comes from its stack.
  vider-Sous :
      (exclus : List String) (f : ℕ) (pile rendu r : List String)
      → ((x : String) → In x pile → Sous exclus dossiers x)
      → ((x : String) → In x rendu → Sous exclus dossiers x)
      → vider f dossiers pile rendu ≡ some r
      → (x : String) → In x r
      → Sous exclus dossiers x
  unfolding vider
  vider-Sous exclus zero pile rendu r a b h x j = cc
  vider-Sous exclus (suc f) [] rendu r a b h x j =
      b x (subst (λ (z : List String). In x z) (sym (some_inj rendu r h)) j)
  vider-Sous exclus (suc f) (i ∷ pile) rendu r a b h x j = elim (Bool-cases (contains rendu i)) [
    | inl p ↦ vider-Sous exclus f pile rendu r (λ y k. a y (inr k)) b (rw p at h) x j
    | inr p ↦
        vider-Sous exclus f (empiler (map (λ d. d.id) (enfants dossiers i)) pile) (i ∷ rendu) r
          (λ y k. elim (In-of_empiler y (map (λ d. d.id) (enfants dossiers i)) pile k) [
            | inl m ↦
                let (d, n, e) = In-of_map (λ (d : Dossier). d.id) y (enfants dossiers i) m in
                let (q, t) = In-of_filter d (enfant_de i) dossiers n in
                enfant i d (a i (inl refl)) q (parent-of_enfant_de i d t) e
            | inr m ↦ a y (inr m)
          ])
          (λ y k. elim k [
            | inl e ↦ subst (Sous exclus dossiers) (sym e) (a i (inl refl))
            | inr m ↦ b y m
          ])
          (rw p at h) x j
  ]

  Sous-Fini :
      (exclus r : List String)
      → Fini (empiler exclus []) [] r
      → {x : String} → Sous exclus dossiers x
      → In x r
  Sous-Fini exclus r f {x} (choisi i) = f.prend x (In-empiler x exclus [] i)
  Sous-Fini exclus r f {x} (enfant p d s i h e) =
      subst (λ z. In z r) (sym e) (f.ferme p d (Sous-Fini exclus r f s) i h)

-- exclus_effectifs ends, and gives exactly the folders that are excluded or stand below an excluded
-- one, whatever the links between folders, loops included.
pub exclus_effectifs_iff :
    (exclus : List String) (dossiers : List Dossier)
    → (r : List String) × (exclus_effectifs exclus dossiers ≡ some r)
      × ((x : String) → In x r ↔ Sous exclus dossiers x)
unfolding exclus_effectifs
exclus_effectifs_iff exclus dossiers =
    let (r, e, f) =
      vider_total dossiers (suc (length exclus + length dossiers)) (empiler exclus []) []
        (omega (arith, attente-le [] dossiers, length-empiler exclus [])) (λ p d a. absurd a) in
    (
      r,
      e,
      λ x. (
        vider-Sous dossiers exclus (suc (length exclus + length dossiers)) (empiler exclus []) [] r
            (λ y k. elim (In-of_empiler y exclus [] k) [ inl m ↦ choisi m | inr m ↦ absurd m ])
            (λ y k. absurd k) e x,
        λ s. Sous-Fini dossiers exclus r f s,
      ),
    )

-- With the set that exclus_effectifs gives, dans_le_perimetre keeps exactly the documents that have no
-- folder, or a folder that is neither excluded nor below an excluded one.
pub dans_le_perimetre_iff :
    (exclus r : List String) (dossiers : List Dossier) (docs : List DocumentResana)
    (d : DocumentResana)
    → exclus_effectifs exclus dossiers ≡ some r
    → In d (dans_le_perimetre docs r)
      ↔ (In d docs × ((i : String) → d.dossier_id ≡ some i → i ≢ "" → ¬ Sous exclus dossiers i))
unfolding dans_le_perimetre
dans_le_perimetre_iff exclus r dossiers docs d h =
    let (r', e, w) = exclus_effectifs_iff exclus dossiers in
    let q = some_inj r' r (sym e ∙ h) in
    (
      λ i.
          let (a, b) = In-of_filter d (garde r) docs i in
          (
            a,
            λ j p n s.
                let c = In→contains r j (subst (λ (z : List String). In j z) q ((w j).1 s)) in
                ground (arith, rw (p, garde) at b, c, string_eq.eq_of_same j "", n),
          ),
      λ (a, k). In-filter d (garde r) docs a (elim (Option-cases d.dossier_id) [
        | inl p ↦ rw (p, garde) refl
        | inr (j, p) ↦
            rw (p, garde)
              (elim (Bool-cases (j == "")) [
                | inl t ↦ rw t refl
                | inr t ↦ elim (Bool-cases (contains r j)) [
                  | inl c ↦ absurd (
                      k j p
                        (λ z.
                          ground (arith, t, subst (λ u. (j == u) ≡ true) z (string_eq.same_refl j)))
                        ((w j).0 (subst (λ (z : List String). In j z) (sym q) (contains→In r j c))))
                  | inr c ↦ rw (t, c) refl
                ]
              ])
      ]),
    )
