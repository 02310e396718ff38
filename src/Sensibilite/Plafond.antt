-- ===== src/Sensibilite/Plafond.antt =====
-- The rule of the ceiling (myrag/app/services/sensibilite.py): what it lets in, and that its two
-- answers on a destination agree.
use mycollections.Base.{
  ◌≤◌, ◌≡◌, ◌↔◌, refl, inl, inr, Bool, true, Option, none, some, List, String, In, In-filter,
  In-of_filter, arith, leb, leb→le, le→leb, if◌then◌else◌,
}
use mycollections.Sensibilite.{
  Sensitivity, public, internal, personal, personal_sensitive, controlled, restricted,
  valider_sensibilite, echelle, index, niveau, rang, compatible, valeur, niveaux_permis,
  Destination, plafond, admise, Phrase, refus_destination, refus_plancher,
}

In-echelle : (n : Sensitivity) → In n echelle
In-echelle public = inl refl
In-echelle internal = inr (inl refl)
In-echelle personal = inr (inr (inl refl))
In-echelle personal_sensitive = inr (inr (inr (inl refl)))
In-echelle controlled = inr (inr (inr (inr (inl refl))))
In-echelle restricted = inr (inr (inr (inr (inr (inl refl)))))

-- The value of a level has the rank of the level.
rang-valeur : (n : Sensitivity) → rang (valeur n) ≡ index n
unfolding rang niveau valider_sensibilite
rang-valeur public = refl
rang-valeur internal = refl
rang-valeur personal = refl
rang-valeur personal_sensitive = refl
rang-valeur controlled = refl
rang-valeur restricted = refl

compatible-valeur : (c p : Sensitivity) → compatible (valeur c) (valeur p) ≡ leb (index c) (index p)
unfolding compatible
compatible-valeur c p = rw (rang-valeur c, rang-valeur p)

compatible-le : (c p : String) → rang c ≤ rang p → compatible c p ≡ true
unfolding compatible
compatible-le c p le = le→leb (rang c) (rang p) le

-- The levels that a collection may take above its sources are exactly those whose place on the scale
-- is at least the rank of the floor.
pub In-niveaux_permis :
    (plancher : String) (n : Sensitivity)
    → In n (niveaux_permis plancher) ↔ (rang plancher ≤ index n)
unfolding niveaux_permis
In-niveaux_permis plancher n = (
  λ i.
      let h = (In-of_filter n (λ m. leb (rang plancher) (rang (valeur m))) echelle i).1 in
      rw (rang-valeur n) at (leb→le (rang plancher) (rang (valeur n)) h),
  λ le.
      In-filter n (λ m. leb (rang plancher) (rang (valeur m))) echelle (In-echelle n)
        (le→leb (rang plancher) (rang (valeur n)) (rw (rang-valeur n) le)),
)

-- A level that is offered above a floor is never refused for that floor, and the other way round.
pub refus_plancher-none_iff :
    (plancher origine : String) (n : Sensitivity)
    → (refus_plancher (valeur n) plancher origine ≡ none) ↔ In n (niveaux_permis plancher)
unfolding refus_plancher compatible
refus_plancher-none_iff plancher origine n = (
  λ h. (In-niveaux_permis plancher n).1 (
      rw (rang-valeur n) at
        (leb→le (rang plancher) (rang (valeur n)) (admis (compatible plancher (valeur n)) h))),
  λ i.
      let le = (In-niveaux_permis plancher n).0 i in
      rw (compatible-le plancher (valeur n) (rw (rang-valeur n) le)),
)
  where
    admis :
        (b : Bool)
        → (if b then none else some (Phrase.trop_bas origine (niveau (some plancher) internal)))
          ≡ none
        → b ≡ true
    admis b h = ground arith

-- A collection goes to a destination exactly when no refusal is worded, which is when the
-- destination has no ceiling or one at least as high as the collection's level (internal if the
-- level is unknown).
pub admise_iff :
    (reglage : Option (List (String × String))) (s : Option String) (d : Destination)
    → ((admise reglage s d ≡ true) ↔ (refus_destination reglage s d ≡ none))
      × ((admise reglage s d ≡ true)
          ↔ ((p : Sensitivity) → plafond reglage d ≡ some p → index (niveau s internal) ≤ index p))
unfolding admise refus_destination
admise_iff reglage s d = cases (plafond reglage d) refl
  where
    n : Sensitivity
    n = niveau s internal

    cases :
        (o : Option Sensitivity)
        → plafond reglage d ≡ o
        → (((elim o [ none ↦ true | some p ↦ compatible (valeur n) (valeur p) ]) ≡ true) ↔ (
            (elim o [
              | none ↦ none
              | some p ↦
                  if compatible (valeur n) (valeur p) then none else some (Phrase.trop_haut d p n)
            ])
            ≡ none))
          × (((elim o [ none ↦ true | some p ↦ compatible (valeur n) (valeur p) ]) ≡ true)
              ↔ ((p : Sensitivity) → plafond reglage d ≡ some p → index n ≤ index p))
    cases none e = ((λ h. refl, λ h. refl), (λ h p q. cc, λ h. refl))
    cases (some p) e = (
      (λ h. rw h, λ h. ground arith),
      (
        λ h q r.
            let same : q ≡ p = cc in
            rw same (leb→le (index n) (index p) (rw (compatible-valeur n p) at h)),
        λ h. rw (compatible-valeur n p) (le→leb (index n) (index p) (h p e)),
      ),
    )
