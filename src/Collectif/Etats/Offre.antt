-- ===== src/Collectif/Etats/Offre.antt =====
-- What transitions_possibles and grille_complete of myrag/app/services/etats.py answer.
use mycollections.Base.{
  ℕ, ◌≤◌, ◌≡◌, ◌↔◌, ◌⊎◌, inl, inr, refl, Bool, true, false, Option, none, some, List, [], ◌∷◌,
  arith, In, all, leb, Bool-cases, Text, is_space, is_empty-strip,
}
use mycollections.Collectif.Etats.{
  Etat, amorcee, en_controle, publiee_groupe, publiee_tous, Nom, connu, Grille, Decision, arrivee,
  refus, etats_collection, grille_complete, transition_collection, garder, transitions_parmi,
  transitions_possibles, renseigne,
}
use mycollections.Collectif.Etats.Avance.{arrivee-eq_cible}

module _ (etat : Option Nom) (grille : Option Grille) (forcer : Bool) where
  abbrev Accepte : Etat → Type 0
  Accepte c = transition_collection etat (connu c) grille forcer ≡ arrivee c

  offert :
      (c cible : Etat) (d : Decision) (reste : List Etat)
      → transition_collection etat (connu cible) grille forcer ≡ d
      → In c (garder cible d reste)
      → Accepte c ⊎ In c reste
  offert c cible (arrivee e) reste h (inl same) =
      inl (rw same (cc (h, arrivee-eq_cible etat cible e grille forcer h)))
  offert c cible (arrivee e) reste h (inr i) = inr i
  offert c cible (refus r) reste h i = inr i

  In-garder : (c x : Etat) (d : Decision) (reste : List Etat) → In c reste → In c (garder x d reste)
  In-garder c x (arrivee e) reste i = inr i
  In-garder c x (refus r) reste i = i

  parmi_sound :
      (c : Etat) (l : List Etat) → In c (transitions_parmi l etat grille forcer) → Accepte c
  unfolding transitions_parmi
  parmi_sound c [] i = absurd i
  parmi_sound c (x ∷ l) i = elim (offert c x _ _ refl i) [ inl a ↦ a | inr r ↦ parmi_sound c l r ]

  parmi_complete :
      (c : Etat) (l : List Etat)
      → Accepte c
      → In c l
      → In c (transitions_parmi l etat grille forcer)
  unfolding transitions_parmi
  parmi_complete c [] a i = absurd i
  parmi_complete c (x ∷ l) a (inl e) = rw (← e) (rw (a, garder) (inl refl))
  parmi_complete c (x ∷ l) a (inr i) = In-garder c x _ _ (parmi_complete c l a i)

In-etats_collection : (c : Etat) → In c etats_collection
In-etats_collection amorcee = inl refl
In-etats_collection en_controle = inr (inl refl)
In-etats_collection publiee_groupe = inr (inr (inl refl))
In-etats_collection publiee_tous = inr (inr (inr (inl refl)))

-- The states that are offered are exactly those that the transition accepts.
pub In-transitions_possibles :
    (etat : Option Nom) (grille : Option Grille) (forcer : Bool) (c : Etat)
    → In c (transitions_possibles etat grille forcer)
      ↔ (transition_collection etat (connu c) grille forcer ≡ arrivee c)
unfolding transitions_possibles
In-transitions_possibles etat grille forcer c = (
  parmi_sound etat grille forcer c etats_collection,
  λ a. parmi_complete etat grille forcer c etats_collection a (In-etats_collection c),
)

-- A text with a character that `strip` keeps.
abbrev pub Lisible : Option Text → Type 0
Lisible o = (t : Text) × (c : ℕ) × (o ≡ some t) × In c t × (is_space c ≡ false)

all-false : (p : ℕ → Bool) (t : Text) → all p t ≡ false → (c : ℕ) × In c t × (p c ≡ false)
all-false p [] h = cc
all-false p (x ∷ t) h = elim (Bool-cases (p x)) [
  | inl e ↦ let (c, i, q) = all-false p t (rw e at h) in (c, inr i, q)
  | inr e ↦ (x, inl refl, e)
]

all_not : (p : ℕ → Bool) (t : Text) (c : ℕ) → In c t → p c ≡ false → all p t ≡ false
all_not p [] c i h = absurd i
all_not p (x ∷ t) c i h = ground (arith, all_not p t c)

renseigne_iff : (o : Option Text) → (renseigne o ≡ true) ↔ Lisible o
renseigne_iff none = (λ h. cc, λ (t, c, e, i, q). cc)
renseigne_iff (some t) = (
  λ h.
      let (c, i, q) = all-false is_space t (ground (arith, is_empty-strip is_space t)) in
      (t, c, refl, i, q),
  λ (u, c, e, i, q).
      let same : u ≡ t = cc in
      ground (arith, is_empty-strip is_space t, all_not is_space t c (rw same at i) q),
)

-- A grid is complete exactly when its three texts each have a visible character and it counts a
-- reading at least.
pub grille_complete_iff :
    (g : Grille)
    → (grille_complete (some g) ≡ true) ↔ (
        Lisible g.source_licence
        × Lisible g.donnees_perso
        × Lisible g.fraicheur
        × ((n : ℕ) × (g.relecture_n ≡ some n) × (1 ≤ n)))
unfolding grille_complete
grille_complete_iff g = (
  λ h. (
    (renseigne_iff g.source_licence).0 (ground arith),
    (renseigne_iff g.donnees_perso).0 (ground arith),
    (renseigne_iff g.fraicheur).0 (ground arith),
    relue g.relecture_n (ground arith),
  ),
  λ (a, b, c, d).
      let ra = (renseigne_iff g.source_licence).1 a in
      let rb = (renseigne_iff g.donnees_perso).1 b in
      let rc = (renseigne_iff g.fraicheur).1 c in let (n, e, le) = d in ground arith,
)
  where
    relue :
        (o : Option ℕ)
        → (elim o [ none ↦ false | some n ↦ leb 1 n ]) ≡ true
        → (n : ℕ) × (o ≡ some n) × (1 ≤ n)
    relue none h = cc
    relue (some n) h = (n, refl, ground arith)
