-- ===== src/Collectif/Etats/Avance.antt =====
-- What transition_collection of myrag/app/services/etats.py allows, and what a run of its moves can
-- reach.
use native.Mathlib.Decide.{dec_le}
use mycollections.Base.{
  suc, ◌+◌, ◌≤◌, ◌≡◌, ◌≢◌, ◌↔◌, inl, inr, refl, Bool, true, false, Option, none, some, List, [],
  ◌∷◌, arith, In,
}
use mycollections.Collectif.Etats.{
  Etat, amorcee, en_controle, publiee_groupe, publiee_tous, Nom, connu, Grille, arrivee, index,
  courant, grille_complete, vers_connu, transition_collection,
}

-- The passages that the rule names: one step forward, a publication to all with its whole grid, the
-- return from all to the group, and any move of an administrator.
pub data Passage (grille : Option Grille) (forcer : Bool) (de vers : Etat) : Type 0 where
  controler : de ≡ amorcee → vers ≡ en_controle → Passage grille forcer de vers
  publier_groupe : de ≡ en_controle → vers ≡ publiee_groupe → Passage grille forcer de vers
  publier_tous :
      de ≡ publiee_groupe
      → vers ≡ publiee_tous
      → grille_complete grille ≡ true
      → Passage grille forcer de vers
  retirer : de ≡ publiee_tous → vers ≡ publiee_groupe → Passage grille forcer de vers
  force : forcer ≡ true → vers ≢ de → Passage grille forcer de vers

module _ (grille : Option Grille) where
  sound :
      (de vers e : Etat) (forcer : Bool)
      → vers_connu de vers grille forcer ≡ arrivee e
      → Passage grille forcer de vers
  unfolding vers_connu
  sound amorcee amorcee e f h = cc
  sound en_controle en_controle e f h = cc
  sound publiee_groupe publiee_groupe e f h = cc
  sound publiee_tous publiee_tous e f h = cc
  sound _ _ e true h = Passage.force refl (λ p. cc)
  sound amorcee en_controle e false h = Passage.controler refl refl
  sound en_controle publiee_groupe e false h = Passage.publier_groupe refl refl
  sound publiee_groupe publiee_tous e false h = Passage.publier_tous refl refl (ground arith)
  sound publiee_tous publiee_groupe e false h = Passage.retirer refl refl
  sound _ _ e false h = cc

  complete :
      (de vers : Etat) (forcer : Bool)
      → Passage grille forcer de vers
      → vers_connu de vers grille forcer ≡ arrivee vers
  unfolding vers_connu
  complete de vers f (Passage.controler p q) = rw (p, q) (ground arith)
  complete de vers f (Passage.publier_groupe p q) = rw (p, q) (ground arith)
  complete de vers f (Passage.publier_tous p q g) = rw (p, q) (ground arith)
  complete de vers f (Passage.retirer p q) = rw (p, q) (ground arith)
  complete de vers f (Passage.force p n) = rw p (different de vers n)
    where
      different : (de vers : Etat) → vers ≢ de → vers_connu de vers grille true ≡ arrivee vers
      different amorcee amorcee n = absurd (n refl)
      different en_controle en_controle n = absurd (n refl)
      different publiee_groupe publiee_groupe n = absurd (n refl)
      different publiee_tous publiee_tous n = absurd (n refl)
      different _ _ n = refl

-- A move to a known state is accepted exactly when it is one of the passages that the rule names,
-- counted from the present state (the first one if it is unknown), and then arrives where it aimed.
pub transition_collection_iff :
    (etat : Option Nom) (vers : Etat) (grille : Option Grille) (forcer : Bool)
    → (transition_collection etat (connu vers) grille forcer ≡ arrivee vers)
      ↔ Passage grille forcer (courant etat) vers
unfolding transition_collection
transition_collection_iff etat vers grille forcer =
    (sound grille (courant etat) vers vers forcer, complete grille (courant etat) vers forcer)

-- An accepted move arrives at its target.
pub arrivee-eq_cible :
    (etat : Option Nom) (vers e : Etat) (grille : Option Grille) (forcer : Bool)
    → transition_collection etat (connu vers) grille forcer ≡ arrivee e
    → e ≡ vers
unfolding transition_collection vers_connu
arrivee-eq_cible etat vers e grille forcer h = ground arith

-- A run of moves without forcing, each with the grid of its moment; the list holds the states that
-- were left, the latest first.
pub data Chemin : List Etat → Etat → Type 0 where
  depart : Chemin [] amorcee
  pas :
      {passes : List Etat} {de vers : Etat} (grille : Option Grille)
      → Chemin passes de
      → transition_collection (some (connu de)) (connu vers) grille false ≡ arrivee vers
      → Chemin (de ∷ passes) vers

-- The grid of the last move of a run.
abbrev pub derniere_grille : {passes : List Etat} {e : Etat} → Chemin passes e → Option Grille
derniere_grille depart = none
derniere_grille (pas grille c ok) = grille

-- Every state below the present one was left on the way, in a run that forces nothing.
abbrev pub Franchies : List Etat → Etat → Type 0
Franchies passes e = (f : Etat) → suc (index f) ≤ index e → In f passes

index-injective : (a b : Etat) → index a ≡ index b → a ≡ b
index-injective amorcee amorcee h = refl
index-injective en_controle en_controle h = refl
index-injective publiee_groupe publiee_groupe h = refl
index-injective publiee_tous publiee_tous h = refl
index-injective _ _ h = absurd (omega arith)

index-Passage :
    {de vers : Etat} (grille : Option Grille)
    → Passage grille false de vers
    → index vers ≤ index de + 1
index-Passage grille (Passage.controler p q) = rw (p, q) (omega arith)
index-Passage grille (Passage.publier_groupe p q) = rw (p, q) (omega arith)
index-Passage grille (Passage.publier_tous p q c) = rw (p, q) (omega arith)
index-Passage grille (Passage.retirer p q) = rw (p, q) (omega arith)
index-Passage grille (Passage.force p n) = cc

franchir :
    (passes : List Etat) (de vers : Etat)
    → Franchies passes de
    → index vers ≤ index de + 1
    → Franchies (de ∷ passes) vers
franchir passes de vers h le f lt = elim (dec_le (suc (index f)) (index de)) [
  | yes below ↦ inr (h f below)
  | no same ↦ inl (index-injective f de (omega arith))
]

-- A run without forcing passes through every state below the one that it reaches: a collection
-- published to all was amorcee, then en_controle, then publiee_groupe.
pub Chemin-Franchies : (passes : List Etat) (e : Etat) → Chemin passes e → Franchies passes e
Chemin-Franchies _ _ depart f lt = absurd (omega arith)
Chemin-Franchies _ _ (pas {passes} {de} {vers} grille c ok) f lt =
    franchir passes de vers (Chemin-Franchies passes de c)
      (index-Passage grille ((transition_collection_iff _ vers grille false).0 ok)) f lt

-- A run without forcing that ends published to all left the group last, and the grid of this last
-- move was complete.
pub Chemin-publiee_tous :
    (passes : List Etat) (c : Chemin passes publiee_tous)
    → (grille_complete (derniere_grille c) ≡ true)
      × (avant : List Etat) × (passes ≡ publiee_groupe ∷ avant)
Chemin-publiee_tous _ (pas {passes} {de} {vers} grille c ok) =
    dernier grille ((transition_collection_iff _ vers grille false).0 ok)
  where
    dernier :
        (grille : Option Grille)
        → Passage grille false de publiee_tous
        → (grille_complete grille ≡ true)
          × (avant : List Etat) × (de ∷ passes ≡ publiee_groupe ∷ avant)
    dernier g (Passage.publier_tous p q h) = (h, passes, cc)
    dernier g (Passage.controler p q) = cc
    dernier g (Passage.publier_groupe p q) = cc
    dernier g (Passage.retirer p q) = cc
    dernier g (Passage.force p n) = cc
