-- ===== src/Collectif/Etats/Tests.antt =====
-- The state machine of myrag/app/services/etats.py at concrete inputs.
use mycollections.Base.{◌+◌, ◌*◌, ◌≡◌, ◌↔◌, refl, true, false, none, some, List, [], ◌∷◌, In, text}
use mycollections.Collectif.Etats.{
  Etat, amorcee, en_controle, publiee_groupe, publiee_tous, connu, Grille, arrivee, refus,
  etapes_une_a_une, grille_incomplete, grille_complete, transition_collection,
  transitions_possibles, en_sommeil, confirmation_echue, chantier, ouverte, a_confirmer, jour,
}
use mycollections.Collectif.Etats.Avance.{
  Passage, Chemin, depart, pas, derniere_grille, Franchies, transition_collection_iff,
  Chemin-Franchies, Chemin-publiee_tous,
}
use mycollections.Collectif.Etats.Offre.{In-transitions_possibles}

abbrev pleine : Grille
pleine = record {
  source_licence = some (text "LO 2.0");
  donnees_perso = some (text "aucune");
  fraicheur = some (text "mensuelle");
  relecture_n = some 1;
}

abbrev blanche : Grille
blanche = record pleine { fraicheur = some (text "  ") }

grilles : (grille_complete (some pleine) ≡ true) × (grille_complete (some blanche) ≡ false)
unfolding grille_complete
grilles = (refl, refl)

publie :
    transition_collection (some (connu publiee_groupe)) (connu publiee_tous) (some pleine) false
    ≡ arrivee publiee_tous
unfolding transition_collection grille_complete
publie = refl

refuse :
    (transition_collection (some (connu publiee_groupe)) (connu publiee_tous) (some blanche) false
      ≡ refus grille_incomplete)
    × (transition_collection none (connu publiee_groupe) (some pleine) false
        ≡ refus (etapes_une_a_une amorcee publiee_groupe))
unfolding transition_collection grille_complete
refuse = (refl, refl)

offre : transitions_possibles (some (connu publiee_groupe)) (some pleine) false ≡ publiee_tous ∷ []
unfolding transitions_possibles transition_collection grille_complete
offre = refl

attente :
    (en_sommeil chantier (some 0) (30 * jour + 1) 30 ≡ true)
    × (en_sommeil ouverte none 0 30 ≡ false)
    × (confirmation_echue a_confirmer (some 0) (5 * jour) 5 ≡ false)
unfolding en_sommeil confirmation_echue
attente = (refl, refl, refl)

transition_collection_iff_example :
    (transition_collection (some (connu amorcee)) (connu en_controle) none false
      ≡ arrivee en_controle)
    ↔ Passage none false amorcee en_controle
transition_collection_iff_example =
    transition_collection_iff (some (connu amorcee)) en_controle none false

abbrev trois_pas : List Etat
trois_pas = publiee_groupe ∷ en_controle ∷ amorcee ∷ []

chemin : Chemin trois_pas publiee_tous
unfolding transition_collection grille_complete
chemin = pas (some pleine) (pas none (pas none depart refl) refl) refl

Chemin-Franchies_example : Franchies trois_pas publiee_tous
Chemin-Franchies_example = Chemin-Franchies trois_pas publiee_tous chemin

Chemin-publiee_tous_example :
    (grille_complete (derniere_grille chemin) ≡ true)
    × (avant : List Etat) × (trois_pas ≡ publiee_groupe ∷ avant)
Chemin-publiee_tous_example = Chemin-publiee_tous trois_pas chemin

In-transitions_possibles_example :
    In publiee_groupe (transitions_possibles (some (connu en_controle)) none false) ↔ (
      transition_collection (some (connu en_controle)) (connu publiee_groupe) none false
      ≡ arrivee publiee_groupe)
In-transitions_possibles_example =
    In-transitions_possibles (some (connu en_controle)) none false publiee_groupe
