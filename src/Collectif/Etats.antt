-- ===== src/Collectif/Etats.antt =====
-- myrag/app/services/etats.py: the state machine of a collection and the rules on requests.
-- A text that names a state is `connu` with the state, or `inconnu` with any other text; the words
-- of ETATS_COLLECTION are in myrag/app/models/db.py. A date is a count of microseconds.
pub mod Avance
pub mod Offre
mod Tests
use mycollections.Base.{
  ℕ, zero, suc, ◌+◌, ◌*◌, ◌≡◌, String, Bool, true, false, ◌&&◌, ◌||◌, not, Option, none, some, List,
  [], ◌∷◌, ltb, leb, if◌then◌else◌, nat_beq, Text, is_empty, is_space, strip, all,
}

pub data Etat : Type 0 where
  amorcee en_controle publiee_groupe publiee_tous : Etat

pub data Nom : Type 0 where
  connu : Etat → Nom
  inconnu : String → Nom

abbrev pub etats_collection : List Etat
etats_collection = amorcee ∷ en_controle ∷ publiee_groupe ∷ publiee_tous ∷ []

-- `ETATS_COLLECTION.index`
abbrev pub index : Etat → ℕ
index amorcee = 0
index en_controle = 1
index publiee_groupe = 2
index publiee_tous = 3

abbrev pub same : Etat → Etat → Bool
same a b = nat_beq (index a) (index b)

-- The fields of the grid that the rule reads; a key that is absent is `none`.
pub record Grille : Type 0 where
  pub source_licence : Option Text
  pub donnees_perso : Option Text
  pub fraicheur : Option Text
  pub relecture_n : Option ℕ

pub data Refus : Type 0 where
  etat_inconnu : String → Refus
  deja : Etat → Refus
  etapes_une_a_une : Etat → Etat → Refus
  grille_incomplete : Refus

-- The HTTP code that the route gives back.
abbrev pub code : Refus → ℕ
code (etat_inconnu s) = 422
code (deja e) = 409
code (etapes_une_a_une a b) = 409
code grille_incomplete = 422

pub data Decision : Type 0 where
  arrivee : Etat → Decision
  refus : Refus → Decision

-- `(t or "").strip()` as a test.
abbrev pub renseigne : Option Text → Bool
renseigne none = false
renseigne (some t) = not (is_empty (strip is_space t))

-- An empty or absent grid is `none`.
unfoldable pub grille_complete : Option Grille → Bool
grille_complete none = false
grille_complete (some g) =
    renseigne g.source_licence
    && renseigne g.donnees_perso
    && renseigne g.fraicheur
    && elim g.relecture_n [ none ↦ false | some n ↦ leb 1 n ]

-- `etat if etat in ETATS_COLLECTION else ETATS_COLLECTION[0]`
abbrev pub courant : Option Nom → Etat
courant (some (connu e)) = e
courant (some (inconnu s)) = amorcee
courant none = amorcee

-- publiee_tous → publiee_groupe
abbrev pub retour_autorise : Etat → Etat → Bool
retour_autorise de vers = same de publiee_tous && same vers publiee_groupe

unfoldable pub vers_connu : Etat → Etat → Option Grille → Bool → Decision
vers_connu de cible grille forcer =
    if same cible de
    then refus (deja cible)
    else if forcer
    then arrivee cible
    else if not (nat_beq (index cible) (index de + 1)) && not (retour_autorise de cible)
    then refus (etapes_une_a_une de cible)
    else if same cible publiee_tous && not (grille_complete grille)
    then refus grille_incomplete
    else arrivee cible

unfoldable pub transition_collection : Option Nom → Nom → Option Grille → Bool → Decision
unfolding vers_connu
transition_collection etat (inconnu s) grille forcer = refus (etat_inconnu s)
transition_collection etat (connu cible) grille forcer =
    vers_connu (courant etat) cible grille forcer

-- `except RefusTransition: continue`
abbrev pub garder : Etat → Decision → List Etat → List Etat
garder cible (arrivee e) reste = cible ∷ reste
garder cible (refus r) reste = reste

unfoldable pub transitions_parmi : List Etat → Option Nom → Option Grille → Bool → List Etat
transitions_parmi [] etat grille forcer = []
transitions_parmi (cible ∷ reste) etat grille forcer =
    garder cible (transition_collection etat (connu cible) grille forcer)
      (transitions_parmi reste etat grille forcer)

unfoldable pub transitions_possibles : Option Nom → Option Grille → Bool → List Etat
unfolding transitions_parmi
transitions_possibles = transitions_parmi etats_collection

unfoldable pub demande_atteint_le_chantier : ℕ → Bool → ℕ → Bool
demande_atteint_le_chantier nb_soutiens_distincts a_un_garant seuil =
    a_un_garant && leb seuil nb_soutiens_distincts

-- The states of a request (ETATS_DEMANDE).
pub data EtatDemande : Type 0 where
  ouverte chantier a_confirmer realisee close : EtatDemande

-- One day in microseconds.
abbrev pub jour : ℕ
jour = 86400000000

-- `etat in ETATS_DEMANDE_EN_SOMMEIL_POSSIBLE`
abbrev pub sommeil_possible : EtatDemande → Bool
sommeil_possible chantier = true
sommeil_possible _ = false

unfoldable pub en_sommeil : EtatDemande → Option ℕ → ℕ → ℕ → Bool
en_sommeil etat dernier_evenement_le maintenant jours =
    if sommeil_possible etat
    then elim dernier_evenement_le [ none ↦ true | some d ↦ ltb (d + jours * jour) maintenant ]
    else false

abbrev pub est_a_confirmer : EtatDemande → Bool
est_a_confirmer a_confirmer = true
est_a_confirmer _ = false

unfoldable pub confirmation_echue : EtatDemande → Option ℕ → ℕ → ℕ → Bool
confirmation_echue etat none maintenant jours = false
confirmation_echue etat (some d) maintenant jours =
    if est_a_confirmer etat then ltb (d + jours * jour) maintenant else false

abbrev pub publique : Option Nom → Bool
publique (some (connu publiee_tous)) = true
publique (some _) = false
publique none = false

pub data Mention : Type 0 where
  en_cours_de_verification : Mention

unfoldable pub mention_verification : Option Nom → Option Mention
mention_verification etat = if publique etat then none else some en_cours_de_verification

unfoldable pub servie_hors_du_groupe : Option Nom → Bool
servie_hors_du_groupe = publique
