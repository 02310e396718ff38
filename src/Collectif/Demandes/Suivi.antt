-- ===== src/Collectif/Demandes/Suivi.antt =====
-- The journal of a request of myrag/app/services/collectif_store.py, replayed from its first
-- event: what the passages say, each one from the state that the passage before it left.
use mycollections.Base.{
  ℕ, ◌≡◌, Bool, true, false, Option, none, some, List, [], ◌∷◌, String, string_eq, ◌==◌,
  if◌then◌else◌, nat_beq, refl, ap, arith, In, is_some,
}
use mycollections.Collectif.Etats.{
  EtatDemande, est_a_confirmer, ouverte, chantier, a_confirmer, realisee, close,
}
use mycollections.Collectif.Demandes.{
  Demande, Base, Evenement, Objet, sur_demande, sur_collection, Detail, creation, passage, Modif,
  poser, Moment, livree, terminee, livraison, sans_suite, reponse, trouver,
}
use mycollections.Collectif.Demandes.Lignes.{Uniques}

pub data Effet : Type 0 where
  rien nait : Effet
  passe : EtatDemande → EtatDemande → Effet

abbrev pub effet : Detail → Effet
effet (creation f n) = nait
effet (passage de vers) = passe de vers
effet (livraison de c) = passe de a_confirmer
effet (sans_suite n) = passe a_confirmer realisee
effet (reponse de vers s m) = passe de vers
effet _ = rien

abbrev pub numero : EtatDemande → ℕ
numero ouverte = 0
numero chantier = 1
numero a_confirmer = 2
numero realisee = 3
numero close = 4

abbrev pub meme : EtatDemande → EtatDemande → Bool
meme a b = nat_beq (numero a) (numero b)

abbrev pub suite : Effet → Option EtatDemande → Option EtatDemande
suite rien e = e
suite nait none = some ouverte
suite nait (some e) = none
suite (passe de vers) none = none
suite (passe de vers) (some e) = if meme e de then some vers else none

abbrev pub sur : String → Objet → Bool
sur i (sur_demande j) = j == i
sur i (sur_collection c) = false

abbrev pub etat_journal : String → List Evenement → Option EtatDemande
etat_journal i [] = none
etat_journal i (e ∷ l) =
    let avant = etat_journal i l in if sur i e.objet then suite (effet e.detail) avant else avant

abbrev pub etat_ligne : Option Demande → Option EtatDemande
etat_ligne none = none
etat_ligne (some d) = some d.etat

-- A request that is over keeps no mail, one that waits for its author knows since when, and a
-- mail is there only with the wish to be called.
unfoldable pub Saine : Demande → Type 0
Saine d =
    (terminee d.etat ≡ true → d.donnees.contact ≡ none)
    × (est_a_confirmer d.etat ≡ true → is_some d.confirmation_demandee_le ≡ true)
    × (is_some d.donnees.contact ≡ true → d.donnees.recontact ≡ true)

-- One row for each id, at the state that its journal replays to; each row is sane.
unfoldable pub Suivie : Base → Type 0
Suivie b =
    Uniques b.demandes
    × ((i : String) → etat_ligne (trouver i b.demandes) ≡ etat_journal i b.journal)
    × ((d : Demande) → In d b.demandes → Saine d)

pub suite-passe : (de vers : EtatDemande) → suite (passe de vers) (some de) ≡ some vers
suite-passe ouverte vers = refl
suite-passe chantier vers = refl
suite-passe a_confirmer vers = refl
suite-passe realisee vers = refl
suite-passe close vers = refl

pub Uniques-of : (b : Base) → Suivie b → Uniques b.demandes
unfolding Suivie
Uniques-of b v = v.0

-- The row of a request that is under way, and of one that is over.
pub Saine-en_cours :
    (d : Demande)
    → terminee d.etat ≡ false
    → est_a_confirmer d.etat ≡ false
    → (is_some d.donnees.contact ≡ true → d.donnees.recontact ≡ true)
    → Saine d
unfolding Saine
Saine-en_cours d h k c = (λ p. ground (arith, p, h), λ p. ground (arith, p, k), c)

pub Saine-sans_contact :
    (d : Demande) → est_a_confirmer d.etat ≡ false → d.donnees.contact ≡ none → Saine d
unfolding Saine
Saine-sans_contact d k c = (λ p. c, λ p. ground (arith, p, k), λ p. ground (arith, p, ap is_some c))

pub recontact-of_Saine :
    (d : Demande) → Saine d → is_some d.donnees.contact ≡ true → d.donnees.recontact ≡ true
unfolding Saine
recontact-of_Saine d w = w.2

pub Saine-poser :
    (c : Modif) (n : ℕ) (d : Demande)
    → Saine d
    → Saine (record d { donnees = poser c d.donnees; maj_le = n })
unfolding Saine
Saine-poser c n d w = w

pub Saine-livree : (m : Moment) (n : String) (d : Demande) → Saine d → Saine (livree m n d)
unfolding Saine
Saine-livree m n d w = (λ p. cc, λ p. refl, w.2)
