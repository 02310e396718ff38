-- ===== src/Collectif/Circuit.antt =====
-- The circuit of a collection: its grid, the proposals and the reports on it. The operations are those
-- of myrag/app/services/collectif_store.py, the calls those of myrag/app/routers/collectif.py with the
-- rights of myrag/app/routers/_collectif_commun.py. A row's new id and the time are arguments. A capacity
-- of the installation that hides a call is not modelled.
mod Registre
pub mod Appels
pub mod Operations
pub mod Cas
pub mod Grilles
pub mod Decisions
pub mod Histoire
mod Tests
unfoldable pub use Registre.*
use mycollections.Base.{
  ℕ, Bool, true, false, ◌&&◌, ◌||◌, not, Option, none, some, List, [], ◌∷◌, ◌++◌, map, filter,
  String, string_eq, text_eq, ◌==◌, Text, text, find, any, contains, length, is_some, is_empty,
  if◌then◌else◌,
}

-- What a person is: a condensed sub, or the service without a salt, or a robot.
abbrev pub hash_de : Auteur → Option String
hash_de (personne h) = some h
hash_de (robot r) = none

-- `valeur and not getattr(g, champ)`
abbrev pub si_vide : Option Text → Text → Text
si_vide none ancien = ancien
si_vide (some v) ancien = if is_empty ancien && not (is_empty v) then v else ancien

-- What a grid is filled with beforehand.
pub record Amorce : Type 0 where
  pub source_licence : Option Text
  pub donnees_perso : Option Text
  pub fraicheur : Option Text

abbrev pub amorcee : Amorce → GrilleControle → GrilleControle
amorcee a g = record g {
  source_licence = si_vide a.source_licence g.source_licence;
  donnees_perso = si_vide a.donnees_perso g.donnees_perso;
  fraicheur = si_vide a.fraicheur g.fraicheur;
}

abbrev pub ou : {A : Type 0} → Option A → Option A → Option A
ou none b = b
ou (some a) b = some a

abbrev pub etat_ou : Option Text → Text
etat_ou none = text "amorcee"
etat_ou (some e) = if is_empty e then text "amorcee" else e

-- `if demande_id`
abbrev pub si_dite : Option String → Option String → Option String
si_dite none b = b
si_dite (some d) b = if d == "" then b else some d

abbrev pub initiale : Auteur → Option String → Text → Ligne → Ligne
initiale auteur demande_id pressenti c = record c {
  etat_collab = some (etat_ou c.etat_collab);
  garant_hash = ou c.garant_hash (hash_de auteur);
  demande_id = si_dite demande_id c.demande_id;
  garant_pressenti = if is_empty pressenti then c.garant_pressenti else pressenti;
}

abbrev pub rangee : Text → Ligne → List Ligne → List Ligne
rangee name c l = map (λ d. if d.fiche.name == name then c else d) l

abbrev pub initialisees :
    ℕ → Text → Auteur → Option String → Text → Amorce → Tables → Ligne → Tables
initialisees now name auteur demande_id pressenti a t c =
    ecrire now (sur_collection name) name collection_creee auteur
      (etat_initial (some (etat_ou c.etat_collab)))
      (record t {
        collections = rangee name (initiale auteur demande_id pressenti c) t.collections;
        grilles = posee (amorcee a (grille_de name t.grilles)) t.grilles;
      })

unfoldable pub initialiser_collection :
    ℕ → Text → Auteur → Option String → Text → Amorce → Tables → Resultat (Unit {0})
initialiser_collection now name auteur demande_id pressenti a t =
    elim (collection_de name t.collections) [
      | none ↦ echec introuvable
      | some c ↦ commis (initialisees now name auteur demande_id pressenti a t c) tt
    ]

-- The fields that a change of the grid names.
pub record Champs : Type 0 where
  pub source_licence : Option Text
  pub donnees_perso : Option Text
  pub fraicheur : Option Text
  pub couverture : Option Text

abbrev pub ou_ancien : Option Text → Text → Text
ou_ancien none ancien = ancien
ou_ancien (some v) ancien = v

abbrev nomme : Option Text → Text → List Text → List Text
nomme none nom l = l
nomme (some v) nom l = nom ∷ l

-- `sorted(champs)`
abbrev pub noms : Champs → List Text
noms c = nomme c.couverture (text "couverture") (
    nomme c.donnees_perso (text "donnees_perso")
      (nomme c.fraicheur (text "fraicheur") (nomme c.source_licence (text "source_licence") [])))

abbrev pub complete : Champs → GrilleControle → GrilleControle
complete c g = record g {
  source_licence = ou_ancien c.source_licence g.source_licence;
  donnees_perso = ou_ancien c.donnees_perso g.donnees_perso;
  fraicheur = ou_ancien c.fraicheur g.fraicheur;
  couverture = ou_ancien c.couverture g.couverture;
}

unfoldable pub maj_grille : ℕ → Text → Champs → String → Tables → Resultat GrilleControle
maj_grille now name c sub_hash t =
    let g = record (complete c (grille_de name t.grilles)) {
      maj_par_hash = some sub_hash;
      maj_le = some now;
    } in
    commis
      (ecrire now (sur_collection name) name grille_maj (personne sub_hash) (champs (noms c))
        (record t { grilles = posee g t.grilles }))
      g

unfoldable pub poser_couverture : ℕ → Text → Text → Text → Tables → Resultat (Unit {0})
poser_couverture now name couverture nom t =
    let g = record (grille_de name t.grilles) { couverture = couverture; maj_le = some now } in
    commis
      (ecrire now (sur_collection name) name grille_maj (robot nom)
        (champs (text "couverture" ∷ [])) (record t { grilles = posee g t.grilles }))
      tt

-- A person counts once among the readers of a grid.
abbrev pub relue : ℕ → String → GrilleControle → GrilleControle
relue now sub_hash g = record g {
  relecteurs = g.relecteurs ++ sub_hash ∷ [];
  relecture_n = length (g.relecteurs ++ sub_hash ∷ []);
  maj_le = some now;
}

abbrev pub relues : ℕ → Text → String → Tables → Tables
relues now name sub_hash t =
    let g = grille_de name t.grilles in
    ecrire now (sur_collection name) name grille_relue (personne sub_hash)
      (relectures (length (g.relecteurs ++ sub_hash ∷ [])))
      (record t { grilles = posee (relue now sub_hash g) t.grilles })

unfoldable pub relire : ℕ → Text → String → Tables → Resultat GrilleControle
relire now name sub_hash t =
    let g = grille_de name t.grilles in
    if contains g.relecteurs sub_hash
    then commis (record t { grilles = posee g t.grilles }) g
    else commis (relues now name sub_hash t) (relue now sub_hash g)

-- What the author of a proposal writes, checked.
pub record Donnees : Type 0 where
  pub cible_type : Cible
  pub cible_ref : Text
  pub avant : Text
  pub apres : Text
  pub justification : Text
  pub source : Option Text

abbrev pub nouvelle : ℕ → String → Text → Donnees → String → Proposition
nouvelle now ident name d sub_hash = record {
  id = ident;
  collection_name = name;
  cible_type = d.cible_type;
  cible_ref = d.cible_ref;
  avant = d.avant;
  apres = d.apres;
  justification = d.justification;
  source = d.source;
  auteur_hash = sub_hash;
  etat = proposee;
  motif_refus = none;
  decide_par_hash = none;
  decide_le = none;
  cree_le = now;
}

abbrev pub deposees : ℕ → String → Text → Donnees → String → Tables → Tables
deposees now ident name d sub_hash t =
    ecrire now (sur_collection name) name proposition_deposee (personne sub_hash)
      (proposition ident)
      (ecrire now (sur_proposition ident) name proposition_deposee (personne sub_hash)
        (cible_de d.cible_type d.cible_ref)
        (record t { propositions = nouvelle now ident name d sub_hash ∷ t.propositions }))

-- The primary key refuses an id that is there.
unfoldable pub creer_proposition :
    ℕ → String → Text → Donnees → String → Tables → Resultat Proposition
creer_proposition now ident name d sub_hash t =
    if is_some (trouver ident t.propositions)
    then echec integrite
    else commis (deposees now ident name d sub_hash t) (nouvelle now ident name d sub_hash)

abbrev pub dans_l_etat : Option EtatProposition → Proposition → Bool
dans_l_etat none p = true
dans_l_etat (some e) p = meme_etat e p.etat

-- The latest first.
unfoldable pub lister_propositions : Text → Option EtatProposition → Tables → List Proposition
lister_propositions name etat t =
    filter (λ p. p.collection_name == name && dans_l_etat etat p) t.propositions

abbrev pub tranchee : ℕ → Decision → Option Text → String → Proposition → Proposition
tranchee now d motif sub_hash p = record p {
  etat = decidee d;
  motif_refus = motif;
  decide_par_hash = some sub_hash;
  decide_le = some now;
}

abbrev pub refus_sans_motif : Decision → Option Text → Bool
refus_sans_motif publiee m = false
refus_sans_motif refusee none = true
refus_sans_motif refusee (some m) = false

-- What a decision writes.
abbrev pub tranchees : ℕ → Text → Decision → Option Text → String → Tables → Proposition → Tables
tranchees now name d motif sub_hash t p =
    prevenir (p.auteur_hash ∷ abonnes_de name t.abonnes) name (
      ecrire now (sur_collection name) name (proposition_decidee d) (personne sub_hash)
        (decision_de p.id motif)
        (ecrire now (sur_proposition p.id) name (proposition_decidee d) (personne sub_hash)
          (decision motif)
          (record t { propositions = remplacee (tranchee now d motif sub_hash p) t.propositions })))

-- A refusal without a motive breaks a constraint of the table.
abbrev pub trancher :
    ℕ → Text → Decision → Option Text → String → Tables → Proposition → Resultat Proposition
trancher now name d motif sub_hash t p =
    if refus_sans_motif d motif
    then echec integrite
    else commis (tranchees now name d motif sub_hash t p) (tranchee now d motif sub_hash p)

unfoldable pub decider_proposition :
    ℕ → Text → String → Decision → Option Text → String → Tables → Resultat Proposition
decider_proposition now name ident d motif sub_hash t = elim (trouver ident t.propositions) [
  | none ↦ echec introuvable
  | some p ↦ if not (p.collection_name == name) then echec introuvable else elim p.etat [
    | decidee e ↦ echec conflit
    | proposee ↦ trancher now name d motif sub_hash t p
  ]
]

abbrev pub signale_par :
    ℕ → String → Text → MotifSignalement → Text → Option ℕ → String → Signalement
signale_par now ident name m texte fichier_id sub_hash = record {
  id = ident;
  collection_name = name;
  fichier_id = fichier_id;
  motif = m;
  texte = texte;
  auteur_hash = sub_hash;
  etat = ouvert;
  traite_par_hash = none;
  traite_le = none;
  cree_le = now;
}

abbrev pub signalees : ℕ → Text → Signalement → Tables → Tables
signalees now name s t =
    ecrire now (sur_collection name) name signalement_depose (personne s.auteur_hash)
      (signalement s.id s.motif)
      (ecrire now (sur_signalement s.id) name signalement_depose (personne s.auteur_hash)
        (motif_de s.motif s.fichier_id) (record t { signalements = s ∷ t.signalements }))

unfoldable pub creer_signalement :
    ℕ → String → Text → MotifSignalement → Text → Option ℕ → String → Tables → Resultat Signalement
creer_signalement now ident name m texte fichier_id sub_hash t =
    let s = signale_par now ident name m texte fichier_id sub_hash in
    if is_some (signale ident t.signalements)
    then echec integrite
    else commis (signalees now name s t) s

abbrev pub traitee : ℕ → EtatSignalement → String → Signalement → Signalement
traitee now e sub_hash s = record s {
  etat = e;
  traite_par_hash = some sub_hash;
  traite_le = some now;
}

abbrev pub traitees : ℕ → Text → String → EtatSignalement → String → Tables → Signalement → Tables
traitees now name ident e sub_hash t s = prevenir (s.auteur_hash ∷ []) name (
    ecrire now (sur_collection name) name signalement_traite (personne sub_hash)
      (traitement ident e)
      (ecrire now (sur_signalement ident) name signalement_traite (personne sub_hash)
        (passage s.etat e)
        (record t {
          signalements =
              map (λ r. if r.id == ident then traitee now e sub_hash s else r) t.signalements;
        })))

unfoldable pub traiter_signalement :
    ℕ → Text → String → EtatSignalement → String → Tables → Resultat Signalement
traiter_signalement now name ident e sub_hash t = elim (signale ident t.signalements) [
  | none ↦ echec introuvable
  | some s ↦
      if not (s.collection_name == name)
      then echec introuvable
      else commis (traitees now name ident e sub_hash t s) (traitee now e sub_hash s)
]

abbrev pub est_abonne : Text → String → Text × String → Bool
est_abonne name sub_hash (n, h) = n == name && h == sub_hash

unfoldable pub abonner : Text → String → Bool → Tables → Resultat Bool
abonner name sub_hash true t =
    if any (est_abonne name sub_hash) t.abonnes
    then commis t true
    else commis (record t { abonnes = (name, sub_hash) ∷ t.abonnes }) true
abonner name sub_hash false t =
    commis (record t { abonnes = filter (λ a. not (est_abonne name sub_hash a)) t.abonnes }) false
