-- ===== src/Collectif/Circuit/Registre.antt =====
-- The tables of myrag/app/models/db.py behind the grids, the proposals and the reports, and the small
-- reads and writes that the operations of myrag/app/services/collectif_store.py share.
use mycollections.Base.{
  ℕ, Bool, true, false, Option, none, List, [], ◌∷◌, map, String, string_eq, text_eq, ◌==◌, Text,
  find, if◌then◌else◌,
}
use mycollections.Access.{Fiche}

pub data Cible : Type 0 where
  ligne fichier : Cible

pub data Decision : Type 0 where
  publiee refusee : Decision

pub data EtatProposition : Type 0 where
  proposee : EtatProposition
  decidee : Decision → EtatProposition

abbrev pub meme_etat : EtatProposition → EtatProposition → Bool
meme_etat proposee proposee = true
meme_etat (decidee publiee) (decidee publiee) = true
meme_etat (decidee refusee) (decidee refusee) = true
meme_etat _ _ = false

pub data MotifSignalement : Type 0 where
  obsolete erreur manquant : MotifSignalement

pub data EtatSignalement : Type 0 where
  ouvert pris_en_compte clos : EtatSignalement

pub record Proposition : Type 0 where
  pub id : String
  pub collection_name : Text
  pub cible_type : Cible
  pub cible_ref : Text
  pub avant : Text
  pub apres : Text
  pub justification : Text
  pub source : Option Text
  pub auteur_hash : String
  pub etat : EtatProposition
  pub motif_refus : Option Text
  pub decide_par_hash : Option String
  pub decide_le : Option ℕ
  pub cree_le : ℕ

pub record Signalement : Type 0 where
  pub id : String
  pub collection_name : Text
  pub fichier_id : Option ℕ
  pub motif : MotifSignalement
  pub texte : Text
  pub auteur_hash : String
  pub etat : EtatSignalement
  pub traite_par_hash : Option String
  pub traite_le : Option ℕ
  pub cree_le : ℕ

-- The cover is the text of a JSON object.
pub record GrilleControle : Type 0 where
  pub collection_name : Text
  pub source_licence : Text
  pub donnees_perso : Text
  pub fraicheur : Text
  pub relecture_n : ℕ
  pub relecteurs : List String
  pub couverture : Text
  pub maj_par_hash : Option String
  pub maj_le : Option ℕ

-- The card of a collection that decides rights, with its guarantor.
pub record Ligne : Type 0 where
  pub fiche : Fiche
  pub garant_hash : Option String
  pub garant_pressenti : Text
  pub etat_collab : Option Text
  pub demande_id : Option String

pub data Objet : Type 0 where
  sur_collection : Text → Objet
  sur_proposition sur_signalement : String → Objet

pub data TypeEvenement : Type 0 where
  collection_creee grille_maj grille_relue proposition_deposee : TypeEvenement
  proposition_decidee : Decision → TypeEvenement
  signalement_depose signalement_traite : TypeEvenement

pub data Auteur : Type 0 where
  personne : String → Auteur
  robot : Text → Auteur

pub data Detail : Type 0 where
  etat_initial : Option Text → Detail
  champs : List Text → Detail
  relectures : ℕ → Detail
  cible_de : Cible → Text → Detail
  proposition : String → Detail
  decision : Option Text → Detail
  decision_de : String → Option Text → Detail
  motif_de : MotifSignalement → Option ℕ → Detail
  signalement : String → MotifSignalement → Detail
  passage : EtatSignalement → EtatSignalement → Detail
  traitement : String → EtatSignalement → Detail

pub record Evenement : Type 0 where
  pub objet : Objet
  pub collection_name : Text
  pub type : TypeEvenement
  pub auteur : Auteur
  pub detail : Detail
  pub cree_le : ℕ

pub record Message : Type 0 where
  pub destinataires : List String
  pub sujet : Text

pub record Tables : Type 0 where
  pub collections : List Ligne
  pub grilles : List GrilleControle
  pub propositions : List Proposition
  pub signalements : List Signalement
  pub abonnes : List (Text × String)
  pub journal : List Evenement
  pub messages : List Message

-- The HTTP answers 403, 404, 409 and 422, and the refusal of a constraint of the tables.
pub data Erreur : Type 0 where
  interdit introuvable conflit invalide integrite : Erreur

-- What is committed, with the object that comes back, or the error, the tables staying.
pub data Resultat (A : Type 0) : Type 0 where
  commis : Tables → A → Resultat A
  echec : Erreur → Resultat A

abbrev pub trouver : String → List Proposition → Option Proposition
trouver ident l = find (λ p. p.id == ident) l

abbrev pub signale : String → List Signalement → Option Signalement
signale ident l = find (λ s. s.id == ident) l

abbrev pub collection_de : Text → List Ligne → Option Ligne
collection_de name l = find (λ c. c.fiche.name == name) l

-- `session.get(GrilleControle, name)`, or a new grid of that name.
abbrev pub grille_vide : Text → GrilleControle
grille_vide name = record {
  collection_name = name;
  source_licence = [];
  donnees_perso = [];
  fraicheur = [];
  relecture_n = 0;
  relecteurs = [];
  couverture = b'{' ∷ b'}' ∷ [];
  maj_par_hash = none;
  maj_le = none;
}

abbrev pub grille_de : Text → List GrilleControle → GrilleControle
grille_de name [] = grille_vide name
grille_de name (g ∷ l) = if g.collection_name == name then g else grille_de name l

abbrev pub posee : GrilleControle → List GrilleControle → List GrilleControle
posee g [] = g ∷ []
posee g (h ∷ l) =
    let reste = posee g l in if h.collection_name == g.collection_name then g ∷ l else h ∷ reste

abbrev pub remplacee : Proposition → List Proposition → List Proposition
remplacee p l = map (λ q. if q.id == p.id then p else q) l

unfoldable pub ecrire : ℕ → Objet → Text → TypeEvenement → Auteur → Detail → Tables → Tables
ecrire now objet name type auteur detail t = record t {
  journal =
      record {
        objet = objet;
        collection_name = name;
        type = type;
        auteur = auteur;
        detail = detail;
        cree_le = now;
      }
      ∷ t.journal;
}

-- The subscribers of a collection.
abbrev pub abonnes_de : Text → List (Text × String) → List String
abonnes_de name [] = []
abonnes_de name ((n, h) ∷ l) =
    let reste = abonnes_de name l in if n == name then h ∷ reste else reste

-- `relais.planifier`: nobody to tell, nothing is sent.
unfoldable pub prevenir : List String → Text → Tables → Tables
prevenir [] sujet t = t
prevenir (d ∷ l) sujet t = record t {
  messages = record { destinataires = d ∷ l; sujet = sujet } ∷ t.messages;
}
