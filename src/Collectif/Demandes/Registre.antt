-- ===== src/Collectif/Demandes/Registre.antt =====
-- The tables of myrag/app/models/db.py that the requests live in, and the small writes and reads
-- that the operations of myrag/app/services/collectif_store.py share.
use mycollections.Base.{
  ℕ, ◌+◌, ◌*◌, Bool, true, false, ◌&&◌, not, Option, none, some, List, [], ◌∷◌, map, String,
  string_eq, ◌==◌, find, filter, any, leb, if◌then◌else◌, contains, length,
}
use mycollections.Collectif.Etats.{
  EtatDemande, en_sommeil, est_a_confirmer, jour, Etat, Nom, Grille, Refus,
}

pub data Satisfaction : Type 0 where
  oui non sans_reponse : Satisfaction

pub data Frequence : Type 0 where
  quotidienne hebdomadaire mensuelle ponctuelle : Frequence

pub data Role : Type 0 where
  soutien fournisseur relecteur garant : Role

abbrev pub est_garant : Role → Bool
est_garant garant = true
est_garant _ = false

-- What the author writes.
pub record Donnees : Type 0 where
  pub titre : String
  pub usage : String
  pub frequence : Frequence
  pub service : String
  pub acces_actuel : String
  pub recontact : Bool
  pub contact : Option String
  pub amorce_id : Option String

pub record Demande : Type 0 where
  pub id : String
  pub donnees : Donnees
  pub etat : EtatDemande
  pub seuil : ℕ
  pub cree_par_hash : String
  pub confirmation_demandee_le : Option ℕ
  pub satisfaction : Option Satisfaction
  pub motif_insatisfaction : Option String
  pub collection_name : Option String
  pub doublon_de : Option String
  pub motif_cloture : Option String
  pub maj_le : ℕ

pub record Soutien : Type 0 where
  pub demande_id : String
  pub sub_hash : String
  pub role : Role
  pub temps_declare_min : Option ℕ

pub data ObjetAbonnement : Type 0 where
  demande collection : ObjetAbonnement

abbrev pub meme_objet : ObjetAbonnement → ObjetAbonnement → Bool
meme_objet demande demande = true
meme_objet collection collection = true
meme_objet _ _ = false

pub record Abonnement : Type 0 where
  pub objet_type : ObjetAbonnement
  pub objet_id : String
  pub sub_hash : String

-- A person (condensed) or a robot, never both.
pub data Signature : Type 0 where
  personne : String → Signature
  robot : String → Signature

pub data Objet : Type 0 where
  sur_demande : String → Objet
  sur_collection : String → Objet

pub data TypeEvenement : Type 0 where
  demande_creee demande_etat demande_modifiee seuil_atteint : TypeEvenement
  soutien_ajoute soutien_retire garant_retire collection_etat : TypeEvenement

pub data Detail : Type 0 where
  sans_detail : Detail
  creation : Frequence → ℕ → Detail
  passage : EtatDemande → EtatDemande → Detail
  livraison : EtatDemande → String → Detail
  sans_suite : ℕ → Detail
  reponse : EtatDemande → EtatDemande → Bool → Option String → Detail
  atteint : ℕ → ℕ → Detail
  soutien_de : Role → Option ℕ → ℕ → Detail
  passage_collection : Etat → Etat → Option String → Detail

pub record Evenement : Type 0 where
  pub objet : Objet
  pub type : TypeEvenement
  pub signe : Signature
  pub detail : Detail
  pub cree_le : ℕ

-- A message to people about a request or a collection.
pub record Message : Type 0 where
  pub destinataires : List String
  pub sujet : String

-- The columns of a collection that its move reads, with its grid.
pub record Fiche : Type 0 where
  pub name : String
  pub etat_collab : Option Nom
  pub demande_id : Option String
  pub grille : Option Grille

pub record Base : Type 0 where
  pub demandes : List Demande
  pub soutiens : List Soutien
  pub abonnements : List Abonnement
  pub journal : List Evenement
  pub collections : List Fiche
  pub messages : List Message

-- The present, and the settings that the operations read.
pub record Moment : Type 0 where
  pub now : ℕ
  pub sommeil_jours : ℕ
  pub confirmation_jours : ℕ

pub data Erreur : Type 0 where
  introuvable conflit integrite : Erreur
  refus_transition : Refus → Erreur

abbrev pub trouver : String → List Demande → Option Demande
trouver ident l = find (λ d. d.id == ident) l

abbrev pub existe : String → List Demande → Bool
existe ident l = any (λ d. d.id == ident) l

-- The row of a request takes its new values.
abbrev pub remplacee : Demande → List Demande → List Demande
remplacee d l = map (λ e. if e.id == d.id then d else e) l

unfoldable pub ranger : Demande → Base → Base
ranger d b = record b { demandes = remplacee d b.demandes }

unfoldable pub ecrire : Moment → Objet → TypeEvenement → Signature → Detail → Base → Base
ecrire m objet type signe detail b = record b {
  journal =
      record { objet = objet; type = type; signe = signe; detail = detail; cree_le = m.now }
      ∷ b.journal;
}

unfoldable pub prevenir : List String → String → Base → Base
prevenir [] sujet b = b
prevenir (g ∷ gs) sujet b = record b {
  messages = record { destinataires = g ∷ gs; sujet = sujet } ∷ b.messages;
}

abbrev pub est_abonne : ObjetAbonnement → String → String → List Abonnement → Bool
est_abonne objet ident sub_hash l =
    any (λ a. meme_objet a.objet_type objet && (a.objet_id == ident && a.sub_hash == sub_hash)) l

unfoldable pub abonner_dans : ObjetAbonnement → String → String → Base → Base
abonner_dans objet ident sub_hash b =
    if est_abonne objet ident sub_hash b.abonnements then b else record b {
      abonnements =
          record { objet_type = objet; objet_id = ident; sub_hash = sub_hash } ∷ b.abonnements;
    }

abbrev pub abonnes_de : ObjetAbonnement → String → Base → List String
abonnes_de objet ident b =
    map (λ a. a.sub_hash)
      (filter (λ a. meme_objet a.objet_type objet && a.objet_id == ident) b.abonnements)

-- The primary key of a support.
abbrev pub meme_cle : String → String → Soutien → Bool
meme_cle ident sub_hash s = s.demande_id == ident && s.sub_hash == sub_hash

abbrev pub soutien_pose : String → String → List Soutien → Option Soutien
soutien_pose ident sub_hash l = find (meme_cle ident sub_hash) l

abbrev pub autre_garant : String → String → List Soutien → Bool
autre_garant ident sub_hash l =
    any (λ s. s.demande_id == ident && (est_garant s.role && not (s.sub_hash == sub_hash))) l

abbrev pub pose : String → String → Role → Option ℕ → Soutien
pose ident sub_hash role temps = record {
  demande_id = ident;
  sub_hash = sub_hash;
  role = role;
  temps_declare_min = temps;
}

-- The row of a support takes its role and time, or is added.
abbrev pub posee : String → String → Role → Option ℕ → List Soutien → List Soutien
posee ident sub_hash role temps [] = pose ident sub_hash role temps ∷ []
posee ident sub_hash role temps (s ∷ l) =
    let reste = posee ident sub_hash role temps l in
    if meme_cle ident sub_hash s then pose ident sub_hash role temps ∷ l else s ∷ reste

unfoldable pub poser_soutien : String → String → Role → Option ℕ → Base → Base
poser_soutien ident sub_hash role temps b = record b {
  soutiens = posee ident sub_hash role temps b.soutiens;
}

abbrev pub soutiens_de : String → Base → List Soutien
soutiens_de ident b = filter (λ s. s.demande_id == ident) b.soutiens

abbrev pub subs_distincts : List Soutien → List String
subs_distincts [] = []
subs_distincts (s ∷ l) =
    let reste = subs_distincts l in if contains reste s.sub_hash then reste else s.sub_hash ∷ reste

unfoldable pub nb_soutiens : String → Base → ℕ
nb_soutiens ident b = length (subs_distincts (soutiens_de ident b))

unfoldable pub a_garant : String → Base → Bool
a_garant ident b = any (λ s. est_garant s.role) (soutiens_de ident b)

abbrev compte : (Soutien → Bool) → List Soutien → ℕ
compte p l = length (filter p l)

abbrev minutes : List Soutien → ℕ
minutes [] = 0
minutes (s ∷ l) = elim s.temps_declare_min [ none ↦ minutes l | some n ↦ n + minutes l ]

-- The date of the latest event of a request: the journal holds the latest first.
abbrev pub dernier_evenement : String → List Evenement → Option ℕ
dernier_evenement ident [] = none
dernier_evenement ident (e ∷ l) = elim e.objet [
  | sur_demande j ↦ if j == ident then some e.cree_le else dernier_evenement ident l
  | sur_collection c ↦ dernier_evenement ident l
]

-- The card of a request for one person. The roles are counted by a function of the role.
pub record DemandeFiche : Type 0 where
  pub demande : Demande
  pub nb_soutiens : ℕ
  pub garant : Bool
  pub roles : Role → ℕ
  pub temps_declare_min : ℕ
  pub mon_role : Option Role
  pub abonne : Bool
  pub sommeil : Bool
  pub seuil_atteint : Bool
  pub je_suis_demandeur : Bool
  pub confirmation_avant : Option ℕ

abbrev meme_role : Role → Role → Bool
meme_role soutien soutien = true
meme_role fournisseur fournisseur = true
meme_role relecteur relecteur = true
meme_role garant garant = true
meme_role _ _ = false

unfoldable pub enrichir : Moment → Base → Demande → String → DemandeFiche
enrichir m b d sub_hash =
    let liste = soutiens_de d.id b in
    record {
      demande = d;
      nb_soutiens = nb_soutiens d.id b;
      garant = a_garant d.id b;
      roles = λ r. compte (λ s. meme_role s.role r) liste;
      temps_declare_min = minutes liste;
      mon_role = elim (soutien_pose d.id sub_hash b.soutiens) [
        | none ↦ none
        | some s ↦ some s.role
      ];
      abonne = est_abonne demande d.id sub_hash b.abonnements;
      sommeil = en_sommeil d.etat (dernier_evenement d.id b.journal) m.now m.sommeil_jours;
      seuil_atteint = leb d.seuil (nb_soutiens d.id b);
      je_suis_demandeur = d.cree_par_hash == sub_hash;
      confirmation_avant =
          if est_a_confirmer d.etat
          then elim d.confirmation_demandee_le [
            | none ↦ none
            | some t ↦ some (t + m.confirmation_jours * jour)
          ]
          else none;
    }

-- The tables that are committed with what is returned, or the exception with the tables that stay.
pub data Resultat (A : Type 0) : Type 0 where
  commis : Base → A → Resultat A
  echec : Erreur → Base → Resultat A

abbrev pub tables : {A : Type 0} → Resultat A → Base
tables (commis b a) = b
tables (echec e b) = b

abbrev pub rendu : Moment → Base → Demande → String → Resultat DemandeFiche
rendu m b d sub_hash = commis b (enrichir m b d sub_hash)
