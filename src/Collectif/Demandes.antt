-- ===== src/Collectif/Demandes.antt =====
-- myrag/app/services/collectif_store.py, its part on requests, with the move of a collection: the
-- tables as lists of rows, each operation as a function from the tables to the tables that its
-- transaction commits, or to the exception with the tables that stay. The journal holds the latest
-- event first. A sub is condensed and signs as a person; `now` stands for utcnow(), read once; the
-- card that an operation returns is `enrichir` of its tables and request. A message is its
-- recipients with the request or collection that it is about. The checks of the columns that the
-- tables declare are tests before the write.
mod Registre
pub mod Gestes
pub mod Lignes
pub mod Suivi
pub mod Trace
pub mod Vie
pub mod Histoire
pub mod Seuil
mod Tests
unfoldable pub use Registre.*
use mycollections.Base.{
  ℕ, ◌+◌, ◌*◌, ◌≡◌, Bool, true, false, ◌&&◌, ◌||◌, not, Option, none, some, List, [], ◌∷◌, ◌++◌,
  map, String, string_eq, ◌==◌, find, filter, any, leb, is_some, if◌then◌else◌, contains, length,
}
use mycollections.Collectif.Etats.{
  EtatDemande, ouverte, chantier, a_confirmer, realisee, close, demande_atteint_le_chantier,
  en_sommeil, confirmation_echue, est_a_confirmer, jour, Etat, publiee_tous, Nom, connu, courant,
  arrivee, refus, transition_collection,
}

-- The request is closed for good.
abbrev pub terminee : EtatDemande → Bool
terminee realisee = true
terminee close = true
terminee _ = false

abbrev pub est_ouverte : EtatDemande → Bool
est_ouverte ouverte = true
est_ouverte _ = false

-- An event about the request, and the request that goes to a new state in its row.
unfoldable pub changer : Moment → Demande → Signature → Detail → Base → Base
changer m d signe detail b = ranger d (ecrire m (sur_demande d.id) demande_etat signe detail b)

unfoldable pub creer_demande : Moment → String → Donnees → String → ℕ → Base → Resultat DemandeFiche
creer_demande m ident donnees sub_hash seuil b =
    let d : Demande = record {
      id = ident;
      donnees = donnees;
      etat = ouverte;
      seuil = seuil;
      cree_par_hash = sub_hash;
      confirmation_demandee_le = none;
      satisfaction = none;
      motif_insatisfaction = none;
      collection_name = none;
      doublon_de = none;
      motif_cloture = none;
      maj_le = m.now;
    } in
    if existe ident b.demandes || is_some donnees.contact && not donnees.recontact
    then echec integrite b
    else rendu m
        (ecrire m (sur_demande ident) demande_creee (personne sub_hash)
          (creation donnees.frequence seuil)
          (abonner_dans demande ident sub_hash (record b { demandes = d ∷ b.demandes })))
        d sub_hash

-- The row that an unanswered confirmation leaves: the mail has no more reason to be kept.
abbrev pub echue : Moment → Demande → Demande
echue m d = record d {
  etat = realisee;
  satisfaction = some sans_reponse;
  maj_le = m.now;
  donnees = record d.donnees { contact = none };
}

unfoldable pub echeances_de : Moment → List Demande → Base → Base
echeances_de m [] b = b
echeances_de m (d ∷ l) b =
    echeances_de m l (changer m (echue m d) (robot "serveur") (sans_suite m.confirmation_jours) b)

unfoldable pub echeances : Moment → Base → Base
echeances m b =
    echeances_de m
      (filter (λ d. confirmation_echue d.etat d.confirmation_demandee_le m.now m.confirmation_jours)
        (filter (λ d. est_a_confirmer d.etat) b.demandes))
      b

-- What the author's answer leaves in the row.
abbrev pub repondue : Moment → Bool → Option String → Demande → Demande
repondue m true motif d = record d {
  etat = realisee;
  maj_le = m.now;
  satisfaction = some oui;
  motif_insatisfaction = none;
  donnees = record d.donnees { contact = none };
}
repondue m false motif d = record d {
  etat = chantier;
  maj_le = m.now;
  satisfaction = some non;
  motif_insatisfaction = motif;
  confirmation_demandee_le = none;
}

abbrev pub garants_de : String → Base → List String
garants_de ident b =
    map (λ s. s.sub_hash) (filter (λ s. s.demande_id == ident && est_garant s.role) b.soutiens)

unfoldable pub confirmer_satisfaction :
    Moment → String → String → Bool → Option String → Base → Resultat DemandeFiche
confirmer_satisfaction m ident sub_hash satisfait motif avant =
    let b = echeances m avant in
    elim (trouver ident b.demandes) [
      | none ↦ echec introuvable b
      | some d ↦
          if not (est_a_confirmer d.etat)
          then echec conflit b
          else let d' = repondue m satisfait motif d in
            let apres =
              changer m d' (personne sub_hash) (reponse d.etat d'.etat satisfait motif) b in
            rendu m (if satisfait then apres else prevenir (garants_de ident apres) ident apres) d'
              sub_hash
    ]

-- What the author may write again (DemandeModif of myrag/app/routers/demandes.py); a field that
-- is not sent stays.
pub record Modif : Type 0 where
  pub titre : Option String
  pub usage : Option String
  pub frequence : Option Frequence
  pub service : Option String
  pub acces_actuel : Option String

abbrev pub ou : {A : Type 0} → Option A → A → A
ou none a = a
ou (some b) a = b

abbrev pub poser : Modif → Donnees → Donnees
poser c x = record x {
  titre = ou c.titre x.titre;
  usage = ou c.usage x.usage;
  frequence = ou c.frequence x.frequence;
  service = ou c.service x.service;
  acces_actuel = ou c.acces_actuel x.acces_actuel;
}

unfoldable pub modifier_demande : Moment → String → Modif → String → Base → Resultat DemandeFiche
modifier_demande m ident champs sub_hash b = elim (trouver ident b.demandes) [
  | none ↦ echec introuvable b
  | some d ↦
      let d' = record d { donnees = poser champs d.donnees; maj_le = m.now } in
      if is_some (poser champs d.donnees).contact && not (poser champs d.donnees).recontact
      then echec integrite b
      else rendu m
          (ecrire m (sur_demande ident) demande_modifiee (personne sub_hash) sans_detail
            (ranger d' b))
          d' sub_hash
]

-- The request after a support: never decided by a client.
unfoldable pub recalculee : Moment → Demande → Base → Demande
recalculee m d b =
    if est_ouverte d.etat
      && demande_atteint_le_chantier (nb_soutiens d.id b) (a_garant d.id b) d.seuil
    then record d { etat = chantier; maj_le = m.now }
    else d

unfoldable pub recalculer_etat : Moment → Demande → Base → Base
recalculer_etat m d b =
    if est_ouverte d.etat
      && demande_atteint_le_chantier (nb_soutiens d.id b) (a_garant d.id b) d.seuil
    then changer m (record d { etat = chantier; maj_le = m.now }) (robot "serveur")
        (passage d.etat chantier)
        (ecrire m (sur_demande d.id) seuil_atteint (robot "serveur")
          (atteint (nb_soutiens d.id b) d.seuil) b)
    else b

-- The time of a support is between 0 and 100000 minutes.
abbrev pub temps_borne : Option ℕ → Bool
temps_borne none = true
temps_borne (some n) = leb n 100000

unfoldable pub soutenir : Moment → String → String → Role → Option ℕ → Base → Resultat DemandeFiche
soutenir m ident sub_hash role temps b = elim (trouver ident b.demandes) [
  | none ↦ echec introuvable b
  | some d ↦
      if terminee d.etat
      then echec conflit b
      else if est_garant role && autre_garant ident sub_hash b.soutiens
      then echec conflit b
      else if not (temps_borne temps)
      then echec integrite b
      else let soutenu =
          abonner_dans demande ident sub_hash (poser_soutien ident sub_hash role temps b) in
        let note =
          ecrire m (sur_demande ident) soutien_ajoute (personne sub_hash)
            (soutien_de role temps (nb_soutiens ident soutenu)) soutenu in
        let d' = recalculee m d note in
        let apres = recalculer_etat m d note in
        rendu m
          (if est_ouverte d.etat && not (est_ouverte d'.etat)
            then prevenir (abonnes_de demande ident apres) ident apres
            else apres)
          d' sub_hash
]

unfoldable pub retirer_soutien : Moment → String → String → Base → Resultat DemandeFiche
retirer_soutien m ident sub_hash b = elim (trouver ident b.demandes) [
  | none ↦ echec introuvable b
  | some d ↦ elim (soutien_pose ident sub_hash b.soutiens) [
    | none ↦ rendu m b d sub_hash
    | some s ↦
        let retire = record b {
          soutiens = filter (λ t. not (meme_cle ident sub_hash t)) b.soutiens;
        } in
        rendu m
          (ecrire m (sur_demande ident) soutien_retire (personne sub_hash)
            (soutien_de s.role none (nb_soutiens ident retire)) retire)
          d sub_hash
  ]
]

unfoldable pub retirer_garant : Moment → String → String → Base → Resultat DemandeFiche
retirer_garant m ident admin_hash b = elim (trouver ident b.demandes) [
  | none ↦ echec introuvable b
  | some d ↦
      rendu m
        (ecrire m (sur_demande ident) garant_retire (personne admin_hash) sans_detail (record b {
          soutiens = filter (λ t. not (t.demande_id == ident && est_garant t.role)) b.soutiens;
        }))
        d admin_hash
]

-- `if doublon_de and not await session.get(Demande, doublon_de)`
abbrev pub doublon_absent : Option String → List Demande → Bool
doublon_absent none l = false
doublon_absent (some j) l = not (j == "") && not (existe j l)

unfoldable pub clore_demande :
    Moment → String → String → Option String → Option String → Base → Resultat DemandeFiche
clore_demande m ident sub_hash doublon motif b = elim (trouver ident b.demandes) [
  | none ↦ echec introuvable b
  | some d ↦
      if doublon_absent doublon b.demandes
      then echec introuvable b
      else if not (is_some doublon) && not (is_some motif)
      then echec integrite b
      else let d' : Demande = record d {
        etat = close;
        doublon_de = doublon;
        motif_cloture = motif;
        maj_le = m.now;
        donnees = record d.donnees { contact = none };
      } in
        rendu m (changer m d' (personne sub_hash) (passage d.etat close) b) d' sub_hash
]

-- `d.etat in ("ouverte", "chantier")`
abbrev pub est_en_cours : EtatDemande → Bool
est_en_cours ouverte = true
est_en_cours chantier = true
est_en_cours _ = false

abbrev pub est_tous : Etat → Bool
est_tous publiee_tous = true
est_tous _ = false

abbrev pub livree : Moment → String → Demande → Demande
livree m name d = record d {
  etat = a_confirmer;
  collection_name = some name;
  maj_le = m.now;
  confirmation_demandee_le = some m.now;
}

abbrev pub ranger_fiche : Fiche → Base → Base
ranger_fiche c b = record b {
  collections = map (λ e. if e.name == c.name then c else e) b.collections;
}

-- The request that a published collection answers: its author is asked.
unfoldable pub solliciter : Moment → String → Etat → Option String → Base → Base
solliciter m name vers none b = b
solliciter m name vers (some ident) b = elim (trouver ident b.demandes) [
  | none ↦ b
  | some d ↦
      if est_tous vers && not (ident == "") && est_en_cours d.etat
      then prevenir (d.cree_par_hash ∷ []) d.id
          (changer m (livree m name d) (robot "serveur") (livraison d.etat name) b)
      else b
]

abbrev pub abonnes_demande : Option String → Base → List String
abonnes_demande none b = []
abonnes_demande (some ident) b = if ident == "" then [] else abonnes_de demande ident b

-- The state of the collection is what is returned, without the rest of `lire_etat`.
unfoldable pub changer_etat : Moment → String → Nom → String → Bool → String → Base → Resultat Etat
changer_etat m name cible sub_hash forcer motif b =
    elim (find (λ c. c.name == name) b.collections) [
      | none ↦ echec introuvable b
      | some c ↦ elim (transition_collection c.etat_collab cible c.grille forcer) [
        | refus r ↦ echec (refus_transition r) b
        | arrivee vers ↦
            let bouge =
              ecrire m (sur_collection name) collection_etat (personne sub_hash)
                (passage_collection (courant c.etat_collab) vers
                  (if forcer then some motif else none))
                (ranger_fiche (record c { etat_collab = some (connu vers) }) b) in
            commis
              (prevenir (abonnes_de collection name bouge ++ abonnes_demande c.demande_id bouge)
                name (solliciter m name vers c.demande_id bouge))
              vers
      ]
    ]
