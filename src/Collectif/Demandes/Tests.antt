-- ===== src/Collectif/Demandes/Tests.antt =====
-- Requests of myrag/app/services/collectif_store.py at concrete inputs.
use mycollections.Base.{◌&&◌, not, ℕ, ◌*◌, ◌≡◌, refl, true, none, some, List, [], ◌∷◌, In, inl}
use mycollections.Collectif.Etats.{
  ouverte, chantier, realisee, jour, connu, publiee_groupe, publiee_tous, en_sommeil,
  confirmation_echue, demande_atteint_le_chantier, transition_collection, grille_complete,
}
use mycollections.Collectif.Demandes.{
  Resultat, commis, echec, DemandeFiche, est_ouverte, Base, Demande, Donnees, Fiche, sans_reponse,
  mensuelle, soutien, garant, trouver, creer_demande, echeances, echeances_de,
  confirmer_satisfaction, modifier_demande, recalculee, recalculer_etat, soutenir, retirer_soutien,
  retirer_garant, clore_demande, solliciter, changer_etat, changer, ranger, ecrire, prevenir,
  abonner_dans, poser_soutien, nb_soutiens, a_garant, enrichir,
}
use mycollections.Collectif.Demandes.Gestes.{
  Appel, Geste, lecture, creation_de, soutien_par, passage_de, jouer, histoire, vide,
}
use mycollections.Collectif.Demandes.Suivi.{etat_journal, etat_ligne, Saine}
use mycollections.Collectif.Demandes.Histoire.{histoire-etat_journal, histoire-Saine}
use mycollections.Collectif.Demandes.Seuil.{soutenir-Seuil}

program : Unit {0}
unfolding echeances echeances_de confirmer_satisfaction modifier_demande recalculee recalculer_etat
    soutenir retirer_soutien retirer_garant clore_demande solliciter changer_etat changer ranger
    ecrire prevenir abonner_dans poser_soutien nb_soutiens a_garant enrichir jouer histoire
    creer_demande en_sommeil confirmation_echue demande_atteint_le_chantier transition_collection
    grille_complete
program = tt

abbrev au : ℕ → Geste → Appel
au n g = record {
  moment = record { now = n * jour; sommeil_jours = 30; confirmation_jours = 10 };
  geste = g;
}

abbrev ecoles : Donnees
ecoles = record {
  titre = "écoles";
  usage = "répondre aux familles";
  frequence = mensuelle;
  service = "rectorat";
  acces_actuel = "";
  recontact = true;
  contact = some "a@b.fr";
  amorce_id = none;
}

abbrev collections : List Fiche
collections =
    record {
      name = "carte";
      etat_collab = some (connu publiee_groupe);
      demande_id = some "d1";
      grille = none;
    }
    ∷ []

abbrev debut : List Appel
debut =
    au 0 (creation_de "d1" ecoles "ana" 2)
    ∷ au 1 (soutien_par "d1" "bob" soutien none)
    ∷ au 2 (soutien_par "d1" "eve" garant (some 30))
    ∷ []

abbrev vie : List Appel
vie =
    au 0 (creation_de "d1" ecoles "ana" 2)
    ∷ au 1 (soutien_par "d1" "bob" soutien none)
    ∷ au 2 (soutien_par "d1" "eve" garant (some 30))
    ∷ au 3 (passage_de "carte" (connu publiee_tous) "adm" true "urgence")
    ∷ au 20 lecture
    ∷ []

demarre : etat_ligne (trouver "d1" (histoire debut (vide collections)).demandes) ≡ some chantier
unfolding program
demarre = refl

realise : etat_ligne (trouver "d1" (histoire vie (vide collections)).demandes) ≡ some realisee
unfolding program
realise = refl

histoire-etat_journal_example :
    etat_ligne (trouver "d1" (histoire vie (vide collections)).demandes)
    ≡ etat_journal "d1" (histoire vie (vide collections)).journal
histoire-etat_journal_example = histoire-etat_journal vie collections "d1"

abbrev reste : Demande
reste = record {
  id = "d1";
  donnees = record ecoles { contact = none };
  etat = realisee;
  seuil = 2;
  cree_par_hash = "ana";
  confirmation_demandee_le = some (3 * jour);
  satisfaction = some sans_reponse;
  motif_insatisfaction = none;
  collection_name = some "carte";
  doublon_de = none;
  motif_cloture = none;
  maj_le = 20 * jour;
}

reste-In : In reste (histoire vie (vide collections)).demandes
unfolding program
reste-In = inl refl

histoire-Saine_example : Saine reste
histoire-Saine_example = histoire-Saine vie collections reste reste-In

-- The second support of the history, by a guarantor.
abbrev un_soutien : Base
un_soutien =
    histoire
      (au 0 (creation_de "d1" ecoles "ana" 2) ∷ au 1 (soutien_par "d1" "bob" soutien none) ∷ [])
      (vide collections)

abbrev ouverte_d1 : Demande
ouverte_d1 = record reste {
  donnees = ecoles;
  etat = ouverte;
  confirmation_demandee_le = none;
  satisfaction = none;
  collection_name = none;
  maj_le = 0;
}

trouvee : trouver "d1" un_soutien.demandes ≡ some ouverte_d1
unfolding program
trouvee = refl

abbrev second : Resultat DemandeFiche
second = soutenir (au 2 lecture).moment "d1" "eve" garant (some 30) un_soutien

abbrev garantie : Resultat DemandeFiche → Base × DemandeFiche
garantie (commis b f) = (b, f)
garantie (echec e b) = (b, enrichir (au 2 lecture).moment b ouverte_d1 "eve")

accepte : second ≡ commis (garantie second).0 (garantie second).1
unfolding program
accepte = refl

soutenir-Seuil_example : est_ouverte (garantie second).1.demande.etat ≡ (
    est_ouverte ouverte_d1.etat
    && not ((garantie second).1.garant && (garantie second).1.seuil_atteint))
soutenir-Seuil_example =
    soutenir-Seuil (au 2 lecture).moment "d1" "eve" garant (some 30) un_soutien (garantie second).0
      ouverte_d1 (garantie second).1 trouvee accepte
