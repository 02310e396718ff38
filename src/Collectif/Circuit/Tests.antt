-- ===== src/Collectif/Circuit/Tests.antt =====
-- The circuit of a collection (myrag/app/services/collectif_store.py) at concrete inputs.
use mycollections.Base.{
  ℕ, ◌≡◌, ◌↔◌, refl, inl, true, none, some, List, [], ◌∷◌, String, text, In, length, Distincts,
}
use mycollections.Access.{
  Settings, root, leaf, normalise, groupes_superadmin, chemins, is_superadmin, collections,
  visible_collection_names, writable_collection_names, can_read_collection, can_write_collection,
  groups_match, est_createur, can_write, can_read,
}
use mycollections.Collectif.Circuit.{
  Tables, Ligne, commis, echec, conflit, interdit, Proposition, Donnees, publiee, decidee, fichier,
  trouver, grille_de, GrilleControle, maj_grille, relire, creer_proposition, decider_proposition,
  creer_signalement, traiter_signalement, abonner, initialiser_collection, poser_couverture,
  lister_propositions, ecrire, prevenir,
}
use mycollections.Collectif.Circuit.Appels.{
  histoire, jouer, appeler, servir, decider, collection_lisible, est_garant, Geste, appel, Identite,
  relecture, proposer, publier, refuser, une_proposition, Appel,
}
use mycollections.Collectif.Circuit.Grilles.{histoire-relecture_n}
use mycollections.Collectif.Circuit.Decisions.{decisions, decidees, histoire-decisions}
use mycollections.Collectif.Circuit.Histoire.{PeutPublier, histoire-decidee, publier_iff}

circuit : Unit {0}
unfolding root leaf normalise groupes_superadmin chemins is_superadmin collections
    visible_collection_names writable_collection_names can_read_collection can_write_collection
    groups_match est_createur can_write can_read maj_grille relire creer_proposition
    decider_proposition creer_signalement traiter_signalement abonner initialiser_collection
    poser_couverture lister_propositions ecrire prevenir histoire jouer appeler servir decider
    collection_lisible est_garant
circuit = tt

abbrev beta : Settings
beta = record {
  myrag_group_root = text "/myrag";
  myrag_superadmin_groupes = text "/admin";
  auth_enabled = true;
}

abbrev codes : Ligne
codes = record {
  fiche = record {
    name = text "codes";
    scope = some (text "public");
    scope_groups = none;
    created_by = none;
  };
  garant_hash = some "h1";
  garant_pressenti = [];
  etat_collab = none;
  demande_id = none;
}

abbrev debut : Tables
debut = record {
  collections = codes ∷ [];
  grilles = [];
  propositions = [];
  signalements = [];
  abonnes = [];
  journal = [];
  messages = [];
}

abbrev personne_de : String → Identite
personne_de h = record { groups = none; sub = none; hash = h }

abbrev donnees : Donnees
donnees = record {
  cible_type = fichier;
  cible_ref = text "art1";
  avant = [];
  apres = text " neuf ";
  justification = text "loi";
  source = none;
}

abbrev faire : String → Appel → Geste
faire h a = appel (text "codes") (personne_de h) a

-- Two readings by one person, a proposal, a refusal by another person, then the guarantor's decisions.
abbrev vie : List (ℕ × Geste)
vie =
    (1, faire "h2" relecture)
    ∷ (2, faire "h2" relecture)
    ∷ (3, faire "h3" relecture)
    ∷ (4, faire "h2" (proposer "p" donnees))
    ∷ (5, faire "h2" (refuser "p" (text "non")))
    ∷ (6, faire "h1" (publier "p"))
    ∷ (7, faire "h1" (refuser "p" (text "non")))
    ∷ []

abbrev grille_finale : GrilleControle
grille_finale = grille_de (text "codes") (histoire beta vie debut).grilles

relue_deux : grille_finale.relecture_n ≡ 2
unfolding circuit
relue_deux = refl

abbrev avant_decision : Tables
avant_decision = histoire beta ((4, faire "h2" (proposer "p" donnees)) ∷ []) debut

refusee_autre :
    appeler beta 5 (text "codes") (personne_de "h2") (publier "p") avant_decision ≡ echec interdit
unfolding circuit
refusee_autre = refl

abbrev publication : Tables
publication = histoire beta ((6, faire "h1" (publier "p")) ∷ []) avant_decision

deja_decidee :
    appeler beta 7 (text "codes") (personne_de "h1") (publier "p") publication ≡ echec conflit
unfolding circuit
deja_decidee = refl

une_decision : decisions "p" (histoire beta vie debut).journal ≡ 1
unfolding circuit
une_decision = refl

abbrev relue_deux_fois : GrilleControle
relue_deux_fois = record {
  collection_name = text "codes";
  source_licence = [];
  donnees_perso = [];
  fraicheur = [];
  relecture_n = 2;
  relecteurs = "h2" ∷ "h3" ∷ [];
  couverture = b'{' ∷ b'}' ∷ [];
  maj_par_hash = none;
  maj_le = some 3;
}

grille_la : In relue_deux_fois (histoire beta vie debut).grilles
unfolding circuit
grille_la = inl refl

histoire-relecture_n_example :
    (relue_deux_fois.relecture_n ≡ length relue_deux_fois.relecteurs)
    × Distincts relue_deux_fois.relecteurs
histoire-relecture_n_example = histoire-relecture_n beta vie debut relue_deux_fois refl grille_la

histoire-decisions_example :
    decisions "p" (histoire beta vie debut).journal
    ≡ decidees (trouver "p" (histoire beta vie debut).propositions)
histoire-decisions_example = histoire-decisions beta vie debut "p" refl refl

abbrev publiee_six : Proposition
publiee_six = record {
  id = "p";
  collection_name = text "codes";
  cible_type = fichier;
  cible_ref = text "art1";
  avant = [];
  apres = text "neuf";
  justification = text "loi";
  source = none;
  auteur_hash = "h2";
  etat = decidee publiee;
  motif_refus = none;
  decide_par_hash = some "h1";
  decide_le = some 6;
  cree_le = 4;
}

proposition_la : trouver "p" publication.propositions ≡ some publiee_six
unfolding circuit
proposition_la = refl

histoire-decidee_example :
    trouver "p" (histoire beta vie publication).propositions ≡ some publiee_six
histoire-decidee_example =
    histoire-decidee beta vie publication publiee_six publiee refl proposition_la

publier_iff_example :
    ((u : Tables) × (p : Proposition) × (appeler beta 6
          (text "codes")
          (personne_de "h1")
          (publier "p")
          avant_decision
        ≡ commis u (une_proposition p))
      × (trouver "p" u.propositions ≡ some p)
      × (p.etat ≡ decidee publiee))
    ↔ PeutPublier beta (text "codes") (personne_de "h1") "p" avant_decision
publier_iff_example = publier_iff beta 6 (text "codes") (personne_de "h1") "p" avant_decision
