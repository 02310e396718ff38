-- ===== src/Questions/Tests.antt =====
-- The reference questions of myrag/app/services/questions_store.py at concrete inputs.
use mycollections.Base.{
  ℕ, ◌+◌, ◌≡◌, ◌↔◌, refl, inl, true, false, ◌&&◌, Option, none, some, List, [], ◌∷◌, ◌++◌, map,
  string_eq, contains, Text, text, leb, In, length, if◌then◌else◌, is_some,
}
use mycollections.Questions.{
  Unicode, plier, Valeurs, liste_de, Champs, dite, valide, saisie, importee, Jeu, PaireQa, Issue,
  rendu, Bilan, Envoi, importer_questions, importer_depuis, nouvelle, appliquer_relecture,
  verifier_textes, creer_question, questions_pliees, est_valide, est_brut,
}
use mycollections.Questions.Entrees.{Entree, normalisee, normaliser_import, relecture_de}
use mycollections.Questions.Gestes.{
  QuestionModification, modifier_question, modifiee, reponses_fiables, supprimer_question,
  depuis_avis, noter_verdict, marquer_servie,
}
use mycollections.Questions.Histoire.{
  Geste, creation, modification, jouer, histoire, histoire-reponses_fiables, histoire-fiable,
}
use mycollections.Questions.Import.{Nettes, Neuves, importer_questions-Bilan}

program : Unit {0}
unfolding plier liste_de nouvelle appliquer_relecture verifier_textes creer_question
    importer_questions importer_depuis normaliser_import relecture_de modifier_question modifiee
    reponses_fiables supprimer_question depuis_avis noter_verdict marquer_servie jouer histoire
program = tt

-- Plain letters.
abbrev ascii : Unicode
ascii = record {
  nfd = λ t. t;
  est_marque = λ c. false;
  lower = map (λ c. if leb b'A' c && leb c b'Z' then c + 32 else c);
  est_mot = λ c. leb b'a' c && leb c b'z';
}

pliage : plier ascii (text " Quel  est le d-lai ?") ≡ text "quel est le d lai"
unfolding program
pliage = refl

mots : liste_de (Valeurs.chaine (text " a, ,b")) ≡ text "a" ∷ text "b" ∷ []
unfolding program
mots = refl

abbrev champs : Text → Champs
champs q = record {
  question = q;
  reponse = text "Deux mois.";
  must_cite = Valeurs.liste [];
  tags = Valeurs.liste [];
  contextes = [];
  hors_sujet = false;
  persona = [];
  commentaire = [];
  relecture = dite valide;
}

abbrev vide : Jeu
vide = record { questions = []; avis_recus = [] }

abbrev envoi : Envoi
envoi = record {
  now = 7;
  ids = λ n. if leb n 0 then "q0" else "q1";
  name = "codes";
  qui = some "ana";
  origine = importee;
  prefixe_ref = some "lot";
}

abbrev entree : Text → Entree
entree q = record {
  question = q;
  user_input = [];
  reponse = text "Deux mois.";
  expected_answer = [];
  answer = [];
  reference = [];
  out_of_scope = false;
  hors_sujet = false;
  relecture = none;
  meta_relecture = none;
  must_cite = none;
  meta_must_cite = none;
  tags = some (Valeurs.liste []);
  meta_tags = some (Valeurs.chaine (text "droit"));
  persona = [];
  persona_name = [];
  note = [];
  commentaire = [];
  meta_commentaire = [];
}

abbrev fichier : List (Option Entree)
fichier =
    some (entree (text " Quel est le delai ?"))
    ∷ none
    ∷ some (entree (text "quel est le Delai"))
    ∷ some (entree (text "Qui ?"))
    ∷ some (entree (text "a"))
    ∷ []

abbrev issue : Issue (Bilan × Jeu)
issue = importer_questions ascii envoi fichier vide

abbrev bilan : Issue (Bilan × Jeu) → Bilan × Jeu
bilan (rendu r) = r
bilan _ = (record { crees = 0; doublons = 0; ignores = 0; ajoutees = [] }, vide)

comptes :
    ((bilan issue).0.crees ≡ 2) × ((bilan issue).0.doublons ≡ 1) × ((bilan issue).0.ignores ≡ 2)
unfolding program
comptes = (refl, refl, refl)

importe : issue ≡ rendu ((bilan issue).0, (bilan issue).1)
unfolding program
importe = refl

nettes : Nettes (map normalisee fichier)
unfolding program
nettes = (refl, (refl, (refl, (refl, tt))))

importer_questions-Bilan_example :
    ((bilan issue).0.crees + (bilan issue).0.doublons + (bilan issue).0.ignores ≡ length fichier)
    × (length (bilan issue).0.ajoutees ≡ (bilan issue).0.crees)
    × ((bilan issue).1.questions ≡ vide.questions ++ (bilan issue).0.ajoutees)
    × Neuves ascii (questions_pliees ascii "codes" vide.questions) (bilan issue).0.ajoutees
importer_questions-Bilan_example =
    importer_questions-Bilan ascii envoi fichier vide (bilan issue).1 (bilan issue).0 nettes importe

abbrev intacte : QuestionModification
intacte = record {
  question = none;
  reponse = none;
  must_cite = none;
  tags = none;
  hors_sujet = none;
  fiable = none;
  relecture = none;
  commentaire = none;
  persona = none;
}

-- A question that is created, trusted, then put off the subject.
abbrev vie : List (ℕ × Geste)
vie =
    (1, creation "q0" "codes" (champs (text "Quel est le delai ?")) (some "ana") saisie none)
    ∷ (2, modification "codes" "q0" (record intacte { fiable = some true }) (some "ana"))
    ∷ []

abbrev suite : List (ℕ × Geste)
suite =
    (1, creation "q0" "codes" (champs (text "Quel est le delai ?")) (some "ana") saisie none)
    ∷ (2, modification "codes" "q0" (record intacte { fiable = some true }) (some "ana"))
    ∷ (3, modification "codes" "q0" (record intacte { hors_sujet = some true }) (some "ana"))
    ∷ []

servies :
    (length (reponses_fiables ("codes" ∷ []) (histoire ascii vie vide)) ≡ 1)
    × (length (reponses_fiables ("codes" ∷ []) (histoire ascii suite vide)) ≡ 0)
unfolding program
servies = (refl, refl)

abbrev faite : PaireQa
faite = record {
  id = "q0";
  collection_name = "codes";
  rang = 0;
  question = text "Quel est le delai ?";
  reponse = text "Deux mois.";
  origine = saisie;
  source_ref = none;
  feedback_id = none;
  persona_nom = [];
  must_cite = [];
  tags = [];
  contextes = [];
  hors_sujet = false;
  fiable = true;
  commentaire = [];
  relecture = valide;
  relu_le = some 1;
  relu_par_hash = some "ana";
  modifie_le = none;
  modifie_par_hash = none;
  dernier_verdict = none;
  derniere_mesure_id = none;
  derniere_mesure_le = none;
  servie_fois = 0;
  servie_le = none;
  cree_le = 1;
}

faite-In : In faite (histoire ascii vie vide).questions
unfolding program
faite-In = inl refl

histoire-reponses_fiables_example :
    In faite (reponses_fiables ("codes" ∷ []) (histoire ascii vie vide)) ↔ (
      In faite (histoire ascii vie vide).questions
      × (contains ("codes" ∷ []) faite.collection_name ≡ true)
      × (faite.fiable ≡ true))
histoire-reponses_fiables_example =
    histoire-reponses_fiables ascii vie vide ("codes" ∷ []) faite (λ q i. absurd i)

histoire-fiable_example :
    (faite.fiable ≡ true → (est_valide faite.relecture ≡ true) × (faite.hors_sujet ≡ false))
    × (est_brut faite.relecture ≡ false → is_some faite.relu_le ≡ true)
histoire-fiable_example = histoire-fiable ascii vie vide faite (λ q i. absurd i) faite-In
