-- ===== src/Questions/Gestes.antt =====
-- The operations of myrag/app/services/questions_store.py on a question that is there, and what is
-- served or measured.
use mycollections.Base.{
  ℕ, suc, Bool, true, false, ◌&&◌, ◌||◌, not, Option, none, some, List, [], map, String, string_eq,
  text_eq, Text, contains, filter, find, is_empty, is_space, strip, nat_beq, if◌then◌else◌, ◌==◌,
  any,
}
use mycollections.Questions.{
  brut, valide, est_valide, est_rejete, Dite, dite, Origine, avis, numero_origine, Verdict, PaireQa,
  Feedback, Jeu, Issue, rendu, introuvable, conflit, ◌>>=◌, Unicode, Valeurs, liste_de,
  verifier_textes, appliquer_relecture, creer_question, de_feedback,
}

-- A field of the body that is absent is `none`; a list may also be sent as null, `some none`.
pub record QuestionModification : Type 0 where
  pub question : Option Text
  pub reponse : Option Text
  pub must_cite : Option (Option Valeurs)
  pub tags : Option (Option Valeurs)
  pub hors_sujet : Option Bool
  pub fiable : Option Bool
  pub relecture : Option Dite
  pub commentaire : Option Text
  pub persona : Option Text

abbrev pub de_collection : String → String → PaireQa → Bool
de_collection name ident q = q.id == ident && q.collection_name == name

-- The row of the question takes its new values.
abbrev pub ranger : PaireQa → List PaireQa → List PaireQa
ranger q l = map (λ p. if p.id == q.id then q else p) l

-- `v is not None and v.strip() != ancien`
abbrev pub change : Option Text → Text → Bool
change none ancien = false
change (some v) ancien = not (strip is_space v == ancien)

abbrev pub texte : Option Text → Text → Text
texte none ancien = ancien
texte (some v) ancien = strip is_space v

abbrev pub ou_ancien : {A : Type 0} → Option A → A → A
ou_ancien none a = a
ou_ancien (some b) a = b

abbrev pub listes : Option (Option Valeurs) → List Text → List Text
listes none ancienne = ancienne
listes (some none) ancienne = []
listes (some (some v)) ancienne = liste_de v

-- The texts of the question; a new text takes the verdict away.
abbrev pub retouchee : ℕ → Option String → QuestionModification → PaireQa → PaireQa
retouchee now qui c q =
    if change c.question q.question || change c.reponse q.reponse
    then record q {
      question = texte c.question q.question;
      reponse = texte c.reponse q.reponse;
      modifie_le = some now;
      modifie_par_hash = qui;
      dernier_verdict = none;
    }
    else q

abbrev pub completee : QuestionModification → PaireQa → PaireQa
completee c q = record q {
  must_cite = listes c.must_cite q.must_cite;
  tags = listes c.tags q.tags;
  persona_nom = ou_ancien c.persona q.persona_nom;
  commentaire = ou_ancien c.commentaire q.commentaire;
}

abbrev pub placee : Option Bool → PaireQa → PaireQa
placee none q = q
placee (some true) q = record q { hors_sujet = true; fiable = false }
placee (some false) q = record q { hors_sujet = false }

abbrev pub relire_si : ℕ → Option String → Option Dite → PaireQa → Issue PaireQa
relire_si now qui none q = rendu q
relire_si now qui (some d) q = appliquer_relecture now qui d q

abbrev pub fier_si : Option Bool → PaireQa → Issue PaireQa
fier_si none q = rendu q
fier_si (some fiable) q =
    if fiable && (not (est_valide q.relecture) || q.hors_sujet)
    then conflit
    else rendu (record q { fiable = fiable })

unfoldable pub modifiee : ℕ → Option String → QuestionModification → PaireQa → Issue PaireQa
modifiee now qui c q = verifier_textes c.question c.reponse >>= λ _.
    relire_si now qui c.relecture (placee c.hors_sujet (completee c (retouchee now qui c q)))
    >>= fier_si c.fiable

unfoldable pub modifier_question :
    ℕ → String → String → QuestionModification → Option String → Jeu → Issue (PaireQa × Jeu)
modifier_question now name ident c qui j = elim (find (de_collection name ident) j.questions) [
  | none ↦ introuvable
  | some q ↦
      modifiee now qui c q >>= λ q'. rendu (q', record j { questions = ranger q' j.questions })
]

unfoldable pub supprimer_question : String → String → Jeu → Issue Jeu
supprimer_question name ident j = elim (find (de_collection name ident) j.questions) [
  | none ↦ introuvable
  | some q ↦ rendu (record j { questions = filter (λ p. not (p.id == ident)) j.questions })
]

abbrev pub promu : ℕ → ℕ → Feedback → Feedback
promu now ident f =
    if nat_beq f.id ident then record f { promu = true; reviewed_at = some now } else f

-- An opinion becomes a question, valid at once where an answer comes with it.
unfoldable pub depuis_avis :
    Unicode → ℕ → String → String → ℕ → Text → Option String → Jeu → Issue (PaireQa × Jeu)
depuis_avis u now nouvel_id name feedback_id reponse qui j =
    elim (find (λ f. nat_beq f.id feedback_id && f.collection_name == name) j.avis_recus) [
      | none ↦ introuvable
      | some f ↦
          creer_question u now nouvel_id name
            (record {
              question = f.question;
              reponse = reponse;
              must_cite = Valeurs.liste [];
              tags = Valeurs.liste [];
              contextes = [];
              hors_sujet = false;
              persona = [];
              commentaire = [];
              relecture = dite (if is_empty (strip is_space reponse) then brut else valide);
            })
            qui avis (some (de_feedback feedback_id)) (some feedback_id) j
          >>= λ r.
              rendu
                (r.0, record (r.1) { avis_recus = map (promu now feedback_id) (r.1).avis_recus })
    ]

unfoldable pub noter_verdict : ℕ → String → Verdict → String → Jeu → Jeu
noter_verdict now ident verdict mesure_id j = record j {
  questions =
      map
        (λ q.
          if q.id == ident
          then record q {
            dernier_verdict = some verdict;
            derniere_mesure_id = some mesure_id;
            derniere_mesure_le = some now;
          }
          else q)
        j.questions;
}

unfoldable pub marquer_servie : ℕ → String → Jeu → Jeu
marquer_servie now ident j = record j {
  questions =
      map
        (λ q.
          if q.id == ident
          then record q { servie_fois = suc q.servie_fois; servie_le = some now }
          else q)
        j.questions;
}

-- What may be served as it is, from the given collections.
abbrev pub servable : List String → PaireQa → Bool
servable sources q =
    contains sources q.collection_name && (q.fiable && (est_valide q.relecture && not q.hors_sujet))

unfoldable pub reponses_fiables : List String → Jeu → List PaireQa
reponses_fiables sources j = filter (servable sources) j.questions

unfoldable pub lire_fiable : String → List String → Jeu → Option PaireQa
lire_fiable ident sources j = find (λ q. q.id == ident && servable sources q) j.questions

unfoldable pub questions_a_mesurer : String → Bool → List Origine → Jeu → List PaireQa
questions_a_mesurer name seulement_validees origines j =
    filter
      (λ q.
        q.collection_name == name
        && (not (est_rejete q.relecture)
            && ((not seulement_validees || est_valide q.relecture)
                && (is_empty origines
                    || any (λ o. nat_beq (numero_origine o) (numero_origine q.origine)) origines))))
      j.questions
