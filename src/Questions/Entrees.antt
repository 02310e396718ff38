-- ===== src/Questions/Entrees.antt =====
-- normaliser_import of myrag/app/services/questions_store.py: an entry of an import, in the words of
-- the creation assistant or in those of the evaluation tool. A text that is absent is empty.
use mycollections.Base.{
  Bool, ◌||◌, not, Option, none, some, [], ◌∷◌, Text, take, is_empty, is_space, strip,
  if◌then◌else◌,
}
use mycollections.Questions.Registre.{
  Relecture, brut, valide, Dite, dite, inconnue, Champs, Valeurs, question_max, reponse_max,
}

-- The keys that are read; `meta_` marks those of `metadata`, absent where it is no dictionary.
pub record Entree : Type 0 where
  pub question : Text
  pub user_input : Text
  pub reponse : Text
  pub expected_answer : Text
  pub answer : Text
  pub reference : Text
  pub out_of_scope : Bool
  pub hors_sujet : Bool
  pub relecture : Option Dite
  pub meta_relecture : Option Dite
  pub must_cite : Option Valeurs
  pub meta_must_cite : Option Valeurs
  pub tags : Option Valeurs
  pub meta_tags : Option Valeurs
  pub persona : Text
  pub persona_name : Text
  pub note : Text
  pub commentaire : Text
  pub meta_commentaire : Text

-- `a or b`
abbrev pub sinon : Text → Text → Text
sinon [] b = b
sinon (c ∷ a) b = c ∷ a

abbrev dites : Valeurs → Bool
dites (Valeurs.chaine t) = not (is_empty t)
dites (Valeurs.liste l) = not (is_empty l)

abbrev premieres : Option Valeurs → Valeurs → Valeurs
premieres none b = b
premieres (some a) b = if dites a then a else b

abbrev pub valeurs : Option Valeurs → Option Valeurs → Valeurs
valeurs v m = premieres v (premieres m (Valeurs.liste []))

abbrev pub declaree : Option Dite → Option Dite → Dite
declaree (some d) m = d
declaree none (some d) = d
declaree none none = inconnue

-- The reading state: what is declared, else by the answer; never valid without an answer.
unfoldable pub relecture_de : Dite → Bool → Relecture
relecture_de (dite valide) complete = if complete then valide else brut
relecture_de (dite r) complete = r
relecture_de inconnue complete = if complete then valide else brut

unfoldable pub normaliser_import : Entree → Option Champs
normaliser_import e =
    let question = strip is_space (sinon e.question e.user_input) in
    let reponse =
      strip is_space (sinon e.reponse (sinon e.expected_answer (sinon e.answer e.reference))) in
    let hors_sujet = e.out_of_scope || e.hors_sujet in
    if is_empty question
    then none
    else some (record {
      question = take question_max question;
      reponse = take reponse_max reponse;
      must_cite = valeurs e.must_cite e.meta_must_cite;
      tags = valeurs e.tags e.meta_tags;
      contextes = [];
      hors_sujet = hors_sujet;
      persona = sinon e.persona e.persona_name;
      commentaire = sinon e.note (sinon e.commentaire e.meta_commentaire);
      relecture = dite (
          relecture_de (declaree e.relecture e.meta_relecture)
            (not (is_empty reponse) || hors_sujet));
    })

-- `none` is an item that is no dictionary.
abbrev pub normalisee : Option Entree → Option Champs
normalisee none = none
normalisee (some e) = normaliser_import e
