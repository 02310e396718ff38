-- ===== src/Questions.antt =====
-- myrag/app/services/questions_store.py: the reference questions of a collection, as a table with
-- one row each. The classes of Unicode and the lower case are parameters of `plier`; an identity is
-- its condensed form, and `now` stands for utcnow(). The texts of lists are the lists themselves.
-- A call gives what its transaction commits, or its exception, which leaves the tables as they are.
mod Registre
pub mod Entrees
pub mod Gestes
pub mod Fiables
pub mod Histoire
pub mod Import
mod Tests
unfoldable pub use Registre.*
use mycollections.Questions.Entrees.{Entree, normalisee}
use mycollections.Base.{
  ℕ, zero, suc, ◌+◌, ◌≡◌, Bool, true, false, ◌&&◌, ◌||◌, not, Option, none, some, List, [], ◌∷◌,
  ◌++◌, map, String, string_eq, text_eq, nat_eq, Text, text, contains, filter, find, any, length,
  take, leb, ltb, is_some, is_empty, is_space, strip, if◌then◌else◌, ◌==◌,
}

-- The folded questions of the collection that are not rejected.
abbrev pub questions_pliees : Unicode → String → List PaireQa → List Text
questions_pliees u name l =
    map (λ q. plier u q.question)
      (filter (λ q. q.collection_name == name && not (est_rejete q.relecture)) l)

abbrev pub meme_source : Option Ref → Option Ref → Bool
meme_source (some r) (some s) = meme_ref r s
meme_source _ _ = false

-- The unique index on the collection and the key of import.
abbrev pub ref_prise : PaireQa → List PaireQa → Bool
ref_prise q l =
    any (λ p. p.collection_name == q.collection_name && meme_source p.source_ref q.source_ref) l

unfoldable pub creer_question :
    Unicode
    → ℕ
    → String
    → String
    → Champs
    → Option String
    → Origine
    → Option Ref
    → Option ℕ
    → Jeu
    → Issue (PaireQa × Jeu)
creer_question u now ident name champs qui origine source_ref feedback_id j =
    if contains (questions_pliees u name j.questions) (plier u champs.question)
    then conflit
    else nouvelle ident now name champs qui origine source_ref feedback_id 0 >>= λ q.
        if ref_prise q j.questions
        then conflit
        else rendu (q, record j { questions = j.questions ++ q ∷ [] })

-- The counts of an import, with the rows that it adds.
pub record Bilan : Type 0 where
  pub crees : ℕ
  pub doublons : ℕ
  pub ignores : ℕ
  pub ajoutees : List PaireQa

abbrev pub rien : Bilan
rien = record { crees = 0; doublons = 0; ignores = 0; ajoutees = [] }

abbrev pub ignore : Bilan → Bilan
ignore b = record b { ignores = suc b.ignores }

abbrev pub doublon : Bilan → Bilan
doublon b = record b { doublons = suc b.doublons }

abbrev pub cree : PaireQa → Bilan → Bilan
cree q b = record b { crees = suc b.crees; ajoutees = q ∷ b.ajoutees }

-- An entry that `nouvelle` takes or refuses with ValueError.
abbrev pub ajout : Text → List Text → Issue PaireQa → (List Text → Bilan) → Bilan
ajout cle vues (rendu q) reste = cree q (reste (cle ∷ vues))
ajout cle vues introuvable reste = ignore (reste vues)
ajout cle vues conflit reste = ignore (reste vues)
ajout cle vues invalide reste = ignore (reste vues)
ajout cle vues integrite reste = ignore (reste vues)

-- Who imports what: the ids that the rows take, by their rank.
pub record Envoi : Type 0 where
  pub now : ℕ
  pub ids : ℕ → String
  pub name : String
  pub qui : Option String
  pub origine : Origine
  pub prefixe_ref : Option String

abbrev pub ref_de : Option String → ℕ → Option Ref
ref_de none rang = none
ref_de (some p) rang = if p == "" then none else some (de_rang p rang)

-- The normalised entries from a rank on; `none` is an entry with no question.
unfoldable pub importer_depuis : Unicode → Envoi → ℕ → List Text → List (Option Champs) → Bilan
importer_depuis u e rang vues [] = rien
importer_depuis u e rang vues (none ∷ l) = ignore (importer_depuis u e (suc rang) vues l)
importer_depuis u e rang vues (some champs ∷ l) =
    let suite = λ (v : List Text). importer_depuis u e (suc rang) v l in
    let q =
      nouvelle (e.ids rang) e.now e.name champs e.qui e.origine (ref_de e.prefixe_ref rang) none
        rang in
    let deja = doublon (suite vues) in
    let neuve = ajout (plier u champs.question) vues q suite in
    if contains vues (plier u champs.question) then deja else neuve

unfoldable pub importer_questions :
    Unicode → Envoi → List (Option Entree) → Jeu → Issue (Bilan × Jeu)
importer_questions u e items j =
    if ltb import_max (length items)
    then invalide
    else let b =
        importer_depuis u e 0 (questions_pliees u e.name j.questions) (map normalisee items) in
      if any (λ q. ref_prise q j.questions) b.ajoutees
      then integrite
      else rendu (b, record j { questions = j.questions ++ b.ajoutees })
