-- ===== src/Harnais/Contrat.antt =====
-- myrag/app/harnais/contrat.py: the card of an assistant and the plan of a search, with what their
-- validators ask for. Identifiers are texts; the patterns on them are left out. A score or a weight
-- is a count of ten-thousandths, the precision to which the program rounds its scores.
pub mod Rangs
use mycollections.Base.{
  ℕ, ◌≤◌, ◌<◌, ◌≡◌, Bool, true, false, Option, none, some, List, [], ◌∷◌, map, String, In, is_some,
  is_empty, leb, length, Text, string_eq, ◌==◌, if◌then◌else◌,
}

pub data TypeSource : Type 0 where
  collection connecteur : TypeSource

pub data Regime : Type 0 where
  toujours selon_question sur_consigne : Regime

pub record Source : Type 0 where
  pub id : String
  pub type : TypeSource
  pub regime : Regime
  pub rang : Option ℕ

pub record EtapeConsigne : Type 0 where
  pub source : String
  pub avec : Option String

-- `quand` is `none` for the reserved value that applies to every question.
pub record Consigne : Type 0 where
  pub id : String
  pub quand : Option String
  pub exemples : List String
  pub chercher : List EtapeConsigne

pub record FicheAssistant : Type 0 where
  pub assistant : String
  pub sources : List Source
  pub consignes : List Consigne
  pub validation_requise : Bool

-- The key of the sort: (s.rang is None, s.rang or 0), compared as a pair.
abbrev pub avant : Source → Source → Bool
avant s t = elim s.rang [
  | none ↦ elim t.rang [ none ↦ true | some b ↦ false ]
  | some a ↦ elim t.rang [ none ↦ true | some b ↦ leb a b ]
]

-- A stable sort: the inserted source stands before those that it does not come after.
abbrev pub inserer : Source → List Source → List Source
inserer s [] = s ∷ []
inserer s (t ∷ l) = let reste = inserer s l in if avant s t then s ∷ t ∷ l else t ∷ reste

abbrev pub trier : List Source → List Source
trier [] = []
trier (s ∷ l) = inserer s (trier l)

unfoldable pub sources_ordonnees : FicheAssistant → List Source
sources_ordonnees fiche = trier fiche.sources

pub record Etape : Type 0 where
  pub n : ℕ
  pub source : String
  pub question : Text
  pub poids : ℕ
  pub attend : List ℕ
  pub avec : Option String

-- The answer that is served with no search.
pub record ReponseFiableRetenue : Type 0 where
  pub id : String
  pub score : ℕ

pub data NomPlanificateur : Type 0 where
  toutes_les_sources regles llm : NomPlanificateur

pub record Plan : Type 0 where
  pub assistant : String
  pub version : ℕ
  pub planificateur : NomPlanificateur
  pub consigne : Option String
  pub score_consigne : Option ℕ
  pub reponse_fiable : Option ReponseFiableRetenue
  pub etapes : List Etape
  pub sources_ignorees : ℕ
  pub a_valider : Bool

abbrev pub numeros : List Etape → List ℕ
numeros l = map (λ e. e.n) l

-- No number twice.
abbrev pub Uniques : List ℕ → Type 0
Uniques [] = Unit
Uniques (n ∷ l) = ¬ In n l × Uniques l

abbrev pub un : ℕ
un = 10000

abbrev pub question_max : ℕ
question_max = 1000

-- What the fields and the validator of Etape ask for; `question` is stored without the white space at
-- its ends.
pub record IsEtape (e : Etape) : Type 0 where
  pub numbered : 1 ≤ e.n
  pub weighted : 1 ≤ e.poids
  pub bounded : e.poids ≤ un
  pub asked : (1 ≤ length e.question) × (length e.question ≤ question_max)
  pub relay : is_some e.avec ≡ true → is_empty e.attend ≡ false

-- Each awaited step has a smaller number and is in the plan.
abbrev pub Precede : List ℕ → Etape → Type 0
Precede ns e = (a : ℕ) → In a e.attend → (a < e.n) × In a ns

-- What the fields and the validators of Plan ask for.
pub record IsPlan (p : Plan) : Type 0 where
  pub versioned : 1 ≤ p.version
  pub scored : (s : ℕ) → p.score_consigne ≡ some s → s ≤ un
  pub trusted :
      (r : ReponseFiableRetenue)
      → p.reponse_fiable ≡ some r
      → ((r.id == "") ≡ false) × (r.score ≤ un)
  pub steps : (e : Etape) → In e p.etapes → IsEtape e
  pub unique : Uniques (numeros p.etapes)
  pub ordered : (e : Etape) → In e p.etapes → Precede (numeros p.etapes) e
  pub exclusive : is_some p.reponse_fiable ≡ true → p.etapes ≡ []
