-- ===== src/Harnais/Plan.antt =====
-- The planners of myrag/app/harnais/plan: toutes_les_sources.py and regles.py. The matcher of texts
-- is a field: its keys, `i:j` in the program, are pairs. A score is a count of ten-thousandths, as
-- is a weight; `arrondi` stands for `round(x, 2)`. `none` is an exception of the planner.
pub mod Rangees
pub mod Regles
pub mod Toutes
mod Tests
use mycollections.Base.{
  ℕ, zero, suc, ◌+◌, ◌-◌, ◌≡◌, Bool, true, false, ◌&&◌, not, Option, none, some, List, [], ◌∷◌,
  ◌++◌, map, String, string_eq, contains, filter, find, length, get_elem?, leb, min, max, is_some,
  is_empty, if◌then◌else◌, Text, is_space, strip, all,
}
use mycollections.Harnais.Contrat.{
  Regime, toujours, selon_question, sur_consigne, Source, EtapeConsigne, Consigne, FicheAssistant,
  question_max, Etape, Plan, regles, toutes_les_sources, sources_ordonnees, un,
}
use mycollections.Harnais.Perimetre.{distincts}

-- `valide` is `"valider" in contexte.capacites_client`.
pub record Contexte : Type 0 where
  pub valide : Bool
  pub sources_lisibles : List String

abbrev pub Cle : Type 0
Cle = ℕ × ℕ

pub record Planificateur : Type 0 where
  pub version : ℕ
  pub apparier_consignes : Text → List (Cle × String) → List (Cle × ℕ)
  pub apparier_sources : Text → List (String × Text) → List (String × ℕ)
  pub descriptions : String → Text
  pub arrondi : ℕ → ℕ
  pub seuil : ℕ
  pub seuil_source : ℕ

abbrev pub poids_toujours_ajoutee : ℕ
poids_toujours_ajoutee = 5000

abbrev pub est_toujours : Regime → Bool
est_toujours toujours = true
est_toujours _ = false

abbrev pub est_selon : Regime → Bool
est_selon selon_question = true
est_selon _ = false

abbrev pub est_sur_consigne : Regime → Bool
est_sur_consigne sur_consigne = true
est_sur_consigne _ = false

abbrev pub etape : ℕ → String → Text → ℕ → Etape
etape n source question poids = record {
  n = n;
  source = source;
  question = strip is_space question;
  poids = poids;
  attend = [];
  avec = none;
}

-- Steps numbered after n, one for each source with its weight.
abbrev pub numeroter : ℕ → Text → List (String × ℕ) → List Etape
numeroter n question [] = []
numeroter n question ((source, poids) ∷ l) =
    etape (suc n) source question poids ∷ numeroter (suc n) question l

abbrev pub lisibles_de : FicheAssistant → List String → List Source
lisibles_de fiche lisibles = filter (λ s. contains lisibles s.id) (sources_ordonnees fiche)

-- The bounds of `Etape.question`, once stripped.
abbrev pub admise : Text → Bool
admise q = leb 1 (length q) && leb (length q) question_max

-- The ValidationError of a step whose question is refused, and of a version below 1. The other
-- bounds cannot refuse what the planners build, where rounding leaves a weight.
abbrev pub valider : Plan → Option Plan
valider p = if all (λ e. admise e.question) p.etapes && leb 1 p.version then some p else none

unfoldable pub plan_de_toutes : ℕ → FicheAssistant → Text → Contexte → Option Plan
plan_de_toutes version fiche question c =
    let etapes =
      numeroter 0 question (map (λ s. (s.id, un)) (lisibles_de fiche c.sources_lisibles)) in
    valider (record {
      assistant = fiche.assistant;
      version = version;
      planificateur = toutes_les_sources;
      consigne = none;
      score_consigne = none;
      reponse_fiable = none;
      etapes = etapes;
      sources_ignorees = length fiche.sources - length etapes;
      a_valider = fiche.validation_requise && c.valide;
    })

-- enumerate([c.quand, *c.exemples])
abbrev pub textes_de : ℕ → ℕ → List String → List (Cle × String)
textes_de i j [] = []
textes_de i j (t ∷ l) = ((i, j), t) ∷ textes_de i (suc j) l

abbrev pub candidats_de : ℕ → Option String → List String → List (Cle × String)
candidats_de i none exemples = []
candidats_de i (some q) exemples = textes_de i 0 (q ∷ exemples)

abbrev pub candidats : ℕ → List Consigne → List (Cle × String)
candidats i [] = []
candidats i (c ∷ l) = candidats_de i c.quand c.exemples ++ candidats (suc i) l

abbrev pub par_defaut : FicheAssistant → Option Consigne
par_defaut fiche = find (λ c. not (is_some c.quand) && not (is_empty c.chercher)) fiche.consignes

-- `fiche.consignes[i]`, which fails out of range.
abbrev pub consigne_a : FicheAssistant → ℕ → ℕ → Option (Option Consigne × ℕ)
consigne_a fiche i score = elim (get_elem? fiche.consignes i) [
  | none ↦ none
  | some c ↦ some (some c, min un score)
]

abbrev pub retenue : Planificateur → FicheAssistant → List (Cle × ℕ) → Option (Option Consigne × ℕ)
retenue r fiche [] = some (par_defaut fiche, 0)
retenue r fiche ((cle, score) ∷ l) =
    if leb r.seuil score then consigne_a fiche cle.0 score else some (par_defaut fiche, 0)

abbrev pub reconnue :
    Planificateur → FicheAssistant → Text → List (Cle × String) → Option (Option Consigne × ℕ)
reconnue r fiche question [] = some (par_defaut fiche, 0)
reconnue r fiche question (c ∷ l) = retenue r fiche (r.apparier_consignes question (c ∷ l))

unfoldable pub reconnaitre : Planificateur → FicheAssistant → Text → Option (Option Consigne × ℕ)
reconnaitre r fiche question = reconnue r fiche question (candidats 0 fiche.consignes)

-- `[numero_precedent] if e.avec and numero_precedent else []`
abbrev pub attente : Option String → Option ℕ → List ℕ
attente none precedent = []
attente (some a) none = []
attente (some a) (some n) = n ∷ []

-- The steps of the consigne after n steps, `precedent` being the step just before.
unfoldable pub suivre : List String → Text → ℕ → Option ℕ → List EtapeConsigne → List Etape
suivre lisibles question n precedent [] = []
suivre lisibles question n precedent (e ∷ l) = elim (contains lisibles e.source) [
  | false ↦ suivre lisibles question n none l
  | true ↦
      let attend = attente e.avec precedent in
      record {
        n = suc n;
        source = e.source;
        question = strip is_space question;
        poids = un;
        attend = attend;
        avec = if is_empty attend then none else e.avec;
      }
      ∷ suivre lisibles question (suc n) (some (suc n)) l
]

unfoldable pub etapes_de_consigne : FicheAssistant → Consigne → Text → List String → List Etape
etapes_de_consigne fiche consigne question lisibles =
    let etapes = suivre lisibles question 0 none consigne.chercher in
    let deja = map (λ e. e.source) etapes in
    etapes
    ++ numeroter (length etapes) question (
        map (λ s. (s.id, poids_toujours_ajoutee))
          (filter (λ s. est_toujours s.regime && not (contains deja s.id))
            (lisibles_de fiche lisibles)))

-- `dict(pairs).get(key)`: the last pair wins.
abbrev pub score_de : String → List (String × ℕ) → Option ℕ
score_de cle [] = none
score_de cle ((c, s) ∷ l) = elim (score_de cle l) [
  | some t ↦ some t
  | none ↦ if string_eq.same c cle then some s else none
]

-- One source by its score; no score is 0, and fails where 0 is enough.
abbrev pub peser : Planificateur → List (String × ℕ) → String → Option (List (String × ℕ))
peser r scores source = elim (score_de source scores) [
  | none ↦ if leb r.seuil_source 0 then none else some []
  | some s ↦
      if leb r.seuil_source s
      then some ((source, r.arrondi (min un (max 5000 s))) ∷ [])
      else some []
]

abbrev pub peser_tout : Planificateur → List (String × ℕ) → List Source → Option (List (String × ℕ))
peser_tout r scores [] = some []
peser_tout r scores (s ∷ l) = elim (peser r scores s.id) [
  | none ↦ none
  | some a ↦ elim (peser_tout r scores l) [ none ↦ none | some b ↦ some (a ++ b) ]
]

abbrev pub decrites : Planificateur → List Source → List (String × Text)
decrites r l =
    map (λ s. (s.id, r.descriptions s.id))
      (filter (λ s. not (is_empty (strip is_space (r.descriptions s.id)))) l)

abbrev pub choisies :
    Planificateur → Text → List Source → List (String × Text) → Option (List (String × ℕ))
choisies r question selon [] = some []
choisies r question selon (d ∷ l) = peser_tout r (r.apparier_sources question (d ∷ l)) selon

-- Never mute: all the sources by question when nothing is kept.
abbrev pub ou_toutes : List Source → List (String × ℕ) → List (String × ℕ)
ou_toutes selon [] = map (λ s. (s.id, 5000)) selon
ou_toutes selon (x ∷ l) = x ∷ l

unfoldable pub etapes_par_regimes :
    Planificateur → FicheAssistant → Text → List String → Option (List Etape)
etapes_par_regimes r fiche question lisibles =
    let sources = lisibles_de fiche lisibles in
    let selon = filter (λ s. est_selon s.regime) sources in
    let fixes = map (λ s. (s.id, un)) (filter (λ s. est_toujours s.regime) sources) in
    elim (choisies r question selon (decrites r selon)) [
      | none ↦ none
      | some l ↦ some (numeroter 0 question (ou_toutes selon (fixes ++ l)))
    ]

-- A consigne that is there and has steps.
abbrev pub a_etapes : Option Consigne → Option Consigne
a_etapes none = none
a_etapes (some c) = if is_empty c.chercher then none else some c

unfoldable pub visees : FicheAssistant → Option Consigne → List String
visees fiche consigne = elim (a_etapes consigne) [
  | some c ↦
      map (λ e. e.source) c.chercher
      ++ map (λ s. s.id) (filter (λ s. est_toujours s.regime) fiche.sources)
  | none ↦ map (λ s. s.id) (filter (λ s. not (est_sur_consigne s.regime)) fiche.sources)
]

unfoldable pub etapes_du_plan :
    Planificateur → FicheAssistant → Text → List String → Option Consigne → Option (List Etape)
etapes_du_plan r fiche question lisibles consigne = elim (a_etapes consigne) [
  | some c ↦ some (etapes_de_consigne fiche c question lisibles)
  | none ↦ etapes_par_regimes r fiche question lisibles
]

abbrev pub plan_fait :
    Planificateur → FicheAssistant → Contexte → Option Consigne → ℕ → List Etape → Plan
plan_fait r fiche c consigne score etapes = record {
  assistant = fiche.assistant;
  version = r.version;
  planificateur = regles;
  consigne = elim consigne [ none ↦ none | some k ↦ some k.id ];
  score_consigne = if is_some consigne then some score else none;
  reponse_fiable = none;
  etapes = etapes;
  sources_ignorees =
      distincts (filter (λ i. not (contains c.sources_lisibles i)) (visees fiche consigne));
  a_valider = fiche.validation_requise && c.valide;
}

unfoldable pub plan : Planificateur → FicheAssistant → Text → Contexte → Option Plan
plan r fiche question c = elim (reconnaitre r fiche question) [
  | none ↦ none
  | some (consigne, score) ↦ elim (etapes_du_plan r fiche question c.sources_lisibles consigne) [
    | none ↦ none
    | some etapes ↦ valider (plan_fait r fiche c consigne score etapes)
  ]
]
