-- ===== src/Harnais/Execution.antt =====
-- myrag/app/harnais/execution.py: the steps of a plan. A connector is a parameter; a step awaits steps of
-- smaller numbers only, so the tasks are run in the order of the numbers. A score is a code that a
-- parameter compares, and durations are left out.
pub mod Ordre
pub mod Sources
pub mod Boucle
pub mod Lisibles
mod Tests
use mycollections.Base.{
  ℕ, ◌+◌, Bool, true, false, ◌&&◌, ◌||◌, not, Option, none, some, List, [], ◌∷◌, ◌++◌, String,
  string_eq, text_eq, Text, nat_eq, ◌==◌, filter, length, is_empty, is_some, leb, ltb, nat_beq,
  if◌then◌else◌,
}
use mycollections.Harnais.Contrat.{Etape, Plan}

pub record Passage : Type 0 where
  pub source : String
  pub rang : ℕ
  pub score : Option ℕ
  pub ident : Option String

pub data ErreurEtape : Type 0 where
  vide refus panne delai : ErreurEtape

-- How a connector falls: a delay, an HTTP answer, another exception.
pub data Chute : Type 0 where
  trop_long : Chute
  statut : ℕ → Chute
  autre : Chute

pub data Reponse : Type 0 where
  trouves : List Passage → Reponse
  tombe : Chute → Reponse

-- `groupe` is there where the connector knows how to search in a group; it gives nothing when it falls.
pub record Connecteur : Type 0 where
  pub cle : ℕ
  pub chercher : Etape → List Passage → Reponse
  pub groupe : Option (List Etape → Option (ℕ → List Passage))

pub record SortieEtape : Type 0 where
  pub etape : Etape
  pub passages : List Passage
  pub erreur : Option ErreurEtape

unfoldable pub classer : Chute → ErreurEtape
classer trop_long = delai
classer (statut n) = if ltb n 500 then refus else panne
classer autre = panne

-- The keys (score, -rank), an absent score below all: `plus` compares two scores.
abbrev pub devant : (ℕ → ℕ → Bool) → Passage → Passage → Bool
devant plus q p = elim q.score [
  | none ↦ elim p.score [ none ↦ ltb q.rang p.rang | some b ↦ false ]
  | some a ↦ elim p.score [
    | none ↦ true
    | some b ↦ plus a b || (not (plus b a) && ltb q.rang p.rang)
  ]
]

-- The first of the greatest.
abbrev pub meilleur : (ℕ → ℕ → Bool) → List Passage → Option Passage
meilleur plus [] = none
meilleur plus (p ∷ l) = elim (meilleur plus l) [
  | none ↦ some p
  | some q ↦ if devant plus q p then some q else some p
]

abbrev pub du_bon : Etape → Passage → Bool
du_bon e p = p.source == e.source

abbrev pub sortie : Etape → List Passage → SortieEtape
sortie e l = record {
  etape = e;
  passages = filter (du_bon e) l;
  erreur = if is_empty (filter (du_bon e) l) then some vide else none;
}

abbrev pub en_erreur : Etape → ErreurEtape → SortieEtape
en_erreur e x = record { etape = e; passages = []; erreur = some x }

unfoldable pub chercher : Option Connecteur → Etape → List Passage → SortieEtape
chercher none e amont = en_erreur e refus
chercher (some c) e amont = elim (c.chercher e amont) [
  | trouves l ↦ sortie e l
  | tombe x ↦ en_erreur e (classer x)
]

-- The independent steps of one question and one connector that searches in a group.
abbrev pub meme_paquet : (String → Option Connecteur) → ℕ → Text → Etape → Bool
meme_paquet conns cle question f =
    is_empty f.attend
    && (f.question == question
        && elim (conns f.source) [ none ↦ false | some d ↦ nat_beq d.cle cle && is_some d.groupe ])

abbrev pub membres : (String → Option Connecteur) → Plan → Connecteur → Etape → List Etape
membres conns plan c e = filter (meme_paquet conns c.cle e.question) plan.etapes

-- Where the group falls, each step searches alone.
abbrev pub chercher_groupe :
    Connecteur → (List Etape → Option (ℕ → List Passage)) → List Etape → Etape → SortieEtape
chercher_groupe c g m e = elim (g m) [
  | none ↦ chercher (some c) e []
  | some rendu ↦ sortie e (rendu e.n)
]

abbrev pub en_groupe : (String → Option Connecteur) → Plan → Etape → Option SortieEtape
en_groupe conns plan e = elim (conns e.source) [
  | none ↦ none
  | some c ↦ elim c.groupe [
    | none ↦ none
    | some g ↦
        if is_empty e.attend && ltb 1 (length (membres conns plan c e))
        then some (chercher_groupe c g (membres conns plan c e) e)
        else none
  ]
]

abbrev pub trouvee : ℕ → List (ℕ × SortieEtape) → Option SortieEtape
trouvee n [] = none
trouvee n ((k, s) ∷ l) = if nat_beq k n then some s else trouvee n l

abbrev pub ajouter : Option Passage → List Passage → List Passage
ajouter none l = l
ajouter (some p) l = p ∷ l

-- The best passage of each awaited step; nothing where one has no task.
abbrev pub amont : (ℕ → ℕ → Bool) → List (ℕ × SortieEtape) → List ℕ → Option (List Passage)
amont plus faites [] = some []
amont plus faites (a ∷ l) = elim (trouvee a faites) [
  | none ↦ none
  | some s ↦ elim (amont plus faites l) [
    | none ↦ none
    | some reste ↦ some (ajouter (meilleur plus s.passages) reste)
  ]
]

unfoldable pub une :
    (String → Option Connecteur)
    → (ℕ → ℕ → Bool)
    → Plan
    → List (ℕ × SortieEtape)
    → Etape
    → Option SortieEtape
une conns plus plan faites e = elim (en_groupe conns plan e) [
  | some s ↦ some s
  | none ↦ elim (amont plus faites e.attend) [
    | none ↦ none
    | some passages ↦ some (chercher (conns e.source) e passages)
  ]
]

-- `sorted(etapes)`: the steps of a plan that passes its checks have distinct numbers.
abbrev pub placer : Etape → List Etape → List Etape
placer e [] = e ∷ []
placer e (f ∷ l) = let reste = placer e l in if leb e.n f.n then e ∷ f ∷ l else f ∷ reste

abbrev pub ranger : List Etape → List Etape
ranger [] = []
ranger (e ∷ l) = placer e (ranger l)

unfoldable pub boucle :
    (String → Option Connecteur)
    → (ℕ → ℕ → Bool)
    → Plan
    → List (ℕ × SortieEtape)
    → List Etape
    → Option (List (ℕ × SortieEtape))
boucle conns plus plan faites [] = some faites
boucle conns plus plan faites (e ∷ l) = elim (une conns plus plan faites e) [
  | none ↦ none
  | some s ↦ boucle conns plus plan (faites ++ (e.n, s) ∷ []) l
]

unfoldable pub executer :
    (String → Option Connecteur) → (ℕ → ℕ → Bool) → Plan → Option (List (ℕ × SortieEtape))
executer conns plus plan = boucle conns plus plan [] (ranger plan.etapes)
