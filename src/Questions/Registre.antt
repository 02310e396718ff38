-- ===== src/Questions/Registre.antt =====
-- The rows of myrag/app/services/questions_store.py (table paire_qa of myrag/app/models/db.py), and
-- what makes a row of the fields that come from outside.
use mycollections.Base.{
  ℕ, ◌≡◌, refl, ap, Bool, true, false, ◌&&◌, not, Option, none, some, List, [], ◌∷◌, ◌++◌, map,
  String, string_eq, text_eq, nat_eq, Text, filter, length, take, leb, is_empty, is_space, strip,
  if◌then◌else◌, ◌==◌,
}

pub data Relecture : Type 0 where
  brut valide rejete : Relecture

abbrev pub est_valide : Relecture → Bool
est_valide valide = true
est_valide _ = false

abbrev pub est_brut : Relecture → Bool
est_brut brut = true
est_brut _ = false

abbrev pub est_rejete : Relecture → Bool
est_rejete rejete = true
est_rejete _ = false

-- A text that should name a reading state.
pub data Dite : Type 0 where
  dite : Relecture → Dite
  inconnue : Dite

pub data Origine : Type 0 where
  generee importee saisie avis amorce : Origine

abbrev pub numero_origine : Origine → ℕ
numero_origine generee = 0
numero_origine importee = 1
numero_origine saisie = 2
numero_origine avis = 3
numero_origine amorce = 4

pub data Verdict : Type 0 where
  conforme partiel non_conforme refus_ok refus_ko sans_source erreur : Verdict

-- The key of an import: `<prefix>:<rank>`, or `feedback:<id>`.
pub data Ref : Type 0 where
  de_rang : String → ℕ → Ref
  de_feedback : ℕ → Ref

abbrev pub meme_ref : Ref → Ref → Bool
meme_ref (de_rang p n) (de_rang q k) = p == q && n == k
meme_ref (de_feedback n) (de_feedback k) = n == k
meme_ref _ _ = false

-- The columns that a run of generation fills (run, style, length) are left out.
pub record PaireQa : Type 0 where
  pub id : String
  pub collection_name : String
  pub rang : ℕ
  pub question : Text
  pub reponse : Text
  pub origine : Origine
  pub source_ref : Option Ref
  pub feedback_id : Option ℕ
  pub persona_nom : Text
  pub must_cite : List Text
  pub tags : List Text
  pub contextes : List Text
  pub hors_sujet : Bool
  pub fiable : Bool
  pub commentaire : Text
  pub relecture : Relecture
  pub relu_le : Option ℕ
  pub relu_par_hash : Option String
  pub modifie_le : Option ℕ
  pub modifie_par_hash : Option String
  pub dernier_verdict : Option Verdict
  pub derniere_mesure_id : Option String
  pub derniere_mesure_le : Option ℕ
  pub servie_fois : ℕ
  pub servie_le : Option ℕ
  pub cree_le : ℕ

pub record Feedback : Type 0 where
  pub id : ℕ
  pub collection_name : String
  pub question : Text
  pub promu : Bool
  pub reviewed_at : Option ℕ

pub record Jeu : Type 0 where
  pub questions : List PaireQa
  pub avis_recus : List Feedback

pub data Issue (A : Type 0) : Type 0 where
  rendu : A → Issue A
  introuvable conflit invalide integrite : Issue A

-- What was rendered, or else the first argument.
abbrev pub valeur : {A : Type 0} → A → Issue A → A
valeur a (rendu b) = b
valeur a introuvable = a
valeur a conflit = a
valeur a invalide = a
valeur a integrite = a

infixl 5 ◌>>=◌
abbrev pub ◌>>=◌ : {A B : Type 0} → Issue A → (A → Issue B) → Issue B
rendu a >>= f = f a
introuvable >>= f = introuvable
conflit >>= f = conflit
invalide >>= f = invalide
integrite >>= f = integrite

pub rendu_inj : {A : Type 0} (a b : A) → rendu a ≡ rendu b → a ≡ b
rendu_inj a b h = ap (λ r. valeur a r) h

-- What a call that succeeded went through.
pub >>=-rendu :
    {A B : Type 0} (m : Issue A) (f : A → Issue B) (b : B)
    → (m >>= f) ≡ rendu b
    → (a : A) × (m ≡ rendu a) × (f a ≡ rendu b)
>>=-rendu (rendu a) f b h = (a, refl, h)
>>=-rendu introuvable f b h = cc
>>=-rendu conflit f b h = cc
>>=-rendu invalide f b h = cc
>>=-rendu integrite f b h = cc

-- What Python's standard library says of characters: the decomposition, the marks, the lower case
-- and the word characters.
pub record Unicode : Type 0 where
  pub nfd : Text → Text
  pub est_marque : ℕ → Bool
  pub lower : Text → Text
  pub est_mot : ℕ → Bool

-- `re.sub(r"[^\w]+", " ", t)`
abbrev pub espacer : (ℕ → Bool) → Bool → Text → Text
espacer mot apres [] = []
espacer mot apres (c ∷ t) =
    let garde = c ∷ espacer mot false t in
    let blanc = 32 ∷ espacer mot true t in
    let suite = espacer mot true t in if mot c then garde else if apres then suite else blanc

-- `" ".join(t.split())`, `apres` being what the word under way has before it.
abbrev pub reduire : Bool → Bool → Text → Text
reduire commence ouvert [] = []
reduire commence ouvert (c ∷ t) =
    let blanc = reduire commence false t in
    let dedans = c ∷ reduire true true t in
    let nouveau = 32 ∷ c ∷ reduire true true t in
    if is_space c then blanc else if commence && not ouvert then nouveau else dedans

unfoldable pub plier : Unicode → Text → Text
plier u t =
    reduire false false
      (espacer u.est_mot false (u.lower (filter (λ c. not (u.est_marque c)) (u.nfd t))))

-- `v.split(",")`
abbrev pub couper : Text → Text → List Text
couper mot [] = mot ∷ []
couper mot (c ∷ t) =
    let fin = mot ∷ couper [] t in
    let suite = couper (mot ++ c ∷ []) t in if c == b',' then fin else suite

pub data Valeurs : Type 0 where
  chaine : Text → Valeurs
  liste : List Text → Valeurs

abbrev pub elements : Valeurs → List Text
elements (chaine t) = map (strip is_space) (couper [] t)
elements (liste l) = l

unfoldable pub liste_de : Valeurs → List Text
liste_de v = take 30 (
    map (λ t. take 200 (strip is_space t))
      (filter (λ t. not (is_empty (strip is_space t))) (elements v)))

abbrev pub question_max : ℕ
question_max = 2000

abbrev pub reponse_max : ℕ
reponse_max = 8000

abbrev pub import_max : ℕ
import_max = 500

abbrev pub bonne_question : Option Text → Bool
bonne_question none = true
bonne_question (some q) =
    leb 3 (length (strip is_space q)) && leb (length (strip is_space q)) question_max

abbrev pub bonne_reponse : Option Text → Bool
bonne_reponse none = true
bonne_reponse (some r) = leb (length r) reponse_max

unfoldable pub verifier_textes : Option Text → Option Text → Issue (Unit {0})
verifier_textes question reponse =
    if not (bonne_question question)
    then invalide
    else if not (bonne_reponse reponse)
    then invalide
    else rendu tt

abbrev pub relue : ℕ → Option String → Relecture → PaireQa → PaireQa
relue now qui relecture q = record q {
  relecture = relecture;
  relu_le = if est_brut relecture then none else some now;
  relu_par_hash = if est_brut relecture then none else qui;
  fiable = if est_valide relecture then q.fiable else false;
}

unfoldable pub appliquer_relecture : ℕ → Option String → Dite → PaireQa → Issue PaireQa
appliquer_relecture now qui inconnue q = invalide
appliquer_relecture now qui (dite r) q = rendu (relue now qui r q)

-- What comes from outside: the fields of a question.
pub record Champs : Type 0 where
  pub question : Text
  pub reponse : Text
  pub must_cite : Valeurs
  pub tags : Valeurs
  pub contextes : List Text
  pub hors_sujet : Bool
  pub persona : Text
  pub commentaire : Text
  pub relecture : Dite

abbrev pub ligne : String → ℕ → String → Champs → Origine → Option Ref → Option ℕ → ℕ → PaireQa
ligne ident now name champs origine source_ref feedback_id rang = record {
  id = ident;
  collection_name = name;
  rang = rang;
  question = strip is_space champs.question;
  reponse = strip is_space champs.reponse;
  origine = origine;
  source_ref = source_ref;
  feedback_id = feedback_id;
  persona_nom = take 120 champs.persona;
  must_cite = liste_de champs.must_cite;
  tags = liste_de champs.tags;
  contextes = champs.contextes;
  hors_sujet = champs.hors_sujet;
  fiable = false;
  commentaire = take 2000 champs.commentaire;
  relecture = brut;
  relu_le = none;
  relu_par_hash = none;
  modifie_le = none;
  modifie_par_hash = none;
  dernier_verdict = none;
  derniere_mesure_id = none;
  derniere_mesure_le = none;
  servie_fois = 0;
  servie_le = none;
  cree_le = now;
}

unfoldable pub nouvelle :
    String
    → ℕ
    → String
    → Champs
    → Option String
    → Origine
    → Option Ref
    → Option ℕ
    → ℕ
    → Issue PaireQa
nouvelle ident now name champs qui origine source_ref feedback_id rang =
    verifier_textes (some (strip is_space champs.question)) (some (strip is_space champs.reponse))
    >>= λ _.
        appliquer_relecture now qui champs.relecture
          (ligne ident now name champs origine source_ref feedback_id rang)
