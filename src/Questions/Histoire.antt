-- ===== src/Questions/Histoire.antt =====
-- A history of calls of myrag/app/services/questions_store.py, one after the other; a call that fails
-- leaves the tables as they are.
use mycollections.Base.{
  ℕ, suc, ◌≡◌, ◌↔◌, refl, sym, subst, Bool, true, false, ◌&&◌, Option, none, some, List, [], ◌∷◌,
  ◌++◌, map, String, string_eq, text_eq, Text, In, In-filter, In-of_filter, inl, inr, arith,
  contains, find, nat_beq, any, if◌then◌else◌, ◌==◌, Bool-cases, Option-cases, length, ltb,
  is_empty, is_space, strip, is_some,
}
use mycollections.Questions.{
  brut, valide, est_valide, est_brut, dite, Origine, avis, Verdict, PaireQa, Jeu, Issue, rendu,
  introuvable, conflit, invalide, integrite, >>=-rendu, rendu_inj, Unicode, Champs, nouvelle,
  creer_question, Envoi, Bilan, importer_depuis, importer_questions, ajout, Ref, de_feedback,
  ref_prise, ref_de, questions_pliees, plier, import_max, Valeurs,
}
use mycollections.Questions.Entrees.{Entree, normalisee}
use mycollections.Questions.Gestes.{
  QuestionModification, modifiee, modifier_question, ranger, supprimer_question, depuis_avis,
  noter_verdict, marquer_servie, de_collection, reponses_fiables, servable, promu,
}
use mycollections.Questions.Fiables.{
  Saine, Saines, Saine-nouvelle, Saine-modifiee, Saines-append, Saines-ranger, Saines-map,
  Saines-filter,
}

pub data Geste : Type 0 where
  creation : String → String → Champs → Option String → Origine → Option Ref → Geste
  import : Envoi → List (Option Entree) → Geste
  modification : String → String → QuestionModification → Option String → Geste
  suppression : String → String → Geste
  avis_retenu : String → String → ℕ → Text → Option String → Geste
  verdict_de : String → Verdict → String → Geste
  service : String → Geste

-- The tables after a call, by what it gives.
abbrev pub apres : {A : Type 0} → Jeu → Issue (A × Jeu) → Jeu
apres j (rendu r) = r.1
apres j introuvable = j
apres j conflit = j
apres j invalide = j
apres j integrite = j

abbrev pub apres_seul : Jeu → Issue Jeu → Jeu
apres_seul j (rendu k) = k
apres_seul j introuvable = j
apres_seul j conflit = j
apres_seul j invalide = j
apres_seul j integrite = j

unfoldable pub jouer : Unicode → ℕ → Geste → Jeu → Jeu
jouer u now (creation i name c qui o r) j = apres j (creer_question u now i name c qui o r none j)
jouer u now (import e l) j = apres j (importer_questions u e l j)
jouer u now (modification name i c qui) j = apres j (modifier_question now name i c qui j)
jouer u now (suppression name i) j = apres_seul j (supprimer_question name i j)
jouer u now (avis_retenu i name f rep qui) j = apres j (depuis_avis u now i name f rep qui j)
jouer u now (verdict_de i v m) j = noter_verdict now i v m j
jouer u now (service i) j = marquer_servie now i j

-- The calls in their order, each with its time.
unfoldable pub histoire : Unicode → List (ℕ × Geste) → Jeu → Jeu
histoire u [] j = j
histoire u ((now, g) ∷ l) j = histoire u l (jouer u now g j)

-- What a call gives keeps the rows sane, when it does so where it succeeds.
Saines-apres :
    {A : Type 0} (j : Jeu) (r : Issue (A × Jeu))
    → Saines j.questions
    → ((a : A × Jeu) → r ≡ rendu a → Saines (a.1).questions)
    → Saines (apres j r).questions
Saines-apres j (rendu a) s h = h a refl
Saines-apres j introuvable s h = s
Saines-apres j conflit s h = s
Saines-apres j invalide s h = s
Saines-apres j integrite s h = s

Saines-one : (q : PaireQa) → Saine q → Saines (q ∷ [])
Saines-one q s p (inl e) = subst Saine (sym e) s
Saines-one q s p (inr i) = absurd i

Saines-creer_question :
    (u : Unicode) (now : ℕ) (i name : String) (c : Champs) (qui : Option String) (o : Origine)
    (r : Option Ref) (f : Option ℕ) (j : Jeu) (a : PaireQa × Jeu)
    → creer_question u now i name c qui o r f j ≡ rendu a
    → Saines j.questions
    → Saines (a.1).questions
unfolding creer_question
Saines-creer_question u now i name c qui o r f j a h s =
    elim (Bool-cases (contains (questions_pliees u name j.questions) (plier u c.question))) [
      | inl p ↦ cc (rw p at h)
      | inr p ↦
          let (q, h1, h2) =
            >>=-rendu (nouvelle i now name c qui o r f 0)
              (λ q.
                if ref_prise q j.questions
                then conflit
                else rendu (q, record j { questions = j.questions ++ q ∷ [] }))
              a (rw p at h) in
          elim (Bool-cases (ref_prise q j.questions)) [
            | inl t ↦ cc (rw t at h2)
            | inr t ↦
                subst (λ (z : PaireQa × Jeu). Saines (z.1).questions)
                  (rendu_inj (q, record j { questions = j.questions ++ q ∷ [] }) a (rw t at h2))
                  (Saines-append j.questions (q ∷ []) s
                    (Saines-one q (Saine-nouvelle i now name c qui o r f 0 q h1)))
          ]
    ]

Saines-ajout :
    (cle : Text) (vues : List Text) (r : Issue PaireQa) (reste : List Text → Bilan)
    → ((q : PaireQa) → r ≡ rendu q → Saine q)
    → ((v : List Text) → Saines (reste v).ajoutees)
    → Saines (ajout cle vues r reste).ajoutees
Saines-ajout cle vues (rendu q) reste h s =
    λ p i. elim i [ inl e ↦ subst Saine (sym e) (h q refl) | inr k ↦ s (cle ∷ vues) p k ]
Saines-ajout cle vues introuvable reste h s = s vues
Saines-ajout cle vues conflit reste h s = s vues
Saines-ajout cle vues invalide reste h s = s vues
Saines-ajout cle vues integrite reste h s = s vues

Saines-importer_depuis :
    (u : Unicode) (e : Envoi) (rang : ℕ) (vues : List Text) (l : List (Option Champs))
    → Saines (importer_depuis u e rang vues l).ajoutees
unfolding importer_depuis
Saines-importer_depuis u e rang vues [] = λ q i. absurd i
Saines-importer_depuis u e rang vues (none ∷ l) = Saines-importer_depuis u e (suc rang) vues l
Saines-importer_depuis u e rang vues (some c ∷ l) =
    elim (Bool-cases (contains vues (plier u c.question))) [
      | inl p ↦ rw p (Saines-importer_depuis u e (suc rang) vues l)
      | inr p ↦ rw p (
          Saines-ajout (plier u c.question) vues
            (nouvelle (e.ids rang) e.now e.name c e.qui e.origine (ref_de e.prefixe_ref rang) none
              rang)
            (λ v. importer_depuis u e (suc rang) v l)
            (λ q h.
              Saine-nouvelle (e.ids rang) e.now e.name c e.qui e.origine (ref_de e.prefixe_ref rang)
                none rang q h)
            (λ v. Saines-importer_depuis u e (suc rang) v l))
    ]

Saines-importer_questions :
    (u : Unicode) (e : Envoi) (l : List (Option Entree)) (j : Jeu) (a : Bilan × Jeu)
    → importer_questions u e l j ≡ rendu a
    → Saines j.questions
    → Saines (a.1).questions
unfolding importer_questions
Saines-importer_questions u e l j a h s =
    let b = importer_depuis u e 0 (questions_pliees u e.name j.questions) (map normalisee l) in
    elim (Bool-cases (ltb import_max (length l))) [
      | inl p ↦ cc (rw p at h)
      | inr p ↦ elim (Bool-cases (any (λ q. ref_prise q j.questions) b.ajoutees)) [
        | inl t ↦ cc (rw t at (rw p at h))
        | inr t ↦
            subst (λ (z : Bilan × Jeu). Saines (z.1).questions)
              (rendu_inj (b, record j { questions = j.questions ++ b.ajoutees }) a
                (rw t at (rw p at h)))
              (Saines-append j.questions b.ajoutees s (
                Saines-importer_depuis u e 0 (questions_pliees u e.name j.questions)
                  (map normalisee l)))
      ]
    ]

find-In : (p : PaireQa → Bool) (l : List PaireQa) (q : PaireQa) → find p l ≡ some q → In q l
find-In p [] q h = cc
find-In p (x ∷ l) q h = elim (Bool-cases (p x)) [
  | inl t ↦ inl (sym (ground (arith, rw t at h)))
  | inr t ↦ inr (find-In p l q (rw t at h))
]

Saines-modifier_question :
    (now : ℕ) (name i : String) (c : QuestionModification) (qui : Option String) (j : Jeu)
    (a : PaireQa × Jeu)
    → modifier_question now name i c qui j ≡ rendu a
    → Saines j.questions
    → Saines (a.1).questions
unfolding modifier_question
Saines-modifier_question now name i c qui j a h s =
    elim (Option-cases (find (de_collection name i) j.questions)) [
      | inl t ↦ cc (rw (t, modifier_question) at h)
      | inr (q, t) ↦
          let (q', h1, h2) =
            >>=-rendu (modifiee now qui c q)
              (λ z. rendu (z, record j { questions = ranger z j.questions })) a
              (rw (t, modifier_question) at h) in
          subst (λ (z : PaireQa × Jeu). Saines (z.1).questions)
            (rendu_inj (q', record j { questions = ranger q' j.questions }) a h2)
            (Saines-ranger q' j.questions
              (Saine-modifiee now qui c q q' h1
                (s q (find-In (de_collection name i) j.questions q t)))
              s)
    ]

Saines-supprimer_question :
    (name i : String) (j : Jeu)
    → Saines j.questions
    → Saines (apres_seul j (supprimer_question name i j)).questions
unfolding supprimer_question
Saines-supprimer_question name i j s =
    elim (Option-cases (find (de_collection name i) j.questions)) [
      | inl t ↦ rw (t, apres_seul) s
      | inr (q, t) ↦ rw (t, apres_seul) (Saines-filter _ j.questions s)
    ]

Saines-depuis_avis :
    (u : Unicode) (now : ℕ) (n name : String) (f : ℕ) (rep : Text) (qui : Option String) (j : Jeu)
    (a : PaireQa × Jeu)
    → depuis_avis u now n name f rep qui j ≡ rendu a
    → Saines j.questions
    → Saines (a.1).questions
unfolding depuis_avis
Saines-depuis_avis u now n name f rep qui j a h s =
    elim (Option-cases (find (λ x. nat_beq x.id f && x.collection_name == name) j.avis_recus)) [
      | inl t ↦ cc (rw (t, depuis_avis) at h)
      | inr (x, t) ↦
          let c : Champs = record {
            question = x.question;
            reponse = rep;
            must_cite = Valeurs.liste [];
            tags = Valeurs.liste [];
            contextes = [];
            hors_sujet = false;
            persona = [];
            commentaire = [];
            relecture = dite (if is_empty (strip is_space rep) then brut else valide);
          } in
          let k : PaireQa × Jeu → Issue (PaireQa × Jeu) =
            λ r. rendu (r.0, record (r.1) { avis_recus = map (promu now f) (r.1).avis_recus }) in
          let (r, h1, h2) =
            >>=-rendu (creer_question u now n name c qui avis (some (de_feedback f)) (some f) j) k a
              (rw (t, depuis_avis) at h) in
          subst (λ (z : PaireQa × Jeu). Saines (z.1).questions)
            (rendu_inj (r.0, record (r.1) { avis_recus = map (promu now f) (r.1).avis_recus }) a h2)
            (Saines-creer_question u now n name c qui avis (some (de_feedback f)) (some f) j r h1 s)
    ]

Saine-noter :
    (now : ℕ) (i : String) (v : Verdict) (m : String) (j : Jeu)
    → Saines j.questions
    → Saines (noter_verdict now i v m j).questions
unfolding noter_verdict
Saine-noter now i v m j =
    Saines-map _ j.questions
      λ q s. elim (Bool-cases (q.id == i)) [ inl p ↦ rw p s | inr p ↦ rw p s ]

Saine-marquer :
    (now : ℕ) (i : String) (j : Jeu)
    → Saines j.questions
    → Saines (marquer_servie now i j).questions
unfolding marquer_servie
Saine-marquer now i j =
    Saines-map _ j.questions
      λ q s. elim (Bool-cases (q.id == i)) [ inl p ↦ rw p s | inr p ↦ rw p s ]

Saines-jouer :
    (u : Unicode) (now : ℕ) (g : Geste) (j : Jeu)
    → Saines j.questions
    → Saines (jouer u now g j).questions
unfolding jouer
Saines-jouer u now (creation i name c qui o r) j s =
    Saines-apres j _ s λ a h. Saines-creer_question u now i name c qui o r none j a h s
Saines-jouer u now (import e l) j s =
    Saines-apres j _ s λ a h. Saines-importer_questions u e l j a h s
Saines-jouer u now (modification name i c qui) j s =
    Saines-apres j _ s λ a h. Saines-modifier_question now name i c qui j a h s
Saines-jouer u now (suppression name i) j s = Saines-supprimer_question name i j s
Saines-jouer u now (avis_retenu i name f rep qui) j s =
    Saines-apres j _ s λ a h. Saines-depuis_avis u now i name f rep qui j a h s
Saines-jouer u now (verdict_de i v m) j s = Saine-noter now i v m j s
Saines-jouer u now (service i) j s = Saine-marquer now i j s

Saines-histoire :
    (u : Unicode) (l : List (ℕ × Geste)) (j : Jeu)
    → Saines j.questions
    → Saines (histoire u l j).questions
unfolding histoire
Saines-histoire u [] j s = s
Saines-histoire u ((now, g) ∷ l) j s = Saines-histoire u l _ (Saines-jouer u now g j s)

-- After any history of calls from tables whose rows are sane, what may be served as it is from the
-- given collections is exactly what is marked trusted in them: the marks of reading and of subject
-- that the query asks for too never hide a trusted answer.
pub histoire-reponses_fiables :
    (u : Unicode) (l : List (ℕ × Geste)) (j : Jeu) (sources : List String) (q : PaireQa)
    → Saines j.questions
    → In q (reponses_fiables sources (histoire u l j)) ↔ (
        In q (histoire u l j).questions
        × (contains sources q.collection_name ≡ true)
        × (q.fiable ≡ true))
unfolding reponses_fiables
histoire-reponses_fiables u l j sources q s = (
  λ i.
      let (k, h) = In-of_filter q (servable sources) (histoire u l j).questions i in
      (k, ground (arith, h), ground (arith, h)),
  λ (i, c, f).
      let z = (Saines-histoire u l j s q i).0 f in
      In-filter q (servable sources) (histoire u l j).questions i (ground (arith, c, f, z)),
)

-- After any history of calls from tables whose rows are sane, a trusted answer is valid and on the
-- subject, and a row that was read has the date of its reading.
pub histoire-fiable :
    (u : Unicode) (l : List (ℕ × Geste)) (j : Jeu) (q : PaireQa)
    → Saines j.questions
    → In q (histoire u l j).questions
    → (q.fiable ≡ true → (est_valide q.relecture ≡ true) × (q.hors_sujet ≡ false))
      × (est_brut q.relecture ≡ false → is_some q.relu_le ≡ true)
histoire-fiable u l j q s i = Saines-histoire u l j s q i
