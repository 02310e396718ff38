-- ===== src/Questions/Import.antt =====
-- importer_questions of myrag/app/services/questions_store.py: its counts, and what it adds.
use mycollections.Base.{
  ℕ, suc, ◌+◌, ◌≡◌, refl, sym, subst, ap, ◌∙◌, false, Option, none, some, List, [], ◌∷◌, ◌++◌,
  String, text_eq, Text, arith, contains, Bool-cases, length, ltb, is_space, strip, any, map,
  length-map, inl, inr,
}
use mycollections.Questions.{
  Dite, dite, inconnue, Origine, PaireQa, Jeu, Issue, rendu, introuvable, conflit, invalide,
  integrite, >>=-rendu, rendu_inj, Unicode, Champs, nouvelle, ligne, verifier_textes,
  appliquer_relecture, relue, Envoi, Bilan, importer_depuis, importer_questions, ajout, Ref, ref_de,
  ref_prise, questions_pliees, plier, import_max,
}
use mycollections.Questions.Entrees.{Entree, normalisee}

-- Rows whose folded questions are new, one after the other.
abbrev pub Neuves : Unicode → List Text → List PaireQa → Type 0
Neuves u vues [] = Unit {0}
Neuves u vues (q ∷ l) =
    (contains vues (plier u q.question) ≡ false) × Neuves u (plier u q.question ∷ vues) l

-- Entries whose questions have no white space at their ends.
abbrev pub Nettes : List (Option Champs) → Type 0
Nettes [] = Unit {0}
Nettes (none ∷ l) = Nettes l
Nettes (some c ∷ l) = (strip is_space c.question ≡ c.question) × Nettes l

question-appliquer_relecture :
    (now : ℕ) (qui : Option String) (d : Dite) (q q' : PaireQa)
    → appliquer_relecture now qui d q ≡ rendu q'
    → q'.question ≡ q.question
unfolding appliquer_relecture
question-appliquer_relecture now qui (dite r) q q' h =
    ap (λ (z : PaireQa). z.question) (sym (rendu_inj (relue now qui r q) q' h))
question-appliquer_relecture now qui inconnue q q' h = cc

question-nouvelle :
    (i : String) (now : ℕ) (name : String) (c : Champs) (qui : Option String) (o : Origine)
    (r : Option Ref) (f : Option ℕ) (rang : ℕ) (q : PaireQa)
    → nouvelle i now name c qui o r f rang ≡ rendu q
    → q.question ≡ strip is_space c.question
unfolding nouvelle
question-nouvelle i now name c qui o r f rang q h =
    let base = ligne i now name c o r f rang in
    let (u, a, b) =
      >>=-rendu
        (verifier_textes (some (strip is_space c.question)) (some (strip is_space c.reponse)))
        (λ z. appliquer_relecture now qui c.relecture base) q h in
    question-appliquer_relecture now qui c.relecture base q b

-- What an import from a state of `vues` on should give.
record Juste (u : Unicode) (vues : List Text) (n : ℕ) (b : Bilan) : Type 0 where
  total : b.crees + b.doublons + b.ignores ≡ n
  lignes : length b.ajoutees ≡ b.crees
  neuves : Neuves u vues b.ajoutees

Juste-ajout :
    (u : Unicode) (c : Champs) (vues : List Text) (n : ℕ) (r : Issue PaireQa)
    (reste : List Text → Bilan)
    → contains vues (plier u c.question) ≡ false
    → ((q : PaireQa) → r ≡ rendu q → q.question ≡ c.question)
    → ((v : List Text) → Juste u v n (reste v))
    → Juste u vues (suc n) (ajout (plier u c.question) vues r reste)
Juste-ajout u c vues n (rendu q) reste p h k =
    let j = k (plier u c.question ∷ vues) in
    let e = h q refl in
    record {
      total = omega (arith, j.total);
      lignes = omega (arith, j.lignes);
      neuves = (rw e p, rw e j.neuves);
    }
Juste-ajout u c vues n introuvable reste p h k =
    let j = k vues in
    record { total = omega (arith, j.total); lignes = j.lignes; neuves = j.neuves }
Juste-ajout u c vues n conflit reste p h k =
    let j = k vues in
    record { total = omega (arith, j.total); lignes = j.lignes; neuves = j.neuves }
Juste-ajout u c vues n invalide reste p h k =
    let j = k vues in
    record { total = omega (arith, j.total); lignes = j.lignes; neuves = j.neuves }
Juste-ajout u c vues n integrite reste p h k =
    let j = k vues in
    record { total = omega (arith, j.total); lignes = j.lignes; neuves = j.neuves }

Juste-importer_depuis :
    (u : Unicode) (e : Envoi) (rang : ℕ) (vues : List Text) (l : List (Option Champs))
    → Nettes l
    → Juste u vues (length l) (importer_depuis u e rang vues l)
unfolding importer_depuis
Juste-importer_depuis u e rang vues [] h = record {
  total = omega arith;
  lignes = refl;
  neuves = tt;
}
Juste-importer_depuis u e rang vues (none ∷ l) h =
    let j = Juste-importer_depuis u e (suc rang) vues l h in
    record { total = omega (arith, j.total); lignes = j.lignes; neuves = j.neuves }
Juste-importer_depuis u e rang vues (some c ∷ l) (n, h) =
    elim (Bool-cases (contains vues (plier u c.question))) [
      | inl p ↦
          let j = Juste-importer_depuis u e (suc rang) vues l h in
          rw p (record { total = omega (arith, j.total); lignes = j.lignes; neuves = j.neuves })
      | inr p ↦ rw p (
          Juste-ajout u c vues (length l)
            (nouvelle (e.ids rang) e.now e.name c e.qui e.origine (ref_de e.prefixe_ref rang) none
              rang)
            (λ v. importer_depuis u e (suc rang) v l) p
            (λ q t.
              question-nouvelle (e.ids rang) e.now e.name c e.qui e.origine
                (ref_de e.prefixe_ref rang) none rang q t
              ∙ n)
            (λ v. Juste-importer_depuis u e (suc rang) v l h))
    ]

-- An import that succeeds counts each item once, as created, double or ignored, adds a row at the end
-- for each created one, and no question whose folded text is that of a row of the collection that is
-- not rejected or of a row that the import itself added before; where no question of an item ends in
-- white space once it is cut at its longest length.
pub importer_questions-Bilan :
    (u : Unicode) (e : Envoi) (items : List (Option Entree)) (j k : Jeu) (b : Bilan)
    → Nettes (map normalisee items)
    → importer_questions u e items j ≡ rendu (b, k)
    → (b.crees + b.doublons + b.ignores ≡ length items)
      × (length b.ajoutees ≡ b.crees)
      × (k.questions ≡ j.questions ++ b.ajoutees)
      × Neuves u (questions_pliees u e.name j.questions) b.ajoutees
unfolding importer_questions
importer_questions-Bilan u e items j k b n h =
    let vues = questions_pliees u e.name j.questions in
    let d = importer_depuis u e 0 vues (map normalisee items) in
    elim (Bool-cases (ltb import_max (length items))) [
      | inl p ↦ cc (rw p at h)
      | inr p ↦ elim (Bool-cases (any (λ q. ref_prise q j.questions) d.ajoutees)) [
        | inl t ↦ cc (rw t at (rw p at h))
        | inr t ↦
            let z =
              rendu_inj (d, record j { questions = j.questions ++ d.ajoutees }) (b, k)
                (rw t at (rw p at h)) in
            let f = ap (λ (x : Bilan × Jeu). x.0) z in
            let g = ap (λ (x : Bilan × Jeu). (x.1).questions) z in
            let w =
              subst (λ (x : Bilan). Juste u vues (length items) x) f
                (subst (λ z. Juste u vues z d) (length-map normalisee items)
                  (Juste-importer_depuis u e 0 vues (map normalisee items) n)) in
            (w.total, w.lignes, sym g ∙ ap (λ (x : Bilan). j.questions ++ x.ajoutees) f, w.neuves)
      ]
    ]
