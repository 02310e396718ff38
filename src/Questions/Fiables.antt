-- ===== src/Questions/Fiables.antt =====
-- The rule of myrag/app/services/questions_store.py on trusted answers, over the calls on its rows.
use mycollections.Base.{
  ℕ, ◌≡◌, refl, sym, subst, Bool, true, false, ◌||◌, not, Option, none, some, List, ◌++◌, map,
  String, string_eq, In, In-of_map, In-of_filter, In-append_cases, inl, inr, arith, is_some, filter,
  strip, is_space, if◌then◌else◌, ◌==◌, Bool-cases,
}
use mycollections.Questions.{
  Relecture, brut, valide, rejete, est_valide, est_brut, Dite, dite, inconnue, Origine, PaireQa,
  rendu, ◌>>=◌, >>=-rendu, rendu_inj, Champs, nouvelle, relue, appliquer_relecture, verifier_textes,
  ligne, Ref,
}
use mycollections.Questions.Gestes.{
  QuestionModification, modifiee, ranger, retouchee, completee, placee, relire_si, fier_si, change,
}

-- A trusted answer is valid and on the subject, and a reading has its date.
abbrev pub Saine : PaireQa → Type 0
Saine q =
    (q.fiable ≡ true → (est_valide q.relecture ≡ true) × (q.hors_sujet ≡ false))
    × (est_brut q.relecture ≡ false → is_some q.relu_le ≡ true)

Saine-relue :
    (now : ℕ) (qui : Option String) (r : Relecture) (q : PaireQa)
    → Saine q
    → Saine (relue now qui r q)
Saine-relue now qui brut q s = (λ h. cc, λ h. cc)
Saine-relue now qui valide q s = (λ h. (refl, (s.0 h).1), λ h. refl)
Saine-relue now qui rejete q s = (λ h. cc, λ h. refl)

Saine-appliquer_relecture :
    (now : ℕ) (qui : Option String) (d : Dite) (q q' : PaireQa)
    → appliquer_relecture now qui d q ≡ rendu q'
    → Saine q
    → Saine q'
unfolding appliquer_relecture
Saine-appliquer_relecture now qui (dite r) q q' h s =
    subst Saine (rendu_inj _ q' h) (Saine-relue now qui r q s)
Saine-appliquer_relecture now qui inconnue q q' h s = cc

pub Saine-nouvelle :
    (i : String) (now : ℕ) (name : String) (c : Champs) (qui : Option String) (o : Origine)
    (r : Option Ref) (f : Option ℕ) (rang : ℕ) (q : PaireQa)
    → nouvelle i now name c qui o r f rang ≡ rendu q
    → Saine q
unfolding nouvelle
Saine-nouvelle i now name c qui o r f rang q h =
    let base = ligne i now name c o r f rang in
    let (u, a, b) =
      >>=-rendu
        (verifier_textes (some (strip is_space c.question)) (some (strip is_space c.reponse)))
        (λ z. appliquer_relecture now qui c.relecture base) q h in
    Saine-appliquer_relecture now qui c.relecture base q b (λ z. cc, λ z. cc)

Saine-retouchee :
    (now : ℕ) (qui : Option String) (c : QuestionModification) (q : PaireQa)
    → Saine q
    → Saine (completee c (retouchee now qui c q))
Saine-retouchee now qui c q s =
    elim (Bool-cases (change c.question q.question || change c.reponse q.reponse)) [
      | inl h ↦ rw h s
      | inr h ↦ rw h s
    ]

Saine-placee : (h : Option Bool) (q : PaireQa) → Saine q → Saine (placee h q)
Saine-placee none q s = s
Saine-placee (some true) q s = (λ h. cc, s.1)
Saine-placee (some false) q s = (λ h. ((s.0 h).0, refl), s.1)

Saine-fier_si : (f : Option Bool) (q q' : PaireQa) → fier_si f q ≡ rendu q' → Saine q → Saine q'
Saine-fier_si none q q' h s = subst Saine (rendu_inj q q' h) s
Saine-fier_si (some true) q q' h s =
    elim (Bool-cases (not (est_valide q.relecture) || q.hors_sujet)) [
      | inl p ↦ cc (rw p at h)
      | inr p ↦ subst Saine (rendu_inj _ q' (rw p at h)) (λ z. ground (arith, p), s.1)
    ]
Saine-fier_si (some false) q q' h s = subst Saine (rendu_inj _ q' h) (λ z. cc, s.1)

Saine-relire_si :
    (now : ℕ) (qui : Option String) (d : Option Dite) (q q' : PaireQa)
    → relire_si now qui d q ≡ rendu q'
    → Saine q
    → Saine q'
Saine-relire_si now qui none q q' h s = subst Saine (rendu_inj q q' h) s
Saine-relire_si now qui (some d) q q' h s = Saine-appliquer_relecture now qui d q q' h s

pub Saine-modifiee :
    (now : ℕ) (qui : Option String) (c : QuestionModification) (q q' : PaireQa)
    → modifiee now qui c q ≡ rendu q'
    → Saine q
    → Saine q'
unfolding modifiee
Saine-modifiee now qui c q q' h s =
    let base = placee c.hors_sujet (completee c (retouchee now qui c q)) in
    let m = verifier_textes c.question c.reponse in
    let (u, h1, h2) =
      >>=-rendu m (λ z. relire_si now qui c.relecture base >>= fier_si c.fiable) q' h in
    let (q1, h3, h4) = >>=-rendu (relire_si now qui c.relecture base) (fier_si c.fiable) q' h2 in
    Saine-fier_si c.fiable q1 q' h4 (
      Saine-relire_si now qui c.relecture base q1 h3 (
        Saine-placee c.hors_sujet (completee c (retouchee now qui c q))
          (Saine-retouchee now qui c q s)))

-- Each row of a table is sane.
abbrev pub Saines : List PaireQa → Type 0
Saines l = (q : PaireQa) → In q l → Saine q

pub Saines-append : (l k : List PaireQa) → Saines l → Saines k → Saines (l ++ k)
Saines-append l k s t q i = elim (In-append_cases q l k i) [ inl j ↦ s q j | inr j ↦ t q j ]

pub Saines-ranger : (q : PaireQa) (l : List PaireQa) → Saine q → Saines l → Saines (ranger q l)
Saines-ranger q l h s p i =
    let (a, j, e) = In-of_map (λ (x : PaireQa). if x.id == q.id then q else x) p l i in
    elim (Bool-cases (a.id == q.id)) [
      | inl t ↦ subst Saine (sym (rw t at e)) h
      | inr t ↦ subst Saine (sym (rw t at e)) (s a j)
    ]

pub Saines-map :
    (f : PaireQa → PaireQa) (l : List PaireQa)
    → ((q : PaireQa) → Saine q → Saine (f q))
    → Saines l
    → Saines (map f l)
Saines-map f l h s p i = let (a, j, e) = In-of_map f p l i in subst Saine (sym e) (h a (s a j))

pub Saines-filter : (p : PaireQa → Bool) (l : List PaireQa) → Saines l → Saines (filter p l)
Saines-filter p l s q i = s q (In-of_filter q p l i).0
