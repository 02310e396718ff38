-- ===== src/Collectif/Journal/Pages.antt =====
-- What a reader who follows the dates of lire (myrag/app/services/journal.py) has read.
use mathlib.Core.List.{append_assoc}
use mycollections.Base.{
  ℕ, zero, suc, ◌≤◌, ◌<◌, ◌≡◌, refl, sym, subst, ap, ◌∙◌, inl, inr, arith, true, false, Option,
  none, some, List, [], ◌∷◌, ◌++◌, filter, take, drop, length, ltb, In, Bool-cases, length-take,
  length-drop, filter-eq_self,
}
use mycollections.Collectif.Demandes.{Evenement, Objet}
use mycollections.Collectif.Journal.{lire, fil, est_avant, dernier, bornee, couper}

abbrev apres_page : List Evenement → Option (List Evenement) → Option (List Evenement)
apres_page page none = none
apres_page page (some suite) = some (page ++ suite)

abbrev suivie : List Evenement × Option ℕ → (ℕ → Option (List Evenement)) → Option (List Evenement)
suivie (page, none) suite = some page
suivie (page, some a) suite = apres_page page (suite a)

-- The pages from a date on, one after the other, as long as there is a date to go on from; `none` is
-- a reader who is not at the end after f pages.
unfoldable pub pages : ℕ → Objet → ℕ → Option ℕ → List Evenement → Option (List Evenement)
pages zero objet limite avant l = none
pages (suc f) objet limite avant l =
    suivie (lire objet limite avant l) (λ a. pages f objet limite (some a) l)

-- The dates decrease: no two events of the list have the same.
abbrev pub Decroissante : List Evenement → Type 0
Decroissante [] = Unit {0}
Decroissante (e ∷ l) = ((f : Evenement) → In f l → f.cree_le < e.cree_le) × Decroissante l

In-middle : (l k : List Evenement) (x : Evenement) → In x (l ++ x ∷ k)
In-middle [] k x = inl refl
In-middle (e ∷ l) k x = inr (In-middle l k x)

ltb_of : (a b : ℕ) → a < b → ltb a b ≡ true
ltb_of a b h = ground arith

ltb-not : (a b : ℕ) → a ≤ b → ltb b a ≡ false
ltb-not a b h = ground arith

-- What is before the date of an event is what follows it.
filter-avant :
    (l k : List Evenement) (x : Evenement)
    → Decroissante (l ++ x ∷ k)
    → filter (est_avant (some x.cree_le)) (l ++ x ∷ k) ≡ k
filter-avant [] k x (h, d) =
    rw (ltb-not x.cree_le x.cree_le (omega arith))
      (filter-eq_self (est_avant (some x.cree_le)) k (λ f i. ltb_of f.cree_le x.cree_le (h f i)))
filter-avant (e ∷ l) k x (h, d) =
    rw (ltb-not x.cree_le e.cree_le (omega (arith, h x (In-middle l k x)))) (filter-avant l k x d)

fil-some :
    (objet : Objet) (a : ℕ) (l : List Evenement)
    → fil objet (some a) l ≡ filter (est_avant (some a)) (fil objet none l)
fil-some objet a [] = refl
fil-some objet a (e ∷ l) = ground (arith, fil-some objet a l)

dernier-some :
    (e : Evenement) (l : List Evenement)
    → (k : List Evenement) × (x : Evenement) × (e ∷ l ≡ k ++ x ∷ [])
      × (dernier (e ∷ l) ≡ some x.cree_le)
dernier-some e [] = ([], e, refl, refl)
dernier-some e (f ∷ l) = let (k, x, h, d) = dernier-some f l in (e ∷ k, x, ap (λ z. e ∷ z) h, d)

take-drop : (n : ℕ) (l : List Evenement) → take n l ++ drop n l ≡ l
take-drop zero l = refl
take-drop (suc n) [] = refl
take-drop (suc n) (e ∷ l) = ap (λ z. e ∷ z) (take-drop n l)

take-take : (n : ℕ) (l : List Evenement) → take n (take (suc n) l) ≡ take n l
take-take zero l = refl
take-take (suc n) [] = refl
take-take (suc n) (e ∷ l) = ap (λ z. e ∷ z) (take-take n l)

take_all : (n : ℕ) (l : List Evenement) → length l ≤ n → take n l ≡ l
take_all zero [] h = refl
take_all zero (e ∷ l) h = absurd (omega (arith, h))
take_all (suc n) [] h = refl
take_all (suc n) (e ∷ l) h = ap (λ z. e ∷ z) (take_all n l (omega (arith, h)))

bornee-pos : (n : ℕ) → 1 ≤ bornee n
bornee-pos n = omega arith

le-of_ltb : (a b : ℕ) → ltb a b ≡ false → b ≤ a
le-of_ltb a b h = ground (arith, h)

lt-of_ltb : (a b : ℕ) → ltb a b ≡ true → a < b
lt-of_ltb a b h = ground (arith, h)

dernier-lem :
    (l : List Evenement)
    → 1 ≤ length l
    → (k : List Evenement) × (x : Evenement) × (l ≡ k ++ x ∷ []) × (dernier l ≡ some x.cree_le)
dernier-lem [] h = absurd (omega (arith, h))
dernier-lem (e ∷ l) h = dernier-some e l

couper-all : (n : ℕ) (l : List Evenement) → length l ≤ n → couper n (take (suc n) l) ≡ (l, none)
couper-all n l h =
    rw (ltb-not (length (take (suc n) l)) n (omega (arith, length-take (suc n) l)))
      (ap (λ z. (z, none)) (take_all (suc n) l (omega (arith, h))))

couper-some :
    (n : ℕ) (l : List Evenement)
    → n < length l
    → couper n (take (suc n) l) ≡ (take n l, dernier (take n l))
couper-some n l h =
    rw (ltb_of n (length (take (suc n) l)) (omega (arith, length-take (suc n) l)))
      (ap (λ z. (z, dernier z)) (take-take n l))

lire_lem :
    (objet : Objet) (limite : ℕ) (avant : Option ℕ) (l reste : List Evenement)
    → fil objet avant l ≡ reste
    → lire objet limite avant l ≡ couper (bornee limite) (take (suc (bornee limite)) reste)
unfolding lire
lire_lem objet limite avant l reste e =
    ap (λ z. couper (bornee limite) (take (suc (bornee limite)) z)) e

-- What follows the last event of a page is the rest of the rows.
fil-suite :
    (objet : Objet) (l debut page suite k : List Evenement) (x : Evenement)
    → fil objet none l ≡ debut ++ (page ++ suite)
    → Decroissante (fil objet none l)
    → page ≡ k ++ x ∷ []
    → fil objet (some x.cree_le) l ≡ suite
fil-suite objet l debut page suite k x a d e =
    let b : fil objet none l ≡ (debut ++ k) ++ x ∷ suite =
      a
      ∙ ap (λ z. debut ++ (z ++ suite)) e
      ∙ ap (λ z. debut ++ z) (append_assoc k (x ∷ []) suite)
      ∙ sym (append_assoc debut k (x ∷ suite)) in
    fil-some objet x.cree_le l
    ∙ ap (filter (est_avant (some x.cree_le))) b
    ∙ filter-avant (debut ++ k) suite x (subst Decroissante b d)

-- What is left to read: the rows of the object that follow the date.
pages-reste :
    (f : ℕ) (objet : Objet) (limite : ℕ) (avant : Option ℕ) (l debut reste : List Evenement)
    → fil objet none l ≡ debut ++ reste
    → Decroissante (fil objet none l)
    → fil objet avant l ≡ reste
    → length reste < f
    → pages f objet limite avant l ≡ some reste
unfolding pages
pages-reste zero objet limite avant l debut reste a d e h = absurd (omega (arith, h))
pages-reste (suc f) objet limite avant l debut reste a d e h =
    let n = bornee limite in
    let suite = λ (z : ℕ). pages f objet limite (some z) l in
    let g = lire_lem objet limite avant l reste e in
    elim (Bool-cases (ltb n (length reste))) [
      | inr p ↦ ap (λ z. suivie z suite) (g ∙ couper-all n reste (le-of_ltb n (length reste) p))
      | inl p ↦
          let (k, x, q, y) =
            dernier-lem (take n reste) (
              omega
                (arith, bornee-pos limite, length-take n reste, lt-of_ltb n (length reste) p)) in
          let b : fil objet none l ≡ debut ++ (take n reste ++ drop n reste) =
            a ∙ ap (λ z. debut ++ z) (sym (take-drop n reste)) in
          ap (λ z. suivie z suite)
            (g ∙ couper-some n reste (lt-of_ltb n (length reste) p) ∙ ap (λ z. (take n reste, z)) y)
          ∙ ap (λ z. apres_page (take n reste) z)
              (pages-reste f objet limite (some x.cree_le) l (debut ++ take n reste) (drop n reste)
                (b ∙ sym (append_assoc debut (take n reste) (drop n reste))) d
                (fil-suite objet l debut (take n reste) (drop n reste) k x b d q)
                (omega
                  (arith, h, bornee-pos limite, length-drop n reste, lt-of_ltb n (length reste) p)))
          ∙ ap (λ z. some z) (take-drop n reste)
    ]

-- A reader who follows the dates from the latest event ends, after at most one page for each event and
-- one more, and has then read each event of the object once, in order, whatever the size of the pages
-- that is asked for, where no two events of the object have one date.
pub pages-fil :
    (objet : Objet) (limite : ℕ) (l : List Evenement)
    → Decroissante (fil objet none l)
    → pages (suc (length (fil objet none l))) objet limite none l ≡ some (fil objet none l)
pages-fil objet limite l d =
    pages-reste (suc (length (fil objet none l))) objet limite none l [] (fil objet none l) refl d
      refl (omega arith)
