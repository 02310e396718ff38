-- ===== src/Resana/Ecarts/Relecture.antt =====
-- What the CSV of myrag/app/services/resana_ecarts.py gives to the reader of Resana/Ecarts/Lecteur.
use mycollections.Base.{
  ℕ, ◌≡◌, refl, sym, subst, ap, ◌∙◌, inl, inr, Bool, true, false, not, some, List, [], ◌∷◌, ◌++◌,
  Text, any, all, is_empty, nat_eq, ◌==◌, Bool-cases, arith, In, some_inj,
}
use mycollections.Resana.Ecarts.{
  special, doubler, champ_csv, ligne_csv, lignes_csv, Ecarte, colonnes_csv, lignes, vers_csv,
  cellules, formule,
}
use mycollections.Resana.Ecarts.Explique.{ligne_total, lignes-cons, lignes-formule}
use mycollections.Resana.Ecarts.Lecteur.{
  Place, debut, nu, cite, guillemet, retour, Lecteur, lecteur, pas, lire_depuis, lues, lire_csv,
}

append-snoc {ℓ} : {A : Type ℓ} (a s : List A) (c : A) → (a ++ c ∷ []) ++ s ≡ a ++ c ∷ s
append-snoc [] s c = refl
append-snoc (x ∷ a) s c = ap (λ z. x ∷ z) (append-snoc a s c)

append_nil {ℓ} : {A : Type ℓ} (a : List A) → a ++ [] ≡ a
append_nil [] = refl
append_nil (x ∷ a) = ap (λ z. x ∷ z) (append_nil a)

lire_depuis-append :
    (e : Lecteur) (s t : Text) → lire_depuis e (s ++ t) ≡ lire_depuis (lire_depuis e s) t
lire_depuis-append e [] t = refl
lire_depuis-append e (c ∷ s) t = lire_depuis-append (pas e c) s t

abbrev ferme : Place → Bool
ferme cite = false
ferme retour = false
ferme _ = true

pas-debut :
    (c : ℕ) (a : Text) (l : List Text) (r : List (List Text))
    → special c ≡ false
    → pas (lecteur debut a l r) c ≡ lecteur nu (a ++ c ∷ []) l r
pas-debut c a l r h = ground (arith, h)

pas-nu :
    (c : ℕ) (a : Text) (l : List Text) (r : List (List Text))
    → special c ≡ false
    → pas (lecteur nu a l r) c ≡ lecteur nu (a ++ c ∷ []) l r
pas-nu c a l r h = ground (arith, h)

nu_lu :
    (s a : Text) (l : List Text) (r : List (List Text))
    → any special s ≡ false
    → lire_depuis (lecteur nu a l r) s ≡ lecteur nu (a ++ s) l r
nu_lu [] a l r h = ap (λ z. lecteur nu z l r) (sym (append_nil a))
nu_lu (c ∷ s) a l r h = elim (Bool-cases (special c)) [
  | inl p ↦ cc (rw p at h)
  | inr p ↦
      ap (λ z. lire_depuis z s) (pas-nu c a l r p)
      ∙ nu_lu s (a ++ c ∷ []) l r (rw p at h)
      ∙ ap (λ z. lecteur nu z l r) (append-snoc a s c)
]

pas-cite :
    (c : ℕ) (a : Text) (l : List Text) (r : List (List Text))
    → (c == b'"') ≡ false
    → pas (lecteur cite a l r) c ≡ lecteur cite (a ++ c ∷ []) l r
pas-cite c a l r h = rw h refl

cite_lu :
    (s a : Text) (l : List Text) (r : List (List Text))
    → lire_depuis (lecteur cite a l r) (doubler s) ≡ lecteur cite (a ++ s) l r
cite_lu [] a l r = ap (λ z. lecteur cite z l r) (sym (append_nil a))
cite_lu (c ∷ s) a l r = elim (Bool-cases (c == b'"')) [
  | inl p ↦
      subst
        (λ z. lire_depuis (lecteur cite a l r) (doubler (z ∷ s)) ≡ lecteur cite (a ++ z ∷ s) l r)
        (sym (nat_eq.eq_of_same c b'"' p))
        (cite_lu s (a ++ b'"' ∷ []) l r ∙ ap (λ z. lecteur cite z l r) (append-snoc a s b'"'))
  | inr p ↦ rw p (
      ap (λ z. lire_depuis z (doubler s)) (pas-cite c a l r p)
      ∙ cite_lu s (a ++ c ∷ []) l r
      ∙ ap (λ z. lecteur cite z l r) (append-snoc a s c))
]

-- A field leaves the reader where a field can end.
champ_lu :
    (s : Text) (l : List Text) (r : List (List Text))
    → (p : Place) × (ferme p ≡ true)
      × (lire_depuis (lecteur debut [] l r) (champ_csv s) ≡ lecteur p s l r)
unfolding champ_csv
champ_lu [] l r = (debut, refl, refl)
champ_lu (c ∷ s) l r = elim (Bool-cases (any special (c ∷ s))) [
  | inl p ↦ (
    guillemet,
    refl,
    rw p (
        lire_depuis-append (lecteur cite [] l r) (doubler (c ∷ s)) (b'"' ∷ [])
        ∙ ap (λ z. lire_depuis z (b'"' ∷ [])) (cite_lu (c ∷ s) [] l r)),
  )
  | inr p ↦ (
    nu,
    refl,
    elim (Bool-cases (special c)) [
      | inl q ↦ cc (rw q at p)
      | inr q ↦
          rw p (ap (λ z. lire_depuis z s) (pas-debut c [] l r q) ∙ nu_lu s (c ∷ []) l r (rw q at p))
    ],
  )
]

pas-separateur :
    (p : Place) (s : Text) (l : List Text) (r : List (List Text))
    → ferme p ≡ true
    → pas (lecteur p s l r) b';' ≡ lecteur debut [] (l ++ s ∷ []) r
pas-separateur debut s l r h = refl
pas-separateur nu s l r h = refl
pas-separateur guillemet s l r h = refl
pas-separateur cite s l r h = cc
pas-separateur retour s l r h = cc

fin_lue :
    (p : Place) (s : Text) (l : List Text) (r : List (List Text))
    → ferme p ≡ true
    → lire_depuis (lecteur p s l r) (13 ∷ 10 ∷ []) ≡ lecteur debut [] [] (r ++ (l ++ s ∷ []) ∷ [])
fin_lue debut s l r h = refl
fin_lue nu s l r h = refl
fin_lue guillemet s l r h = refl
fin_lue cite s l r h = cc
fin_lue retour s l r h = cc

ligne_lue :
    (s : Text) (k l : List Text) (r : List (List Text))
    → lire_depuis (lecteur debut [] l r) (ligne_csv (s ∷ k))
      ≡ lecteur debut [] [] (r ++ (l ++ s ∷ k) ∷ [])
unfolding ligne_csv
ligne_lue s [] l r =
    let (p, f, e) = champ_lu s l r in
    lire_depuis-append (lecteur debut [] l r) (champ_csv s) (13 ∷ 10 ∷ [])
    ∙ ap (λ z. lire_depuis z (13 ∷ 10 ∷ [])) e
    ∙ fin_lue p s l r f
ligne_lue s (t ∷ k) l r =
    let (p, f, e) = champ_lu s l r in
    lire_depuis-append (lecteur debut [] l r) (champ_csv s) (b';' ∷ ligne_csv (t ∷ k))
    ∙ ap (λ z. lire_depuis z (b';' ∷ ligne_csv (t ∷ k))) e
    ∙ ap (λ z. lire_depuis z (ligne_csv (t ∷ k))) (pas-separateur p s l r f)
    ∙ ligne_lue t k (l ++ s ∷ []) r
    ∙ ap (λ z. lecteur debut [] [] (r ++ z ∷ [])) (append-snoc l (t ∷ k) s)

abbrev suite : List (List Text) → List (List Text)
suite [] = []
suite (k ∷ l) = l

abbrev pleines : List (List Text) → Bool
pleines l = all (λ k. not (is_empty k)) l

lignes_lues :
    (rows r : List (List Text))
    → pleines rows ≡ true
    → lire_depuis (lecteur debut [] [] r) (lignes_csv rows) ≡ lecteur debut [] [] (r ++ rows)
unfolding lignes_csv
lignes_lues [] r h = ap (λ z. lecteur debut [] [] z) (sym (append_nil r))
lignes_lues ([] ∷ rows) r h = cc
lignes_lues ((s ∷ k) ∷ rows) r h =
    lire_depuis-append (lecteur debut [] [] r) (ligne_csv (s ∷ k)) (lignes_csv rows)
    ∙ ap (λ z. lire_depuis z (lignes_csv rows)) (ligne_lue s k [] r)
    ∙ lignes_lues rows (r ++ (s ∷ k) ∷ []) h
    ∙ ap (λ z. lecteur debut [] [] z) (append-snoc r rows (s ∷ k))

toutes-pleines :
    (lower : Text → Text) (es : List Ecarte)
    → (l : List (List Text)) × (lignes lower es ≡ some l) × (pleines l ≡ true)
toutes-pleines lower [] = ([], refl, refl)
toutes-pleines lower (e ∷ es) =
    let (k, h, t) = ligne_total lower e in
    let (l, g, p) = toutes-pleines lower es in
    (cellules e k ∷ l, lignes-cons lower e es (cellules e k) l t g, p)

-- vers_csv always gives a text, and a reader of CSV finds in it the columns, then the cells of each
-- document in their order, whatever quotes, separators and ends of line they hold.
pub vers_csv-lire_csv :
    (lower : Text → Text) (es : List Ecarte)
    → (t : Text) × (l : List (List Text)) × (vers_csv lower es ≡ some t)
      × (lignes lower es ≡ some l)
      × (lire_csv t ≡ some (colonnes_csv ∷ l))
unfolding vers_csv colonnes_csv
vers_csv-lire_csv lower es =
    let (l, h, p) = toutes-pleines lower es in
    (
      65279 ∷ lignes_csv (colonnes_csv ∷ l),
      l,
      rw h refl,
      h,
      ap lues (lignes_lues (colonnes_csv ∷ l) [] p),
    )

-- In the CSV of vers_csv, no cell under the columns that a reader finds begins with a sign that makes
-- a spreadsheet run it.
pub vers_csv-formule :
    (lower : Text → Text) (es : List Ecarte) (t : Text) (c : List Text) (l : List (List Text))
    (k : List Text) (s : Text)
    → vers_csv lower es ≡ some t
    → lire_csv t ≡ some (c ∷ l)
    → In k l
    → In s k
    → formule s ≡ false
vers_csv-formule lower es t c l k s h g i j =
    let (t1, l1, h1, m, g1) = vers_csv-lire_csv lower es in
    let e =
      some_inj (colonnes_csv ∷ l1) (c ∷ l)
        (sym g1 ∙ ap lire_csv (some_inj t1 t (sym h1 ∙ h)) ∙ g) in
    lignes-formule lower es l1 k s m (subst (λ z. In k z) (sym (ap suite e)) i) j
