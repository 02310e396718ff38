-- ===== src/Resana/Ecarts/Explique.antt =====
-- expliquer, and the cells of vers_csv, of myrag/app/services/resana_ecarts.py.
use mycollections.Base.{
  ◌≡◌, refl, sym, ◌∙◌, inl, inr, true, false, Option, some, List, [], ◌∷◌, map, Text, String,
  string_eq, nat_eq, ◌==◌, any, if◌then◌else◌, Bool-cases, In, some_inj, subst,
}
use mycollections.Resana.Ecarts.Table.{Explication, explications}
use mycollections.Resana.Ecarts.{
  chercher, connue, coder, expliquer, formule, cellule, ou_vide, Ecarte, raison_ou, cellules, ligne,
  lignes,
}

any-chercher :
    (code : String) (l : List Explication)
    → any (λ e. e.code == code) l ≡ true
    → (e : Explication) × (chercher code l ≡ some e) × In e l × (e.code ≡ code)
any-chercher code [] h = cc
any-chercher code (e ∷ l) h = elim (Bool-cases (e.code == code)) [
  | inl p ↦ (e, rw p refl, inl refl, string_eq.eq_of_same e.code code p)
  | inr p ↦ let (x, f, i, c) = any-chercher code l (rw p at h) in (x, rw p f, inr i, c)
]

-- expliquer never fails on a missing key: it gives the entry of the code where the table has it, and
-- the entry of `autre` where it has not.
pub expliquer_total :
    (code : String)
    → (e : Explication) × (expliquer code ≡ some e)
      × In e explications
      × (e.code ≡ (if connue code then code else "autre"))
unfolding expliquer explications
expliquer_total code = elim (Bool-cases (connue code)) [
  | inl p ↦ rw p (any-chercher code explications p)
  | inr p ↦ rw p (any-chercher "autre" explications refl)
]

pub ligne_total :
    (lower : Text → Text) (e : Ecarte)
    → (x : Explication) × (expliquer (coder lower e.raison e.code) ≡ some x)
      × (ligne lower e ≡ some (cellules e x))
unfolding ligne
ligne_total lower e =
    let (x, h, i, c) = expliquer_total (coder lower e.raison e.code) in (x, h, rw h refl)

formule-cellule : (v : Option Text) → formule (cellule v) ≡ false
unfolding cellule
formule-cellule v = elim (Bool-cases (formule (ou_vide v))) [ inl p ↦ rw p refl | inr p ↦ rw p p ]

formule-map : (vs : List (Option Text)) (s : Text) → In s (map cellule vs) → formule s ≡ false
formule-map [] s i = absurd i
formule-map (v ∷ vs) s (inl e) = subst (λ z. formule z ≡ false) (sym e) (formule-cellule v)
formule-map (v ∷ vs) s (inr i) = formule-map vs s i

formule-cellules :
    (e : Ecarte) (x : Explication) (s : Text) → In s (cellules e x) → formule s ≡ false
formule-cellules e x s i =
    formule-map
      (e.titre
        ∷ e.chemin
        ∷ e.extension
        ∷ raison_ou e.raison x.libelle
        ∷ some x.explication
        ∷ some x.quoi_faire
        ∷ e.doublon_de_titre
        ∷ e.url
        ∷ [])
      s i

pub lignes-cons :
    (lower : Text → Text) (e : Ecarte) (es : List Ecarte) (r : List Text) (l : List (List Text))
    → ligne lower e ≡ some r
    → lignes lower es ≡ some l
    → lignes lower (e ∷ es) ≡ some (r ∷ l)
lignes-cons lower e es r l h g = rw (h, lignes) (rw g refl)

lignes_total :
    (lower : Text → Text) (es : List Ecarte) → (l : List (List Text)) × (lignes lower es ≡ some l)
lignes_total lower [] = ([], refl)
lignes_total lower (e ∷ es) =
    let (x, c, t) = ligne_total lower e in
    let (l, g) = lignes_total lower es in
    (cellules e x ∷ l, lignes-cons lower e es (cellules e x) l t g)

pub lignes-formule :
    (lower : Text → Text) (es : List Ecarte) (l : List (List Text)) (k : List Text) (s : Text)
    → lignes lower es ≡ some l
    → In k l
    → In s k
    → formule s ≡ false
lignes-formule lower [] l k s h i j = absurd (subst (λ z. In k z) (sym (some_inj _ _ h)) i)
lignes-formule lower (e ∷ es) l k s h i j =
    let (x, c, t) = ligne_total lower e in
    let (l1, g) = lignes_total lower es in
    elim (subst (λ z. In k z) (some_inj _ _ (sym h ∙ lignes-cons lower e es (cellules e x) l1 t g))
      i) [
        | inl p ↦ formule-cellules e x s (subst (λ z. In s z) p j)
        | inr m ↦ lignes-formule lower es l1 k s g m j
      ]
