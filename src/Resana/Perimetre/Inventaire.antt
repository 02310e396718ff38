-- ===== src/Resana/Perimetre/Inventaire.antt =====
-- The counts of inventaire (myrag/app/services/resana_perimetre.py).
use mycollections.Base.{
  Distincts, ℕ, ◌+◌, ◌≡◌, refl, sym, subst, ◌∙◌, inl, inr, arith, Bool, true, false, not, some,
  List, [], ◌∷◌, String, string_eq, In, contains, contains→In, length, is_some, Bool-cases,
  Option-cases, some_inj, ◌==◌, Text,
}
use mycollections.Resana.Perimetre.{
  Dossier, DocumentResana, cle, range_dans, a_la_racine, directs, sous_arbre,
}
use mycollections.Resana.Perimetre.Tri.{ids}
use mycollections.Resana.Perimetre.Arbre.{sous_arbre_total}

abbrev pub somme : (String → ℕ) → List String → ℕ
somme f [] = 0
somme f (i ∷ l) = f i + somme f l

abbrev un : Bool → ℕ
un true = 1
un false = 0

somme_add :
    (f g h : String → ℕ) (l : List String)
    → ((i : String) → f i ≡ g i + h i)
    → somme f l ≡ somme g l + somme h l
somme_add f g h [] e = omega arith
somme_add f g h (i ∷ l) e = omega (arith, e i, somme_add f g h l e)

somme_absent : (k : String) (l : List String) → ¬ In k l → somme (λ i. un (k == i)) l ≡ 0
somme_absent k [] n = refl
somme_absent k (i ∷ l) n = elim (Bool-cases (k == i)) [
  | inl p ↦ absurd (n (inl (string_eq.eq_of_same k i p)))
  | inr p ↦ rw p (omega (arith, somme_absent k l (λ j. n (inr j))))
]

somme_one : (k : String) (l : List String) → Distincts l → In k l → somme (λ i. un (k == i)) l ≡ 1
somme_one k [] u i = absurd i
somme_one k (j ∷ l) (n, u) i = elim (Bool-cases (k == j)) [
  | inl p ↦ rw p (
      omega (arith, somme_absent k l (λ m. n (subst (λ z. In z l) (string_eq.eq_of_same k j p) m))))
  | inr p ↦ elim i [
    | inl e ↦ ground (arith, p, subst (λ z. (k == z) ≡ true) e (string_eq.same_refl k))
    | inr m ↦ rw p (omega (arith, somme_one k l u m))
  ]
]

somme_zero : (l : List String) → somme (λ i. 0) l ≡ 0
somme_zero [] = refl
somme_zero (i ∷ l) = omega (arith, somme_zero l)

cle-In :
    (arbre : List Dossier) (d : DocumentResana) (k : String)
    → cle arbre d ≡ some k
    → In k (ids arbre)
cle-In arbre d k h = elim (Option-cases d.dossier_id) [
  | inl p ↦ cc (rw (p, cle) at h)
  | inr (i, p) ↦ elim (Bool-cases (contains (ids arbre) i)) [
    | inl c ↦
        subst (λ z. In z (ids arbre)) (some_inj i k (rw c at (rw (p, cle) at h)))
          (contains→In (ids arbre) i c)
    | inr c ↦ cc (rw c at (rw (p, cle) at h))
  ]
]

directs-cons :
    (arbre : List Dossier) (d : DocumentResana) (docs : List DocumentResana) (i : String)
    → directs arbre (d ∷ docs) i ≡ un (range_dans arbre i d) + directs arbre docs i
unfolding directs
directs-cons arbre d docs i = elim (Bool-cases (range_dans arbre i d)) [
  | inl p ↦ rw p (omega arith)
  | inr p ↦ rw p (omega arith)
]

a_la_racine-cons :
    (arbre : List Dossier) (d : DocumentResana) (docs : List DocumentResana)
    → a_la_racine arbre (d ∷ docs) ≡ un (not (is_some (cle arbre d))) + a_la_racine arbre docs
unfolding a_la_racine
a_la_racine-cons arbre d docs = elim (Bool-cases (not (is_some (cle arbre d)))) [
  | inl p ↦ rw p (omega arith)
  | inr p ↦ rw p (omega arith)
]

-- A document counts once: at the root, or in its folder.
compte-one :
    (arbre : List Dossier) (d : DocumentResana)
    → Distincts (ids arbre)
    → un (not (is_some (cle arbre d))) + somme (λ i. un (range_dans arbre i d)) (ids arbre) ≡ 1
compte-one arbre d u = elim (Option-cases (cle arbre d)) [
  | inl h ↦ rw (h, range_dans) (omega (arith, somme_zero (ids arbre)))
  | inr (k, h) ↦ rw (h, range_dans) (omega (arith, somme_one k (ids arbre) u (cle-In arbre d k h)))
]

somme-nil : (arbre : List Dossier) (l : List String) → somme (directs arbre []) l ≡ 0
unfolding directs
somme-nil arbre [] = refl
somme-nil arbre (i ∷ l) = omega (arith, somme-nil arbre l)

a_la_racine-nil : (arbre : List Dossier) → a_la_racine arbre [] ≡ 0
unfolding a_la_racine
a_la_racine-nil arbre = refl

inventaire-somme :
    (arbre : List Dossier) (docs : List DocumentResana)
    → Distincts (ids arbre)
    → a_la_racine arbre docs + somme (directs arbre docs) (ids arbre) ≡ length docs
inventaire-somme arbre [] u = omega (arith, somme-nil arbre (ids arbre), a_la_racine-nil arbre)
inventaire-somme arbre (d ∷ docs) u = omega (
  arith,
  a_la_racine-cons arbre d docs,
  compte-one arbre d u,
  inventaire-somme arbre docs u,
  somme_add (directs arbre (d ∷ docs)) (λ i. un (range_dans arbre i d)) (directs arbre docs)
      (ids arbre) (directs-cons arbre d docs),
)

-- The inventory of the folders under a root counts each document once: at the root, or in one folder
-- of the tree.
pub inventaire_lem :
    (lower : Text → Text) (racine : String) (dossiers arbre : List Dossier)
    (docs : List DocumentResana)
    → sous_arbre lower racine dossiers ≡ some arbre
    → a_la_racine arbre docs + somme (directs arbre docs) (ids arbre) ≡ length docs
inventaire_lem lower racine dossiers arbre docs h =
    let (r, e, w) = sous_arbre_total lower racine dossiers in
    inventaire-somme arbre docs
      (subst (λ (z : List Dossier). Distincts (ids z)) (some_inj r arbre (sym e ∙ h)) w.once)
