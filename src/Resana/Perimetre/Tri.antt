-- ===== src/Resana/Perimetre/Tri.antt =====
-- The sort of the folders by their titles (myrag/app/services/resana_perimetre.py), and their ids.
use mycollections.Base.{
  suc, ◌≡◌, ◌⊎◌, refl, ap, ◌∙◌, inl, inr, List, [], ◌∷◌, ◌++◌, map, String, string_eq, In, length,
  Bool-cases, Text,
}
use mycollections.Resana.Perimetre.{Dossier, text_leb, inserer, trier}

abbrev pub ids : List Dossier → List String
ids l = map (λ d. d.id) l

pub ids-snoc : (l : List Dossier) (d : Dossier) → ids (l ++ d ∷ []) ≡ ids l ++ d.id ∷ []
ids-snoc [] d = refl
ids-snoc (x ∷ l) d = ap (λ (t : List String). x.id ∷ t) (ids-snoc l d)

module _ (lower : Text → Text) where
  pub length-inserer :
      (d : Dossier) (l : List Dossier) → length (inserer lower d l) ≡ suc (length l)
  length-inserer d [] = refl
  length-inserer d (e ∷ l) = elim (Bool-cases (text_leb (lower d.titre) (lower e.titre))) [
    | inl p ↦ rw p refl
    | inr p ↦ rw p (ap suc (length-inserer d l))
  ]

  pub length-trier : (l : List Dossier) → length (trier lower l) ≡ length l
  length-trier [] = refl
  length-trier (d ∷ l) = length-inserer d (trier lower l) ∙ ap suc (length-trier l)

  pub In-inserer : (x d : Dossier) (l : List Dossier) → (x ≡ d) ⊎ In x l → In x (inserer lower d l)
  In-inserer x d [] i = i
  In-inserer x d (e ∷ l) i = elim (Bool-cases (text_leb (lower d.titre) (lower e.titre))) [
    | inl p ↦ rw p i
    | inr p ↦ rw p (elim i [
      | inl q ↦ inr (In-inserer x d l (inl q))
      | inr (inl q) ↦ inl q
      | inr (inr j) ↦ inr (In-inserer x d l (inr j))
    ])
  ]

  pub In-of_inserer :
      (x d : Dossier) (l : List Dossier) → In x (inserer lower d l) → (x ≡ d) ⊎ In x l
  In-of_inserer x d [] i = i
  In-of_inserer x d (e ∷ l) i = elim (Bool-cases (text_leb (lower d.titre) (lower e.titre))) [
    | inl p ↦ rw p at i
    | inr p ↦ elim (rw p at i) [
      | inl q ↦ inr (inl q)
      | inr j ↦ elim (In-of_inserer x d l j) [ inl q ↦ inl q | inr k ↦ inr (inr k) ]
    ]
  ]

  pub In-trier : (x : Dossier) (l : List Dossier) → In x l → In x (trier lower l)
  In-trier x [] i = i
  In-trier x (d ∷ l) (inl e) = In-inserer x d (trier lower l) (inl e)
  In-trier x (d ∷ l) (inr i) = In-inserer x d (trier lower l) (inr (In-trier x l i))

  pub In-of_trier : (x : Dossier) (l : List Dossier) → In x (trier lower l) → In x l
  In-of_trier x [] i = i
  In-of_trier x (d ∷ l) i = elim (In-of_inserer x d (trier lower l) i) [
    | inl e ↦ inl e
    | inr j ↦ inr (In-of_trier x l j)
  ]
