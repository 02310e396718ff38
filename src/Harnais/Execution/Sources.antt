-- ===== src/Harnais/Execution/Sources.antt =====
-- What comes out of a step of myrag/app/harnais/execution.py, and of a restricted plan.
use mycollections.Base.{
  ℕ, ◌≡◌, ◌⊎◌, refl, inl, inr, Bool, Option, none, some, List, [], ◌∷◌, String, string_eq, In,
  In-of_filter, Bool-cases, Option-cases, length, is_empty, ltb, ◌&&◌,
}
use mycollections.Harnais.Contrat.{Etape, Plan}
use mycollections.Harnais.Execution.{
  Passage, SortieEtape, Connecteur, Reponse, trouves, tombe, du_bon, sortie, en_erreur, chercher,
  classer, chercher_groupe, en_groupe, membres, trouvee, meilleur, ajouter, amont, une,
}

-- The outcome of a step: its passages bear its source.
abbrev pub De : Etape → SortieEtape → Type 0
De e s = (s.etape ≡ e) × ((p : Passage) → In p s.passages → p.source ≡ e.source)

De-sortie : (e : Etape) (l : List Passage) → De e (sortie e l)
De-sortie e l =
    (refl, λ p i. string_eq.eq_of_same p.source e.source (In-of_filter p (du_bon e) l i).1)

De-reponse :
    (e : Etape) (r : Reponse)
    → De e (elim r [ trouves l ↦ sortie e l | tombe x ↦ en_erreur e (classer x) ])
De-reponse e (trouves l) = De-sortie e l
De-reponse e (tombe x) = (refl, λ p i. absurd i)

De-chercher : (c : Option Connecteur) (e : Etape) (l : List Passage) → De e (chercher c e l)
unfolding chercher
De-chercher none e l = (refl, λ p i. absurd i)
De-chercher (some c) e l = De-reponse e (c.chercher e l)

De-groupe :
    (c : Connecteur) (g : List Etape → Option (ℕ → List Passage)) (m : List Etape) (e : Etape)
    → De e (chercher_groupe c g m e)
De-groupe c g m e = elim (Option-cases (g m)) [
  | inl h ↦ rw (h, chercher_groupe) (De-chercher (some c) e [])
  | inr (f, h) ↦ rw (h, chercher_groupe) (De-sortie e (f e.n))
]

module _ (conns : String → Option Connecteur) (plus : ℕ → ℕ → Bool) (plan : Plan) where
  De-en_groupe :
      (e : Etape)
      → (en_groupe conns plan e ≡ none)
        ⊎ ((s : SortieEtape) × (en_groupe conns plan e ≡ some s) × De e s)
  unfolding chercher
  De-en_groupe e = elim (Option-cases (conns e.source)) [
    | inl h ↦ inl (rw (h, en_groupe) refl)
    | inr (c, h) ↦ elim (Option-cases c.groupe) [
      | inl k ↦ inl (rw (h, en_groupe) (rw k refl))
      | inr (g, k) ↦
          elim (Bool-cases (is_empty e.attend && ltb 1 (length (membres conns plan c e)))) [
            | inl q ↦ inr (
              chercher_groupe c g (membres conns plan c e) e,
              rw (h, en_groupe) (rw k (rw q refl)),
              De-groupe c g (membres conns plan c e) e,
            )
            | inr q ↦ inl (rw (h, en_groupe) (rw k (rw q refl)))
          ]
    ]
  ]

  amont_total :
      (faites : List (ℕ × SortieEtape)) (l : List ℕ)
      → ((a : ℕ) → In a l → (s : SortieEtape) × (trouvee a faites ≡ some s))
      → (r : List Passage) × (amont plus faites l ≡ some r)
  amont_total faites [] h = ([], refl)
  amont_total faites (a ∷ l) h =
      let (s, k) = h a (inl refl) in
      let (r, q) = amont_total faites l (λ b i. h b (inr i)) in
      (ajouter (meilleur plus s.passages) r, rw (k, amont) (rw q refl))

  pub une_total :
      (faites : List (ℕ × SortieEtape)) (e : Etape)
      → ((a : ℕ) → In a e.attend → (s : SortieEtape) × (trouvee a faites ≡ some s))
      → (s : SortieEtape) × (une conns plus plan faites e ≡ some s) × De e s
  unfolding une chercher
  une_total faites e h = elim (De-en_groupe e) [
    | inr (s, k, d) ↦ (s, rw (k, une) refl, d)
    | inl k ↦
        let (r, q) = amont_total faites e.attend h in
        (chercher (conns e.source) e r, rw (k, une) (rw q refl), De-chercher (conns e.source) e r)
  ]
