-- ===== src/Chunker/Longueur.antt =====
-- chunk_by_length of myrag/app/services/chunker.py ends, loses no character, and numbers its pieces.
use mycollections.Base.{
  ℕ, zero, suc, ◌+◌, ◌-◌, ◌≤◌, ◌<◌, ◌≡◌, inl, inr, max, Bool, true, false, Option, some, List, [],
  ◌∷◌, arith, length, ltb, leb, ltb→lt, lt→ltb, le→leb, leb→le, if◌then◌else◌, Text, is_empty,
  is_space, strip, Bool-cases,
}
use mycollections.Sensibilite.{Sensitivity}
use mycollections.Chunker.{Morceau, tranche, fin_de, morceau, tour, boucle, chunk_by_length}
use mycollections.Chunker.Fenetres.{Fenetre, Couvre, fin_de_bounds}

gt→leb : (a b : ℕ) → b < a → leb a b ≡ false
gt→leb a b h = ground arith

ge→ltb : (a b : ℕ) → b ≤ a → ltb a b ≡ false
ge→ltb a b h = ground arith

-- The pieces of a list of windows: the blank ones give none, the others are numbered in turn.
abbrev pub numero : Bool → Morceau → List Morceau → List Morceau → List Morceau
numero blank m sans avec = elim blank [ true ↦ sans | false ↦ m ∷ avec ]

unfoldable pub numeroter : Text → Sensitivity → List Fenetre → ℕ → List Morceau
numeroter t s [] page = []
numeroter t s (f ∷ l) page =
    let contenu = strip is_space (tranche t f.debut f.fin) in
    let sans = numeroter t s l page in
    let avec = numeroter t s l (page + 1) in
    numero (is_empty contenu) (morceau contenu page s) sans avec

module _ (t : Text) (max_chars overlap : ℕ) (s : Sensitivity) where
  abbrev suivant : ℕ → ℕ
  suivant pos = max (pos + 1) (fin_de t max_chars pos - overlap)

  -- The loop visits these windows and returns their pieces, whatever the page that it starts from.
  Parcourt : ℕ → ℕ → List Fenetre → Type 0
  Parcourt fuel pos l =
      (page : ℕ) → boucle fuel t max_chars overlap s pos page ≡ some (numeroter t s l page)

  tour-some :
      (contenu : Text) (page : ℕ) (reste : ℕ → Option (List Morceau)) (l : ℕ → List Morceau)
      → ((p : ℕ) → reste p ≡ some (l p))
      → tour contenu page s reste
        ≡ some (numero (is_empty contenu) (morceau contenu page s) (l page) (l (page + 1)))
  tour-some [] page reste l h = h page
  tour-some (c ∷ contenu) page reste l h = rw (h (page + 1))

  module _ (fuel pos : ℕ) (lt : pos < length t) where
    abbrev fenetre : Fenetre
    fenetre = record { debut = pos; fin = fin_de t max_chars pos }

    -- What a round goes on with.
    abbrev reste : ℕ → Option (List Morceau)
    reste p =
        if leb (length t) (fin_de t max_chars pos)
        then some []
        else boucle fuel t max_chars overlap s (suivant pos) p

    fin_du_texte : length t ≤ fin_de t max_chars pos → Parcourt (suc fuel) pos (fenetre ∷ [])
    unfolding boucle Parcourt numeroter
    fin_du_texte le page = rw (lt→ltb pos (length t) lt) (
        tour-some (strip is_space (tranche t pos (fin_de t max_chars pos))) page reste (λ p. [])
          (λ p. rw (le→leb (length t) (fin_de t max_chars pos) le)))

    continue :
        (l : List Fenetre)
        → fin_de t max_chars pos < length t
        → Parcourt fuel (suivant pos) l
        → Parcourt (suc fuel) pos (fenetre ∷ l)
    unfolding boucle Parcourt numeroter
    continue l more h page = rw (lt→ltb pos (length t) lt) (
        tour-some (strip is_space (tranche t pos (fin_de t max_chars pos))) page reste
          (numeroter t s l) (λ p. rw (gt→leb (length t) (fin_de t max_chars pos) more) (h p)))

  hors_du_texte : (fuel pos : ℕ) → length t ≤ pos → Parcourt (suc fuel) pos []
  unfolding boucle Parcourt numeroter
  hors_du_texte fuel pos le page = rw (ge→ltb pos (length t) le)

  -- Enough fuel ends the loop, for every size of the windows.
  parcours :
      (fuel pos : ℕ)
      → pos ≤ length t
      → length t < pos + fuel
      → (l : List Fenetre) × Parcourt fuel pos l
  parcours zero pos le enough = absurd (omega arith)
  parcours (suc fuel) pos le enough = elim (Bool-cases (ltb pos (length t))) [
    | inr out ↦ ([], hors_du_texte fuel pos (ground arith))
    | inl inside ↦
        let lt = ltb→lt pos (length t) inside in
        elim (Bool-cases (leb (length t) (fin_de t max_chars pos))) [
          | inl last ↦ (
            fenetre fuel pos lt ∷ [],
            fin_du_texte fuel pos lt (leb→le (length t) (fin_de t max_chars pos) last),
          )
          | inr more ↦
              let below : fin_de t max_chars pos < length t = ground arith in
              let (l, p) = parcours fuel (suivant pos) (omega arith) (omega arith) in
              (fenetre fuel pos lt ∷ l, continue fuel pos lt l below p)
        ]
  ]

  -- The windows of a run cover the text, in windows of at least one character.
  parcours-Couvre :
      1 ≤ max_chars
      → (fuel pos r : ℕ) → pos < length t
      → length t < pos + fuel
      → pos ≤ r
      → r ≤ pos + overlap
      → (l : List Fenetre) × Parcourt fuel pos l × Couvre (length t) max_chars overlap r l
  parcours-Couvre one zero pos r lt enough le back = absurd (omega arith)
  parcours-Couvre one (suc fuel) pos r lt enough le back =
      let (adv, inside, short) = fin_de_bounds t max_chars pos one lt in
      elim (Bool-cases (leb (length t) (fin_de t max_chars pos))) [
        | inl last ↦
            let ends = leb→le (length t) (fin_de t max_chars pos) last in
            (
              fenetre fuel pos lt ∷ [],
              fin_du_texte fuel pos lt ends,
              (le, back, adv, inside, short, omega arith),
            )
        | inr more ↦
            let below : fin_de t max_chars pos < length t = ground arith in
            let (l, p, c) =
              parcours-Couvre one fuel (suivant pos) (fin_de t max_chars pos) (omega arith)
                (omega arith) (omega arith) (omega arith) in
            (
              fenetre fuel pos lt ∷ l,
              continue fuel pos lt l below p,
              (le, back, adv, inside, short, c),
            )
      ]

strip-length : (t : Text) → is_empty (strip is_space t) ≡ false → 0 < length t
strip-length [] h = cc
strip-length (c ∷ t) h = omega arith

-- The fuel that chunk_by_length gives is enough for every text, size and overlap, 0 included.
pub chunk_by_length_total :
    (t : Text) (max_chars overlap : ℕ) (s : Sensitivity)
    → (l : List Morceau) × (chunk_by_length t max_chars overlap s ≡ some l)
unfolding chunk_by_length Parcourt
chunk_by_length_total t m o s = elim (Bool-cases (is_empty (strip is_space t))) [
  | inl blank ↦ ([], rw blank)
  | inr visible ↦
      let (l, p) = parcours t m o s (length t + 1) 0 (omega arith) (omega arith) in
      (numeroter t s l 1, rw visible (p 1))
]

-- A text that is not blank is cut into windows of 1 to max_chars characters that cover it from its
-- first place to its last, each going back by at most overlap from where the one before ends; the
-- pieces are the stripped windows that are not blank, numbered from 1.
pub chunk_by_length-Couvre :
    (t : Text) (max_chars overlap : ℕ) (s : Sensitivity)
    → 1 ≤ max_chars
    → is_empty (strip is_space t) ≡ false
    → (l : List Fenetre) × (chunk_by_length t max_chars overlap s ≡ some (numeroter t s l 1))
      × Couvre (length t) max_chars overlap 0 l
unfolding chunk_by_length Parcourt
chunk_by_length-Couvre t m o s one visible =
    let (l, p, c) =
      parcours-Couvre t m o s one (length t + 1) 0 0 (strip-length t visible) (omega arith)
        (omega arith) (omega arith) in
    (l, rw visible (p 1), c)
