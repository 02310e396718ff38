-- ===== src/Chunker/Pieces.antt =====
-- The pieces that chunk_by_length (myrag/app/services/chunker.py) gives.
use mycollections.Base.{
  ℕ, ◌+◌, ◌-◌, ◌≤◌, ◌≡◌, refl, Bool, true, false, some, List, [], ◌∷◌, arith, drop, length,
  length-take, length-strip-le, Text, is_empty, is_space, strip,
}
use mycollections.Sensibilite.{Sensitivity}
use mycollections.Chunker.{Morceau, chunk, tranche, chunk_by_length, morceau}
use mycollections.Chunker.Fenetres.{Fenetre, Couvre}
use mycollections.Chunker.Longueur.{numero, numeroter, chunk_by_length-Couvre}

-- Pieces numbered from a page on, none of them blank or longer than m, all at one level.
abbrev pub Numerotes : ℕ → Sensitivity → ℕ → List Morceau → Type 0
Numerotes m s page [] = Unit
Numerotes m s page (p ∷ l) =
    (p.page ≡ page)
    × (p.filename ≡ chunk page)
    × (p.sensitivity ≡ s)
    × (is_empty p.content ≡ false)
    × (length p.content ≤ m)
    × Numerotes m s (page + 1) l

module _ (t : Text) (s : Sensitivity) (n m o : ℕ) where
  numeroter-Numerotes :
      (r : ℕ) (l : List Fenetre) (page : ℕ)
      → Couvre n m o r l
      → Numerotes m s page (numeroter t s l page)
  unfolding numeroter
  numeroter-Numerotes r [] page c = tt
  numeroter-Numerotes r (f ∷ l) page c =
      either (strip is_space (tranche t f.debut f.fin))
        (is_empty (strip is_space (tranche t f.debut f.fin))) refl
        (omega (
          arith,
          length-strip-le is_space (tranche t f.debut f.fin),
          length-take {0} (f.fin - f.debut) (drop f.debut t),
          c.4,
        ))
        (numeroter-Numerotes f.fin l page c.5) (numeroter-Numerotes f.fin l (page + 1) c.5)
    where
      either :
          (contenu : Text) (b : Bool)
          → is_empty contenu ≡ b
          → length contenu ≤ m
          → Numerotes m s page (numeroter t s l page)
          → Numerotes m s (page + 1) (numeroter t s l (page + 1))
          → Numerotes m s page (
              numero b (morceau contenu page s) (numeroter t s l page) (numeroter t s l (page + 1)))
      either contenu true e le sans avec = sans
      either contenu false e le sans avec = (refl, refl, refl, e, le, avec)

-- The pieces of a text that is not blank are numbered from 1 without a gap; none is blank or longer
-- than max_chars, and each has the level that was asked for.
pub chunk_by_length-Numerotes :
    (t : Text) (max_chars overlap : ℕ) (s : Sensitivity) (l : List Morceau)
    → 1 ≤ max_chars
    → is_empty (strip is_space t) ≡ false
    → chunk_by_length t max_chars overlap s ≡ some l
    → Numerotes max_chars s 1 l
chunk_by_length-Numerotes t m o s l one visible e =
    let (w, p, c) = chunk_by_length-Couvre t m o s one visible in
    let same : l ≡ numeroter t s w 1 = cc in
    rw same (numeroter-Numerotes t s (length t) m o 0 w 1 c)
