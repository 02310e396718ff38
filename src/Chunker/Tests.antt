-- ===== src/Chunker/Tests.antt =====
-- chunk_by_length of myrag/app/services/chunker.py at concrete inputs.
use mycollections.Base.{◌≡◌, refl, arith, some, List, [], ◌∷◌, length, Text, text}
use mycollections.Sensibilite.{internal}
use mycollections.Chunker.{Morceau, chunk, chunk_by_length}
use mycollections.Chunker.Fenetres.{Fenetre, Couvre}
use mycollections.Chunker.Longueur.{numeroter, chunk_by_length_total, chunk_by_length-Couvre}
use mycollections.Chunker.Pieces.{Numerotes, chunk_by_length-Numerotes}

abbrev notice : Text
notice = text "Un. Deux et trois. Fin"

abbrev morceaux : List Morceau
morceaux =
    record { content = text "Un. Deux"; filename = chunk 1; page = 1; sensitivity = internal }
    ∷ record { content = text "ux et tr"; filename = chunk 2; page = 2; sensitivity = internal }
    ∷ record { content = text "trois."; filename = chunk 3; page = 3; sensitivity = internal }
    ∷ record { content = text "s. Fin"; filename = chunk 4; page = 4; sensitivity = internal }
    ∷ []

decoupe : chunk_by_length notice 8 2 internal ≡ some morceaux
unfolding chunk_by_length
decoupe = refl

-- With windows of no character every round goes on by one place, and nothing is kept.
decoupe_nulle : chunk_by_length notice 0 2 internal ≡ some []
unfolding chunk_by_length
decoupe_nulle = refl

chunk_by_length_total_example : (l : List Morceau) × (chunk_by_length notice 0 2 internal ≡ some l)
chunk_by_length_total_example = chunk_by_length_total notice 0 2 internal

chunk_by_length-Couvre_example :
    (l : List Fenetre) × (chunk_by_length notice 8 2 internal
      ≡ some (numeroter notice internal l 1))
    × Couvre (length notice) 8 2 0 l
chunk_by_length-Couvre_example = chunk_by_length-Couvre notice 8 2 internal (omega arith) refl

chunk_by_length-Numerotes_example : Numerotes 8 internal 1 morceaux
chunk_by_length-Numerotes_example =
    chunk_by_length-Numerotes notice 8 2 internal morceaux (omega arith) refl decoupe
