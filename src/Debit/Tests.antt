-- ===== src/Debit/Tests.antt =====
-- The calls of a minute (myrag/app/services/fenetre_par_minute.py) at concrete inputs.
use mycollections.Base.{ℕ, ◌≡◌, refl, arith, none, List, [], ◌∷◌, String, min}
use mycollections.Debit.{Fenetre, compter}
use mycollections.Debit.Appels.{acceptes, appels}
use mycollections.Debit.Plafond.{acceptes-appels}

debit : Unit {0}
unfolding compter acceptes
debit = tt

abbrev deux : Fenetre
deux = record { plafond = 2; taille_max = 1; comptes = [] }

abbrev suite : List (String × ℕ)
suite = ("a", 61) ∷ ("b", 62) ∷ ("a", 63) ∷ ("c", 64) ∷ ("a", 95) ∷ ("a", 121) ∷ []

trois_fois : appels "a" 1 suite ≡ 3
unfolding debit
trois_fois = refl

deux_passent : acceptes "a" 1 deux suite ≡ 2
unfolding debit
deux_passent = refl

attente : (compter "a" 95 (record { plafond = 0; taille_max = 1; comptes = [] })).0 ≡ none
unfolding debit
attente = refl

acceptes-appels_example : acceptes "a" 1 deux suite ≡ min 2 (appels "a" 1 suite)
acceptes-appels_example =
    acceptes-appels "a" 1 0 deux suite (omega arith) refl
      (omega arith, (omega arith, (omega arith, (omega arith, (omega arith, (omega arith, tt))))))
