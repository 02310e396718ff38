-- ===== src/Sensibilite/Tests.antt =====
-- The rule of the ceiling (myrag/app/services/sensibilite.py) at concrete inputs.
use mycollections.Base.{
  ◌≤◌, ◌≡◌, ◌↔◌, refl, true, false, Option, none, some, List, [], ◌∷◌, String, In,
}
use mycollections.Sensibilite.{
  Sensitivity, public, internal, restricted, valider_sensibilite, index, niveau, rang, compatible,
  niveaux_permis, chat, recherche, plafonds_destinations, plafond, admise, refus_destination,
  refus_plancher,
}
use mycollections.Sensibilite.Plafond.{refus_plancher-none_iff, admise_iff}

abbrev reglage : Option (List (String × String))
reglage = some (("chat", "internal") ∷ ("lune", "public") ∷ ("recherche", "inconnu") ∷ [])

program : Unit {0}
unfolding valider_sensibilite niveau rang compatible niveaux_permis plafonds_destinations plafond
    admise refus_destination refus_plancher
program = tt

plafonds : plafonds_destinations reglage ≡ (chat, internal) ∷ []
unfolding program
plafonds = refl

admissions :
    (admise reglage (some "personal") chat ≡ false)
    × (admise reglage (some "lune") chat ≡ true)
    × (admise reglage (some "secret") recherche ≡ true)
    × (rang "confidential" ≡ 5)
unfolding program
admissions = (refl, refl, refl, refl)

permis : niveaux_permis "secret" ≡ restricted ∷ []
unfolding program
permis = refl

refus_plancher-none_iff_example :
    (refus_plancher "public" "personal" "Fichiers" ≡ none) ↔ In public (niveaux_permis "personal")
refus_plancher-none_iff_example = refus_plancher-none_iff "personal" "Fichiers" public

admise_iff_example :
    ((admise reglage (some "personal") chat ≡ true)
      ↔ (refus_destination reglage (some "personal") chat ≡ none))
    × ((admise reglage (some "personal") chat ≡ true) ↔ (
        (p : Sensitivity)
        → plafond reglage chat ≡ some p
        → index (niveau (some "personal") internal) ≤ index p))
admise_iff_example = admise_iff reglage (some "personal") chat
