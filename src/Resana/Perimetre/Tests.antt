-- ===== src/Resana/Perimetre/Tests.antt =====
-- The perimeter of a Résana collection (myrag/app/services/resana_perimetre.py) at concrete inputs.
use mycollections.Base.{
  ◌+◌, ◌≡◌, ◌≢◌, ◌↔◌, refl, true, false, none, some, List, [], ◌∷◌, String, Text, text, In, length,
}
use mycollections.Resana.Perimetre.{
  Dossier, DocumentResana, exclus_effectifs, sous_arbre, dans_le_perimetre, a_la_racine, directs,
  vider, descendre, Cfg, partiel, autre_etat, raisons, selection, interrompue, avis, resana_ancien,
  profondeurs,
}
use mycollections.Resana.Perimetre.Fermeture.{Sous, exclus_effectifs_iff, dans_le_perimetre_iff}
use mycollections.Resana.Perimetre.Arbre.{IsArbre, sous_arbre_total}
use mycollections.Resana.Perimetre.Tri.{ids}
use mycollections.Resana.Perimetre.Inventaire.{somme, inventaire_lem}

perimetre : Unit {0}
unfolding exclus_effectifs sous_arbre dans_le_perimetre a_la_racine directs vider descendre raisons
    avis profondeurs
perimetre = tt

abbrev dossier : String → String → String → Dossier
dossier id titre parent = record { id = id; titre = text titre; parent_id = some parent }

abbrev racine : Dossier
racine = record { id = "r"; titre = text "Racine"; parent_id = none }

-- A loop between two folders, and two branches under the root.
abbrev dossiers : List Dossier
dossiers =
    racine
    ∷ dossier "b" "Notes" "r"
    ∷ dossier "a" "Bilans" "r"
    ∷ dossier "c" "Archives" "a"
    ∷ dossier "x" "Boucle" "y"
    ∷ dossier "y" "Boucle" "x"
    ∷ []

abbrev docs : List DocumentResana
docs =
    record { ref = "1"; dossier_id = none }
    ∷ record { ref = "2"; dossier_id = some "c" }
    ∷ record { ref = "3"; dossier_id = some "b" }
    ∷ []

abbrev identite : Text → Text
identite t = t

exclure : exclus_effectifs ("a" ∷ []) dossiers ≡ some ("c" ∷ "a" ∷ [])
unfolding perimetre
exclure = refl

exclure_boucle : exclus_effectifs ("x" ∷ []) dossiers ≡ some ("y" ∷ "x" ∷ [])
unfolding perimetre
exclure_boucle = refl

abbrev arbre : List Dossier
arbre = dossier "a" "Bilans" "r" ∷ dossier "c" "Archives" "a" ∷ dossier "b" "Notes" "r" ∷ []

descente : sous_arbre identite "r" dossiers ≡ some arbre
unfolding perimetre
descente = refl

profondeur : profondeurs "r" [] arbre ≡ ("b", 0) ∷ ("c", 1) ∷ ("a", 0) ∷ []
unfolding perimetre
profondeur = refl

abbrev cfg : Cfg
cfg = record {
  exclus = "a" ∷ [];
  etat = partiel;
  en_erreur = false;
  documents = 2;
  derniere_lecture = some 0;
}

partielle : raisons cfg ≡ selection ∷ interrompue ∷ []
unfolding perimetre
partielle = refl

ancienne : avis (record cfg { etat = autre_etat }) true 691200000000 7 ≡ some (resana_ancien 8)
unfolding perimetre
ancienne = refl

exclus_effectifs_iff_example :
    (r : List String) × (exclus_effectifs ("a" ∷ []) dossiers ≡ some r)
    × ((x : String) → In x r ↔ Sous ("a" ∷ []) dossiers x)
exclus_effectifs_iff_example = exclus_effectifs_iff ("a" ∷ []) dossiers

abbrev libre : DocumentResana
libre = record { ref = "3"; dossier_id = some "b" }

dans_le_perimetre_iff_example : In libre (dans_le_perimetre docs ("c" ∷ "a" ∷ [])) ↔ (
    In libre docs
    × ((i : String) → libre.dossier_id ≡ some i → i ≢ "" → ¬ Sous ("a" ∷ []) dossiers i))
dans_le_perimetre_iff_example =
    dans_le_perimetre_iff ("a" ∷ []) ("c" ∷ "a" ∷ []) dossiers docs libre exclure

sous_arbre_total_example :
    (r : List Dossier) × (sous_arbre identite "r" dossiers ≡ some r)
    × IsArbre identite "r" dossiers r
sous_arbre_total_example = sous_arbre_total identite "r" dossiers

inventaire_lem_example :
    a_la_racine arbre docs + somme (directs arbre docs) (ids arbre) ≡ length docs
inventaire_lem_example = inventaire_lem identite "r" dossiers arbre docs descente
