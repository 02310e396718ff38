-- ===== src/Resana/Ecarts/Tests.antt =====
-- The CSV of the documents left out (myrag/app/services/resana_ecarts.py) at concrete inputs.
use mycollections.Base.{
  ◌≡◌, refl, sym, inl, false, if◌then◌else◌, none, some, List, [], ◌∷◌, ◌++◌, Text, text, In,
}
use mycollections.Resana.Ecarts.Table.{Explication, explications, par_texte}
use mycollections.Resana.Ecarts.{
  Ecarte, coder, expliquer, code_erreur_resana, cellule, cellules, colonnes_csv, champ_csv,
  ligne_csv, lignes_csv, ligne, lignes, vers_csv, formule, connue,
}
use mycollections.Resana.Ecarts.Lecteur.{lire_csv}
use mycollections.Resana.Ecarts.Explique.{expliquer_total}
use mycollections.Resana.Ecarts.Relecture.{vers_csv-lire_csv, vers_csv-formule}

ecarts : Unit {0}
unfolding explications par_texte coder expliquer code_erreur_resana cellule colonnes_csv champ_csv
    ligne_csv lignes_csv ligne vers_csv
ecarts = tt

abbrev identite : Text → Text
identite t = t

deduit : coder identite (some (text "le format non pris en charge : zip")) none ≡ "format"
unfolding ecarts
deduit = refl

note_inconnue : coder identite (some (text "introuvable")) (some "perdu") ≡ "introuvable"
unfolding ecarts
note_inconnue = refl

vide_de_fichiers : code_erreur_resana "document_vide" ≡ "vide"
unfolding ecarts
vide_de_fichiers = refl

neutre : cellule (some (text "=1+1")) ≡ text "'=1+1"
unfolding ecarts
neutre = refl

cite : champ_csv (text "un;deux") ≡ b'"' ∷ text "un;deux" ++ b'"' ∷ []
unfolding ecarts
cite = refl

abbrev ecarte : Ecarte
ecarte = record {
  titre = some (text "=cmd;x");
  chemin = none;
  extension = some (text "zip");
  raison = some [];
  code = some "vide";
  doublon_de_titre = none;
  url = none;
}

expliquer_total_example :
    (e : Explication) × (expliquer "format" ≡ some e)
    × In e explications
    × (e.code ≡ (if connue "format" then "format" else "autre"))
expliquer_total_example = expliquer_total "format"

abbrev vide : Explication
vide = record {
  code = "vide";
  libelle = text "Document vide";
  explication = text "Le fichier ne contient aucun texte.";
  quoi_faire = text "Vérifiez le fichier dans Résana ; s'il est vide, retirez-le du dossier.";
}

abbrev rangee : List (List Text)
rangee = cellules ecarte vide ∷ []

abbrev feuille : Text
feuille = 65279 ∷ lignes_csv (colonnes_csv ∷ rangee)

ecrite : vers_csv identite (ecarte ∷ []) ≡ some feuille
unfolding ecarts
ecrite = refl

relue : lire_csv feuille ≡ some (colonnes_csv ∷ rangee)
unfolding ecarts
relue = refl

titre_neutre : cellule ecarte.titre ≡ text "'=cmd;x"
unfolding ecarts
titre_neutre = refl

vers_csv-formule_example : formule (text "'=cmd;x") ≡ false
vers_csv-formule_example =
    vers_csv-formule identite (ecarte ∷ []) feuille colonnes_csv rangee (cellules ecarte vide)
      (text "'=cmd;x") ecrite relue (inl refl) (inl (sym titre_neutre))

vers_csv-lire_csv_example :
    (t : Text) × (l : List (List Text)) × (vers_csv identite (ecarte ∷ []) ≡ some t)
    × (lignes identite (ecarte ∷ []) ≡ some l)
    × (lire_csv t ≡ some (colonnes_csv ∷ l))
vers_csv-lire_csv_example = vers_csv-lire_csv identite (ecarte ∷ [])
