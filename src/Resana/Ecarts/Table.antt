-- ===== src/Resana/Ecarts/Table.antt =====
-- The two tables of myrag/app/services/resana_ecarts.py, in their order.
use mycollections.Base.{List, [], ◌∷◌, String, Text, text}

-- A code with its label, its explanation and what to do.
pub record Explication : Type 0 where
  pub code : String
  pub libelle : Text
  pub explication : Text
  pub quoi_faire : Text

unfoldable pub explications : List Explication
explications =
    record {
      code = "hors_droits";
      libelle = text "Résana vous refuse ce document";
      explication =
          text
            "Mes collections lit Résana avec vos droits : ce document ne vous est pas ouvert dans Résana.";
      quoi_faire =
          text
            "Demandez l'accès à l'administrateur de l'espace, puis « Mettre à jour » : le document sera repris.";
    }
    ∷ record {
      code = "introuvable";
      libelle = text "Introuvable dans Résana";
      explication =
          text
            "Le document figurait dans la liste du dossier, mais Résana ne le sert plus (déplacé ou supprimé entre-temps).";
      quoi_faire = text "Rien à faire : « Mettre à jour » relira la liste.";
    }
    ∷ record {
      code = "trop_volumineux";
      libelle = text "Trop volumineux";
      explication = text "Le document dépasse la taille que Résana ou l'indexation admettent.";
      quoi_faire =
          text "Déposez dans Résana une version plus légère (sans images lourdes, ou découpée).";
    }
    ∷ record {
      code = "fichier_vide";
      libelle = text "Reçu vide de Résana";
      explication =
          text
            "Résana a renvoyé le fichier sans son contenu, même après plusieurs essais : un raté du téléchargement (Résana surchargé), pas un défaut du document.";
      quoi_faire =
          text
            "« Mettre à jour » le redemandera. Si l'écart persiste, ouvrez-le dans Résana : s'il s'ouvre, signalez-le.";
    }
    ∷ record {
      code = "en_cours_d_envoi";
      libelle = text "Pas encore reçu par Fichiers";
      explication =
          text "L'envoi de ce document dans Fichiers n'était pas terminé au moment de la lecture.";
      quoi_faire = text "Rien à faire : « Mettre à jour » le reprendra une fois l'envoi fini.";
    }
    ∷ record {
      code = "en_cours_d_analyse";
      libelle = text "En cours d'analyse antivirus";
      explication =
          text
            "Fichiers analyse chaque document reçu avant de le servir ; l'analyse de celui-ci n'était pas finie.";
      quoi_faire =
          text
            "Rien à faire : « Mettre à jour » le reprendra. S'il était déjà indexé, sa version précédente reste en place.";
    }
    ∷ record {
      code = "fichier_suspect";
      libelle = text "Signalé suspect par l'antivirus";
      explication =
          text
            "L'antivirus de Fichiers a signalé ce document : Fichiers le cache aux autres membres, et Mes collections ne l'indexe pas.";
      quoi_faire =
          text
            "Vérifiez le document avec la personne qui l'a déposé, puis remplacez-le par une version saine.";
    }
    ∷ record {
      code = "format";
      libelle = text "Format non pris en charge";
      explication =
          text
            "Le moteur de recherche lit PDF, Word (.doc, .docx), PowerPoint (.pptx), courriel (.eml), images (.png, .jpg) et texte (.txt, .md, .csv). Les tableurs et documents LibreOffice ne sont lus qu'une fois convertis en PDF, quand le service de conversion est en place. Les autres formats (archives .zip, messages .msg, exécutables…) sont écartés.";
      quoi_faire =
          text
            "Déposez dans Résana une version en PDF, Word ou texte. Pour un tableur, « Mettre à jour » le reprendra dès que la conversion sera en place.";
    }
    ∷ record {
      code = "conversion";
      libelle = text "Conversion en PDF impossible";
      explication =
          text
            "Le fichier bureautique n'a pas pu être converti pour l'indexation (fichier abîmé ou protégé).";
      quoi_faire =
          text "Rouvrez-le, enregistrez-le de nouveau (ou exportez-le en PDF) dans Résana.";
    }
    ∷ record {
      code = "illisible";
      libelle = text "Texte illisible";
      explication =
          text "Le fichier n'a pas de texte exploitable : encodage inconnu ou contenu binaire.";
      quoi_faire =
          text "Déposez dans Résana une version électronique lisible (pas une image du texte).";
    }
    ∷ record {
      code = "vide";
      libelle = text "Document vide";
      explication = text "Le fichier ne contient aucun texte.";
      quoi_faire = text "Vérifiez le fichier dans Résana ; s'il est vide, retirez-le du dossier.";
    }
    ∷ record {
      code = "doublon";
      libelle = text "Même contenu qu'un autre document";
      explication =
          text
            "Son contenu est identique à un document déjà indexé : une seule copie suffit aux réponses.";
      quoi_faire =
          text
            "Rien à faire. Si les deux doivent être cités séparément, gardez une version qui diffère.";
    }
    ∷ record {
      code = "autre";
      libelle = text "Écarté";
      explication = text "Le service Résana a refusé ce document pour une raison inattendue.";
      quoi_faire = text "Réessayez avec « Mettre à jour » ; si l'écart persiste, signalez-le.";
    }
    ∷ []

unfoldable pub par_texte : List (Text × String)
par_texte =
    (text "Résana vous refuse", "hors_droits")
    ∷ (text "introuvable", "introuvable")
    ∷ (text "trop volumineux", "trop_volumineux")
    ∷ (text "dépasse la taille", "trop_volumineux")
    ∷ (text "renvoyé ce fichier vide", "fichier_vide")
    ∷ (text "format non pris en charge", "format")
    ∷ (text "conversion en PDF impossible", "conversion")
    ∷ (text "texte illisible", "illisible")
    ∷ (text "document vide", "vide")
    ∷ (text "même contenu", "doublon")
    ∷ []
