-- ===== src/Nommage/Tests.antt =====
-- The identifiers of myrag/app/services/nommage.py at concrete inputs.
use mycollections.Base.{
  ◌≡◌, ◌≢◌, ◌⊎◌, ◌≤◌, ◌+◌, ◌&&◌, refl, true, none, some, [], ◌∷◌, ◌++◌, map, text, length, leb,
  if◌then◌else◌,
}
use mycollections.Nommage.{
  Reglages, format, cle_valide, motif_de_refus, est_resana, est_fichiers, deriver_identifiant,
  manuelle, de_resana, resana, reserve, prefixe, longueur, format_refuse,
}
use mycollections.Nommage.Derive.{deriver_identifiant_lem}

nommage : Unit {0}
unfolding format cle_valide motif_de_refus est_resana est_fichiers deriver_identifiant
nommage = tt

abbrev reglages : Reglages
reglages = record {
  partition_prefixe = [];
  myrag_prefixes_bannis = text "demo-, rag-";
  lower = map (λ c. if leb b'A' c && leb c b'Z' then c + 32 else c);
  sans_accents = λ t. t;
}

derive :
    deriver_identifiant reglages (text "2024 - Les Codes NATINF (de Paris)")
    ≡ text "codes-natinf-paris"
unfolding nommage
derive = refl

coupe :
    deriver_identifiant reglages (text "abcdefghij abcdefghij abcdefghij abcdefghij abc")
    ≡ text "abcdefghij-abcdefghij-abcdefghij"
unfolding nommage
coupe = refl

refus :
    (motif_de_refus reglages (text "resana-12") manuelle ≡ some resana)
    × (motif_de_refus reglages (text "resana-12") de_resana ≡ none)
    × (motif_de_refus reglages (text "templates") manuelle ≡ some reserve)
    × (motif_de_refus reglages (text "demo-x") manuelle ≡ some prefixe)
    × (motif_de_refus reglages (text "a--b") manuelle ≡ some format_refuse)
    × (motif_de_refus reglages (text "ab") manuelle ≡ some longueur)
unfolding nommage
refus = (refl, refl, refl, refl, refl, refl)

-- A final newline passes.
saut_de_ligne :
    (motif_de_refus reglages (text "codes" ++ 10 ∷ []) manuelle ≡ none)
    × (cle_valide (text "codes" ++ 10 ∷ []) ≡ true)
unfolding nommage
saut_de_ligne = (refl, refl)

deriver_identifiant_lem_example :
    (length (deriver_identifiant reglages (text "Codes NATINF")) ≤ 40)
    × ((deriver_identifiant reglages (text "Codes NATINF") ≡ [])
        ⊎ (format (deriver_identifiant reglages (text "Codes NATINF")) ≡ true))
    × (motif_de_refus reglages (deriver_identifiant reglages (text "Codes NATINF")) manuelle
        ≢ some format_refuse)
deriver_identifiant_lem_example = deriver_identifiant_lem reglages (text "Codes NATINF") manuelle
