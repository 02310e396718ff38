-- ===== src/Nommage.antt =====
-- myrag/app/services/nommage.py: the identifier of a collection. `sans_accents` stands for the removal
-- of accents by Python's unicodedata, `lower` for str.lower.
pub mod Forme
pub mod Derive
mod Tests
use mycollections.Base.{
  ℕ, zero, suc, ◌+◌, Bool, true, false, ◌&&◌, ◌||◌, not, Option, none, some, List, [], ◌∷◌, ◌++◌,
  map, Text, text, text_eq, nat_eq, ◌==◌, any, filter, take, drop, length, contains, starts_with,
  split, is_empty, is_space, strip, leb, ltb, if◌then◌else◌, is_some, strip_left,
}

abbrev pub ident_min : ℕ
ident_min = 3

abbrev pub ident_max : ℕ
ident_max = 40

abbrev pub tiret : ℕ
tiret = b'-'

abbrev pub lettre : ℕ → Bool
lettre c = leb 97 c && leb c 122

abbrev pub chiffre : ℕ → Bool
chiffre c = leb 48 c && leb c 57

abbrev pub signe : ℕ → Bool
signe c = lettre c || chiffre c

abbrev pub debute : Text → Bool
debute [] = false
debute (c ∷ t) = signe c

-- What may follow a letter in `^[a-z][a-z0-9]*(-[a-z0-9]+)*$`: `$` stands also before a final newline.
abbrev pub apres : Text → Bool
apres [] = true
apres (c ∷ t) =
    let suite = apres t in
    if signe c then suite else if c == tiret then debute t && suite else c == 10 && is_empty t

unfoldable pub format : Text → Bool
format [] = false
format (c ∷ t) = lettre c && apres t

unfoldable pub cle_valide : Text → Bool
cle_valide t = format t && leb (length t) 64

-- The settings that are read: the prefix of a trial installation, and the banned prefixes.
pub record Reglages : Type 0 where
  pub partition_prefixe : Text
  pub myrag_prefixes_bannis : Text
  pub lower : Text → Text
  pub sans_accents : Text → Text

abbrev pub prefixe_impose : Reglages → Text
prefixe_impose r = r.lower (strip is_space r.partition_prefixe)

abbrev pub prefixes_bannis : Reglages → List Text
prefixes_bannis r =
    map (λ p. r.lower (strip is_space p))
      (filter (λ p. not (is_empty (strip is_space p))) (split b',' r.myrag_prefixes_bannis))

abbrev pub reserves : List Text
reserves =
    text "all"
    ∷ text "default"
    ∷ text "alias"
    ∷ text "check-name"
    ∷ text "regles-nommage"
    ∷ text "templates"
    ∷ []

-- `t.removeprefix(p)`
abbrev pub sans_prefixe : Text → Text → Text
sans_prefixe p t = if starts_with p t then drop (length p) t else t

unfoldable pub est_resana : Reglages → Text → Bool
est_resana r t = starts_with (text "resana-") (sans_prefixe (prefixe_impose r) t)

unfoldable pub est_fichiers : Reglages → Text → Bool
est_fichiers r t = starts_with (text "fichiers-") (sans_prefixe (prefixe_impose r) t)

pub data Motif : Type 0 where
  empty longueur format_refuse reserve prefixe resana fichiers preview : Motif

pub data Source : Type 0 where
  de_resana de_fichiers manuelle : Source

abbrev pub vient_de_resana : Source → Bool
vient_de_resana de_resana = true
vient_de_resana _ = false

abbrev pub vient_de_fichiers : Source → Bool
vient_de_fichiers de_fichiers = true
vient_de_fichiers _ = false

unfoldable pub motif_de_refus : Reglages → Text → Source → Option Motif
motif_de_refus r n source =
    if is_empty n
    then some empty
    else if not (leb ident_min (length n) && leb (length n) ident_max)
    then some longueur
    else if not (format n)
    then some format_refuse
    else if contains reserves n
    then some reserve
    else if any (λ p. starts_with p n) (prefixes_bannis r)
    then some prefixe
    else if not (vient_de_resana source) && est_resana r n
    then some resana
    else if not (vient_de_fichiers source) && est_fichiers r n
    then some fichiers
    else if not (is_empty (prefixe_impose r))
        && not (starts_with (prefixe_impose r) n && ltb (length (prefixe_impose r)) (length n))
    then some preview
    else none

abbrev pub mots_vides : List Text
mots_vides =
    text "le"
    ∷ text "la"
    ∷ text "les"
    ∷ text "l"
    ∷ text "un"
    ∷ text "une"
    ∷ text "des"
    ∷ text "de"
    ∷ text "du"
    ∷ text "d"
    ∷ text "et"
    ∷ text "ou"
    ∷ text "a"
    ∷ text "au"
    ∷ text "aux"
    ∷ text "en"
    ∷ text "sur"
    ∷ text "pour"
    ∷ text "par"
    ∷ text "dans"
    ∷ []

-- The runs of letters and figures, `mot` being what is read of the one under way.
abbrev pub mots_de : Text → Text → List Text
mots_de mot [] = if is_empty mot then [] else mot ∷ []
mots_de mot (c ∷ t) =
    let dedans = mots_de (mot ++ c ∷ []) t in
    let dehors = mots_de [] t in
    if signe c then dedans else if is_empty mot then dehors else mot ∷ dehors

-- `utiles or mots`
abbrev pub ou_mots : List Text → List Text → List Text
ou_mots [] mots = mots
ou_mots (m ∷ l) mots = m ∷ l

abbrev pub utiles : List Text → List Text
utiles mots = ou_mots (filter (λ m. not (contains mots_vides m)) mots) mots

-- `"-".join(mots)`
abbrev pub joindre : List Text → Text
joindre [] = []
joindre (m ∷ []) = m
joindre (m ∷ n ∷ l) = m ++ tiret ∷ joindre (n ∷ l)

-- `re.sub(r"^[0-9-]+", "", t)`
abbrev pub sans_tete : Text → Text
sans_tete t = strip_left (λ c. chiffre c || c == tiret) t

-- `t.rsplit("-", 1)[0]`
abbrev pub avant_dernier : Text → Text
avant_dernier [] = []
avant_dernier (c ∷ t) =
    let reste = avant_dernier t in
    if contains t tiret then c ∷ reste else if c == tiret then [] else c ∷ t

abbrev pub abreger : Text → Text
abreger t =
    if ltb ident_max (length t)
    then (if contains (take 41 t) tiret then avant_dernier (take 41 t) else take ident_max t)
    else t

unfoldable pub deriver_identifiant : Reglages → Text → Text
deriver_identifiant r titre =
    strip (λ c. c == tiret)
      (abreger (sans_tete (joindre (utiles (mots_de [] (r.lower (r.sans_accents titre)))))))
