-- ===== src/Debit.antt =====
-- myrag/app/services/fenetre_par_minute.py, class Fenetre, and the same count of
-- myrag/app/routers/recherche.py: how many calls a person may make in a minute. The counts are an
-- association list with one entry for each key; the time is the whole seconds of the clock.
pub mod Comptes
pub mod Appels
pub mod Plafond
mod Tests
use mycollections.Base.{
  ℕ, zero, suc, ◌+◌, ◌-◌, ◌*◌, ◌/◌, ◌%◌, Bool, true, false, not, Option, none, some, List, [], ◌∷◌,
  String, string_eq, nat_eq, ◌==◌, filter, length, ltb, nat_beq, if◌then◌else◌,
}

pub record Compte : Type 0 where
  pub cle : String
  pub minute : ℕ
  pub compte : ℕ

pub record Fenetre : Type 0 where
  pub plafond : ℕ
  pub taille_max : ℕ
  pub comptes : List Compte

abbrev pub minute_de : ℕ → ℕ
minute_de t = t / 60

-- `get(cle, (minute, 0))`, then one more in the same minute, or the first of a new one.
abbrev pub compte_de : String → ℕ → List Compte → ℕ
compte_de cle minute [] = 0
compte_de cle minute (c ∷ l) =
    let reste = compte_de cle minute l in
    if c.cle == cle then (if nat_beq c.minute minute then c.compte else 0) else reste

-- Where there are many keys, those of other minutes go.
abbrev pub evincer : ℕ → ℕ → List Compte → List Compte
evincer taille_max minute l =
    if ltb taille_max (length l) then filter (λ c. nat_beq c.minute minute) l else l

abbrev pub poser : Compte → List Compte → List Compte
poser c [] = c ∷ []
poser c (d ∷ l) = let reste = poser c l in if d.cle == c.cle then c ∷ l else d ∷ reste

-- Nothing where the call passes, else the seconds to wait. No ceiling, no limit.
unfoldable pub compter : String → ℕ → Fenetre → Option ℕ × Fenetre
compter cle t f =
    if nat_beq f.plafond 0
    then (none, f)
    else let minute = minute_de t in
      let n = suc (compte_de cle minute f.comptes) in
      (
        if ltb f.plafond n then some (60 - t % 60) else none,
        record f {
          comptes =
              poser (record { cle = cle; minute = minute; compte = n })
                (evincer f.taille_max minute f.comptes);
        },
      )
