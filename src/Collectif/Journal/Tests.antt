-- ===== src/Collectif/Journal/Tests.antt =====
-- The pages of the journal (myrag/app/services/journal.py) at concrete inputs.
use mycollections.Base.{
  ℕ, suc, ◌≡◌, ◌<◌, refl, inl, inr, arith, none, some, List, [], ◌∷◌, String, length, subst, sym,
}
use mycollections.Collectif.Demandes.{
  Evenement, sur_demande, demande_modifiee, personne, sans_detail,
}
use mycollections.Collectif.Journal.{lire, fil}
use mycollections.Collectif.Journal.Pages.{pages, Decroissante, pages-fil}

lecture : Unit {0}
unfolding lire pages
lecture = tt

abbrev note : String → ℕ → Evenement
note i n = record {
  objet = sur_demande i;
  type = demande_modifiee;
  signe = personne "h";
  detail = sans_detail;
  cree_le = n;
}

abbrev journal : List Evenement
journal = note "d" 9 ∷ note "autre" 8 ∷ note "d" 5 ∷ note "d" 2 ∷ []

premiere : lire (sur_demande "d") 2 none journal ≡ (note "d" 9 ∷ note "d" 5 ∷ [], some 5)
unfolding lecture
premiere = refl

suivante : lire (sur_demande "d") 2 (some 5) journal ≡ (note "d" 2 ∷ [], none)
unfolding lecture
suivante = refl

-- Two events of one date on both sides of a page's end: the second is never read.
meme_date : pages 9 (sur_demande "d") 1 none (note "d" 5 ∷ note "d" 5 ∷ []) ≡ some (note "d" 5 ∷ [])
unfolding lecture
meme_date = refl

decroissantes : Decroissante (fil (sur_demande "d") none journal)
decroissantes = (
  λ f i. elim i [
    | inl e ↦ subst (λ (z : Evenement). z.cree_le < 9) (sym e) (omega arith)
    | inr (inl e) ↦ subst (λ (z : Evenement). z.cree_le < 9) (sym e) (omega arith)
    | inr (inr k) ↦ absurd k
  ],
  (
    λ f i. elim i [
      | inl e ↦ subst (λ (z : Evenement). z.cree_le < 5) (sym e) (omega arith)
      | inr k ↦ absurd k
    ],
    (λ f k. absurd k, tt),
  ),
)

pages-fil_example :
    pages (suc (length (fil (sur_demande "d") none journal))) (sur_demande "d") 1 none journal
    ≡ some (fil (sur_demande "d") none journal)
pages-fil_example = pages-fil (sur_demande "d") 1 journal decroissantes
