-- ===== src/Collectif/Demandes/Gestes.antt =====
-- The calls of the operations of myrag/app/services/collectif_store.py on requests, one after the
-- other. `lecture` stands for lister_demandes and lire_demande, whose only write is `echeances`.
use mycollections.Base.{ℕ, Bool, Option, List, [], ◌∷◌, String}
use mycollections.Collectif.Etats.{Nom}
use mycollections.Collectif.Demandes.{
  Base, Donnees, Moment, Role, Modif, Fiche, tables, creer_demande, echeances,
  confirmer_satisfaction, modifier_demande, soutenir, retirer_soutien, retirer_garant,
  clore_demande, changer_etat,
}

pub data Geste : Type 0 where
  lecture : Geste
  creation_de : String → Donnees → String → ℕ → Geste
  confirmation : String → String → Bool → Option String → Geste
  modification : String → Modif → String → Geste
  soutien_par : String → String → Role → Option ℕ → Geste
  retrait_soutien retrait_garant : String → String → Geste
  cloture : String → String → Option String → Option String → Geste
  passage_de : String → Nom → String → Bool → String → Geste

-- The tables after a call, refused or not.
unfoldable pub jouer : Moment → Geste → Base → Base
jouer m lecture b = echeances m b
jouer m (creation_de i x s n) b = tables (creer_demande m i x s n b)
jouer m (confirmation i s oui motif) b = tables (confirmer_satisfaction m i s oui motif b)
jouer m (modification i c s) b = tables (modifier_demande m i c s b)
jouer m (soutien_par i s r t) b = tables (soutenir m i s r t b)
jouer m (retrait_soutien i s) b = tables (retirer_soutien m i s b)
jouer m (retrait_garant i s) b = tables (retirer_garant m i s b)
jouer m (cloture i s j motif) b = tables (clore_demande m i s j motif b)
jouer m (passage_de n c s forcer motif) b = tables (changer_etat m n c s forcer motif b)

pub record Appel : Type 0 where
  pub moment : Moment
  pub geste : Geste

-- The calls in the order in which they are made.
unfoldable pub histoire : List Appel → Base → Base
histoire [] b = b
histoire (a ∷ l) b = histoire l (jouer a.moment a.geste b)

-- Collections, and no request yet.
abbrev pub vide : List Fiche → Base
vide c = record {
  demandes = [];
  soutiens = [];
  abonnements = [];
  journal = [];
  collections = c;
  messages = [];
}
