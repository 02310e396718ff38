-- ===== src/Harnais/Execution/Lisibles.antt =====
-- myrag/app/harnais/execution.py run on a plan that perimetre.py has restricted.
use mycollections.Base.{ℕ, ◌≡◌, subst, sym, Bool, Option, some, List, String, In}
use mycollections.Harnais.Contrat.{Etape, Plan, IsPlan}
use mycollections.Harnais.Perimetre.{restreindre_plan}
use mycollections.Harnais.Perimetre.Restriction.{restreindre_plan-IsPlan, restreindre_plan-lisibles}
use mycollections.Harnais.Execution.{Passage, SortieEtape, Connecteur, trouvee, executer}
use mycollections.Harnais.Execution.Boucle.{executer_lem}

-- Whatever the connectors answer, running the restriction of a plan that passes its checks gives an
-- outcome to every step of the restricted plan, and no passage of any outcome bears a source outside the readable ones.
pub executer-lisibles :
    (conns : String → Option Connecteur) (plus : ℕ → ℕ → Bool) (plan : Plan)
    (lisibles : List String)
    → IsPlan plan
    → (r : List (ℕ × SortieEtape)) × (executer conns plus (restreindre_plan plan lisibles) ≡ some r)
      × ((e : Etape)
          → In e (restreindre_plan plan lisibles).etapes
          → (s : SortieEtape) × (trouvee e.n r ≡ some s))
      × ((n : ℕ) (s : SortieEtape) (p : Passage)
          → In (n, s) r
          → In p s.passages
          → In p.source lisibles)
executer-lisibles conns plus plan lisibles v =
    let (r, q, venues, faite) =
      executer_lem conns plus (restreindre_plan plan lisibles)
        (restreindre_plan-IsPlan plan lisibles v) in
    (
      r,
      q,
      faite,
      λ n s p i j.
          let (e, k, _, d) = venues n s i in
          subst (λ z. In z lisibles) (sym (d.1 p j))
            ((restreindre_plan-lisibles plan lisibles).0 e k),
    )
