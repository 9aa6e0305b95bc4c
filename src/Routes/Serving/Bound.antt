-- ===== src/Routes/Serving/Bound.antt =====
-- How many processes a request starts at most, whatever goes wrong.
use nf_orchestrator.Prelude.{
  ℕ, ◌+◌, ◌≤◌, ◌≡◌, refl, true, false, none, [], ◌∷◌, List, arith, length, Bool-cases, inl, inr,
}
use nf_orchestrator.Text.{Text, text, text_eq}
use nf_orchestrator.Errors.{Result, ok, err, deploy}
use nf_orchestrator.Host.{Host, State}
use nf_orchestrator.Deploy.Apply
use nf_orchestrator.Deploy.Apply.Spends.{Spends-deploy}
use nf_orchestrator.Deploy.Run.Spends.{Spends-check_cluster}
use nf_orchestrator.Reconciler.Reconcile.Spends.{Spends-reconcile, Spends-teardown}
use nf_orchestrator.Routes.{
  counted, get_readyz, create_deployment, repair_deployment, get_deployment, delete_deployment,
  record_deploy, record_repair,
}
use nf_orchestrator.Routes.Serving.{
  Request, readiness, creation, repairing, inspection, removal, serve, serve_all,
}

pub counted-ran :
    {A : Type 0} (tally : Text → State → State) (r : Result A) (s : State)
    → ((result : Text) (t : State) → (tally result t).ran ≡ t.ran)
    → (counted tally r s).ran ≡ s.ran
unfolding counted
counted-ran tally (ok a) s same = same (text "success") s
counted-ran tally (err (deploy e)) s same = same (text "failed") s
counted-ran tally (err _) s same = refl

-- What a request starts at most, by its kind: two processes for readiness, eight for a deployment,
-- 21 for a report and 14 for a teardown.
abbrev pub budget : Request → ℕ
budget readiness = 2
budget (creation _) = 8
budget (repairing _ _) = 8
budget (inspection _) = 21
budget (removal _) = 14

serve-ran :
    (h : Host) (q : Request) (s : State) → length (serve h q s).1.ran ≤ length s.ran + budget q
unfolding serve get_readyz create_deployment repair_deployment get_deployment delete_deployment
    record_deploy record_repair
serve-ran h readiness s = let spent = Spends-check_cluster h in spent.at s
serve-ran h (creation intent) s =
    let spent = Spends-deploy h intent false in
    let (r, t) = Apply.deploy h intent false s in
    rw (counted-ran (λ result. record_deploy result intent.environment) r t (λ result u. refl))
      (spent.at s)
serve-ran h (repairing name intent) s = elim (Bool-cases (text_eq intent.name name)) [
  | inl same ↦
      let spent = Spends-deploy h intent true in
      let (r, t) = Apply.deploy h intent true s in
      rw
        (
          same,
          counted-ran (λ result. record_repair result intent.environment) r t (λ result u. refl),
        )
        (spent.at s)
  | inr other ↦ rw (other) (omega arith)
]
serve-ran h (inspection name) s = let spent = Spends-reconcile h name none in spent.at s
serve-ran h (removal name) s = let spent = Spends-teardown h name in spent.at s

-- What some requests start at most.
abbrev total_budget : List Request → ℕ
total_budget [] = 0
total_budget (q ∷ qs) = budget q + total_budget qs

-- However each call ends, in time or not, the processes that serving some requests starts, the
-- probes that explain a silent call among them, are bounded by the requests alone: two for each
-- readiness request, eight for a deployment or a repair, 21 for a report and 14 for a teardown.
pub serve_all-ran :
    (h : Host) (qs : List Request) (s : State)
    → length (serve_all h qs s).1.ran ≤ length s.ran + total_budget qs
unfolding serve_all
serve_all-ran h [] s = omega arith
serve_all-ran h (q ∷ qs) s = omega (arith, serve-ran h q s, serve_all-ran h qs (serve h q s).1)
