-- ===== src/Reconciler/Reconcile/Tearing.antt =====
-- What a teardown does and what it reports.
use nf_orchestrator.Prelude.{true, ◌≡◌, ◌∙◌, ◌⊎◌, inl, inr, true, false, Option, none, some, arith}
use nf_orchestrator.Text.{Text}
use nf_orchestrator.Json.{Json}
use nf_orchestrator.Errors.{DeployError, cluster_unreachable, is_instance, deploy, ok, err}
use nf_orchestrator.Host.{Host, State, pure}
use nf_orchestrator.Host.Laws.{>>=-eq-ok}
use nf_orchestrator.Deploy.Run.{run_helm}
use nf_orchestrator.Reconciler.State.{not_instantiated}
use nf_orchestrator.Reconciler.History.{status_command, helm_release_status}
use nf_orchestrator.Reconciler.Reconcile.{Teardown, teardown_status, teardown, uninstall_command}

module _ (h : Host) (name : Text) (s : State) (e : DeployError) where
  -- When helm cannot reach the cluster for the status, a teardown raises that very error, in the
  -- state that the status call left: nothing is uninstalled.
  teardown-unreachable :
      (run_helm h (status_command h name) s).0 ≡ err (deploy e)
      → e.kind ≡ cluster_unreachable
      → teardown h name s ≡ (err (deploy e), (run_helm h (status_command h name) s).1)
  unfolding teardown helm_release_status is_instance
  teardown-unreachable failed k = ground arith

teardown_status_lem :
    (h : Host) (name : Text) (s u t : State) (r : Teardown) (status : Option Json)
    → helm_release_status h name s ≡ (ok status, u)
    → teardown_status h name status u ≡ (ok r, t)
    → ((r.uninstalled ≡ false) × (helm_release_status h name s ≡ (ok none, t)))
      ⊎ ((r.uninstalled ≡ true)
          × ((status : Json) × (u : State) × (output : Text) × (helm_release_status h name s
                ≡ (ok (some status), u))
              × (run_helm h (uninstall_command h name) u ≡ (ok output, t))))
unfolding teardown_status
teardown_status_lem h name s u t r none found rest = inl (ground arith, found ∙ ground arith)
teardown_status_lem h name s u t r (some status) found rest =
    let (output, v, ran, done) =
      >>=-eq-ok (run_helm h (uninstall_command h name))
        (λ _. pure (record { release = name; state = not_instantiated; uninstalled = true })) u
        rest in
    inr (ground arith, (status, u, output, found, ran ∙ ground arith))

-- A teardown that returns has found no release and stopped there, with `uninstalled` false, or has
-- found one and run `helm uninstall` to its end, with `uninstalled` true.
teardown_lem :
    (h : Host) (name : Text) (s t : State) (r : Teardown)
    → teardown h name s ≡ (ok r, t)
    → ((r.uninstalled ≡ false) × (helm_release_status h name s ≡ (ok none, t)))
      ⊎ ((r.uninstalled ≡ true)
          × ((status : Json) × (u : State) × (output : Text) × (helm_release_status h name s
                ≡ (ok (some status), u))
              × (run_helm h (uninstall_command h name) u ≡ (ok output, t))))
unfolding teardown
teardown_lem h name s t r e =
    let (status, u, found, rest) =
      >>=-eq-ok (helm_release_status h name) (teardown_status h name) s e in
    teardown_status_lem h name s u t r status found rest
