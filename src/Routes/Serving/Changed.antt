-- ===== src/Routes/Serving/Changed.antt =====
-- The commands that change the cluster, of all that a process runs for its requests.
use mathlib.Core.List.Sublistᴰ
use mathlib.Core.List.{Sublistᴰ}
use nf_orchestrator.Prelude.{
  refl, inl, inr, true, false, none, List, [], ◌∷◌, ◌++◌, if◌then◌else◌, Bool-cases,
}
use nf_orchestrator.Text.{text, text_eq, one_of}
use nf_orchestrator.Host.{Host, State, Command}
use nf_orchestrator.Host.Keeps.{others}
use nf_orchestrator.Deploy.Tools.{helm}
use nf_orchestrator.Deploy.Run.Keeps.{Keeps-check_cluster}
use nf_orchestrator.Deploy.Run.Changes.{Changed}
use nf_orchestrator.Deploy.Apply
use nf_orchestrator.Deploy.Apply.{deploy_command}
use nf_orchestrator.Deploy.Apply.Keeps.{Changes-deploy}
use nf_orchestrator.Reconciler.History.{history_command, status_command}
use nf_orchestrator.Reconciler.Reconcile.{values_command, uninstall_command}
use nf_orchestrator.Reconciler.Reconcile.Keeps.{Keeps-reconcile, Changes-teardown}
use nf_orchestrator.Routes.{
  get_readyz, create_deployment, repair_deployment, get_deployment, delete_deployment,
  record_deploy, record_repair,
}
use nf_orchestrator.Routes.Serving.{
  Request, readiness, creation, repairing, inspection, removal, serve, serve_all,
}
use nf_orchestrator.Routes.Serving.Bound.{counted-ran}
use nf_orchestrator.Routes.Serving.Reads.{is_read}

-- What a request may run of the commands that change the cluster: a deployment's upgrade, that of a
-- repair of the function that its path names, which takes conflicting fields over, and a teardown's
-- uninstall.
abbrev change_of : Host → Request → List Command
change_of h readiness = []
change_of h (creation intent) = (helm ∷ deploy_command h intent false) ∷ []
change_of h (repairing name intent) =
    if text_eq intent.name name then (helm ∷ deploy_command h intent true) ∷ [] else []
change_of h (inspection name) = []
change_of h (removal name) = (helm ∷ uninstall_command h name) ∷ []

serve-Changed :
    (h : Host) (q : Request) (s : State) → Changed is_read (change_of h q) s (serve h q s).1
unfolding serve get_readyz create_deployment repair_deployment get_deployment delete_deployment
    record_deploy record_repair is_read text text_eq one_of history_command values_command
    status_command uninstall_command deploy_command
serve-Changed h readiness s =
    let kept = (Keeps-check_cluster is_read h refl refl).at s in inl kept.commands
serve-Changed h (creation intent) s =
    let changed = (Changes-deploy is_read h refl intent false refl refl).at s in
    let (r, t) = Apply.deploy h intent false s in
    rw (counted-ran (λ result. record_deploy result intent.environment) r t (λ result u. refl))
      changed
serve-Changed h (repairing name intent) s = elim (Bool-cases (text_eq intent.name name)) [
  | inl same ↦
      let changed = (Changes-deploy is_read h refl intent true refl refl).at s in
      let (r, t) = Apply.deploy h intent true s in
      rw
        (
          same,
          counted-ran (λ result. record_repair result intent.environment) r t (λ result u. refl),
        )
        changed
  | inr other ↦ rw (other) (inl refl)
]
serve-Changed h (inspection name) s =
    let kept = (Keeps-reconcile is_read h refl name (λ n. refl) refl none refl).at s in
    inl kept.commands
serve-Changed h (removal name) s = (Changes-teardown is_read h refl name refl refl).at s

-- Those of some requests, latest first, in front of those before.
abbrev pub changes_of : Host → List Request → List Command → List Command
changes_of h [] before = before
changes_of h (q ∷ qs) before = changes_of h qs (change_of h q ++ before)

changes_of-mono :
    (h : Host) (qs : List Request) {xs ys : List Command}
    → Sublistᴰ xs ys
    → Sublistᴰ (changes_of h qs xs) (changes_of h qs ys)
changes_of-mono h [] sub = sub
changes_of-mono h (q ∷ qs) sub =
    changes_of-mono h qs (Sublistᴰ.append (Sublistᴰ.refl (change_of h q)) sub)

Changed-Sublist :
    (cs : List Command) (s t : State)
    → Changed is_read cs s t
    → Sublistᴰ (others is_read t.ran) (cs ++ others is_read s.ran)
Changed-Sublist cs s t (inl same) =
    rw (same) (Sublistᴰ.append (Sublistᴰ.nil-sublist cs) (Sublistᴰ.refl (others is_read s.ran)))
Changed-Sublist cs s t (inr changed) = rw (changed) (Sublistᴰ.refl (cs ++ others is_read s.ran))

-- However each call ends, of the commands that a process runs for some requests those that are no
-- readings are among the following, in this order, each at most once: for each deployment its
-- `helm upgrade --install`, for each repair of the function that its path names the same with
-- `--force-conflicts`, and for each teardown its `helm uninstall`. Nothing else changes the cluster,
-- and no change is tried again after it failed or fell silent.
pub serve_all-Sublist :
    (h : Host) (qs : List Request) (s : State)
    → Sublistᴰ (others is_read (serve_all h qs s).1.ran) (changes_of h qs (others is_read s.ran))
unfolding serve_all
serve_all-Sublist h [] s = Sublistᴰ.refl (others is_read s.ran)
serve_all-Sublist h (q ∷ qs) s =
    Sublistᴰ.trans (serve_all-Sublist h qs (serve h q s).1) (
      changes_of-mono h qs
        (Changed-Sublist (change_of h q) s (serve h q s).1 (serve-Changed h q s)))
