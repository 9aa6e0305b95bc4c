-- ===== src/Deploy/Apply/Laws.antt =====
-- A deployment is refused before anything is written on a host whose tools cannot do it, and only
-- a forced one takes ownership of fields.
use nf_orchestrator.Prelude.{
  ◌≡◌, refl, ap, ◌∙◌, ◌⊎◌, Bool, true, false, List, [], ◌∷◌, ◌++◌, arith, if◌then◌else◌,
}
use nf_orchestrator.Text.{Text, text, join}
use nf_orchestrator.Errors.{host_misconfigured, deploy, ok, err}
use nf_orchestrator.Intent.{Intent}
use nf_orchestrator.Host.{Host, State, ◌>>=◌}
use nf_orchestrator.Host.Laws.{>>=-eq-ok}
use nf_orchestrator.Deploy.Tools.{tool_problems, require_tools, version_command}
use nf_orchestrator.Deploy.Tools.Laws.{tool_problems_total, require_tools_lem}
use nf_orchestrator.Deploy.Run.{run_helm}
use nf_orchestrator.Deploy.Apply
use nf_orchestrator.Deploy.Apply.{Deployment, deploy_command, read_release}

-- With a tool missing or helm's version known to be wrong, deploying raises HostMisconfigured with
-- all that was found, in the state that looking left: no process was started but perhaps the one
-- that prints helm's version.
deploy-misconfigured :
    (h : Host) (intent : Intent) (force : Bool) (s t : State) (p : Text) (ps : List Text)
    → tool_problems h s ≡ (ok (p ∷ ps), t)
    → (Apply.deploy h intent force s ≡ (
      err (deploy (record { kind = host_misconfigured; message = join (text "; ") (p ∷ ps) })),
      t,
    ))
      × ((t.ran ≡ s.ran) ⊎ (t.ran ≡ version_command ∷ s.ran))
unfolding Apply.deploy
deploy-misconfigured h intent force s t p ps e =
    let (qs, u, found, cost, _) = tool_problems_total h s in
    (ground (arith, require_tools_lem h s t (p ∷ ps) e), ground arith)

read_release_lem :
    (h : Host) (intent : Intent) (output : Text) (s t : State) (d : Deployment)
    → read_release h intent output s ≡ (ok d, t)
    → (d.release ≡ intent.name)
      × (d.values.replica_count ≡ intent.replicas)
      × (d.values.environment ≡ intent.environment)
      × (s ≡ t)
unfolding read_release
read_release_lem h intent output s t d e = ground arith

command_of :
    (h : Host) (intent : Intent) (force : Bool)
    → deploy_command h intent false ++ (if force then text "--force-conflicts" ∷ [] else [])
      ≡ deploy_command h intent force
unfolding deploy_command
command_of h intent true = refl
command_of h intent false = refl

tools_in_order :
    (h : Host) (s t : State) → require_tools h s ≡ (ok tt, t) → tool_problems h s ≡ (ok [], t)
tools_in_order h s t e =
    let (problems, u, found, _, _) = tool_problems_total h s in
    ground (arith, require_tools_lem h s u problems found)

-- A deployment that returns was made with the tools in order, by one helm call with the intent's
-- name and values, which ends with `--force-conflicts` exactly when forcing was asked for; and it
-- reports that name and those values.
deploy_lem :
    (h : Host) (intent : Intent) (force : Bool) (s t : State) (d : Deployment)
    → Apply.deploy h intent force s ≡ (ok d, t)
    → ((u : State) × (output : Text) × (tool_problems h s ≡ (ok [], u))
        × (run_helm h
              (deploy_command h intent false
                ++ (if force then text "--force-conflicts" ∷ [] else []))
              u
            ≡ (ok output, t)))
      × (d.release ≡ intent.name)
      × (d.values.replica_count ≡ intent.replicas)
      × (d.values.environment ≡ intent.environment)
unfolding Apply.deploy
deploy_lem h intent force s t d e =
    let (_, u', tools_ok, rest) =
      >>=-eq-ok (require_tools h)
        (λ _. run_helm h (deploy_command h intent force) >>= read_release h intent) s e in
    let (output, v, ran, read) =
      >>=-eq-ok (run_helm h (deploy_command h intent force)) (read_release h intent) u' rest in
    let (release, replicas, environment, same) = read_release_lem h intent output v t d read in
    (
      (
        u',
        output,
        tools_in_order h s u' tools_ok,
        rw command_of (ran ∙ ap (λ w. (ok output, w)) same),
      ),
      release,
      replicas,
      environment,
    )
