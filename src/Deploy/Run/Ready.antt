-- ===== src/Deploy/Run/Ready.antt =====
-- What it takes to be ready, and whom an unready answer blames.
use nf_orchestrator.Prelude.{ℕ, ◌≡◌, ◌≢◌, ◌⊎◌, true, false, [], ◌∷◌, some, arith}
use nf_orchestrator.Errors.{DeployError, cluster_unreachable, deploy, ok, err}
use nf_orchestrator.Errors.Classify.{classify_error}
use nf_orchestrator.Host.{Host, Probe, State}
use nf_orchestrator.Deploy.Tools.{tool_problems}
use nf_orchestrator.Deploy.Tools.Laws.{tool_problems_total, require_tools_lem}
use nf_orchestrator.Deploy.Probe.{probe_command}
use nf_orchestrator.Deploy.Probe.Laws.{api_server_probe_lem}
use nf_orchestrator.Host.Keeps.{HasHonestCache}
use nf_orchestrator.Deploy.Probe.Honest.{api_server_probe-honest}
use nf_orchestrator.Deploy.Run.{check_cluster}

-- The host is ready only with its tools in order and an API server that has answered a probe made
-- just now, not one from the cache.
check_cluster-ok :
    (h : Host) (s t : State)
    → check_cluster h s ≡ (ok tt, t)
    → (u : State) × (at : ℕ) × (p : Probe) × (tool_problems h s ≡ (ok [], u))
      × (t.probe ≡ some (at, p))
      × (p.answered ≡ true)
      × (t.ran ≡ probe_command h ∷ u.ran)
unfolding check_cluster
check_cluster-ok h s t e =
    let (problems, u, found, _, _) = tool_problems_total h s in
    let required = require_tools_lem h s u problems found in
    let (p, at, v, probed, kept, ran) = api_server_probe_lem h 0 (some h.config.read_timeout) u in
    (u, at, p, ground arith, ground arith, ground arith, ground arith)

-- With the tools in order, an unready answer says "unreachable" only of a probe that kubectl did
-- get started and the server did not answer, and where kubectl printed an error, only if that
-- error's own words say so. The cached probe before is one that `api_server_probe` can have stored.
pub check_cluster-unreachable :
    (h : Host) (s t u : State) (e : DeployError)
    → HasHonestCache u
    → tool_problems h s ≡ (ok [], u)
    → check_cluster h s ≡ (err (deploy e), t)
    → e.kind ≡ cluster_unreachable
    → (at : ℕ) × (p : Probe) × (t.probe ≡ some (at, p))
      × (p.started ≡ true)
      × (p.answered ≡ false)
      × (((p.error ≢ []) × ((classify_error p.error).kind ≡ cluster_unreachable)) ⊎ (p.error ≡ []))
unfolding check_cluster
check_cluster-unreachable h s t u e honest found raised k =
    let required = require_tools_lem h s u [] found in
    let (p, at, v, probed, kept, ran) = api_server_probe_lem h 0 (some h.config.read_timeout) u in
    let honest_probe = api_server_probe-honest h 0 (some h.config.read_timeout) u honest in
    (at, p, ground arith, ground arith, ground arith, ground arith)
