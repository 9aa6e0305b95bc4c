-- ===== src/Routes/Serving.antt =====
-- The process that serves requests of orchestrator/__init__.py, one after another.
pub mod Counts
pub mod Honest
pub mod Reads
pub mod Changed
pub mod Bound
pub mod Answered
use nf_orchestrator.Prelude.{Bool, true, false, ◌&&◌, ◌||◌, none, List, [], ◌∷◌}
use nf_orchestrator.Text.{Text, text, text_eq, one_of}
use nf_orchestrator.Intent.{Intent}
use nf_orchestrator.Host.{Host, State, Command}
use nf_orchestrator.Deploy.Apply.{Deployment}
use nf_orchestrator.Deploy.Tools.{helm, kubectl}
use nf_orchestrator.Reconciler.Reconcile.{Report, Teardown}
use nf_orchestrator.Routes.{
  Reply, Repair, get_readyz, create_deployment, repair_deployment, get_deployment,
  delete_deployment,
}

-- A request to a route that runs helm or kubectl for one release, or asks for readiness.
pub data Request : Type 0 where
  readiness : Request
  creation : Intent → Request
  repairing : (path_name : Text) → Intent → Request
  inspection : (path_name : Text) → Request
  removal : (path_name : Text) → Request

pub data Served : Type 0 where
  ready : Reply Unit → Served
  created : Reply Deployment → Served
  repaired : Reply Repair → Served
  inspected : Reply Report → Served
  removed : Reply Teardown → Served

-- The state of a process that has just started.
abbrev pub started : State
started = record {
  looks = 0;
  ran = [];
  probe = none;
  last_success = none;
  versions = none;
  deployments_total = [];
  repairs_total = [];
}

module _ (h : Host) where
  unfoldable pub serve : Request → State → Served × State
  serve readiness s = let (r, t) = get_readyz h s in (ready r, t)
  serve (creation intent) s = let (r, t) = create_deployment h intent s in (created r, t)
  serve (repairing name intent) s =
      let (r, t) = repair_deployment h name intent s in (repaired r, t)
  serve (inspection name) s = let (r, t) = get_deployment h name s in (inspected r, t)
  serve (removal name) s = let (r, t) = delete_deployment h name s in (removed r, t)

  -- Each request with its reply, and the state at the end.
  unfoldable pub serve_all : List Request → State → List (Request × Served) × State
  unfolding serve
  serve_all [] s = ([], s)
  serve_all (q ∷ qs) s =
      let (r, t) = serve q s in let (log, u) = serve_all qs t in ((q, r) ∷ log, u)

-- A request of which the caller expects that it changes nothing: a `GET`.
abbrev pub is_reading : Request → Bool
is_reading readiness = true
is_reading (inspection _) = true
is_reading _ = false
