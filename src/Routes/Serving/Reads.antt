-- ===== src/Routes/Serving/Reads.antt =====
-- The commands of a process that is only read from.
use nf_orchestrator.Prelude.{
  ◌≡◌, refl, ◌∙◌, ◌↔◌, Bool, true, false, ◌&&◌, ◌||◌, List, [], ◌∷◌, none, arith, all,
}
use nf_orchestrator.Text.{Text, text, text_eq, one_of}
use nf_orchestrator.Host.{Host, State, Command}
use nf_orchestrator.Host.Keeps.{others}
use nf_orchestrator.Deploy.Tools.{helm, kubectl}
use nf_orchestrator.Deploy.Run.Keeps.{Keeps-check_cluster}
use nf_orchestrator.Reconciler.History.{history_command}
use nf_orchestrator.Reconciler.Reconcile.{values_command}
use nf_orchestrator.Reconciler.Reconcile.Keeps.{Keeps-reconcile}
use nf_orchestrator.Routes.{get_readyz, get_deployment}
use nf_orchestrator.Routes.Serving.{
  Request, readiness, creation, repairing, inspection, removal, serve, serve_all, is_reading,
}

-- A command that reads: one of helm's that do, or `kubectl --context … get`.
abbrev helm_reads : List Text
helm_reads = text "version" ∷ text "history" ∷ text "status" ∷ text "get" ∷ text "list" ∷ []

abbrev is_get : Command → Bool
is_get (option ∷ context ∷ verb ∷ _) =
    text_eq option (text "--context") && text_eq verb (text "get")
is_get _ = false

unfoldable pub is_read : Command → Bool
is_read [] = false
is_read (tool ∷ []) = false
is_read (tool ∷ verb ∷ rest) =
    (text_eq tool helm && one_of verb helm_reads) || (text_eq tool kubectl && is_get (verb ∷ rest))

reads-others : (cs : List Command) → (all is_read cs ≡ true) ↔ (others is_read cs ≡ [])
reads-others [] = (λ e. refl, λ e. refl)
reads-others (c ∷ cs) = ground (arith, reads-others cs)

serve-reads :
    (h : Host) (q : Request) (s : State)
    → is_reading q ≡ true
    → others is_read (serve h q s).1.ran ≡ others is_read s.ran
unfolding serve get_readyz get_deployment is_read text text_eq one_of history_command values_command
serve-reads h readiness s reading =
    let kept = (Keeps-check_cluster is_read h refl refl).at s in kept.commands
serve-reads h (creation intent) s reading = absurd (ground arith)
serve-reads h (repairing name intent) s reading = absurd (ground arith)
serve-reads h (inspection name) s reading =
    let kept = (Keeps-reconcile is_read h refl name (λ n. refl) refl none refl).at s in
    kept.commands
serve-reads h (removal name) s reading = absurd (ground arith)

-- Where only commands that read were run before, readiness requests and requests for a release's
-- state, however many and whatever they meet, run only such commands: `helm version`, `history`,
-- `status`, `get` and `list`, and `kubectl --context … get`. None changes the cluster, on any path,
-- errors and probes included.
pub serve_all-reads :
    (h : Host) (qs : List Request) (s : State)
    → all is_reading qs ≡ true
    → all is_read s.ran ≡ true
    → all is_read (serve_all h qs s).1.ran ≡ true
unfolding serve_all
serve_all-reads h [] s reading c = c
serve_all-reads h (q ∷ qs) s reading c =
    serve_all-reads h qs (serve h q s).1 (ground (arith, reading)) (
      (reads-others (serve h q s).1.ran).1
        (serve-reads h q s (ground (arith, reading)) ∙ (reads-others s.ran).0 c))
