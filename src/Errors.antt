-- ===== src/Errors.antt =====
-- The exceptions of orchestrator/deploy.py, and the results of calls that may raise them.
pub mod Classify
pub mod Laws
use nf_orchestrator.Prelude.{
  ℕ, Bool, true, false, ◌||◌, ◌==◌, Option, none, some, if◌then◌else◌, ◌++◌,
}
use nf_orchestrator.Text.{Text, text, show}

-- `DeployError` and its subclasses.
pub data Kind : Type 0 where
  deploy_error cluster_unreachable cluster_busy host_overloaded host_exhausted : Kind
  host_misconfigured cluster_conflict : Kind

-- `isinstance(exc, kind)` for an exception whose own class is the first argument.
unfoldable pub is_instance : Kind → Kind → Bool
is_instance _ deploy_error = true
is_instance cluster_unreachable cluster_unreachable = true
is_instance cluster_busy cluster_busy = true
is_instance host_overloaded host_overloaded = true
is_instance host_exhausted host_overloaded = true
is_instance host_exhausted host_exhausted = true
is_instance host_misconfigured host_misconfigured = true
is_instance cluster_conflict cluster_conflict = true
is_instance _ _ = false

pub record DeployError : Type 0 where
  pub kind : Kind
  pub message : Text

-- An `OSError`: Python picks its subclass by `errno`.
pub record OsError : Type 0 where
  errno : ℕ
  strerror : Text

-- `crash` stands for what no handler of the program names: a `KeyError`, a `TypeError` or a
-- `JSONDecodeError` where a tool prints another document than the program expects.
pub data Exception : Type 0 where
  deploy : DeployError → Exception
  os : OsError → Exception
  crash : Exception

pub data Result {ℓ} (A : Type ℓ) : Type ℓ where
  ok : A → Result A
  err : Exception → Result A

-- errno.ENOENT
abbrev enoent : ℕ
enoent = 2

-- errno.EACCES
abbrev eacces : ℕ
eacces = 13

-- errno.EPERM
abbrev eperm : ℕ
eperm = 1

-- errno.EAGAIN
abbrev eagain : ℕ
eagain = 11

-- errno.ENOMEM
abbrev enomem : ℕ
enomem = 12

-- `isinstance(exc, (FileNotFoundError, PermissionError))`
abbrev is_missing_tool : OsError → Bool
is_missing_tool e = e.errno == enoent || e.errno == eacces || e.errno == eperm

-- `exc.errno in SPAWN_EXHAUSTION`
abbrev is_spawn_exhaustion : OsError → Bool
is_spawn_exhaustion e = e.errno == eagain || e.errno == enomem

missing_tool_message : Text → OsError → Text
missing_tool_message tool e =
    tool
    ++ (text " is not installed or not executable on this host ("
        ++ (e.strerror ++ text "): install it or fix PATH; retrying will not help"))

exhausted_message : Text → OsError → Text
exhausted_message tool e =
    text "this host could not start "
    ++ (tool
        ++ (text ": "
            ++ (e.strerror
                ++ (text " (errno "
                    ++ (show e.errno
                        ++ text "), a pids or memory limit on the orchestrator's host")))))

unfoldable pub spawn_failure : Text → OsError → Option DeployError
unfolding missing_tool_message exhausted_message
spawn_failure tool e =
    if is_missing_tool e
    then some (record { kind = host_misconfigured; message = missing_tool_message tool e })
    else if is_spawn_exhaustion e
    then some (record { kind = host_exhausted; message = exhausted_message tool e })
    else none
