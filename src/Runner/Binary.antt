-- ===== src/Runner/Binary.antt =====
-- overlay/agentsight-capture/src/runners/common.rs: `BinaryExecutor`, the command that it starts, and
-- `BinaryRunner`, over any type of analyzers.
use memguard_agent.Base.Result.{Result, ok, err, ◌>>=◌}
use memguard_agent.Base.{
  ℕ, Bool, Option, none, some, List, [], ◌∷◌, ◌++◌, if◌then◌else◌, unwrap_or, any,
}
use memguard_agent.Runner.{runner_startup_exit_message}
use memguard_agent.Text.{Text, codes, text_eq}

pub record BinaryExecutor : Type 0 where
  pub binary_path : Text
  pub additional_args : List Text
  pub runner_name : Option Text

unfoldable pub new_executor : Text → BinaryExecutor
new_executor path = record { binary_path = path; additional_args = []; runner_name = none }

-- `BinaryExecutor::with_args`, and `set_args` in place.
unfoldable pub executor_with_args : BinaryExecutor → List Text → BinaryExecutor
executor_with_args e args = record e { additional_args = args }

unfoldable pub with_runner_name : BinaryExecutor → Text → BinaryExecutor
with_runner_name e name = record e { runner_name = some name }

-- The command line that is started.
unfoldable pub command : Bool → BinaryExecutor → List Text
command needs_sudo e =
    if needs_sudo
    then codes "sudo" ∷ codes "-n" ∷ e.binary_path ∷ e.additional_args
    else e.binary_path ∷ e.additional_args

unfoldable pub startup_delay_ms : Bool → BinaryExecutor → Option ℕ
startup_delay_ms needs_sudo e =
    if any (λ arg. text_eq arg (codes "--binary-path")) e.additional_args
    then some 1500
    else if needs_sudo
    then some 200
    else none

-- What `child.try_wait()` returns behind the delay.
pub data TryWait : Type 0 where
  still_running : TryWait
  has_exited : Text → TryWait
  try_failed : Text → TryWait

unfoldable pub startup_check : Bool → BinaryExecutor → TryWait → Option ℕ → Result (Unit {0})
startup_check needs_sudo e tried none = ok tt
startup_check needs_sudo e still_running (some delay) = ok tt
startup_check needs_sudo e (has_exited status) (some delay) =
    err (runner_startup_exit_message (unwrap_or e.runner_name (codes "binary")) status needs_sudo)
startup_check needs_sudo e (try_failed message) (some delay) = err message

-- The error that the start of a probe ends in, or its command line.
unfoldable pub start_probe : Bool → BinaryExecutor → TryWait → Result (List Text)
unfolding startup_check startup_delay_ms command
start_probe needs_sudo e tried =
    startup_check needs_sudo e tried (startup_delay_ms needs_sudo e) >>= λ _.
    ok (command needs_sudo e)

-- `process_through_analyzers`: each analyzer takes the stream of the one before it, or fails.
module _ {S : Type 0} where
  unfoldable pub process_through_analyzers : S → List (S → Result S) → Result S
  process_through_analyzers stream [] = ok stream
  process_through_analyzers stream (analyzer ∷ analyzers) =
      analyzer stream >>= λ next. process_through_analyzers next analyzers

pub record BinaryRunner (A : Type 0) : Type 0 where
  pub analyzers : List A
  pub executor : BinaryExecutor
  pub source : Text
  pub timestamp_field : Text

module _ (A : Type 0) where
  unfoldable pub new : Text → Text → Text → Text → BinaryRunner A
  unfolding new_executor with_runner_name
  new runner_name source timestamp_field binary_path = record {
    analyzers = [];
    executor = with_runner_name (new_executor binary_path) runner_name;
    source = source;
    timestamp_field = timestamp_field;
  }

  unfoldable pub ssl : Text → BinaryRunner A
  unfolding new
  ssl = new (codes "SSL") (codes "ssl") (codes "timestamp_ns")

  unfoldable pub stdio : Text → BinaryRunner A
  unfolding new
  stdio = new (codes "Stdio") (codes "stdio") (codes "timestamp_ns")

  unfoldable pub memwrite : Text → BinaryRunner A
  unfolding new
  memwrite = new (codes "MemWrite") (codes "memwrite") (codes "timestamp")

module _ {A : Type 0} where
  unfoldable pub with_args : BinaryRunner A → List Text → BinaryRunner A
  unfolding executor_with_args
  with_args r args = record r { executor = executor_with_args r.executor args }

  unfoldable pub add_analyzer : BinaryRunner A → A → BinaryRunner A
  add_analyzer r a = record r { analyzers = r.analyzers ++ (a ∷ []) }
