-- ===== src/Runner/Tests.antt =====
-- The runners on concrete output, and their theorems at it.
use memguard_agent.Base.{
  ℕ, ◌+◌, ◌≤◌, ◌≡◌, refl, true, false, Option, none, some, List, [], ◌∷◌, ◌++◌, length, take,
}
use memguard_agent.Base.Result.{Result, ok}
use memguard_agent.Event.{Event}
use memguard_agent.Runner.Log.Lines.{preview_line_bounds}
use memguard_agent.Runner.Run.Events.{Each, EventOf, values_from, run-Each}
use memguard_agent.Runner.Run.Signals.{stream_signals_once}
use memguard_agent.Runner.Run.{Child, stream_signals, run}
use memguard_agent.Json.Tree.{Tree, text, number, object, field, end, tree_json}
use memguard_agent.Runner.Binary.{
  startup_delay_ms, new_executor, executor_with_args, BinaryRunner, memwrite, still_running,
  startup_check,
}
use memguard_agent.Runner.Guard.{signal_for}
use memguard_agent.Runner.Stream.{Read, line, end_of_output, interrupted, failed, exited}
use memguard_agent.Runner.{preview_line}
use memguard_agent.Text.Utf8.{as_bytes}
use memguard_agent.Text.{Text, codes}

abbrev whole : Tree
whole = object (
    field (codes "timestamp") (number 9)
      (field (codes "pid") (number 4294967297) (field (codes "comm") (text (codes "sh")) end)))

-- A parser that knows one object.
abbrev from_str : Text → Option Tree
from_str s = some whole

abbrev values : List (ℕ × Tree)
values = (1, whole) ∷ (2, object end) ∷ []

abbrev output : List Read
output = line (as_bytes (codes "note")) ∷ interrupted ∷ line (as_bytes (codes " {} ")) ∷ []

cut : preview_line (codes "abcdef") 3 ≡ codes "abc..."
unfolding preview_line
cut = refl

late_check :
    startup_delay_ms true
      (executor_with_args (new_executor (codes "p")) (codes "--binary-path" ∷ []))
    ≡ some 1500
unfolding startup_delay_ms executor_with_args
late_check = refl

abbrev child : Child
child = record {
  pid = some 7;
  tried = still_running;
  reads = output ++ (end_of_output ∷ failed ∷ []);
  wait = exited false (codes "exit status: 1");
  uptime = 3;
  uptime_at = λ n. n + 4;
}

abbrev runner : BinaryRunner (List (Event tree_json) → Result (List (Event tree_json)))
runner = memwrite _ (codes "/opt/memwrite")

stream_signals_once_example : stream_signals true child true ≡ signal_for true 7 ∷ []
stream_signals_once_example = stream_signals_once true child true

preview_line_bounds_example :
    (length (preview_line (codes "abcdef") 3) ≤ 6)
    × (take 3 (preview_line (codes "abcdef") 3) ≡ codes "abc")
    × (length (codes "abcdef") ≤ 3 → preview_line (codes "abcdef") 3 ≡ codes "abcdef")
preview_line_bounds_example = preview_line_bounds (codes "abcdef") 3

run-Each_example :
    (events : List (Event tree_json)) × (run tree_json from_str
        (λ p. none)
        false
        (λ args. ok child)
        runner
      ≡ ok events)
    × Each
        (EventOf tree_json (codes "memwrite") (codes "timestamp"))
        (values_from tree_json from_str
          (λ p. none)
          false
          (λ args. ok child)
          runner.executor
          child
          output)
        events
unfolding memwrite startup_check startup_delay_ms
run-Each_example =
    run-Each tree_json from_str (λ p. none) false (λ args. ok child) runner child output
      (failed ∷ []) end_of_output refl refl refl refl (tt, (tt, (tt, tt))) tt
