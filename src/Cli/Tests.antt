-- ===== src/Cli/Tests.antt =====
-- The commands on concrete arguments, and their theorems at them.
use memguard_agent.Base.{
  ℕ, ◌+◌, ◌≡◌, refl, true, false, Option, none, some, List, [], ◌∷◌, arith, ltb, lt→ltb, last?,
}
use memguard_agent.Cli.Diagnostics.Ring.{IsRing, push_tui_diagnostic-IsRing}
use memguard_agent.Cli.Diagnostics.{
  push_tui_diagnostic, pop_front_while, recent_tui_diagnostics, write,
}
use memguard_agent.Cli.Record.Target.{with_memwrite, run_record_command-with_memwrite}
use memguard_agent.Cli.Record.{run_record}
use memguard_agent.Cli.Report.Source.{opened}
use memguard_agent.Cli.Report.{report_db_or_local, run_report, summary}
use memguard_agent.Cli.{RecordArgs, top_uses_tui}
use memguard_agent.Cli.Shutdown.{Notify, signal, select, event, set_up, pass_all}
use memguard_agent.Cli.Shutdown.Lost.{pass_all-waits}
use memguard_agent.Text.{trim, lines, Text, codes}

abbrev args : List Text → Option Text → RecordArgs
args command comm = record {
  comm = comm;
  pid = none;
  binary_path = none;
  memwrite = false;
  memwrite_path = none;
  memwrite_prefix = codes "ehragent_memory";
  memwrite_rules = none;
  alert_wecom = none;
  alert_serverchan = none;
  alert_base = none;
  alert_dry_run = false;
  alert_interval = 10;
  db = none;
  no_server = false;
  server_port = 7395;
  command = command;
}

abbrev watching : RecordArgs
watching = record (args [] none) { memwrite = true; memwrite_path = some (codes "/opt/memwrite") }

abbrev ring : List Text
ring = codes "a" ∷ codes "b" ∷ codes "c" ∷ []

empty-IsRing : IsRing []
empty-IsRing = record { bounded = (omega arith); no_repeat = tt }

only_plain : top_uses_tui true true ≡ false
unfolding top_uses_tui
only_plain = refl

-- A summary does not look at the `--db` of its report.
summary_forgets_db :
    opened (run_report none (some (codes "x.db")) false (some (summary none false)) (codes "h"))
    ≡ none
unfolding run_report report_db_or_local opened
summary_forgets_db = refl

push_tui_diagnostic-IsRing_example :
    IsRing (push_tui_diagnostic [] (codes "a"))
    × (last? (push_tui_diagnostic [] (codes "a")) ≡ some (codes "a"))
push_tui_diagnostic-IsRing_example = push_tui_diagnostic-IsRing [] (codes "a") empty-IsRing

recent_two : recent_tui_diagnostics ring 2 ≡ codes "b" ∷ codes "c" ∷ []
unfolding recent_tui_diagnostics
recent_two = refl

written_twice : write ring (codes " c \n\nd") ≡ codes "a" ∷ codes "b" ∷ codes "c" ∷ codes "d" ∷ []
unfolding write pop_front_while trim lines
written_twice = refl

run_record_command-with_memwrite_example :
    run_record {Seed = ℕ}
      (λ db. db)
      none
      (codes "h")
      (with_memwrite watching (args (codes "claude" ∷ []) none))
    ≡ run_record (λ db. db) none (codes "h") (args (codes "claude" ∷ []) none)
run_record_command-with_memwrite_example =
    run_record_command-with_memwrite (λ db. db) none (codes "h") watching
      (args (codes "claude" ∷ []) none) refl

not_below : (n : ℕ) → ltb n n ≡ false
not_below n = ground arith

-- A `Notify` that counts its notifications, with futures that know the count at their making.
abbrev counting : Notify
counting = record {
  State = ℕ;
  Notified = ℕ;
  new = 0;
  notified = λ s. (s, s);
  notify_waiters = λ s. s + 1;
  is_ready = λ s n. ltb n s;
  fresh = not_below;
  wakes = λ s. lt→ltb s (s + 1) (omega arith);
}

pass_all-waits_example :
    (pass_all counting true
      (select ∷ event ∷ signal ∷ select ∷ signal ∷ [])
      (set_up counting)).loop_ended
    ≡ false
pass_all-waits_example =
    pass_all-waits counting true (select ∷ event ∷ []) (select ∷ signal ∷ []) (tt, (tt, tt))
