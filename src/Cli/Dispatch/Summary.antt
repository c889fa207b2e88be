-- ===== src/Cli/Dispatch/Summary.antt =====
-- When a record prints the summary of its session.
use memguard_agent.Base.{
  ◌≡◌, refl, ap, subst, inl, inr, Bool, true, false, not, Option, none, some, List, [], ◌∷◌, ◌++◌,
  if◌then◌else◌, Elem,
}
use memguard_agent.Base.Result.{Result, ok, err, Result-cases}
use memguard_agent.Cli.Commands.{
  Others, Cli, record_command, vis, bind, bridge, top, monitor, report, debug, install_service,
  Commands,
}
use memguard_agent.Cli.Dispatch.{
  Act, signal_handler, session_summary, after_trace, run_started, run_with_extractor, run_command,
  run, exit_status, main, ok_option, run_top, is_vis,
}
use memguard_agent.Cli.Record.{Started, exec_command, trace_with, run_record}
use memguard_agent.Cli.Record.Target.{Attached, TracesAttached, run_record-Attached}
use memguard_agent.Cli.{RecordArgs}
use memguard_agent.Json.{Json}
use memguard_agent.Text.{Text}
use memguard_agent.Trace.Agent.{Outside, TraceAgent}
use memguard_agent.Trace.Drive.{Turn}
use memguard_agent.Trace.Server.{Web}
use memguard_agent.Trace.Session.Ends.{Completed, run_trace-Completed}
use memguard_agent.Trace.Session.{run_trace}
use memguard_agent.Trace.{TraceConfig}

module _ (J : Json) (web : Web) (others : Others)
    (agent_run : TraceAgent others.Seed → Result (List (Turn J))) where
  -- What stands behind a summary: a record that is attached, and its trace that succeeded and saved to
  -- the database that is summarised.
  pub record Summarised (shut_down : Bool) (cli : Cli others) (db : Text) : Type 0 where
    pub args : RecordArgs
    pub outside : Outside
    pub cfg : TraceConfig others.Seed
    pub command_is : cli.command ≡ record_command args
    pub extractor_is : others.binary_extractor ≡ ok outside
    pub started :
        run_record others.configured_db_path
          (ok_option others.default_session_db_path)
          cli.listen
          args
        ≡ ok (trace_with cfg (some db))
    pub attached : Attached cfg (some db)
    pub completed : Completed J others.resolvers web outside agent_run cfg
    pub status : main J web others agent_run shut_down cli ≡ some 0

  after_trace-Elem :
      (saved : Option Text) (r : Option (Result (Unit {0}))) (db : Text)
      → Elem (session_summary db) (after_trace saved r).acts
      → (saved ≡ some db) × (r ≡ some (ok tt))
  after_trace-Elem saved none db m = elim m [ ]
  after_trace-Elem saved (some (err e)) db m = elim m [ ]
  after_trace-Elem none (some (ok done)) db m = elim m [ ]
  after_trace-Elem (some path) (some (ok done)) db (inl e) = (cc, refl)
  after_trace-Elem (some path) (some (ok done)) db (inr m) = elim m [ ]

  run_started-Elem :
      (outside : Outside) (started : Result (Started others.Seed)) (db : Text)
      → Elem (session_summary db) (run_started J web others agent_run outside started).acts
      → (cfg : TraceConfig others.Seed) × (started ≡ ok (trace_with cfg (some db)))
        × ((run_trace others.resolvers J web outside agent_run cfg).result ≡ some (ok tt))
  run_started-Elem outside (err e) db m = elim m [ ]
  run_started-Elem outside (ok (exec_command command binary path server listen port quiet)) db m =
      elim m [ ]
  run_started-Elem outside (ok (trace_with cfg saved)) db m =
      let (e, done) = after_trace-Elem saved _ db m in
      (cfg, ap (λ s. ok (trace_with cfg s)) e, done)

  -- What is known of a command that prints a summary.
  record Printed (shut_down : Bool) (listen : Text) (c : Commands others) (db : Text) : Type 0 where
    args : RecordArgs
    outside : Outside
    cfg : TraceConfig others.Seed
    command_is : c ≡ record_command args
    extractor_is : others.binary_extractor ≡ ok outside
    started :
        run_record others.configured_db_path (ok_option others.default_session_db_path) listen args
        ≡ ok (trace_with cfg (some db))
    traced : (run_trace others.resolvers J web outside agent_run cfg).result ≡ some (ok tt)
    returned : (run_command J web others agent_run shut_down listen c).result ≡ some (ok tt)

  run_command-Printed :
      (shut_down : Bool) (listen : Text) (c : Commands others) (db : Text)
      → Elem (session_summary db) (run_command J web others agent_run shut_down listen c).acts
      → Printed shut_down listen c db
  unfolding run_command run_with_extractor run_top
  run_command-Printed shut_down listen (vis path outputs global rate) db m = elim m [ ]
  run_command-Printed shut_down listen (bind args) db m = elim m [ ]
  run_command-Printed shut_down listen bridge db m = elim m [ ]
  run_command-Printed shut_down listen (monitor none) db m = elim m [ ]
  run_command-Printed shut_down listen (monitor (some install_service)) db m = elim m [ ]
  run_command-Printed shut_down listen (report path local sub) db m = elim m [ ]
  run_command-Printed shut_down listen (top args) db (inl e) = cc
  run_command-Printed shut_down listen (top args) db (inr (inl e)) = cc
  run_command-Printed shut_down listen (top args) db (inr (inr m)) = elim m [ ]
  run_command-Printed shut_down listen (debug cli) db m =
      elim (Result-cases others.binary_extractor) [
        | inl (e, missing) ↦ elim (rw missing at m) [ ]
        | inr (outside, found) ↦ elim (rw found at m) [ ]
      ]
  run_command-Printed shut_down listen (record_command args) db m =
      elim (Result-cases others.binary_extractor) [
        | inl (e, missing) ↦ elim (rw missing at m) [ ]
        | inr (outside, found) ↦
            let (cfg, e, done) = run_started-Elem outside _ db (rw found at m) in
            record {
              args = args;
              outside = outside;
              cfg = cfg;
              command_is = refl;
              extractor_is = found;
              started = e;
              traced = done;
              returned = rw (found, e, done) refl;
            }
      ]

  behind_handler :
      (installs suppress : Bool) (acts : List Act) (db : Text)
      → Elem (session_summary db) ((if installs then signal_handler suppress ∷ [] else []) ++ acts)
      → Elem (session_summary db) acts
  behind_handler true suppress acts db (inl e) = cc
  behind_handler true suppress acts db (inr m) = m
  behind_handler false suppress acts db m = m

  -- A summary is printed for a record only that was given a target to attach to, for the database that
  -- its trace saved to, behind a trace that succeeded, and the process then exits with the status 0.
  pub session_summary-Summarised :
      (shut_down : Bool) (cli : Cli others) (db : Text)
      → Elem (session_summary db) (run J web others agent_run shut_down cli).acts
      → Summarised shut_down cli db
  unfolding run
  session_summary-Summarised shut_down cli db m =
      let p =
        run_command-Printed shut_down cli.listen cli.command db
          (behind_handler (not (is_vis J web others cli.command)) _ _ db m) in
      record {
        args = p.args;
        outside = p.outside;
        cfg = p.cfg;
        command_is = p.command_is;
        extractor_is = p.extractor_is;
        started = p.started;
        attached = subst TracesAttached p.started (
            run_record-Attached others.Seed others.configured_db_path
              (ok_option others.default_session_db_path) cli.listen p.args);
        completed = run_trace-Completed J others.resolvers web p.outside agent_run p.cfg p.traced;
        status = unfold main exit_status in rw p.returned refl;
      }
