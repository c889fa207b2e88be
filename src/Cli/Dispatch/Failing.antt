-- ===== src/Cli/Dispatch/Failing.antt =====
-- From a probe that fails to the status of the process.
use memguard_agent.Base.{
  ℕ, ◌^◌, ◌<◌, ◌≡◌, refl, ap, ◌⊎◌, inl, inr, Bool, true, false, ◌&&◌, Option, some, List, [], ◌∷◌,
  ◌++◌, Bool-cases, is_none, is_empty, All,
}
use memguard_agent.Base.Result.{Result, ok, err}
use memguard_agent.Cli.Commands.{Others, Cli, record_command}
use memguard_agent.Cli.Dispatch.{
  Ran, signal_handler, after_trace, run_started, run_with_extractor, with_extractor, run_command,
  run, exit_status, main, ok_option, command_uses_top_tui,
}
use memguard_agent.Cli.Record.{run_record}
use memguard_agent.Cli.{RecordArgs}
use memguard_agent.Json.{Json}
use memguard_agent.Runner.Stream.Lines.{GoesOn, Ends}
use memguard_agent.Runner.Stream.{Read}
use memguard_agent.Text.{Text, codes}
use memguard_agent.Trace.Agent.{Outside, TraceAgent}
use memguard_agent.Trace.Drive.{Turn, nexts, drive_stream_until_shutdown}
use memguard_agent.Trace.Failing.{events_of_failed, failing_probe_stops_trace}
use memguard_agent.Trace.Server.{Web}
use memguard_agent.Trace.Session.Ends.{run_trace-err}

module _ (J : Json) (web : Web) (others : Others)
    (agent_run : TraceAgent others.Seed → Result (List (Turn J))) where
  -- A run that fails and has done nothing.
  abbrev Fails : Ran → Type 0
  Fails ran = (ran.acts ≡ []) × ((m : Text) × (ran.result ≡ some (err m)))

  after_trace-Fails :
      (db : Option Text) (r : Option (Result (Unit {0}))) (m : Text)
      → r ≡ some (err m)
      → Fails (after_trace db r)
  after_trace-Fails db r m e = rw e (refl, (m, refl))

  module _ (turns : List (Turn J))
      (runs : (agent : TraceAgent others.Seed) → agent_run agent ≡ ok turns)
      (fails : (print : Bool)
        → (m : Text) × ((drive_stream_until_shutdown J print turns).result ≡ some (err m)))
      (args : RecordArgs) (attach : is_empty args.command ≡ true) (listen : Text) where
    run_started-Fails :
        (outside : Outside)
        → Fails (
            run_started J web others agent_run outside (
              run_record others.configured_db_path
                (ok_option others.default_session_db_path)
                listen
                args))
    unfolding run_record
    run_started-Fails outside = elim (Bool-cases (is_none args.comm && is_none args.pid)) [
      | inl nowhere ↦ rw (attach, nowhere) (refl, (_, refl))
      | inr somewhere ↦
          rw (attach, somewhere)
            (let (m, e) =
                run_trace-err J others.resolvers web outside agent_run _ turns runs fails in
              after_trace-Fails _ _ m e)
    ]

    run_command-Fails :
        (shut_down : Bool)
        → Fails (run_command J web others agent_run shut_down listen (record_command args))
    unfolding run_command run_with_extractor
    run_command-Fails shut_down = from_extractor others.binary_extractor
      where
        from_extractor :
            (found : Result Outside)
            → Fails (with_extractor J web others agent_run listen (record_command args) found)
        from_extractor (err e) = (refl, (e, refl))
        from_extractor (ok outside) = run_started-Fails outside

    run-Fails :
        (shut_down : Bool)
        → let cli : Cli others = record { listen = listen; command = record_command args } in
          (main J web others agent_run shut_down cli ≡ some 1)
          × ((run J web others agent_run shut_down cli).acts ≡ signal_handler false ∷ [])
    unfolding run main exit_status command_uses_top_tui
    run-Fails shut_down =
        let (quiet, (m, e)) = run_command-Fails shut_down in
        (rw e refl, ap (◌∷◌ (signal_handler false)) quiet)

  -- Whatever a record is given, if it is given no command and the stream of its trace begins with the
  -- events of a probe whose output ends and whose exit status is no success, the process exits with the
  -- status 1 and no summary of the session is printed, if the uptime fits 64 bits and the
  -- probe's time field is one of the two in use.
  pub failing_probe_exit_status :
      (from_str : Text → Option J.Value) (now later : ℕ) (label source field status : Text)
      (reads rest : List Read) (last : Read) (turns : List (Turn J)) (args : RecordArgs)
      (listen : Text) (shut_down : Bool)
      → now < 2 ^ 64
      → (field ≡ codes "timestamp") ⊎ (field ≡ codes "timestamp_ns")
      → All GoesOn reads
      → Ends last
      → ((agent : TraceAgent others.Seed)
          → agent_run agent
            ≡ ok (
                nexts J
                  (events_of_failed J from_str now later label source field status reads last rest)
                ++ turns))
      → is_empty args.command ≡ true
      → let cli : Cli others = record { listen = listen; command = record_command args } in
        (main J web others agent_run shut_down cli ≡ some 1)
        × ((run J web others agent_run shut_down cli).acts ≡ signal_handler false ∷ [])
  failing_probe_exit_status from_str now later label source field status reads rest last turns args
        listen shut_down h f goes ends runs attach =
      run-Fails _ runs
        (λ print.
          failing_probe_stops_trace J from_str now later label source field status print reads rest
            last turns h f goes ends)
        args attach listen shut_down
