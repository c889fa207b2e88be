-- ===== src/Trace/Session/Ends.antt =====
-- How a trace ends.
use memguard_agent.Base.{
  ◌<◌, ◌≡◌, refl, sym, ap, ◌∙◌, inl, inr, Bool, not, Option, none, some, List, [], ◌∷◌, ◌++◌,
  Option-cases, is_some, unwrap_or, length, All,
}
use memguard_agent.Base.Result.{Result, ok, err, map_err}
use memguard_agent.Json.{Json}
use memguard_agent.Runner.{runner_error_from_event}
use memguard_agent.Text.{Text}
use memguard_agent.Trace.Agent.{Outside, TraceAgent, build_trace_agent_with_view}
use memguard_agent.Trace.Built.{asked, length-runners}
use memguard_agent.Trace.Drive.{
  Turn, next, no_next, shutdown, cancelled, deadline, Driven, IsFine, drive_stream_until_shutdown,
  next-fine, next-err,
}
use memguard_agent.Trace.Server.Started.{map_err-ok, is_some-start_with}
use memguard_agent.Trace.Server.{
  Web, StartedWebServer, start_web_server_if_enabled, web_server_for_capture,
}
use memguard_agent.Trace.Session.Binary.{prepare-chosen}
use memguard_agent.Trace.Session.{Resolvers, prepare, driven_if_ok, failed_to_start, run_trace}
use memguard_agent.Trace.{TraceConfig, default_server_listen}

module _ (J : Json) where
  -- A turn that ends no printing loop.
  abbrev pub GoesOnTurn : Turn J → Type 0
  GoesOnTurn (next ev) = IsFine J ev
  GoesOnTurn no_next = ⊥
  GoesOnTurn shutdown = ⊥
  GoesOnTurn cancelled = Unit
  GoesOnTurn deadline = Unit

  -- The stream's end, or a shutdown.
  abbrev pub IsStop : Turn J → Type 0
  IsStop (next ev) = ⊥
  IsStop no_next = Unit
  IsStop shutdown = Unit
  IsStop cancelled = ⊥
  IsStop deadline = ⊥

  -- A list of turns that goes on up to one that stops.
  abbrev pub StoppedAt : (Turn J → Type 0) → (Turn J → Type 0) → List (Turn J) → Type 0
  StoppedAt GoesOn Stops turns =
      (before : List (Turn J)) × (stop : Turn J) × (after : List (Turn J)) × (turns
        ≡ before ++ (stop ∷ after))
      × All GoesOn before
      × Stops stop

  abbrev pub Stopped : List (Turn J) → Type 0
  Stopped = StoppedAt GoesOnTurn IsStop

  pub later_stop :
      (GoesOn Stops : Turn J → Type 0) (t : Turn J) (turns : List (Turn J))
      → GoesOn t
      → StoppedAt GoesOn Stops turns
      → StoppedAt GoesOn Stops (t ∷ turns)
  later_stop GoesOn Stops t turns goes (before, stop, after, e, fine, stops) =
      (t ∷ before, stop, after, ap (◌∷◌ t) e, (goes, fine), stops)

  drive_stream-ok :
      (print : Bool) (turns : List (Turn J))
      → (drive_stream_until_shutdown J print turns).result ≡ some (ok tt)
      → Stopped turns
  unfolding drive_stream_until_shutdown
  drive_stream-ok print [] h = cc
  drive_stream-ok print (next ev ∷ turns) h = elim (Option-cases (runner_error_from_event J ev)) [
    | inl fine ↦
        later_stop GoesOnTurn IsStop (next ev) turns fine
          (drive_stream-ok print turns (sym (next-fine J print ev turns fine) ∙ h))
    | inr (message, bad) ↦ absurd (cc (next-err J print ev turns message bad, h))
  ]
  drive_stream-ok print (no_next ∷ turns) h = ([], no_next, turns, refl, tt, tt)
  drive_stream-ok print (shutdown ∷ turns) h = ([], shutdown, turns, refl, tt, tt)
  drive_stream-ok print (cancelled ∷ turns) h =
      later_stop GoesOnTurn IsStop cancelled turns tt (drive_stream-ok print turns h)
  drive_stream-ok print (deadline ∷ turns) h =
      later_stop GoesOnTurn IsStop deadline turns tt (drive_stream-ok print turns h)

  driven-ok :
      {A : Type 0} (r : Result A) (drive : A → Driven J)
      → (driven_if_ok r drive).result ≡ some (ok tt)
      → (a : A) × (r ≡ ok a) × ((drive a).result ≡ some (ok tt))
  driven-ok (err e) drive h = cc
  driven-ok (ok a) drive h = (a, refl, h)

  module _ {Seed : Type 0} (resolvers : Resolvers Seed) (web : Web) (outside : Outside)
      (agent_run : TraceAgent Seed → Result (List (Turn J))) (cfg : TraceConfig Seed) where
    -- What a trace went through.
    pub record Completed : Type 0 where
      pub prepared : TraceConfig Seed
      pub agent : TraceAgent Seed
      pub server : Option (StartedWebServer web)
      pub turns : List (Turn J)
      pub prepare_is : prepare resolvers cfg ≡ ok prepared
      pub agent_is : build_trace_agent_with_view outside prepared ≡ ok agent
      pub server_is :
          start_web_server_if_enabled web cfg.server
            (unwrap_or cfg.server_listen default_server_listen)
            cfg.server_port
            none
          ≡ ok server
      pub turns_are : agent_run agent ≡ ok turns
      pub all_runners : length agent.runners ≡ asked cfg
      pub some_runner : 0 < length agent.runners
      pub server_asked : is_some server ≡ cfg.server
      pub stopped : Stopped turns

    -- A trace that succeeds has built an agent with as many runners as its configuration asks for, and
    -- at least one; has a server if and only if it is to have one; and its stream had no runner's error
    -- before it ended or a shutdown came.
    pub run_trace-Completed :
        (run_trace resolvers J web outside agent_run cfg).result ≡ some (ok tt) → Completed
    unfolding run_trace
    run_trace-Completed h =
        let (prepared, e₁, h₁) = driven-ok (prepare resolvers cfg) _ h in
        let (agent, e₂, h₂) = driven-ok (build_trace_agent_with_view outside prepared) _ h₁ in
        let (server, e₃, h₃) =
          driven-ok
            (map_err failed_to_start (
              start_web_server_if_enabled web cfg.server
                (unwrap_or cfg.server_listen default_server_listen) cfg.server_port none))
            _ h₂ in
        let (turns, e₄, h₄) = driven-ok (agent_run agent) _ h₃ in
        let (resolved, e₅, same) = prepare-chosen resolvers cfg prepared e₁ in
        let (count, positive) = length-runners outside prepared agent e₂ in
        let started = map_err-ok failed_to_start _ server e₃ in
        record {
          prepared = prepared;
          agent = agent;
          server = server;
          turns = turns;
          prepare_is = e₁;
          agent_is = e₂;
          server_is = started;
          turns_are = e₄;
          all_runners = count ∙ ap asked same;
          some_runner = positive;
          server_asked =
              is_some-start_with web (web_server_for_capture web) cfg.server _ cfg.server_port none
                server started;
          stopped = drive_stream-ok (not cfg.quiet) turns h₄;
        }

    driven-err :
        {A : Type 0} (r : Result A) (drive : A → Driven J)
        → ((a : A) → r ≡ ok a → (m : Text) × ((drive a).result ≡ some (err m)))
        → (m : Text) × ((driven_if_ok r drive).result ≡ some (err m))
    driven-err (err e) drive h = (e, refl)
    driven-err (ok a) drive h = h a refl

    -- A trace whose stream makes every loop fail fails, wherever it gets to.
    pub run_trace-err :
        (turns : List (Turn J))
        → ((agent : TraceAgent Seed) → agent_run agent ≡ ok turns)
        → ((print : Bool)
            → (m : Text) × ((drive_stream_until_shutdown J print turns).result ≡ some (err m)))
        → (m : Text) × ((run_trace resolvers J web outside agent_run cfg).result ≡ some (err m))
    unfolding run_trace
    run_trace-err turns runs fails = driven-err (prepare resolvers cfg) _ λ prepared e₁.
        driven-err (build_trace_agent_with_view outside prepared) _ λ agent e₂.
          driven-err
            (map_err failed_to_start (
              start_web_server_if_enabled web cfg.server
                (unwrap_or cfg.server_listen default_server_listen) cfg.server_port none))
            _ λ server e₃. rw (runs agent) (fails (not cfg.quiet))
