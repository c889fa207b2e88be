-- ===== src/Trace/Session.antt =====
-- overlay/collector/src/cmd_trace.rs: `run_trace`, `run_trace_silent_until_cancel` and `run_debug_runner`
-- as a whole, from a configuration to what the loop over the event stream returns. The notices on the
-- terminal are left out, the events that are printed are not.
pub mod Binary
pub mod Ends
pub mod Silent
use memguard_agent.Base.{
  ℕ, Bool, not, ◌&&◌, Option, none, some, List, [], ◌++◌, if◌then◌else◌, is_none, unwrap_or,
  and_then,
}
use memguard_agent.Base.Result.{Result, ok, err, ◌>>=◌, map_err}
use memguard_agent.Json.{Json}
use memguard_agent.Text.{Text, codes, contains}
use memguard_agent.Trace.Agent.{
  Outside, TraceAgent, build_trace_agent_with_view, prepare_process_seeds,
}
use memguard_agent.Trace.Drive.{Turn, Driven, drive_stream_until_shutdown, drive_until_cancel}
use memguard_agent.Trace.Server.{
  Web, StartedWebServer, start_web_server_if_enabled, start_web_server_silent_if_enabled,
}
use memguard_agent.Trace.{TraceConfig, default_server_listen}

-- What other modules of the collector find out about the system: `resolve_container_binary_arg`,
-- `resolve_binary_path_for_ssl` and the process seeds.
pub record Resolvers (Seed : Type 0) : Type 0 where
  pub container_binary : Option Text → Result (Option (Text × Text))
  pub binary_path_for_ssl : Text → Result (Option Text)
  pub seeds : TraceConfig Seed → Result (List Seed)

-- `.ok().flatten()`
abbrev pub ok_flatten : Result (Option Text) → Option Text
ok_flatten (ok found) = found
ok_flatten (err e) = none

-- `.filter(|c| !c.contains(','))`
abbrev pub single_name : Option Text → Option Text
single_name none = none
single_name (some c) = if not (contains c (codes ",")) then some c else none

abbrev pub failed_to_start : Text → Text
failed_to_start e = codes "Failed to start server: " ++ e

-- The end of a trace that fails before its stream is driven.
abbrev pub driven_if_ok : {J : Json} {A : Type 0} → Result A → (A → Driven J) → Driven J
driven_if_ok (err e) next = record { result = some (err e); printed = [] }
driven_if_ok (ok a) next = next a

module _ {Seed : Type 0} where
  abbrev pub with_binary_path : TraceConfig Seed → Option Text → TraceConfig Seed
  with_binary_path cfg none = cfg
  with_binary_path cfg (some path) = record cfg { binary_path = some path }

  module _ (resolvers : Resolvers Seed) where
    open resolvers use {container_binary, binary_path_for_ssl, seeds}

    unfoldable pub resolve_container : TraceConfig Seed → Result (TraceConfig Seed)
    resolve_container cfg = container_binary cfg.binary_path >>= λ resolved.
        ok (
          with_binary_path cfg (elim resolved [ none ↦ none | some (reference, path) ↦ some path ]))

    unfoldable pub discover_ssl_binary : TraceConfig Seed → TraceConfig Seed
    discover_ssl_binary cfg =
        if cfg.ssl && is_none cfg.binary_path
        then with_binary_path cfg
            (and_then (single_name cfg.comm) (λ c. ok_flatten (binary_path_for_ssl c)))
        else cfg

    -- The configuration that the agent is built from.
    unfoldable pub prepare : TraceConfig Seed → Result (TraceConfig Seed)
    unfolding resolve_container discover_ssl_binary prepare_process_seeds
    prepare cfg = resolve_container cfg >>= λ resolved.
        prepare_process_seeds seeds (discover_ssl_binary resolved)

    module _ (J : Json) (web : Web) (outside : Outside) where
      -- `agent_run` gives what a loop over the agent's stream takes, turn by turn.
      module _ (agent_run : TraceAgent Seed → Result (List (Turn J))) where
        unfoldable pub run_trace : TraceConfig Seed → Driven J
        unfolding prepare build_trace_agent_with_view start_web_server_if_enabled
            drive_stream_until_shutdown
        run_trace cfg = driven_if_ok (prepare cfg) λ prepared.
            driven_if_ok (build_trace_agent_with_view outside prepared) λ agent.
              driven_if_ok
                (map_err failed_to_start (
                  start_web_server_if_enabled web cfg.server
                    (unwrap_or cfg.server_listen default_server_listen) cfg.server_port none))
                λ server.
                  driven_if_ok (agent_run agent)
                    λ turns. drive_stream_until_shutdown J (not cfg.quiet) turns

        abbrev pub map_turns :
            Option (StartedWebServer web)
            → Result (List (Turn J))
            → Result (Option (StartedWebServer web) × List (Turn J))
        map_turns server (ok turns) = ok (server, turns)
        map_turns server (err e) = err e

        -- The URL of the server, where one was asked for; `none` where the loop still waits.
        unfoldable pub run_trace_silent_until_cancel :
            TraceConfig Seed → Option (Result (Option Text))
        unfolding prepare build_trace_agent_with_view start_web_server_silent_if_enabled
            drive_until_cancel
        run_trace_silent_until_cancel cfg =
            let started : Result (Option (StartedWebServer web) × List (Turn J)) =
              prepare cfg >>= λ prepared. build_trace_agent_with_view outside prepared >>= λ agent.
              map_err failed_to_start (
                start_web_server_silent_if_enabled web cfg.server
                  (unwrap_or cfg.server_listen default_server_listen) cfg.server_port cfg.db_path)
              >>= λ server. map_turns server (agent_run agent) in
            elim started [
              | err e ↦ some (err e)
              | ok (server, turns) ↦ elim (drive_until_cancel J turns) [
                | none ↦ none
                | some (err e) ↦ some (err e)
                | some (ok done) ↦ some (ok (elim server [ none ↦ none | some s ↦ some s.url ]))
              ]
            ]

      -- `runner_run` gives the turns of the runner with the analyzer that fills the view.
      unfoldable pub run_debug_runner : Result (List (Turn J)) → Bool → Bool → Text → ℕ → Driven J
      unfolding start_web_server_if_enabled drive_stream_until_shutdown
      run_debug_runner runner_run quiet enable_server server_listen server_port =
          driven_if_ok
            (map_err failed_to_start
              (start_web_server_if_enabled web enable_server server_listen server_port none))
            λ server.
              driven_if_ok runner_run λ turns. drive_stream_until_shutdown J (not quiet) turns
