-- ===== src/Trace/Session/Silent.antt =====
-- How a silent trace ends.
use memguard_agent.Base.{
  ◌≡◌, refl, ap, ◌∙◌, inl, inr, Option, none, some, List, [], ◌∷◌, Option-cases, is_some, unwrap_or,
  length,
}
use memguard_agent.Base.Result.{Result, ok, err, ◌>>=◌, map_err, >>=-eq-ok}
use memguard_agent.Json.{Json}
use memguard_agent.Runner.{runner_error_from_event}
use memguard_agent.Text.{Text}
use memguard_agent.Trace.Agent.{Outside, TraceAgent, build_trace_agent_with_view}
use memguard_agent.Trace.Built.{asked, length-runners}
use memguard_agent.Trace.Drive.{
  Turn, next, no_next, shutdown, cancelled, deadline, IsFine, drain, is_cancelled,
  drive_until_cancel,
}
use memguard_agent.Trace.Server.Started.{map_err-ok, is_some-start_with}
use memguard_agent.Trace.Server.{Web, StartedWebServer, start_web_server_silent_if_enabled}
use memguard_agent.Trace.Session.Binary.{prepare-chosen}
use memguard_agent.Trace.Session.Ends.{StoppedAt, later_stop}
use memguard_agent.Trace.Session.{
  Resolvers, prepare, failed_to_start, map_turns, run_trace_silent_until_cancel,
}
use memguard_agent.Trace.{TraceConfig, default_server_listen}

module _ (J : Json) where
  -- A turn that does not end a silent loop.
  abbrev pub GoesOnSilently : Turn J → Type 0
  GoesOnSilently (next ev) = IsFine J ev
  GoesOnSilently no_next = ⊥
  GoesOnSilently shutdown = ⊥
  GoesOnSilently cancelled = ⊥
  GoesOnSilently deadline = Unit

  -- The stream's end, a shutdown or the cancellation.
  abbrev pub IsSilentStop : Turn J → Type 0
  IsSilentStop (next ev) = ⊥
  IsSilentStop no_next = Unit
  IsSilentStop shutdown = Unit
  IsSilentStop cancelled = Unit
  IsSilentStop deadline = ⊥

  abbrev pub Cancelled : List (Turn J) → Type 0
  Cancelled = StoppedAt J GoesOnSilently IsSilentStop

  at_once : (t : Turn J) (turns : List (Turn J)) → IsSilentStop t → Cancelled (t ∷ turns)
  at_once t turns stops = ([], t, turns, refl, tt, stops)

  drain-ok :
      (turns : List (Turn J)) → drain J (is_cancelled J) turns ≡ some (ok tt) → Cancelled turns
  unfolding drain
  drain-ok [] h = cc
  drain-ok (next ev ∷ turns) h = elim (Option-cases (runner_error_from_event J ev)) [
    | inl fine ↦
        later_stop J GoesOnSilently IsSilentStop (next ev) turns fine
          (drain-ok turns (rw (fine, drain) at h))
    | inr (message, bad) ↦ absurd (cc (rw (bad, drain) at h))
  ]
  drain-ok (no_next ∷ turns) h = at_once no_next turns tt
  drain-ok (shutdown ∷ turns) h = at_once shutdown turns tt
  drain-ok (cancelled ∷ turns) h = at_once cancelled turns tt
  drain-ok (deadline ∷ turns) h =
      later_stop J GoesOnSilently IsSilentStop deadline turns tt (drain-ok turns h)

  module _ {Seed : Type 0} (resolvers : Resolvers Seed) (web : Web) (outside : Outside)
      (agent_run : TraceAgent Seed → Result (List (Turn J))) (cfg : TraceConfig Seed) where
    abbrev pub url_of_server : Option (StartedWebServer web) → Option Text
    url_of_server none = none
    url_of_server (some s) = some s.url

    -- What a silent trace went through that returned this URL.
    pub record SilentlyCompleted (url : Option Text) : Type 0 where
      pub prepared : TraceConfig Seed
      pub agent : TraceAgent Seed
      pub server : Option (StartedWebServer web)
      pub turns : List (Turn J)
      pub prepare_is : prepare resolvers cfg ≡ ok prepared
      pub agent_is : build_trace_agent_with_view outside prepared ≡ ok agent
      pub server_is :
          start_web_server_silent_if_enabled web cfg.server
            (unwrap_or cfg.server_listen default_server_listen)
            cfg.server_port
            cfg.db_path
          ≡ ok server
      pub turns_are : agent_run agent ≡ ok turns
      pub all_runners : length agent.runners ≡ asked cfg
      pub url_is : url ≡ url_of_server server
      pub server_asked : is_some url ≡ cfg.server
      pub stopped : Cancelled turns

    abbrev Parts : Type 0
    Parts = Option (StartedWebServer web) × List (Turn J)

    -- The end of `run_trace_silent_until_cancel`.
    abbrev end_of : Result Parts → Option (Result (Option Text))
    end_of started = elim started [
      | err e ↦ some (err e)
      | ok (server, turns) ↦ elim (drive_until_cancel J turns) [
        | none ↦ none
        | some (err e) ↦ some (err e)
        | some (ok done) ↦ some (ok (elim server [ none ↦ none | some s ↦ some s.url ]))
      ]
    ]

    end_of-ok :
        (started : Result Parts) (url : Option Text)
        → end_of started ≡ some (ok url)
        → (server : Option (StartedWebServer web)) × (turns : List (Turn J)) × (started
            ≡ ok (server, turns))
          × (drive_until_cancel J turns ≡ some (ok tt))
          × (url ≡ url_of_server server)
    end_of-ok (err e) url h = cc
    end_of-ok (ok (server, turns)) url h =
        let (driven, same) = from_driven (drive_until_cancel J turns) server h in
        (server, turns, refl, driven, same)
      where
        from_driven :
            (d : Option (Result (Unit {0}))) (s : Option (StartedWebServer web))
            → (elim d [
              | none ↦ none
              | some (err e) ↦ some (err e)
              | some (ok done) ↦ some (ok (elim s [ none ↦ none | some t ↦ some t.url ]))
            ])
              ≡ some (ok url)
            → (d ≡ some (ok tt)) × (url ≡ url_of_server s)
        from_driven none s h = cc
        from_driven (some (err e)) s h = cc
        from_driven (some (ok done)) none h = (refl, cc)
        from_driven (some (ok done)) (some t) h = (refl, cc)

    map_turns-ok :
        (server : Option (StartedWebServer web)) (r : Result (List (Turn J))) (parts : Parts)
        → map_turns resolvers J web outside agent_run server r ≡ ok parts
        → (r ≡ ok parts.1) × (server ≡ parts.0)
    map_turns-ok server (ok turns) parts h =
        (ap ok (ap (λ (p : Parts). p.1) (same_parts h)), ap (λ (p : Parts). p.0) (same_parts h))
      where
        same_parts : ok (server, turns) ≡ ok parts → (server, turns) ≡ parts
        same_parts e = cc
    map_turns-ok server (err e) parts h = cc

    url_of_server-asked :
        (server : Option (StartedWebServer web)) → is_some (url_of_server server) ≡ is_some server
    url_of_server-asked none = refl
    url_of_server-asked (some s) = refl

    -- A silent trace that returns well has built an agent with as many runners as its configuration asks
    -- for; returns the URL of its server, if and only if it is to have one; and its stream had no runner's
    -- error before it ended, a shutdown came or it was cancelled.
    pub run_trace_silent-Completed :
        (url : Option Text)
        → run_trace_silent_until_cancel resolvers J web outside agent_run cfg ≡ some (ok url)
        → SilentlyCompleted url
    unfolding run_trace_silent_until_cancel
    run_trace_silent-Completed url h =
        let (server, turns, parts, driven, same_url) = end_of-ok _ url h in
        let (prepared, e₁, h₁) = >>=-eq-ok (prepare resolvers cfg) _ parts in
        let (agent, e₂, h₂) = >>=-eq-ok (build_trace_agent_with_view outside prepared) _ h₁ in
        let (made, e₃, h₃) =
          >>=-eq-ok
            (map_err failed_to_start (
              start_web_server_silent_if_enabled web cfg.server
                (unwrap_or cfg.server_listen default_server_listen) cfg.server_port cfg.db_path))
            _ h₂ in
        let (e₄, same) = map_turns-ok made (agent_run agent) (server, turns) h₃ in
        let (resolved, e₅, same_cfg) = prepare-chosen resolvers cfg prepared e₁ in
        let (count, positive) = length-runners outside prepared agent e₂ in
        let started = map_err-ok failed_to_start _ server (e₃ ∙ ap ok same) in
        record {
          prepared = prepared;
          agent = agent;
          server = server;
          turns = turns;
          prepare_is = e₁;
          agent_is = e₂;
          server_is = started;
          turns_are = e₄;
          all_runners = count ∙ ap asked same_cfg;
          url_is = same_url;
          server_asked =
              ap is_some same_url
              ∙ url_of_server-asked server
              ∙ is_some-start_with web
                  (λ db. web.new_with_db_path db >>= λ made. ok (web.with_live_host made))
                  cfg.server _ cfg.server_port cfg.db_path server
                  (unfold start_web_server_silent_if_enabled in started);
          stopped = drain-ok turns (unfold drive_until_cancel in driven);
        }
