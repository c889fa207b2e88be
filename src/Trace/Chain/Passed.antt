-- ===== src/Trace/Chain/Passed.antt =====
-- What the analyzers of the memwrite runner make of an event that is marked.
use memguard_agent.Base.Result.{Result, ok, err}
use memguard_agent.Base.{
  ℕ, ◌+◌, ◌≡◌, refl, sym, ap, ◌∙◌, subst, inl, inr, true, false, Option, some, List, [], ◌∷◌, map,
  arith, Bool-cases, and_then, Elem,
}
use memguard_agent.Alert
use memguard_agent.Alert.Lifetime
use memguard_agent.Alert.Lifetime.Kept.{pushed, live-delivers}
use memguard_agent.Alert.Lifetime.Linked.{KeepsRuntime}
use memguard_agent.Alert.Lifetime.{Move, live}
use memguard_agent.Alert.{Alert}
use memguard_agent.Event.{Event, Files}
use memguard_agent.Json.{Json}
use memguard_agent.Pipeline.Pushed.{put, empty_channel, Reports-in_batch}
use memguard_agent.Pipeline.{alert_with}
use memguard_agent.Poison.Detect.{MarkedWith, path_or_empty}
use memguard_agent.Poison.Process.{is_mem_write, mark, matched_of, process_event}
use memguard_agent.Poison.Reports.{Reports}
use memguard_agent.Poison.{PoisonAnalyzer}
use memguard_agent.Runner.Binary.{BinaryRunner, process_through_analyzers}
use memguard_agent.Text.Lowercase.{Lowercase}
use memguard_agent.Text.{Text, codes}
use memguard_agent.Trace.Agent.{
  Analyzer, timestamp_normalizer, alert_config, memwrite_runner, TraceAgent, Outside, binary,
  read_rules, build_trace_agent_with_view,
}
use memguard_agent.Trace.Chain.Found.{memwrite_runner-found}
use memguard_agent.Trace.Chain.{Flow, met, analyze, through}
use memguard_agent.Trace.Memwrite.{memwrite_runner-analyzers, prefix_of, rules_of}
use memguard_agent.Trace.{TraceConfig}

-- The analyzer that a configuration asks for, with the rules that are read.
abbrev pub configured : {Seed : Type 0} → TraceConfig Seed → List Text → PoisonAnalyzer
configured cfg rules = record { prefix = prefix_of cfg; rules = rules_of cfg rules }

module _ (J : Json) where
  -- The event with another time.
  abbrev pub retimed : (ℕ → ℕ) → Event J → Event J
  retimed time ev = record ev { timestamp = time ev.timestamp }

  mark-retimed :
      (time : ℕ → ℕ) (ev : Event J) (matched : List Text)
      → mark J (retimed time ev) matched ≡ retimed time (mark J ev matched)
  unfolding mark
  mark-retimed time ev matched = ground arith

  module _ (U : Lowercase) (a : PoisonAnalyzer) (files : Files) where
    process_event-retimed :
        (time : ℕ → ℕ) (ev : Event J)
        → process_event J U a files (retimed time ev)
          ≡ and_then (process_event J U a files ev) (λ e. some (retimed time e))
    unfolding process_event is_mem_write matched_of
    process_event-retimed time ev = elim (Bool-cases (is_mem_write J ev)) [
      | inl w ↦ rw w (ap some (mark-retimed time ev (matched_of J U a files ev)))
      | inr n ↦ rw n refl
    ]

    -- A mark does not hang on the time.
    pub Reports-retimed :
        (time : ℕ → ℕ) (ev : Event J) (matched : List Text)
        → Reports J U a files ev matched
        → Reports J U a files (retimed time ev) matched
    Reports-retimed time ev matched (passed, marked) = (
      process_event-retimed time ev
          ∙ ap (λ (o : Option (Event J)). and_then o (λ e. some (retimed time e))) passed
          ∙ ap some (sym (mark-retimed time ev matched)),
      subst (λ (e : Event J). MarkedWith J e matched (path_or_empty J ev))
          (sym (mark-retimed time ev matched)) marked,
    )

  pub met-Elem :
      (files_at : ℕ → Files) (n : ℕ) (ev : Event J) (evs : List (Event J))
      → Elem ev evs
      → (m : ℕ) × Elem (files_at m, ev) (met J files_at n evs)
  met-Elem files_at n ev [] m = elim m [ ]
  met-Elem files_at n ev (e ∷ evs) (inl same) =
      (n, inl (ap (λ (x : Event J). (files_at n, x)) same))
  met-Elem files_at n ev (e ∷ evs) (inr m) =
      let (i, there) = met-Elem files_at (n + 1) ev evs m in (i, inr there)

  pub retimed-Elem :
      (time : ℕ → ℕ) (ev : Event J) (evs : List (Event J))
      → Elem ev evs
      → Elem (retimed time ev) (map (retimed time) evs)
  retimed-Elem time ev [] m = elim m [ ]
  retimed-Elem time ev (e ∷ evs) (inl same) = inl (ap (retimed time) same)
  retimed-Elem time ev (e ∷ evs) (inr m) = inr (retimed-Elem time ev evs m)

  module _ {Seed : Type 0} (cfg : TraceConfig Seed) (U : Lowercase) (files_at : ℕ → Files)
      (elsewhere : Analyzer → List (Event J) → Result (List (Event J))) (time : ℕ → ℕ)
      (events : List (Event J)) (on : Alert.enabled (alert_config cfg) ≡ true)
      (normalized : elsewhere timestamp_normalizer events ≡ ok (map (retimed time) events)) where
    abbrev given : List (Files × Event J)
    given = met J files_at 0 (map (retimed time) events)

    -- What the sink of the memwrite runner has put into its channel.
    pub through-put :
        (bin : Text) (rules : List Text) (flow : Flow J)
        → through J U files_at elsewhere
            (memwrite_runner cfg bin rules)
            (record { events = events; channel = empty_channel })
          ≡ ok flow
        → flow.channel.buffered ≡ put J U (configured cfg rules) (alert_config cfg) on given
    unfolding through analyze process_through_analyzers
    through-put bin rules flow h =
        sym (ap buffered (rw (memwrite_runner-analyzers cfg bin rules, on, normalized) at h))
      where
        buffered : Result (Flow J) → List Alert
        buffered (ok f) = f.channel.buffered
        buffered (err e) = []

module _ (J : Json) (U : Lowercase) {Seed : Type 0} (outside : Outside) (cfg : TraceConfig Seed)
    (on : Alert.enabled (alert_config cfg) ≡ true) where
  -- An event that the configured analyzer marks, whatever turn it comes at, is pushed.
  pub Reports-alarmed :
      (agent : TraceAgent Seed) (r : BinaryRunner Analyzer) (rules : List Text) (ev : Event J)
      (P : List Text → Type 0) (files_at : ℕ → Files)
      (elsewhere : Analyzer → List (Event J) → Result (List (Event J))) (time : ℕ → ℕ)
      (events : List (Event J)) (flow : Flow J) (ms : List Move)
      → build_trace_agent_with_view outside cfg ≡ ok agent
      → Elem (binary r) agent.runners
      → r.source ≡ codes "memwrite"
      → read_rules outside cfg.memwrite_rules ≡ ok rules
      → ((i : ℕ)
          → (matched : List Text) × (x : Text) × Reports J U
              (configured cfg rules)
              (files_at i)
              ev
              matched
            × Elem x matched
            × P matched)
      → Elem ev events
      → elsewhere timestamp_normalizer events ≡ ok (map (retimed J time) events)
      → through J U files_at elsewhere r (record { events = events; channel = empty_channel })
        ≡ ok flow
      → pushed (alert_config cfg) Lifetime.new ms ≡ flow.channel.buffered
      → KeepsRuntime ms
      → (live (alert_config cfg) Lifetime.new ms).task.running ≡ false
      → (matched : List Text) × P matched
        × (batch : List Alert) × Elem batch (live (alert_config cfg) Lifetime.new ms).task.flushed
        × Elem (alert_with J (retimed J time ev) matched) batch
  Reports-alarmed agent r rules ev P files_at elsewhere time events flow ms built there from
        was_read reported m normalized went all k' stopped =
      let (bin, rules', _, read', is) =
        memwrite_runner-found outside cfg agent r built there from in
      let (i, met_there) =
        met-Elem J files_at 0 (retimed J time ev) (map (retimed J time) events)
          (retimed-Elem J time ev events m) in
      let same_rules : rules' ≡ rules = ok-injective (sym read' ∙ was_read) in
      let went' =
        subst
          (λ (x : BinaryRunner Analyzer).
            through J U files_at elsewhere x (record { events = events; channel = empty_channel })
            ≡ ok flow)
          (is ∙ ap (memwrite_runner cfg bin) same_rules) went in
      let (matched, x, reports, found, holds) = reported i in
      let (batch, flushed, in_batch) =
        Reports-in_batch J U (configured cfg rules) (alert_config cfg) on
          (met J files_at 0 (map (retimed J time) events)) (files_at i) (retimed J time ev) x
          matched (live (alert_config cfg) Lifetime.new ms).task.flushed met_there
          (Reports-retimed J U (configured cfg rules) (files_at i) time ev matched reports) found
          ((live-delivers (alert_config cfg) on ms k' stopped).1
            ∙ all
            ∙ through-put J cfg U files_at elsewhere time events on normalized bin rules flow
                went') in
      (matched, holds, batch, flushed, in_batch)
    where
      ok-injective : {x y : List Text} → ok x ≡ ok y → x ≡ y
      ok-injective h = cc
