-- ===== src/Trace/Chain/Printed.antt =====
-- From a line that the probe prints to the event that goes through the runner's analyzers.
use memguard_agent.Base.Result.{Result, ok, >>=-eq-ok}
use memguard_agent.Base.{
  ℕ, ◌+◌, ◌≡◌, refl, sym, ap, subst, inl, inr, Bool, Option, none, some, List, [], ◌∷◌, ◌++◌,
  if_intro, All, Elem, Elem-append_left,
}
use mathlib.Core.Path.{ap₂}
use memguard_agent.Alert.Sink.{Channel}
use memguard_agent.Event.{Event, Files}
use memguard_agent.Json.{Json}
use memguard_agent.Probe.Line.{Printed, handle_event}
use memguard_agent.Probe.Read.{runner_event}
use memguard_agent.Probe.{MemwriteEvent}
use memguard_agent.Runner.Binary.{
  BinaryRunner, BinaryExecutor, command, startup_check, startup_delay_ms,
}
use memguard_agent.Runner.Run.{Child, stamped, get_json_stream, runner_label}
use memguard_agent.Runner.Stream.Lines.{GoesOn}
use memguard_agent.Runner.Stream.{
  Read, Wait, line, end_of_output, interrupted, failed, parse_line, yield, read_loop, json_stream,
  after_exit,
}
use memguard_agent.Runner.{parse_json_event, parse_stream}
use memguard_agent.Text.Lowercase.{Lowercase}
use memguard_agent.Text.{Text, Bytes, codes}
use memguard_agent.Trace.Agent.{Analyzer}
use memguard_agent.Trace.Chain.{Flow, through, run_through}

module _ (J : Json) where
  -- Each value of a stream gives its event, at some uptime and with some count of errors.
  parse_stream-Elem :
      (source field : Text) (at : ℕ → ℕ) (n : ℕ) (vs : List J.Value) (errors : ℕ) (v : J.Value)
      → Elem v vs
      → (now : ℕ) × (count : ℕ) × Elem
          (parse_json_event J now source field v count).0
          (parse_stream J source field (stamped J at n vs) errors).0
  unfolding parse_stream
  parse_stream-Elem source field at n [] errors v m = elim m [ ]
  parse_stream-Elem source field at n (w ∷ vs) errors v (inl same) = (
    at n,
    errors,
    inl (ap (λ (x : J.Value). (parse_json_event J (at n) source field x errors).0) same),
  )
  parse_stream-Elem source field at n (w ∷ vs) errors v (inr m) =
      let (now, count, there) =
        parse_stream-Elem source field at (n + 1) vs
          (parse_json_event J (at n) source field w errors).1 v m in
      (now, count, inr there)

  module _ (from_str : Text → Option J.Value) where
    yield-Elem :
        (m : Option J.Value) (vs : List J.Value) (v : J.Value)
        → Elem v vs
        → Elem v (yield J from_str m vs)
    yield-Elem none vs v h = h
    yield-Elem (some w) vs v h = inr h

    read_loop-Elem :
        (before rest : List Read) (bytes : Bytes) (v : J.Value)
        → All GoesOn before
        → parse_line J from_str bytes ≡ some v
        → Elem v (read_loop J from_str (before ++ (line bytes ∷ rest))).0
    unfolding read_loop
    read_loop-Elem [] rest bytes v g h = rw h (inl refl)
    read_loop-Elem (line b ∷ before) rest bytes v g h =
        yield-Elem (parse_line J from_str b) _ v (read_loop-Elem before rest bytes v g.1 h)
    read_loop-Elem (interrupted ∷ before) rest bytes v g h =
        read_loop-Elem before rest bytes v g.1 h
    read_loop-Elem (end_of_output ∷ before) rest bytes v g h = absurd g.0
    read_loop-Elem (failed ∷ before) rest bytes v g h = absurd g.0

    json_stream-Elem :
        (now : ℕ) (label : Text) (reads : List Read) (wait : Wait) (v : J.Value)
        → Elem v (read_loop J from_str reads).0
        → Elem v (json_stream J from_str now label reads wait)
    unfolding json_stream
    json_stream-Elem now label reads wait v h =
        if_intro (Elem v) (read_loop J from_str reads).1 _ _
          (λ t. Elem-append_left v _ (after_exit J now label wait) h) (λ t. h)

    -- The stream of a probe that was started.
    get_json_stream-child :
        (file_name : Text → Option Text) (needs_sudo : Bool) (spawn : List Text → Result Child)
        (e : BinaryExecutor) (child : Child) (started : Child × List J.Value)
        → spawn (command needs_sudo e) ≡ ok child
        → get_json_stream J from_str file_name needs_sudo spawn e ≡ ok started
        → (
          child,
          json_stream J from_str child.uptime
              (runner_label file_name e.runner_name e.binary_path)
              child.reads
              child.wait,
        )
          ≡ started
    unfolding get_json_stream
    get_json_stream-child file_name needs_sudo spawn e child started spawned got =
        let (checked, fine, last) =
          >>=-eq-ok (startup_check needs_sudo e child.tried (startup_delay_ms needs_sudo e)) _
            (rw spawned at got) in
        ok-injective last
      where
        ok-injective : {x y : Child × List J.Value} → ok x ≡ ok y → x ≡ y
        ok-injective h = cc

    module _ (printed : Printed) (U : Lowercase) (files_at : ℕ → Files)
        (elsewhere : Analyzer → List (Event J) → Result (List (Event J)))
        (file_name : Text → Option Text) (needs_sudo : Bool)
        (spawn : List Text → Result Child) where
      -- A line of a probe that was started, which reads as the object of an event, is among the events
      -- that go through the analyzers of its runner, whether or not the probe's output has ended.
      pub run_through-Elem :
          (r : BinaryRunner Analyzer) (child : Child) (before rest : List Read) (bytes : Bytes)
          (e : MemwriteEvent) (link : Option Bytes) (channel : Channel) (flow : Flow J)
          → r.source ≡ codes "memwrite"
          → r.timestamp_field ≡ codes "timestamp"
          → spawn (command needs_sudo r.executor) ≡ ok child
          → child.reads ≡ before ++ (line bytes ∷ rest)
          → All GoesOn before
          → parse_line J from_str bytes ≡ some (handle_event J printed link e)
          → run_through J U files_at elsewhere from_str file_name needs_sudo spawn r channel
            ≡ ok flow
          → (events : List (Event J)) × (now : ℕ) × (errors : ℕ) × Elem
              (runner_event J printed link e now errors)
              events
            × (through J U files_at elsewhere r (record { events = events; channel = channel })
                ≡ ok flow)
      unfolding run_through
      run_through-Elem r child before rest bytes e link channel flow from field spawned reads goes
            reads_as went =
          let (started, got, through_went) =
            >>=-eq-ok (get_json_stream J from_str file_name needs_sudo spawn r.executor) _ went in
          let is =
            get_json_stream-child file_name needs_sudo spawn r.executor child started spawned got in
          let v = handle_event J printed link e in
          let read : Elem v (read_loop J from_str child.reads).0 =
            subst (λ (rs : List Read). Elem v (read_loop J from_str rs).0) (sym reads)
              (read_loop-Elem before rest bytes v goes reads_as) in
          let streamed : Elem v started.1 =
            subst (λ (x : Child × List J.Value). Elem v x.1) is
              (json_stream-Elem child.uptime _ child.reads child.wait v read) in
          let (now, errors, there) =
            parse_stream-Elem r.source r.timestamp_field started.0.uptime_at 0 started.1 0 v
              streamed in
          (
            _,
            now,
            errors,
            subst
                (λ (x : Event J).
                  Elem x
                    (parse_stream J r.source r.timestamp_field
                      (stamped J started.0.uptime_at 0 started.1) 0).0)
                (ap₂ (λ (a b : Text). (parse_json_event J now a b v errors).0) from field) there,
            through_went,
          )
