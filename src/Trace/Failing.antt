-- ===== src/Trace/Failing.antt =====
-- From a probe that fails to the trace that it ends.
use memguard_agent.Base.Result.{err}
use memguard_agent.Base.{
  ℕ, ◌^◌, ◌<◌, ◌≡◌, refl, ap, ◌⊎◌, inl, inr, Bool, false, Option, some, List, [], ◌∷◌, ◌++◌, All,
  Elem, Elem-append_right,
}
use memguard_agent.Event.{Event}
use memguard_agent.Json.{Json}
use memguard_agent.Runner.Failure.{runner_error_from_event-parse_json_event}
use memguard_agent.Runner.Stream.Lines.{GoesOn, Ends, lines_of, values_of, json_stream-values_of}
use memguard_agent.Runner.Stream.{Read, exited, json_stream, after_exit}
use memguard_agent.Runner.{runner_error_json, parse_json_event, parse_stream}
use memguard_agent.Text.{Text, codes}
use memguard_agent.Trace.Drive.{Turn, nexts, drive_stream_until_shutdown, drive_stream-err}

module _ (J : Json) where
  -- Each value of a stream is parsed to an event of it.
  parse_stream-Elem :
      (runner field : Text) (now : ℕ) (v : J.Value) (vs : List (ℕ × J.Value)) (errors : ℕ)
      → Elem (now, v) vs
      → (count : ℕ) × Elem
          (parse_json_event J now runner field v count).0
          (parse_stream J runner field vs errors).0
  unfolding parse_stream
  parse_stream-Elem runner field now v [] errors m = elim m [ ]
  parse_stream-Elem runner field now v ((t, w) ∷ vs) errors (inl e) =
      (errors, inl (ap (λ (p : ℕ × J.Value). (parse_json_event J p.0 runner field p.1 errors).0) e))
  parse_stream-Elem runner field now v ((t, w) ∷ vs) errors (inr m) =
      let (count, found) =
        parse_stream-Elem runner field now v vs (parse_json_event J t runner field w errors).1 m in
      (count, inr found)

  -- The values of a stream with the uptime at which each is parsed.
  abbrev pub timed : ℕ → List J.Value → List (ℕ × J.Value)
  timed now [] = []
  timed now (v ∷ vs) = (now, v) ∷ timed now vs

  timed-Elem :
      (now : ℕ) (v : J.Value) (vs : List J.Value) → Elem v vs → Elem (now, v) (timed now vs)
  timed-Elem now v [] m = elim m [ ]
  timed-Elem now v (w ∷ vs) (inl e) = inl (ap (λ (x : J.Value). (now, x)) e)
  timed-Elem now v (w ∷ vs) (inr m) = inr (timed-Elem now v vs m)

  module _ (from_str : Text → Option J.Value) (now later : ℕ)
      (label source field status : Text) where
    -- The events of a probe whose output ends and whose exit status is no success.
    abbrev pub events_of_failed : List Read → Read → List Read → List (Event J)
    events_of_failed reads last rest =
        (parse_stream J source field
          (timed later
            (json_stream J from_str now label (reads ++ (last ∷ rest)) (exited false status)))
          0).0

    -- A trace that reads the events of a probe whose output ends and whose exit status is no
    -- success, as they are and before any other turn, ends with an error, whatever the probe wrote
    -- before, where the uptime fits 64 bits and the probe's time field is one of the two in use.
    pub failing_probe_stops_trace :
        (print : Bool) (reads rest : List Read) (last : Read) (turns : List (Turn J))
        → now < 2 ^ 64
        → (field ≡ codes "timestamp") ⊎ (field ≡ codes "timestamp_ns")
        → All GoesOn reads
        → Ends last
        → (m : Text) × ((drive_stream_until_shutdown J print
              (nexts J (events_of_failed reads last rest) ++ turns)).result
            ≡ some (err m))
    failing_probe_stops_trace print reads rest last turns h f goes ends =
        let message = label ++ (codes " exited with " ++ status) in
        let failure = runner_error_json J now label message in
        let there : Elem failure
            (json_stream J from_str now label (reads ++ (last ∷ rest)) (exited false status)) =
          rw
            (json_stream-values_of J from_str now label reads rest last (exited false status) goes
              ends)
            (Elem-append_right failure (values_of J from_str (lines_of reads)) _
              (unfold after_exit in inl refl)) in
        let (count, found) =
          parse_stream-Elem source field later failure _ 0 (timed-Elem later failure _ there) in
        drive_stream-err J print (events_of_failed reads last rest) turns _ message found (
          runner_error_from_event-parse_json_event J now label message later count source field h f)
