-- ===== src/Runner/Run/Events.antt =====
-- The events of a runner.
use memguard_agent.Base.{ℕ, ◌+◌, ◌≡◌, refl, ap, ◌∙◌, Bool, Option, List, [], ◌∷◌, ◌++◌, All}
use memguard_agent.Base.Result.{Result, ok}
use memguard_agent.Event.{Event}
use memguard_agent.Json.{Json}
use memguard_agent.Runner.Binary.{
  BinaryExecutor, BinaryRunner, command, startup_delay_ms, startup_check, process_through_analyzers,
}
use memguard_agent.Runner.Parse.{is_complete, Keeps, parse_json_event-Keeps}
use memguard_agent.Runner.Run.{Child, runner_label, stamped, get_json_stream, run}
use memguard_agent.Runner.Stream.Lines.{GoesOn, Ends, lines_of, values_of, json_stream-values_of}
use memguard_agent.Runner.Stream.{Read, json_stream, after_exit}
use memguard_agent.Runner.{parse_stream}
use memguard_agent.Text.{Text}

-- Two lists of one length whose elements are related place by place.
abbrev pub Each : {A B : Type 0} → (A → B → Type 0) → List A → List B → Type 0
Each R [] [] = Unit
Each R [] (b ∷ right) = ⊥
Each R (a ∷ left) [] = ⊥
Each R (a ∷ left) (b ∷ right) = R a b × Each R left right

module _ (J : Json) where
  -- An event of a runner that keeps the value that it was made from.
  abbrev pub EventOf : Text → Text → J.Value → Event J → Type 0
  EventOf source field v ev = Keeps J source v (is_complete J field v) ev

  parse_stream-Each :
      (source field : Text) (at : ℕ → ℕ) (n : ℕ) (vs : List J.Value) (errors : ℕ)
      → Each (EventOf source field) vs (parse_stream J source field (stamped J at n vs) errors).0
  unfolding parse_stream
  parse_stream-Each source field at n [] errors = tt
  parse_stream-Each source field at n (v ∷ vs) errors = (
    parse_json_event-Keeps J (at n) source field v errors,
    parse_stream-Each source field at (n + 1) vs _,
  )

  module _ (from_str : Text → Option J.Value) (file_name : Text → Option Text) (needs_sudo : Bool)
      (spawn : List Text → Result Child) where
    -- What a probe's whole output amounts to: the values of its lines, and one more where it fails.
    abbrev pub values_from : BinaryExecutor → Child → List Read → List J.Value
    values_from e child before =
        values_of J from_str (lines_of before)
        ++ after_exit J child.uptime (runner_label file_name e.runner_name e.binary_path) child.wait

    pub get_json_stream-values_from :
        (e : BinaryExecutor) (child : Child) (before rest : List Read) (last : Read)
        → spawn (command needs_sudo e) ≡ ok child
        → startup_check needs_sudo e child.tried (startup_delay_ms needs_sudo e) ≡ ok tt
        → child.reads ≡ before ++ (last ∷ rest)
        → All GoesOn before
        → Ends last
        → get_json_stream J from_str file_name needs_sudo spawn e
          ≡ ok (child, values_from e child before)
    unfolding get_json_stream
    get_json_stream-values_from e child before rest last spawned started reads goes ends =
        let label = runner_label file_name e.runner_name e.binary_path in
        rw (spawned, started)
          (ap (λ vs. ok (child, vs))
            (ap (λ rs. json_stream J from_str child.uptime label rs child.wait) reads
              ∙ json_stream-values_of J from_str child.uptime label before rest last child.wait goes
                  ends))

    -- A runner without analyzers whose probe can be started, is not found gone behind its startup delay
    -- and closes its output gives one event for each value that the lines of the output yield, in their
    -- order, and then one for the probe's failure, if it failed. Each event holds its value: as its
    -- content where the value has a time, a process and a command, and else inside a diagnostic.
    pub run-Each :
        (r : BinaryRunner (List (Event J) → Result (List (Event J)))) (child : Child)
        (before rest : List Read) (last : Read)
        → r.analyzers ≡ []
        → spawn (command needs_sudo r.executor) ≡ ok child
        → startup_check needs_sudo r.executor child.tried (startup_delay_ms needs_sudo r.executor)
          ≡ ok tt
        → child.reads ≡ before ++ (last ∷ rest)
        → All GoesOn before
        → Ends last
        → (events : List (Event J)) × (run J from_str file_name needs_sudo spawn r ≡ ok events)
          × Each (EventOf r.source r.timestamp_field) (values_from r.executor child before) events
    unfolding run process_through_analyzers
    run-Each r child before rest last bare spawned started reads goes ends = (
      _,
      rw
          (
            get_json_stream-values_from r.executor child before rest last spawned started reads goes
                ends,
            bare,
          )
          refl,
      parse_stream-Each r.source r.timestamp_field child.uptime_at 0 _ 0,
    )
