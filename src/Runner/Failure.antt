-- ===== src/Runner/Failure.antt =====
-- A probe that fails is reported to whoever reads the events.
use memguard_agent.Base.{ℕ, ◌^◌, ◌<◌, ◌≡◌, ◌∙◌, ◌⊎◌, inl, inr, true, some, arith, if◌then◌else◌}
use memguard_agent.Event.{Event, get_str, get_u64}
use memguard_agent.Json.{Json}
use memguard_agent.Runner.{
  runner_error_json, runner_error_from_event, runner_error_type, parse_fields, parse_json_event,
}
use memguard_agent.Text.{Text, codes, text_eq}

module _ (J : Json) (now : ℕ) (runner message : Text) where
  open J use {
    Value, get, as_u64, as_str, str, number, empty, insert, get-insert, is_object, is_object-insert,
    is_object-empty, as_u64-number, as_str-str,
  }

  abbrev with_timestamp : Value
  with_timestamp = insert (codes "timestamp") (number now) empty

  abbrev with_timestamp_ns : Value
  with_timestamp_ns = insert (codes "timestamp_ns") (number now) with_timestamp

  abbrev with_pid : Value
  with_pid = insert (codes "pid") (number 0) with_timestamp_ns

  abbrev with_comm : Value
  with_comm = insert (codes "comm") (str runner) with_pid

  abbrev with_type : Value
  with_type = insert (codes "type") (str runner_error_type) with_comm

  timestamp-is_object : is_object with_timestamp ≡ true
  timestamp-is_object = is_object-insert _ _ _ ∙ is_object-empty

  timestamp_ns-is_object : is_object with_timestamp_ns ≡ true
  timestamp_ns-is_object = is_object-insert _ _ _ ∙ timestamp-is_object

  pid-is_object : is_object with_pid ≡ true
  pid-is_object = is_object-insert _ _ _ ∙ timestamp_ns-is_object

  comm-is_object : is_object with_comm ≡ true
  comm-is_object = is_object-insert _ _ _ ∙ pid-is_object

  type-is_object : is_object with_type ≡ true
  type-is_object = is_object-insert _ _ _ ∙ comm-is_object

  -- A key of the error value, whichever it is.
  get-runner_error_json :
      (k : Text)
      → get k (runner_error_json J now runner message) ≡ (
          if text_eq (codes "message") k
          then some (str message)
          else if text_eq (codes "type") k
          then some (str runner_error_type)
          else if text_eq (codes "comm") k
          then some (str runner)
          else if text_eq (codes "pid") k
          then some (number 0)
          else if text_eq (codes "timestamp_ns") k
          then some (number now)
          else if text_eq (codes "timestamp") k
          then some (number now)
          else get k empty)
  unfolding runner_error_json
  get-runner_error_json k = rw (
    get-insert k (codes "message") _ _ type-is_object,
    get-insert k (codes "type") _ _ comm-is_object,
    get-insert k (codes "comm") _ _ pid-is_object,
    get-insert k (codes "pid") _ _ timestamp_ns-is_object,
    get-insert k (codes "timestamp_ns") _ _ timestamp-is_object,
    get-insert k (codes "timestamp") _ _ is_object-empty,
  )

  abbrev failure : Value
  failure = runner_error_json J now runner message

  get-time :
      (field : Text)
      → now < 2 ^ 64
      → (field ≡ codes "timestamp") ⊎ (field ≡ codes "timestamp_ns")
      → get_u64 J field failure ≡ some now
  get-time field h (inl e) = rw (e, get-runner_error_json (codes "timestamp")) (as_u64-number now h)
  get-time field h (inr e) =
      rw (e, get-runner_error_json (codes "timestamp_ns")) (as_u64-number now h)

  get-pid : get_u64 J (codes "pid") failure ≡ some 0
  get-pid = rw (get-runner_error_json (codes "pid")) (as_u64-number 0 (omega arith))

  get_comm : get_str J (codes "comm") failure ≡ some runner
  get_comm = rw (get-runner_error_json (codes "comm")) (as_str-str runner)

  runner_error_from_event-failure :
      (ev : Event J) → ev.content ≡ failure → runner_error_from_event J ev ≡ some message
  unfolding runner_error_from_event
  runner_error_from_event-failure ev e = rw (
    e,
    get-runner_error_json (codes "type"),
    get-runner_error_json (codes "message"),
    as_str-str runner_error_type,
    as_str-str message,
  )

  parse_json_event-content :
      (later errors : ℕ) (source field : Text)
      → get_u64 J field failure ≡ some now
      → (parse_json_event J later source field failure errors).0.content ≡ failure
  unfolding parse_json_event parse_fields
  parse_json_event-content later errors source field t = rw (t, get-pid, get_comm)

  -- The error of a runner, parsed as a value of any probe by either of the time fields in use,
  -- where the uptime fits 64 bits, is an event whose error is the message.
  pub runner_error_from_event-parse_json_event :
      (later errors : ℕ) (source field : Text)
      → now < 2 ^ 64
      → (field ≡ codes "timestamp") ⊎ (field ≡ codes "timestamp_ns")
      → runner_error_from_event J
          (parse_json_event J later source field (runner_error_json J now runner message) errors).0
        ≡ some message
  runner_error_from_event-parse_json_event later errors source field h f =
      runner_error_from_event-failure (parse_json_event J later source field failure errors).0
        (parse_json_event-content later errors source field (get-time field h f))
