-- ===== src/Runner/Parse.antt =====
-- What `parse_json_event` makes of a probe's values, and what the error counter counts.
use memguard_agent.Base.{
  ℕ, suc, ◌+◌, ◌%◌, ◌^◌, ◌<◌, ◌≡◌, refl, ap, ◌∙◌, inl, inr, Bool, true, false, ◌&&◌, Option, none,
  some, List, [], ◌∷◌, arith, if◌then◌else◌, Bool-cases, is_some, length,
}
use memguard_agent.Event.{Event, get_str, get_u64}
use memguard_agent.Json.{Json}
use memguard_agent.Runner.{parse_error_event, parse_fields, parse_json_event, parse_stream, as_u32}
use memguard_agent.Text.{Text, codes}

module _ (J : Json) where
  open J use {
    Value, get, as_u64, number, insert, get-insert, is_object, is_object-insert, is_object-empty,
    as_u64-number, str, empty,
  }

  abbrev pub all_some : Option ℕ → Option ℕ → Option Text → Bool
  all_some timestamp pid comm = is_some timestamp && (is_some pid && is_some comm)

  -- The value has the time, the process and the command that an event needs.
  abbrev pub is_complete : Text → Value → Bool
  is_complete field raw =
      all_some (get_u64 J field raw) (get_u64 J (codes "pid") raw) (get_str J (codes "comm") raw)

  -- How many values lack a field.
  unfoldable pub incomplete : Text → List (ℕ × Value) → ℕ
  incomplete field [] = 0
  incomplete field ((now, v) ∷ vs) =
      let rest = incomplete field vs in if is_complete field v then rest else rest + 1

  parse_fields-count :
      (now : ℕ) (runner field : Text) (raw : Value) (errors : ℕ) (t p : Option ℕ) (c : Option Text)
      → (parse_fields J now runner field raw errors t p c).1
        ≡ (if all_some t p c then errors else (errors + 1) % 2 ^ 64)
  unfolding parse_fields
  parse_fields-count now runner field raw errors none p c = refl
  parse_fields-count now runner field raw errors (some t) none c = refl
  parse_fields-count now runner field raw errors (some t) (some p) none = refl
  parse_fields-count now runner field raw errors (some t) (some p) (some c) = refl

  parse_json_event-count :
      (now : ℕ) (runner field : Text) (raw : Value) (errors : ℕ)
      → (parse_json_event J now runner field raw errors).1
        ≡ (if is_complete field raw then errors else (errors + 1) % 2 ^ 64)
  unfolding parse_json_event
  parse_json_event-count now runner field raw errors =
      parse_fields-count now runner field raw errors (get_u64 J field raw)
        (get_u64 J (codes "pid") raw) (get_str J (codes "comm") raw)

  -- Every value becomes one event, in order, and the counter goes up by one for each that lacks a
  -- field, as long as it stays below 2 ^ 64.
  pub parse_stream-incomplete :
      (runner field : Text) (vs : List (ℕ × Value)) (errors : ℕ)
      → errors + incomplete field vs < 2 ^ 64
      → (length (parse_stream J runner field vs errors).0 ≡ length vs)
        × ((parse_stream J runner field vs errors).1 ≡ errors + incomplete field vs)
  unfolding parse_stream incomplete
  parse_stream-incomplete runner field [] errors h = (refl, omega arith)
  parse_stream-incomplete runner field ((now, v) ∷ vs) errors h =
      elim (Bool-cases (is_complete field v)) [
        | inl t ↦
            let next : (parse_json_event J now runner field v errors).1 ≡ errors =
              rw (parse_json_event-count now runner field v errors, t) in
            let ih = parse_stream-incomplete runner field vs errors (rw t at h) in
            rw (next, t) (ap suc ih.0, ih.1)
        | inr f ↦
            let h' : errors + (incomplete field vs + 1) < 2 ^ 64 = rw f at h in
            let next : (parse_json_event J now runner field v errors).1 ≡ errors + 1 =
              rw (parse_json_event-count now runner field v errors, f) (omega arith) in
            let ih = parse_stream-incomplete runner field vs (errors + 1) (omega arith) in
            rw (next, f) (ap suc ih.0, omega arith)
      ]

  -- What an event keeps of the value that it was made from.
  abbrev pub Keeps : Text → Value → Bool → Event J → Type 0
  Keeps runner raw true ev = (ev.source ≡ runner) × (ev.content ≡ raw) × (ev.pid < 2 ^ 32)
  Keeps runner raw false ev =
      (ev.source ≡ codes "diagnostic")
      × (get (codes "raw") ev.content ≡ some raw)
      × (ev.pid < 2 ^ 32)

  parse_error_event-Keeps :
      (now : ℕ) (runner : Text) (raw : Value) (reason : Text) (errors : ℕ)
      → Keeps runner raw false (parse_error_event J now runner raw reason errors).0
  unfolding parse_error_event
  parse_error_event-Keeps now runner raw reason errors = (
    refl,
    get-insert (codes "raw") (codes "raw") raw _ (
        is_object-insert _ _ _
        ∙ is_object-insert _ _ _
        ∙ is_object-insert _ _ _
        ∙ is_object-insert _ _ _
        ∙ is_object-empty),
    omega arith,
  )

  parse_fields-Keeps :
      (now : ℕ) (runner field : Text) (raw : Value) (errors : ℕ) (t p : Option ℕ) (c : Option Text)
      → Keeps runner raw (all_some t p c) (parse_fields J now runner field raw errors t p c).0
  parse_fields-Keeps now runner field raw errors none p c =
      (unfold parse_fields in parse_error_event-Keeps now runner raw _ errors)
  parse_fields-Keeps now runner field raw errors (some t) none c =
      (unfold parse_fields in parse_error_event-Keeps now runner raw _ errors)
  parse_fields-Keeps now runner field raw errors (some t) (some p) none =
      (unfold parse_fields in parse_error_event-Keeps now runner raw _ errors)
  parse_fields-Keeps now runner field raw errors (some t) (some p) (some c) =
      (unfold parse_fields in (refl, refl, omega arith))

  -- A value with a time, a process and a command becomes an event of its runner with the value as it
  -- is; any other becomes a diagnostic event that holds the value under `raw`. The process number
  -- fits 32 bits either way.
  pub parse_json_event-Keeps :
      (now : ℕ) (runner field : Text) (raw : Value) (errors : ℕ)
      → Keeps runner raw (is_complete field raw) (parse_json_event J now runner field raw errors).0
  unfolding parse_json_event
  parse_json_event-Keeps now runner field raw errors =
      parse_fields-Keeps now runner field raw errors (get_u64 J field raw)
        (get_u64 J (codes "pid") raw) (get_str J (codes "comm") raw)

  -- The event of a value that has all three fields.
  pub parse_json_event_complete :
      (now : ℕ) (runner field : Text) (raw : Value) (errors t p : ℕ) (c : Text)
      → get_u64 J field raw ≡ some t
      → get_u64 J (codes "pid") raw ≡ some p
      → get_str J (codes "comm") raw ≡ some c
      → parse_json_event J now runner field raw errors ≡ (
        record { timestamp = t; source = runner; pid = as_u32 p; comm = c; content = raw },
        errors,
      )
  unfolding parse_json_event parse_fields
  parse_json_event_complete now runner field raw errors t p c ht hp hc = rw (ht, hp, hc)
