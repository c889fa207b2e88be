-- ===== src/Probe/Read.antt =====
-- The event that the memwrite runner makes of a printed line.
use memguard_agent.Base.{
  ℕ, ◌/◌, ◌^◌, ◌<◌, ◌≡◌, refl, sym, ap, inl, inr, Bool, true, Option, some, List, arith,
  Option-cases,
}
use memguard_agent.Event.{Event, get_str, get_u64}
use memguard_agent.Json.{Json}
use memguard_agent.Poison.Process.{is_mem_write}
use memguard_agent.Probe.Line.{
  Printed, find, object_of-is_object, get-object_of, fields_of, handle_event,
}
use memguard_agent.Probe.{MemwriteEvent, Kernel, watched_name, write_event, vfs_write}
use memguard_agent.Runner.Parse.{parse_json_event_complete}
use memguard_agent.Runner.{as_u32, parse_json_event}
use memguard_agent.Text.{Text, Bytes, codes}

-- A captured write is the event of some watched name.
pub vfs_write-some :
    (prefixes : List Bytes) (k : Kernel) (valid : Bool) (count : ℕ) (e : MemwriteEvent)
    → vfs_write prefixes k valid count ≡ some e
    → (fname : Bytes) × (watched_name prefixes k.name ≡ some fname)
      × (write_event k count fname ≡ e)
unfolding vfs_write
vfs_write-some prefixes k valid count e h = elim (Option-cases (watched_name prefixes k.name)) [
  | inl n ↦ absurd (ground arith)
  | inr (fname, w) ↦ (fname, w, ground arith)
]

-- Its time and its process are the kernel's.
pub vfs_write-time_and_pid :
    (prefixes : List Bytes) (k : Kernel) (valid : Bool) (count : ℕ) (e : MemwriteEvent)
    → vfs_write prefixes k valid count ≡ some e
    → (e.timestamp_ns ≡ k.ktime_ns) × (e.pid ≡ k.pid_tgid / 2 ^ 32)
unfolding write_event
vfs_write-time_and_pid prefixes k valid count e h =
    let (fname, w, same) = vfs_write-some prefixes k valid count e h in
    (
      sym (ap (λ (x : MemwriteEvent). x.timestamp_ns) same),
      sym (ap (λ (x : MemwriteEvent). x.pid) same),
    )

module _ (J : Json) (printed : Printed) (link : Option Bytes) (e : MemwriteEvent) where
  open J use {Value, str, number, as_str-str, as_u64-number}
  open printed use {read_back}

  get_str-handle_event :
      (j t : Text)
      → find J j (fields_of J printed link e) ≡ some (str t)
      → get_str J j (handle_event J printed link e) ≡ some t
  unfolding handle_event
  get_str-handle_event j t h = rw (get-object_of J j (fields_of J printed link e), h) (as_str-str t)

  get_u64-handle_event :
      (j : Text) (n : ℕ)
      → find J j (fields_of J printed link e) ≡ some (number n)
      → n < 2 ^ 64
      → get_u64 J j (handle_event J printed link e) ≡ some n
  unfolding handle_event
  get_u64-handle_event j n h b =
      rw (get-object_of J j (fields_of J printed link e), h) (as_u64-number n b)

  -- The event that the memwrite runner makes of the printed line.
  abbrev pub runner_event : ℕ → ℕ → Event J
  runner_event now errors =
      (parse_json_event J now (codes "memwrite") (codes "timestamp") (handle_event J printed link e)
        errors).0

  -- What that event holds.
  abbrev pub event_of : Event J
  event_of = record {
    timestamp = e.timestamp_ns;
    source = codes "memwrite";
    pid = as_u32 e.pid;
    comm = read_back e.comm;
    content = handle_event J printed link e;
  }

  module _ (t : e.timestamp_ns < 2 ^ 64) (p : e.pid < 2 ^ 64) where
    pub runner_event_lem : (now errors : ℕ) → runner_event now errors ≡ event_of
    runner_event_lem now errors =
        ap (λ (r : Event J × ℕ). r.0)
          (parse_json_event_complete J now (codes "memwrite") (codes "timestamp")
            (handle_event J printed link e) errors e.timestamp_ns e.pid (read_back e.comm)
            (get_u64-handle_event (codes "timestamp") e.timestamp_ns (unfold fields_of in refl) t)
            (get_u64-handle_event (codes "pid") e.pid (unfold fields_of in refl) p)
            (get_str-handle_event (codes "comm") (read_back e.comm) (unfold fields_of in refl)))

    pub runner_event-is_mem_write :
        (now errors : ℕ) → is_mem_write J (runner_event now errors) ≡ true
    unfolding is_mem_write
    runner_event-is_mem_write now errors = rw (
      runner_event_lem now errors,
      get_str-handle_event (codes "event") (codes "MEM_WRITE") (unfold fields_of in refl),
    )

    pub runner_event-get_str :
        (now errors : ℕ) (j u : Text)
        → find J j (fields_of J printed link e) ≡ some (str u)
        → get_str J j (runner_event now errors).content ≡ some u
    runner_event-get_str now errors j u h =
        rw (runner_event_lem now errors) (get_str-handle_event j u h)

    pub runner_event-get_u64 :
        (now errors : ℕ) (j : Text) (n : ℕ)
        → find J j (fields_of J printed link e) ≡ some (number n)
        → n < 2 ^ 64
        → get_u64 J j (runner_event now errors).content ≡ some n
    runner_event-get_u64 now errors j n h b =
        rw (runner_event_lem now errors) (get_u64-handle_event j n h b)

    pub runner_event-is_object :
        (now errors : ℕ) → J.is_object (runner_event now errors).content ≡ true
    unfolding handle_event
    runner_event-is_object now errors =
        rw (runner_event_lem now errors) (object_of-is_object J (fields_of J printed link e))
