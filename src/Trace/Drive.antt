-- ===== src/Trace/Drive.antt =====
-- overlay/collector/src/cmd_trace.rs: the loops that drive the event stream. What their `select!`
-- takes, turn by turn, is a list.
use memguard_agent.Base.Result.{Result, ok, err}
use memguard_agent.Base.{
  ◌≡◌, refl, ap, ◌∙◌, inl, inr, Bool, true, false, Option, none, some, List, [], ◌∷◌, ◌++◌,
  append-nil, if◌then◌else◌, Option-cases, All, Elem,
}
use memguard_agent.Event.{Event}
use memguard_agent.Json.{Json}
use memguard_agent.Runner.{runner_error_from_event}
use memguard_agent.Text.{Text}

module _ (J : Json) where
  -- A turn: `stream.next()`, or one of the reasons to stop.
  pub data Turn : Type 0 where
    next : Event J → Turn
    no_next : Turn
    shutdown : Turn
    cancelled : Turn
    deadline : Turn

  -- What a loop returned, or `none` where it still waits for the next turn; and what it printed.
  pub record Driven : Type 0 where
    pub result : Option (Result (Unit {0}))
    pub printed : List (Event J)

  abbrev pub print_then : Bool → Event J → Driven → Driven
  print_then print ev d = if print then record d { printed = ev ∷ d.printed } else d

  unfoldable pub drive_stream_until_shutdown : Bool → List Turn → Driven
  drive_stream_until_shutdown print [] = record { result = none; printed = [] }
  drive_stream_until_shutdown print (next ev ∷ turns) =
      let later = drive_stream_until_shutdown print turns in
      elim (runner_error_from_event J ev) [
        | none ↦ print_then print ev later
        | some message ↦ record { result = some (err message); printed = [] }
      ]
  drive_stream_until_shutdown print (no_next ∷ turns) = record {
    result = some (ok tt);
    printed = [];
  }
  drive_stream_until_shutdown print (shutdown ∷ turns) = record {
    result = some (ok tt);
    printed = [];
  }
  drive_stream_until_shutdown print (cancelled ∷ turns) = drive_stream_until_shutdown print turns
  drive_stream_until_shutdown print (deadline ∷ turns) = drive_stream_until_shutdown print turns

  -- The loop that `stop` ends beside the stream's end and a shutdown: `drain_stream_for` with its
  -- deadline, `run_trace_silent_until_cancel` with its cancellation. It prints nothing.
  unfoldable pub drain : (Turn → Bool) → List Turn → Option (Result (Unit {0}))
  drain stop [] = none
  drain stop (next ev ∷ turns) =
      let later = drain stop turns in
      elim (runner_error_from_event J ev) [ none ↦ later | some message ↦ some (err message) ]
  drain stop (no_next ∷ turns) = some (ok tt)
  drain stop (shutdown ∷ turns) = some (ok tt)
  drain stop (cancelled ∷ turns) =
      let later = drain stop turns in if stop cancelled then some (ok tt) else later
  drain stop (deadline ∷ turns) =
      let later = drain stop turns in if stop deadline then some (ok tt) else later

  abbrev pub is_deadline : Turn → Bool
  is_deadline deadline = true
  is_deadline (next ev) = false
  is_deadline no_next = false
  is_deadline shutdown = false
  is_deadline cancelled = false

  abbrev pub is_cancelled : Turn → Bool
  is_cancelled cancelled = true
  is_cancelled (next ev) = false
  is_cancelled no_next = false
  is_cancelled shutdown = false
  is_cancelled deadline = false

  unfoldable pub drain_stream_for : List Turn → Option (Result (Unit {0}))
  unfolding drain
  drain_stream_for = drain is_deadline

  unfoldable pub drive_until_cancel : List Turn → Option (Result (Unit {0}))
  unfolding drain
  drive_until_cancel = drain is_cancelled

  -- An event that is no runner's error.
  abbrev pub IsFine : Event J → Type 0
  IsFine ev = runner_error_from_event J ev ≡ none

  abbrev pub nexts : List (Event J) → List Turn
  nexts [] = []
  nexts (ev ∷ evs) = next ev ∷ nexts evs

  pub next-fine :
      (print : Bool) (ev : Event J) (turns : List Turn)
      → IsFine ev
      → (drive_stream_until_shutdown print (next ev ∷ turns)).result
        ≡ (drive_stream_until_shutdown print turns).result
  unfolding drive_stream_until_shutdown
  next-fine true ev turns h = rw (h, drive_stream_until_shutdown)
  next-fine false ev turns h = rw (h, drive_stream_until_shutdown)

  pub next-err :
      (print : Bool) (ev : Event J) (turns : List Turn) (message : Text)
      → runner_error_from_event J ev ≡ some message
      → (drive_stream_until_shutdown print (next ev ∷ turns)).result ≡ some (err message)
  unfolding drive_stream_until_shutdown
  next-err print ev turns message e = rw (e, drive_stream_until_shutdown)

  fine_first :
      (print : Bool) (evs : List (Event J)) (turns : List Turn)
      → All IsFine evs
      → (drive_stream_until_shutdown print (nexts evs ++ turns)).result
        ≡ (drive_stream_until_shutdown print turns).result
  fine_first print [] turns h = refl
  fine_first print (ev ∷ evs) turns h =
      next-fine print ev (nexts evs ++ turns) h.0 ∙ fine_first print evs turns h.1

  printed_first :
      (evs : List (Event J)) (turns : List Turn)
      → All IsFine evs
      → (drive_stream_until_shutdown true (nexts evs ++ turns)).printed
        ≡ evs ++ (drive_stream_until_shutdown true turns).printed
  unfolding drive_stream_until_shutdown
  printed_first [] turns h = refl
  printed_first (ev ∷ evs) turns h =
      rw (h.0, drive_stream_until_shutdown) (ap (◌∷◌ ev) (printed_first evs turns h.1))

  -- A trace that prints its events prints all of them in order up to the first runner error, and
  -- ends with that error, whatever would follow.
  pub drive_stream_first_error :
      (evs : List (Event J)) (bad : Event J) (turns : List Turn) (message : Text)
      → All IsFine evs
      → runner_error_from_event J bad ≡ some message
      → ((drive_stream_until_shutdown true (nexts evs ++ (next bad ∷ turns))).result
          ≡ some (err message))
        × ((drive_stream_until_shutdown true (nexts evs ++ (next bad ∷ turns))).printed ≡ evs)
  unfolding drive_stream_until_shutdown
  drive_stream_first_error evs bad turns message h e = (
    fine_first true evs (next bad ∷ turns) h ∙ next-err true bad turns message e,
    printed_first evs (next bad ∷ turns) h ∙ rw (e, drive_stream_until_shutdown) (append-nil evs),
  )

  -- However a quiet or a printing loop runs over a stream in which some event is a runner's error,
  -- it ends with an error.
  pub drive_stream-err :
      (print : Bool) (evs : List (Event J)) (turns : List Turn) (bad : Event J) (message : Text)
      → Elem bad evs
      → runner_error_from_event J bad ≡ some message
      → (m : Text) × ((drive_stream_until_shutdown print (nexts evs ++ turns)).result
          ≡ some (err m))
  drive_stream-err print [] turns bad message m e = elim m [ ]
  drive_stream-err print (ev ∷ evs) turns bad message (inl same) e =
      (message, next-err print ev _ message (rw same at e))
  drive_stream-err print (ev ∷ evs) turns bad message (inr m) e =
      let (later, ih) = drive_stream-err print evs turns bad message m e in
      elim (Option-cases (runner_error_from_event J ev)) [
        | inl fine ↦ (later, next-fine print ev _ fine ∙ ih)
        | inr (first, e') ↦ (first, next-err print ev _ first e')
      ]
