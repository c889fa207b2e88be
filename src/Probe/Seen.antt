-- ===== src/Probe/Seen.antt =====
-- From the write in the kernel to the analyzer's mark.
use memguard_agent.Base.{
  ℕ, zero, suc, ◌+◌, ◌-◌, ◌^◌, ◌≤◌, ◌<◌, min, ◌≡◌, sym, ap, ◌∙◌, subst, ◌⊎◌, inl, inr, true, Option,
  some, List, [], ◌∷◌, ◌++◌, arith, ltb, ltb→lt, Bool-cases, length, take, drop, All, length-append,
  take_all, length-take, length-drop, drop-append_le, take-append_ge, Elem,
}
use memguard_agent.Event.{Files}
use memguard_agent.Json.{Json}
use memguard_agent.Poison.Reports.{Reports, Reports-in_window}
use memguard_agent.Poison.{PoisonAnalyzer}
use memguard_agent.Probe.Line.{IsPrintable, Printed, find, fields_of}
use memguard_agent.Probe.Read.{
  vfs_write-some, runner_event, runner_event-is_mem_write, runner_event-get_str,
  runner_event-is_object,
}
use memguard_agent.Probe.Window.{Holds, head_window-take, tail_window-drop}
use memguard_agent.Probe.{MemwriteEvent, Kernel, payload_half, write_event, vfs_write}
use memguard_agent.Text.Lowercase.{Lowercase, IsPlain, SameLetters}
use memguard_agent.Text.{Text, Bytes, codes}

pub All-take : (P : ℕ → Type 0) (n : ℕ) (xs : Bytes) → All P xs → All P (take n xs)
All-take P zero xs h = tt
All-take P (suc n) [] h = tt
All-take P (suc n) (x ∷ xs) h = (h.0, All-take P n xs h.1)

All-drop : (P : ℕ → Type 0) (n : ℕ) (xs : Bytes) → All P xs → All P (drop n xs)
All-drop P zero xs h = h
All-drop P (suc n) [] h = tt
All-drop P (suc n) (x ∷ xs) h = All-drop P n xs h.1

-- A part of a printable text has no character whose case depends on what stands around it.
pub printable-IsPlain :
    (before s after : Bytes) → All IsPrintable (before ++ (s ++ after)) → All IsPlain s
printable-IsPlain (c ∷ before) s after h = printable-IsPlain before s after h.1
printable-IsPlain [] [] after h = tt
printable-IsPlain [] (c ∷ s) after h = (inl (omega arith), printable-IsPlain [] s after h.1)

pub take_within :
    (n : ℕ) (before s after : Bytes)
    → length before + length s ≤ n
    → (rest : Bytes) × (take n (before ++ (s ++ after)) ≡ before ++ (s ++ rest))
take_within n before s after h = (
  take (n - length before - length s) after,
  take-append_ge n before (s ++ after) (omega arith)
      ∙ ap (λ (t : Bytes). before ++ t) (take-append_ge (n - length before) s after (omega arith)),
)

module _ (J : Json) (printed : Printed) (U : Lowercase) (a : PoisonAnalyzer) (files : Files) where
  open printed use {read_back, printable}

  module _ (prefixes : List Bytes) (k : Kernel) (link : Option Bytes) (before s after : Bytes)
      (sig : Text) where
    abbrev written : Bytes
    written = before ++ (s ++ after)

    -- The head window is read where it holds the text.
    head_shows :
        (fname : Bytes)
        → Holds k written
        → All IsPrintable written
        → length before + length s ≤ payload_half
        → (rest : Bytes) × (find J
              (codes "head")
              (fields_of J printed link (write_event k (length written) fname))
            ≡ some (J.str (before ++ (s ++ rest))))
    unfolding write_event fields_of
    head_shows fname holds hp h =
        let (rest, e) = take_within payload_half before s after h in
        (
          rest,
          ap (λ (t : Text). some (J.str t))
              (ap (λ (w : Bytes × ℕ). read_back (take w.1 w.0)) (head_window-take k written holds)
                ∙ ap read_back (
                    take_all (min payload_half (length written)) (take payload_half written)
                      (omega (arith, length-take payload_half written)))
                ∙ printable (take payload_half written)
                    (All-take IsPrintable payload_half written hp)
                ∙ e),
        )

    tail_shows :
        (fname : Bytes)
        → Holds k written
        → All IsPrintable written
        → payload_half < length written
        → length written < 2 ^ 32
        → length s + length after ≤ payload_half
        → find J (codes "tail") (fields_of J printed link (write_event k (length written) fname))
          ≡ some (J.str (drop (length written - payload_half) before ++ (s ++ after)))
    unfolding write_event fields_of
    tail_shows fname holds hp long b h =
        let cut = length written - payload_half in
        let size : cut ≤ length before =
          omega (arith, length-append before (s ++ after), length-append s after) in
        ap (λ (t : Text). some (J.str t))
          (ap (λ (w : Bytes × ℕ). read_back (take w.1 w.0))
              (tail_window-drop k written holds long b)
            ∙ ap read_back
                (take_all payload_half (drop cut written) (omega (arith, length-drop cut written)))
            ∙ printable (drop cut written) (All-drop IsPrintable cut written hp)
            ∙ drop-append_le cut before (s ++ after) size)

    -- One of the two windows shows the text.
    windows_show :
        (fname : Bytes)
        → Holds k written
        → All IsPrintable written
        → length written < 2 ^ 32
        → (length before + length s ≤ payload_half) ⊎ (length s + length after ≤ payload_half)
        → (p : Text) × (q : Text) × ((find J
                (codes "head")
                (fields_of J printed link (write_event k (length written) fname))
              ≡ some (J.str (p ++ (s ++ q))))
            ⊎ (find J
                  (codes "tail")
                  (fields_of J printed link (write_event k (length written) fname))
                ≡ some (J.str (p ++ (s ++ q)))))
    windows_show fname holds hp b (inl h) =
        let (rest, e) = head_shows fname holds hp h in (before, rest, inl e)
    windows_show fname holds hp b (inr h) = elim (Bool-cases (ltb payload_half (length written))) [
      | inl long ↦ (
        drop (length written - payload_half) before,
        after,
        inr (tail_shows fname holds hp (ltb→lt _ _ long) b h),
      )
      | inr short ↦
          let fits : length before + length s ≤ payload_half =
            ground (arith, length-append before (s ++ after), length-append s after) in
          let (rest, e) = head_shows fname holds hp fits in (before, rest, inl e)
    ]

    module _ (now errors : ℕ) (hsig : All IsPlain sig) (same : SameLetters s sig)
        (m : Elem sig a.rules) where
      event_Reports :
          (fname : Bytes)
          → k.ktime_ns < 2 ^ 64
          → k.pid_tgid < 2 ^ 64
          → Holds k written
          → All IsPrintable written
          → length written < 2 ^ 32
          → (length before + length s ≤ payload_half) ⊎ (length s + length after ≤ payload_half)
          → (matched : List Text) × Reports J U a files
              (runner_event J printed link (write_event k (length written) fname) now errors)
              matched
            × Elem sig matched
      event_Reports fname time task holds hp b near =
          let e = write_event k (length written) fname in
          let t : e.timestamp_ns < 2 ^ 64 = (unfold write_event in time) in
          let p : e.pid < 2 ^ 64 = (unfold write_event in omega arith) in
          let shown = runner_event-get_str J printed link e t p now errors in
          let (x, y, seen) = windows_show fname holds hp b near in
          Reports-in_window J U a files (runner_event J printed link e now errors)
            (runner_event-is_mem_write J printed link e t p now errors)
            (runner_event-is_object J printed link e t p now errors) s sig
            (printable-IsPlain before s after hp) hsig same m x y
            (elim seen [
              | inl h ↦ inl (shown (codes "head") (x ++ (s ++ y)) h)
              | inr h ↦ inr (shown (codes "tail") (x ++ (s ++ y)) h)
            ])

    -- A write of printable ASCII to a watched file, whose buffer can be read, that holds a signature,
    -- in any case of its letters, within its first 128 or its last 128 bytes, is captured as an event
    -- that the analyzer marks with that signature, if the ring buffer has room and the write is below
    -- 4 GiB: the line that the probe prints is read by the memwrite runner, whatever its error count.
    pub vfs_write-Reports :
        (count now errors : ℕ) (e : MemwriteEvent)
        → vfs_write prefixes k true count ≡ some e
        → count ≡ length written
        → count < 2 ^ 32
        → k.ktime_ns < 2 ^ 64
        → k.pid_tgid < 2 ^ 64
        → Holds k written
        → All IsPrintable written
        → (length before + length s ≤ payload_half) ⊎ (length s + length after ≤ payload_half)
        → All IsPlain sig
        → SameLetters s sig
        → Elem sig a.rules
        → (matched : List Text) × Reports J U a files
            (runner_event J printed link e now errors)
            matched
          × Elem sig matched
    vfs_write-Reports count now errors e captured size b time task holds hp near hsig same m =
        let (fname, w, same_event) = vfs_write-some prefixes k true count e captured in
        subst
          (λ (x : MemwriteEvent).
            (matched : List Text) × Reports J U a files (runner_event J printed link x now errors)
              matched
            × Elem sig matched)
          (ap (λ (n : ℕ). write_event k n fname) (sym size) ∙ same_event)
          (event_Reports now errors hsig same m fname time task holds hp (rw size at b) near)
