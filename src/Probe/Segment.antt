-- ===== src/Probe/Segment.antt =====
-- From a vectored write in the kernel to the analyzer's mark.
use memguard_agent.Base.{
  ℕ, ◌+◌, ◌/◌, ◌^◌, ◌≤◌, ◌<◌, ◌≡◌, refl, ap, ◌∙◌, inl, true, false, any, Option, some, List, ◌++◌,
  arith, ◌==◌, le→leb, length, take, All, take_all, length-take, Elem,
}
use memguard_agent.Event.{Files}
use memguard_agent.Json.{Json}
use memguard_agent.Poison.Reports.{Reports, Reports-in_window}
use memguard_agent.Poison.{PoisonAnalyzer}
use memguard_agent.Probe.Line.{IsPrintable, Printed, fields_of}
use memguard_agent.Probe.Read.{
  runner_event, runner_event-is_mem_write, runner_event-get_str, runner_event-is_object,
}
use memguard_agent.Probe.Seen.{All-take, printable-IsPlain, take_within}
use memguard_agent.Probe.Window.{Holds}
use memguard_agent.Probe.{
  MemwriteEvent, Kernel, payload_half, match_prefix, watched_name, segment_window, segment_event,
  vfs_writev,
}
use memguard_agent.Text.Lowercase.{Lowercase, IsPlain, SameLetters}
use memguard_agent.Probe.Loader.{watch_prefixes}
use memguard_agent.Probe.Watch.{match_prefix-watch_prefixes}
use memguard_agent.Text.{Text, Bytes, codes, starts_with}

-- What is captured of a segment.
record SegmentOf (k : Kernel) (iov_len : ℕ) (e : MemwriteEvent) : Type 0 where
  timestamp_is : e.timestamp_ns ≡ k.ktime_ns
  pid_is : e.pid ≡ k.pid_tgid / 2 ^ 32
  head_is : (e.head, e.head_len) ≡ segment_window k iov_len

-- A segment that is not empty is captured where the name is watched and the ring buffer has room.
vfs_writev-SegmentOf :
    (prefixes : List Bytes) (k : Kernel) (iov_len : ℕ) (name : Bytes)
    → k.name ≡ some name
    → match_prefix prefixes (take 126 name) ≡ true
    → k.room ≡ true
    → 0 < iov_len
    → (e : MemwriteEvent) × (vfs_writev prefixes k true (some iov_len) ≡ some e)
      × SegmentOf k iov_len e
unfolding vfs_writev watched_name
vfs_writev-SegmentOf prefixes k iov_len name named watched room pos = (
  segment_event k iov_len (take 126 name),
  rw (named, watched, room, nonzero) refl,
  record { timestamp_is = refl; pid_is = refl; head_is = refl },
)
  where
    nonzero : (iov_len == 0) ≡ false
    nonzero = ground arith

segment_window-take :
    (k : Kernel) (written : Bytes)
    → Holds k written
    → payload_half ≤ length written
    → segment_window k (length written) ≡ (take payload_half written, payload_half)
unfolding segment_window
segment_window-take k written holds long =
    rw (le→leb payload_half (length written) long, holds 0 payload_half long) refl

module _ (J : Json) (printed : Printed) (U : Lowercase) (a : PoisonAnalyzer) (files : Files) where
  open printed use {read_back, printable}

  -- What is captured of such a segment is marked.
  segment-Reports :
      (k : Kernel) (link : Option Bytes) (before s after : Bytes) (sig : Text)
      (iov_len now errors : ℕ) (e : MemwriteEvent)
      → SegmentOf k iov_len e
      → iov_len ≡ length (before ++ (s ++ after))
      → payload_half ≤ iov_len
      → k.ktime_ns < 2 ^ 64
      → k.pid_tgid < 2 ^ 64
      → Holds k (before ++ (s ++ after))
      → All IsPrintable (before ++ (s ++ after))
      → length before + length s ≤ payload_half
      → All IsPlain sig
      → SameLetters s sig
      → Elem sig a.rules
      → (matched : List Text) × Reports J U a files
          (runner_event J printed link e now errors)
          matched
        × Elem sig matched
  segment-Reports k link before s after sig iov_len now errors e segment size long clock task holds
        hp near hsig same m =
      let written : Bytes = before ++ (s ++ after) in
      let t : e.timestamp_ns < 2 ^ 64 = omega (arith, segment.timestamp_is) in
      let p : e.pid < 2 ^ 64 = omega (arith, segment.pid_is) in
      let shown =
        segment.head_is
        ∙ ap (segment_window k) size
        ∙ segment_window-take k written holds (omega arith) in
      let (rest, cut) = take_within payload_half before s after near in
      Reports-in_window J U a files (runner_event J printed link e now errors)
        (runner_event-is_mem_write J printed link e t p now errors)
        (runner_event-is_object J printed link e t p now errors) s sig
        (printable-IsPlain before s after hp) hsig same m before rest
        (inl (
          runner_event-get_str J printed link e t p now errors (codes "head")
            (read_back (take e.head_len e.head)) (unfold fields_of in refl)
          ∙ ap (λ (w : Bytes × ℕ). some (read_back (take w.1 w.0))) shown
          ∙ ap some (
              ap read_back (
                take_all payload_half (take payload_half written)
                  (omega (arith, length-take payload_half written)))
              ∙ printable (take payload_half written) (All-take IsPrintable payload_half written hp)
              ∙ cut)))

  -- A vectored write whose pointers are valid and whose first segment is printable ASCII, of 128 bytes
  -- at least, can be read and holds a signature, in any case of its letters, within its first 128
  -- bytes, is captured if the file's name, cut at 126 bytes, starts with one of the prefixes that the
  -- loader hands over for any text, and the ring buffer has room. The analyzer marks the event of what
  -- is printed for it with that signature, if it is one of its rules, of ASCII characters and CJK
  -- ideographs, and the kernel's clock and process number fit 64 bits.
  pub vfs_writev-Reports :
      (arg name : Bytes) (k : Kernel) (link : Option Bytes) (before s after : Bytes) (sig : Text)
      (iov_len now errors : ℕ)
      → k.name ≡ some name
      → any (starts_with (take 126 name)) (watch_prefixes arg) ≡ true
      → k.room ≡ true
      → iov_len ≡ length (before ++ (s ++ after))
      → payload_half ≤ iov_len
      → k.ktime_ns < 2 ^ 64
      → k.pid_tgid < 2 ^ 64
      → Holds k (before ++ (s ++ after))
      → All IsPrintable (before ++ (s ++ after))
      → length before + length s ≤ payload_half
      → All IsPlain sig
      → SameLetters s sig
      → Elem sig a.rules
      → (e : MemwriteEvent) × (vfs_writev (watch_prefixes arg) k true (some iov_len) ≡ some e)
        × (matched : List Text) × Reports J U a files
            (runner_event J printed link e now errors)
            matched
        × Elem sig matched
  vfs_writev-Reports arg name k link before s after sig iov_len now errors named watched room size
        long clock task holds hp near hsig same m =
      let (e, captured, segment) =
        vfs_writev-SegmentOf (watch_prefixes arg) k iov_len name named
          (match_prefix-watch_prefixes arg (take 126 name) ∙ watched) room (omega arith) in
      let (matched, reports, there) =
        segment-Reports k link before s after sig iov_len now errors e segment size long clock task
          holds hp near hsig same m in
      (e, captured, matched, reports, there)
