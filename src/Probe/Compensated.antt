-- ===== src/Probe/Compensated.antt =====
-- From a write in the kernel to a mark that the written file is read for.
use memguard_agent.Base.{
  ℕ, ◌+◌, ◌^◌, ◌≤◌, ◌<◌, min, ◌≡◌, refl, sym, ap, ◌∙◌, ◌≢◌, ◌⊎◌, Bool, Option, some, List, [], ◌∷◌,
  ◌++◌, true, subst, arith, length, All, length-append, Elem,
}
use memguard_agent.Base.Int.{pos}
use memguard_agent.Event.{Files}
use memguard_agent.Json.{Json}
use memguard_agent.Poison.Detect.{windows_of}
use memguard_agent.Poison.Reports.{Reports, Reports-in_file_or_window}
use memguard_agent.Poison.{PoisonAnalyzer, max_scan}
use memguard_agent.Probe.Agrees.{vfs_write-is_watched}
use memguard_agent.Probe.Line.{IsPrintable, Printed, fields_of, resolve_path}
use memguard_agent.Probe.Loader.{watch_prefixes}
use memguard_agent.Probe.Read.{
  vfs_write-some, vfs_write-time_and_pid, runner_event, runner_event-is_mem_write,
  runner_event-get_str, runner_event-get_u64, runner_event-is_object,
}
use memguard_agent.Probe.{MemwriteEvent, Kernel, offset_of, write_event, vfs_write}
use memguard_agent.Text.Lowercase.{Lowercase, IsPlain, SameLetters}
use memguard_agent.Text.Utf8.{IsScalar, as_bytes, from_utf8_lossy}
use memguard_agent.Text.Utf8.Embeds.{from_utf8_lossy-as_bytes}
use memguard_agent.Text.Utf8.Parts.{as_bytes-ascii}
use memguard_agent.Poison.Process.{is_watched}
use memguard_agent.Text.{Text, Bytes, codes}

printable-ascii : (s : Bytes) → All IsPrintable s → All (λ c. c < 0x80) s × All IsScalar s
printable-ascii [] h = (tt, tt)
printable-ascii (c ∷ s) h =
    let (ascii, scalar) = printable-ascii s h.1 in ((omega arith, ascii), (omega arith, scalar))

-- Printable ASCII is decoded as it is.
pub printable-from_utf8_lossy : (s : Bytes) → All IsPrintable s → from_utf8_lossy s ≡ s
printable-from_utf8_lossy s h =
    let (ascii, scalar) = printable-ascii s h in
    ap from_utf8_lossy (sym (as_bytes-ascii s ascii)) ∙ from_utf8_lossy-as_bytes s scalar

module _ (J : Json) (printed : Printed) (U : Lowercase) (a : PoisonAnalyzer) (files : Files) where
  open printed use {read_back, printable}

  -- What the fields of a captured write are that the analyzer looks for the file with.
  captured_fields :
      (prefixes : List Bytes) (k : Kernel) (valid : Bool) (count n : ℕ) (e : MemwriteEvent)
      → vfs_write prefixes k valid count ≡ some e
      → k.position ≡ some (pos n)
      → (e.count ≡ count) × (e.offset ≡ n)
  unfolding write_event
  captured_fields prefixes k valid count n e captured at =
      let (fname, w, same) = vfs_write-some prefixes k valid count e captured in
      (
        sym (ap (λ (x : MemwriteEvent). x.count) same),
        sym (ap (λ (x : MemwriteEvent). x.offset) same) ∙ ap offset_of at,
      )

  printable-is_watched :
      (k : Kernel) (valid : Bool) (count : ℕ) (e : MemwriteEvent) (link : Option Bytes)
      → All IsScalar a.prefix
      → length (as_bytes a.prefix) ≤ 63
      → vfs_write (watch_prefixes (as_bytes a.prefix)) k valid count ≡ some e
      → All IsPrintable (resolve_path link e)
      → is_watched J U a (resolve_path link e) ≡ true
  printable-is_watched k valid count e link v short captured hp =
      let path = resolve_path link e in
      let shown : read_back path ≡ path = printable path hp in
      subst (λ (t : Text). is_watched J U a t ≡ true) shown
        (vfs_write-is_watched J U a printed k valid count e link v short captured
          (shown ∙ sym (printable-from_utf8_lossy path hp)))

  -- A captured write to a watched file is marked if the file at the printed path has the written bytes
  -- at the offset, and they hold a signature within their first 4 MiB.
  pub vfs_write-compensated :
      (k : Kernel) (valid : Bool) (link : Option Bytes) (front before after back : Bytes)
      (s sig : Text) (count now errors : ℕ) (e : MemwriteEvent)
      → All IsScalar a.prefix
      → length (as_bytes a.prefix) ≤ 63
      → vfs_write (watch_prefixes (as_bytes a.prefix)) k valid count ≡ some e
      → count ≡ length (before ++ (as_bytes s ++ after))
      → k.position ≡ some (pos (length front))
      → k.ktime_ns < 2 ^ 64
      → k.pid_tgid < 2 ^ 64
      → All IsPrintable (resolve_path link e)
      → files (resolve_path link e) ≡ some ((front ++ before) ++ (as_bytes s ++ (after ++ back)))
      → length ((front ++ before) ++ (as_bytes s ++ (after ++ back))) < 2 ^ 64
      → length before + length (as_bytes s) ≤ max_scan
      → s ≢ []
      → All IsPlain s
      → All IsPlain sig
      → SameLetters s sig
      → Elem sig a.rules
      → (matched : List Text) × (x : Text) × Reports J U a files
          (runner_event J printed link e now errors)
          matched
        × Elem x matched
        × ((x ≡ sig) ⊎ Elem x (windows_of J U a (runner_event J printed link e now errors)))
  vfs_write-compensated k valid link front before after back s sig count now errors e v short
        captured size at clock task hp there fits covered ne hs hsig same m =
      let (counted, offset) =
        captured_fields (watch_prefixes (as_bytes a.prefix)) k valid count (length front) e captured
          at in
      let (time, process) =
        vfs_write-time_and_pid (watch_prefixes (as_bytes a.prefix)) k valid count e captured in
      let t : e.timestamp_ns < 2 ^ 64 = omega arith in
      let p : e.pid < 2 ^ 64 = omega arith in
      let ev = runner_event J printed link e now errors in
      let sizes : (e.offset < 2 ^ 64)
          × (e.count < 2 ^ 64)
          × (e.offset ≤ length (front ++ before))
          × (length (front ++ before) + length (as_bytes s) ≤ e.offset + min e.count max_scan) =
        grind (arith, length-append) in
      Reports-in_file_or_window J U a files ev
        (runner_event-is_mem_write J printed link e t p now errors)
        (runner_event-is_object J printed link e t p now errors) s sig hs hsig same m
        (resolve_path link e) e.offset e.count (front ++ before) (after ++ back)
        (runner_event-get_str J printed link e t p now errors (codes "path")
            (read_back (resolve_path link e)) (unfold fields_of in refl)
          ∙ ap some (printable (resolve_path link e) hp))
        (runner_event-get_u64 J printed link e t p now errors (codes "offset") e.offset
          (unfold fields_of in refl) sizes.0)
        (runner_event-get_u64 J printed link e t p now errors (codes "count") e.count
          (unfold fields_of in refl) sizes.1)
        (printable-is_watched k valid count e link v short captured hp) there fits sizes.2 sizes.3
        ne
