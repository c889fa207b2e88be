-- ===== src/Poison/Reports.antt =====
-- The analyzer on one event: what is surely reported, and that a report is true.
use memguard_agent.Base.{
  ℕ, ◌+◌, ◌^◌, ◌≤◌, ◌<◌, min, ◌≡◌, refl, subst, ◌≢◌, ◌⊎◌, inl, inr, Bool, true, false, ◌||◌, some,
  List, [], ◌∷◌, ◌++◌, Bool-cases, length, is_empty, All, Elem,
}
use memguard_agent.Event.{Event, get_str, get_u64, Files}
use memguard_agent.Json.{Json}
use memguard_agent.Poison.Detect.{
  MarkedWith, path_or_empty, mark-MarkedWith, windows_of, process_event-mark, matched_of_windows,
  matched_of_file, window-Elem,
}
use memguard_agent.Poison.Process.{
  is_mem_write, is_watched, mark, compensate, matched_of, process_event,
}
use memguard_agent.Poison.Range.{scan_bytes-Elem}
use memguard_agent.Poison.Scan.{scan_file_range-some, contains-lowercase}
use memguard_agent.Poison.{PoisonAnalyzer, window_hit, max_scan}
use memguard_agent.Text.Lowercase.{Lowercase, IsPlain, SameLetters}
use memguard_agent.Text.Utf8.{as_bytes}
use memguard_agent.Text.{Text, Bytes, codes}

or_true : (b : Bool) → (b || true) ≡ true
or_true true = refl
or_true false = refl

not_empty : (xs : List Text) → is_empty xs ≡ false → (y : Text) × (ys : List Text) × (xs ≡ y ∷ ys)
not_empty [] h = cc
not_empty (y ∷ ys) h = (y, ys, refl)

module _ (J : Json) (U : Lowercase) (a : PoisonAnalyzer) (files : Files) (ev : Event J) where
  open J use {is_object}
  open U use {to_lowercase}

  -- The event is passed on with a mark that lists `matched`.
  abbrev pub Reports : List Text → Type 0
  Reports matched =
      (process_event J U a files ev ≡ some (mark J ev matched))
      × MarkedWith J (mark J ev matched) matched (path_or_empty J ev)

  Reports-matched_of :
      (sig : Text)
      → is_mem_write J ev ≡ true
      → is_object ev.content ≡ true
      → Elem sig (matched_of J U a files ev)
      → Reports (matched_of J U a files ev)
  Reports-matched_of sig w o m = (
    process_event-mark J U a files ev w,
    mark-MarkedWith J ev sig (matched_of J U a files ev) o m,
  )

  module _ (w : is_mem_write J ev ≡ true) (o : is_object ev.content ≡ true) (s sig : Text)
      (hs : All IsPlain s) (hsig : All IsPlain sig) (same : SameLetters s sig)
      (m : Elem sig a.rules) where
    window_hit-embeds :
        (before after : Text)
        → (get_str J (codes "head") ev.content ≡ some (before ++ (s ++ after)))
          ⊎ (get_str J (codes "tail") ev.content ≡ some (before ++ (s ++ after)))
        → window_hit U
            (get_str J (codes "head") ev.content)
            (get_str J (codes "tail") ev.content)
            sig
          ≡ true
    window_hit-embeds before after (inl e) =
        rw (e, contains-lowercase U before s after sig hs hsig same)
    window_hit-embeds before after (inr e) =
        rw (e, contains-lowercase U before s after sig hs hsig same) (or_true _)

    -- A memory write whose content is an object and whose head or tail window holds a signature of
    -- ASCII characters and CJK ideographs, in any case of its ASCII letters and with any text
    -- around it, is marked, and the mark names the signature.
    pub Reports-in_window :
        (before after : Text)
        → (get_str J (codes "head") ev.content ≡ some (before ++ (s ++ after)))
          ⊎ (get_str J (codes "tail") ev.content ≡ some (before ++ (s ++ after)))
        → (matched : List Text) × Reports matched × Elem sig matched
    Reports-in_window before after found =
        let hit = window_hit-embeds before after found in
        let listed = window-Elem J U a files ev sig hit m in
        (matched_of J U a files ev, Reports-matched_of sig w o listed, listed)

    compensate-Elem :
        (path : Text) (offset count : ℕ) (before after : Bytes)
        → is_watched J U a path ≡ true
        → files path ≡ some (before ++ (as_bytes s ++ after))
        → length (before ++ (as_bytes s ++ after)) < 2 ^ 64
        → offset ≤ length before
        → length before + length (as_bytes s) ≤ offset + min count max_scan
        → s ≢ []
        → Elem sig (compensate J U a files (some path) (some offset) (some count))
    unfolding compensate
    compensate-Elem path offset count before after hw hf fits h k ne =
        rw (hw, scan_file_range-some U files path offset count a.rules hf)
          (scan_bytes-Elem U before s after offset count sig a.rules fits h k ne hs hsig same m)

    -- A signature in the written range of the file is named, or one that a window holds.
    pub Reports-in_file_or_window :
        (path : Text) (offset count : ℕ) (before after : Bytes)
        → get_str J (codes "path") ev.content ≡ some path
        → get_u64 J (codes "offset") ev.content ≡ some offset
        → get_u64 J (codes "count") ev.content ≡ some count
        → is_watched J U a path ≡ true
        → files path ≡ some (before ++ (as_bytes s ++ after))
        → length (before ++ (as_bytes s ++ after)) < 2 ^ 64
        → offset ≤ length before
        → length before + length (as_bytes s) ≤ offset + min count max_scan
        → s ≢ []
        → (matched : List Text) × (x : Text) × Reports matched
          × Elem x matched
          × ((x ≡ sig) ⊎ Elem x (windows_of J U a ev))
    Reports-in_file_or_window path offset count before after hp ho hc hw hf fits h k ne =
        elim (Bool-cases (is_empty (windows_of J U a ev))) [
          | inl none_seen ↦
              let listed : Elem sig (matched_of J U a files ev) =
                rw (matched_of_file J U a files ev none_seen, hp, ho, hc)
                  (compensate-Elem path offset count before after hw hf fits h k ne) in
              (matched_of J U a files ev, sig, Reports-matched_of sig w o listed, listed, inl refl)
          | inr seen ↦
              let (x, xs, e) = not_empty (windows_of J U a ev) seen in
              let shown : Elem x (windows_of J U a ev) = rw e (inl refl) in
              let listed : Elem x (matched_of J U a files ev) =
                rw (matched_of_windows J U a files ev seen) shown in
              (matched_of J U a files ev, x, Reports-matched_of x w o listed, listed, inr shown)
        ]

    -- A memory write whose content names its path, offset and count, in a watched file below 2 ^
    -- 64 bytes, is marked whenever the bytes of the written range, within its first 4 MiB, hold a
    -- signature of ASCII characters and CJK ideographs, not empty, in any case of its ASCII
    -- letters and with any bytes around it; the mark names the signature, unless a window held
    -- another one.
    pub Reports-in_file :
        (path : Text) (offset count : ℕ) (before after : Bytes)
        → get_str J (codes "path") ev.content ≡ some path
        → get_u64 J (codes "offset") ev.content ≡ some offset
        → get_u64 J (codes "count") ev.content ≡ some count
        → is_watched J U a path ≡ true
        → files path ≡ some (before ++ (as_bytes s ++ after))
        → length (before ++ (as_bytes s ++ after)) < 2 ^ 64
        → offset ≤ length before
        → length before + length (as_bytes s) ≤ offset + min count max_scan
        → s ≢ []
        → (matched : List Text) × Reports matched × (windows_of J U a ev ≡ [] → Elem sig matched)
    Reports-in_file path offset count before after hp ho hc hw hf fits h k ne =
        let (matched, x, reports, listed, named) =
          Reports-in_file_or_window path offset count before after hp ho hc hw hf fits h k ne in
        (
          matched,
          reports,
          λ empty. elim named [
            | inl e ↦ subst (λ (y : Text). Elem y matched) e listed
            | inr shown ↦ absurd (subst (Elem x) empty shown)
          ],
        )
