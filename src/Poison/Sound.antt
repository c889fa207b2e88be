-- ===== src/Poison/Sound.antt =====
-- Nothing is reported that the event's windows, or the written bytes of its file, do not hold.
use memguard_agent.Base.{
  ℕ, ◌^◌, ◌<◌, ◌≡◌, refl, ◌∙◌, subst, ◌⊎◌, inl, inr, true, Option, none, some, Bool-cases,
  Option-cases, length, is_empty, Elem, Elem-keep,
}
use memguard_agent.Event.{Event, get_str, get_u64, Files}
use memguard_agent.Json.{Json}
use memguard_agent.Poison.Detect.{windows_of, matched_of_windows, matched_of_file}
use memguard_agent.Poison.Process.{is_watched, compensate, matched_of}
use memguard_agent.Poison.Range.{written, found_in-Elem, scan_bytes-written}
use memguard_agent.Poison.Scan.{scan_windows-keep, scan_file_range-none, scan_file_range-some}
use memguard_agent.Poison.{PoisonAnalyzer, window_hit, scan_file_range}
use memguard_agent.Text.Lowercase.{Lowercase}
use memguard_agent.Text.Utf8.{from_utf8_lossy}
use memguard_agent.Text.{Text, Bytes, codes, contains}

-- Every file is shorter than 2 ^ 64 bytes.
abbrev pub FilesFit : Files → Type 0
FilesFit files = (path : Text) (bytes : Bytes) → files path ≡ some bytes → length bytes < 2 ^ 64

module _ (J : Json) (U : Lowercase) (a : PoisonAnalyzer) (files : Files) (fit : FilesFit files)
    (sig : Text) where
  open U use {to_lowercase}

  -- The file of a watched path holds the signature, letter case aside, in the covered bytes.
  abbrev pub HeldByFile : Option Text → Option ℕ → Option ℕ → Type 0
  HeldByFile p o c =
      (path : Text) × (offset : ℕ) × (count : ℕ) × (bytes : Bytes) × (p ≡ some path)
      × (o ≡ some offset)
      × (c ≡ some count)
      × (files path ≡ some bytes)
      × (is_watched J U a path ≡ true)
      × (contains (to_lowercase (from_utf8_lossy (written bytes offset count))) (to_lowercase sig)
          ≡ true)

  scan_file_range-Elem :
      (path : Text) (offset count : ℕ)
      → Elem sig (scan_file_range U files path offset count a.rules)
      → Elem sig a.rules
        × ((bytes : Bytes) × (files path ≡ some bytes)
            × (contains
                  (to_lowercase (from_utf8_lossy (written bytes offset count)))
                  (to_lowercase sig)
                ≡ true))
  scan_file_range-Elem path offset count m = elim (Option-cases (files path)) [
    | inl e ↦ absurd (subst (Elem sig) (scan_file_range-none U files path offset count a.rules e) m)
    | inr (bytes, e) ↦
        let r = found_in-Elem U (written bytes offset count) sig a.rules (
          subst (Elem sig)
            (scan_file_range-some U files path offset count a.rules e
              ∙ scan_bytes-written U bytes offset count a.rules (fit path bytes e))
            m) in
        (r.0, (bytes, e, r.1))
  ]

  compensate-HeldByFile :
      (p : Option Text) (o c : Option ℕ)
      → Elem sig (compensate J U a files p o c)
      → Elem sig a.rules × HeldByFile p o c
  unfolding compensate
  compensate-HeldByFile none o c m = elim m [ ]
  compensate-HeldByFile (some path) none c m = elim m [ ]
  compensate-HeldByFile (some path) (some offset) none m = elim m [ ]
  compensate-HeldByFile (some path) (some offset) (some count) m =
      elim (Bool-cases (is_watched J U a path)) [
        | inl t ↦
            let (rule, (bytes, e, found)) = scan_file_range-Elem path offset count (rw t at m) in
            (rule, (path, offset, count, bytes, refl, refl, refl, e, t, found))
        | inr f ↦ absurd (rw f at m)
      ]

  -- Where the files are below 2 ^ 64 bytes, every signature that an event is marked with is one of
  -- the analyzer's, and either one of the event's windows holds it, letter case aside, or the
  -- covered bytes of its watched file do.
  pub matched_of-Elem :
      (ev : Event J)
      → Elem sig (matched_of J U a files ev)
      → Elem sig a.rules
        × ((window_hit U
                (get_str J (codes "head") ev.content)
                (get_str J (codes "tail") ev.content)
                sig
              ≡ true)
            ⊎ HeldByFile
                (get_str J (codes "path") ev.content)
                (get_u64 J (codes "offset") ev.content)
                (get_u64 J (codes "count") ev.content))
  matched_of-Elem ev m = elim (Bool-cases (is_empty (windows_of J U a ev))) [
    | inl t ↦
        let r =
          compensate-HeldByFile _ _ _ (subst (Elem sig) (matched_of_file J U a files ev t) m) in
        (r.0, inr r.1)
    | inr f ↦
        let r = Elem-keep _ sig a.rules (
          subst (Elem sig) (matched_of_windows J U a files ev f ∙ scan_windows-keep U _ _ a.rules)
            m) in
        (r.0, inl r.1)
  ]
