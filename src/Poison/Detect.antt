-- ===== src/Poison/Detect.antt =====
-- A write that carries a signature is marked, and a mark names only signatures that it carries.
use memguard_agent.Base.{
  ◌≡◌, refl, ap, ◌≢◌, true, false, some, List, [], ◌∷◌, map, unwrap_or, and_then, is_empty, Elem,
  keep-Elem,
}
use memguard_agent.Event.{Event, get_str, get_u64, Files}
use memguard_agent.Json.{Json}
use memguard_agent.Poison.Fields.{poison_of, get-mark, get-matched, get-severity, get-file}
use memguard_agent.Poison.Process.{
  is_mem_write, poison_value, mark, compensate, matched_of, process_event,
}
use memguard_agent.Poison.Scan.{scan_windows-keep}
use memguard_agent.Poison.{PoisonAnalyzer, window_hit, scan_windows, severity}
use memguard_agent.Text.Lowercase.{Lowercase}
use memguard_agent.Text.{Text, codes}

Elem-cons : (x : Text) (xs : List Text) → Elem x xs → (y : Text) × (ys : List Text) × (xs ≡ y ∷ ys)
Elem-cons x [] m = elim m [ ]
Elem-cons x (y ∷ ys) m = (y, ys, refl)

module _ (J : Json) where
  open J use {Value, get, as_array, str, is_object}

  -- The event's `data.poison` lists these signatures, with their severity and the file.
  abbrev pub MarkedWith : Event J → List Text → Text → Type 0
  MarkedWith e matched file =
      (p : Value) × (poison_of J e ≡ some p)
      × (and_then (get (codes "matched") p) as_array ≡ some (map str matched))
      × (get_str J (codes "severity") p ≡ some (severity matched))
      × (get_str J (codes "file") p ≡ some file)

  abbrev pub path_or_empty : Event J → Text
  path_or_empty ev = unwrap_or (get_str J (codes "path") ev.content) []

  pub mark-MarkedWith :
      (ev : Event J) (sig : Text) (matched : List Text)
      → is_object ev.content ≡ true
      → Elem sig matched
      → MarkedWith (mark J ev matched) matched (path_or_empty ev)
  mark-MarkedWith ev sig [] h m = elim m [ ]
  mark-MarkedWith ev sig (m ∷ ms) h _ = (
    poison_value J (m ∷ ms) (path_or_empty ev),
    get-mark J ev m ms (codes "poison") h,
    get-matched J (m ∷ ms) (path_or_empty ev),
    get-severity J (m ∷ ms) (path_or_empty ev),
    get-file J (m ∷ ms) (path_or_empty ev),
  )

  module _ (U : Lowercase) (a : PoisonAnalyzer) where
    abbrev pub windows_of : Event J → List Text
    windows_of ev =
        scan_windows U (get_str J (codes "head") ev.content) (get_str J (codes "tail") ev.content)
          a.rules

    pub process_event-mark :
        (files : Files) (ev : Event J)
        → is_mem_write J ev ≡ true
        → process_event J U a files ev ≡ some (mark J ev (matched_of J U a files ev))
    unfolding process_event
    process_event-mark files ev h = rw h

    pub matched_of_windows :
        (files : Files) (ev : Event J)
        → is_empty (windows_of ev) ≡ false
        → matched_of J U a files ev ≡ windows_of ev
    unfolding matched_of
    matched_of_windows files ev h = rw h

    pub matched_of_file :
        (files : Files) (ev : Event J)
        → is_empty (windows_of ev) ≡ true
        → matched_of J U a files ev
          ≡ compensate J U a files
              (get_str J (codes "path") ev.content)
              (get_u64 J (codes "offset") ev.content)
              (get_u64 J (codes "count") ev.content)
    unfolding matched_of
    matched_of_file files ev h = rw h

    -- Where the windows of an event hold a signature, the analyzer gives the same event whatever the
    -- files hold.
    pub windows_hide_file :
        (files files' : Files) (ev : Event J)
        → windows_of ev ≢ []
        → process_event J U a files ev ≡ process_event J U a files' ev
    unfolding process_event
    windows_hide_file files files' ev h =
        let e = is_empty_false (windows_of ev) h in
        rw (matched_of_windows files ev e, matched_of_windows files' ev e)
      where
        is_empty_false : (xs : List Text) → xs ≢ [] → is_empty xs ≡ false
        is_empty_false [] h = absurd (h refl)
        is_empty_false (x ∷ xs) h = refl

    module _ (files : Files) (ev : Event J) (sig : Text) where
      pub window-Elem :
          window_hit U
              (get_str J (codes "head") ev.content)
              (get_str J (codes "tail") ev.content)
              sig
            ≡ true
          → Elem sig a.rules
          → Elem sig (matched_of J U a files ev)
      window-Elem hit m =
          let found : Elem sig (windows_of ev) =
            rw
              (scan_windows-keep U (get_str J (codes "head") ev.content)
                (get_str J (codes "tail") ev.content) a.rules)
              (keep-Elem _ sig a.rules m hit) in
          let (y, ys, e) = Elem-cons sig (windows_of ev) found in
          rw (matched_of_windows files ev (ap is_empty e)) found
