-- ===== src/Poison/Process.antt =====
-- overlay/ext/analysis/src/analyzers/poison.rs: `process`, the handling of the event stream. Each
-- event comes with the file system as it is when the event's turn comes. Logging is left out.
use memguard_agent.Base.{
  ℕ, Bool, false, not, ◌&&◌, ◌||◌, List, [], ◌∷◌, map, Option, none, some, if◌then◌else◌, any,
  is_empty, unwrap_or,
}
use memguard_agent.Event.{Event, get_str, get_u64, Files}
use memguard_agent.Json.{Json}
use memguard_agent.Poison.{PoisonAnalyzer, scan_windows, scan_file_range, severity}
use memguard_agent.Text.Lowercase.{Lowercase}
use memguard_agent.Text.{Text, codes, text_eq, contains, split}

module _ (J : Json) where
  open J use {Value, str, array, empty, insert, is_object}

  abbrev pub is_text : Option Text → Text → Bool
  is_text none t = false
  is_text (some s) t = text_eq s t

  unfoldable pub is_mem_write : Event J → Bool
  is_mem_write ev =
      text_eq ev.source (codes "memwrite")
      && is_text (get_str J (codes "event") ev.content) (codes "MEM_WRITE")

  -- The value `json!({"matched": …, "severity": …, "file": …})`.
  abbrev pub poison_value : List Text → Text → Value
  poison_value matched file = insert (codes "file") (str file) (
      insert (codes "severity") (str (severity matched))
        (insert (codes "matched") (array (map str matched)) empty))

  -- The branch `if !matched.is_empty()`.
  unfoldable pub mark : Event J → List Text → Event J
  mark ev matched =
      let file = unwrap_or (get_str J (codes "path") ev.content) [] in
      if not (is_empty matched) && is_object ev.content
      then record ev { content = insert (codes "poison") (poison_value matched file) ev.content }
      else ev

  module _ (U : Lowercase) (a : PoisonAnalyzer) where
    abbrev pub is_watched : Text → Bool
    is_watched path = is_empty a.prefix || any (contains path) (split b',' a.prefix)

    -- The compensation, on the event's `path`, `offset` and `count`.
    unfoldable pub compensate : Files → Option Text → Option ℕ → Option ℕ → List Text
    compensate files none offset count = []
    compensate files (some path) none count = []
    compensate files (some path) (some offset) none = []
    compensate files (some path) (some offset) (some count) =
        if is_watched path then scan_file_range U files path offset count a.rules else []

    unfoldable pub matched_of : Files → Event J → List Text
    unfolding compensate
    matched_of files ev =
        let head = get_str J (codes "head") ev.content in
        let tail = get_str J (codes "tail") ev.content in
        let matched = scan_windows U head tail a.rules in
        let found =
          compensate files (get_str J (codes "path") ev.content)
            (get_u64 J (codes "offset") ev.content) (get_u64 J (codes "count") ev.content) in
        if is_empty matched then found else matched

    -- The closure of `filter_map`.
    unfoldable pub process_event : Files → Event J → Option (Event J)
    unfolding is_mem_write mark matched_of
    process_event files ev =
        if not (is_mem_write ev) then some ev else some (mark ev (matched_of files ev))

    -- `stream.filter_map(…)`
    unfoldable pub process : List (Files × Event J) → List (Event J)
    unfolding process_event
    process [] = []
    process ((files, ev) ∷ rest) = push_some (process_event files ev) (process rest)
      where
        push_some : Option (Event J) → List (Event J) → List (Event J)
        push_some none evs = evs
        push_some (some e) evs = e ∷ evs
