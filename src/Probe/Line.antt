-- ===== src/Probe/Line.antt =====
-- overlay/bpf/memwrite.c: the line that `handle_event` prints for an event, as the JSON object that it
-- stands for. `json_print_escaped` belongs to AgentSight: what a reader of the line gets for the bytes
-- that it prints is the parameter `Printed`, the bytes themselves where they are printable ASCII.
use memguard_agent.Base.{
  ltb, ℕ, ◌≤◌, ◌<◌, ◌≡◌, ap, ◌∙◌, true, Option, none, some, List, [], ◌∷◌, ◌++◌, if◌then◌else◌,
  take, is_empty, All,
}
use memguard_agent.Json.{Json}
use memguard_agent.Probe.{MemwriteEvent}
use memguard_agent.Text.{Text, Bytes, codes, text_eq}

abbrev pub IsPrintable : ℕ → Type 0
IsPrintable c = (0x20 ≤ c) × (c < 0x7f)

pub record Printed : Type 0 where
  pub read_back : Bytes → Text
  pub printable : (s : Bytes) → All IsPrintable s → read_back s ≡ s

-- The path of the written file, from the link to the writer's working directory, if it can be read.
unfoldable pub resolve_path : Option Bytes → MemwriteEvent → Bytes
resolve_path none e = e.filename
resolve_path (some link) e =
    let cwd = take 511 link in if is_empty cwd then e.filename else cwd ++ (b'/' ∷ e.filename)

module _ (J : Json) where
  open J use {
    Value, get, is_object, insert, empty, get-insert, is_object-insert, is_object-empty, get-empty,
  }

  -- An object that is printed field by field.
  unfoldable pub object_of : List (Text × Value) → Value
  object_of [] = empty
  object_of ((k, v) ∷ fields) = insert k v (object_of fields)

  abbrev pub find : Text → List (Text × Value) → Option Value
  find j [] = none
  find j ((k, v) ∷ fields) = let rest = find j fields in if text_eq k j then some v else rest

  pub object_of-is_object : (fields : List (Text × Value)) → is_object (object_of fields) ≡ true
  unfolding object_of
  object_of-is_object [] = is_object-empty
  object_of-is_object ((k, v) ∷ fields) = is_object-insert k v _ ∙ object_of-is_object fields

  pub get-object_of :
      (j : Text) (fields : List (Text × Value)) → get j (object_of fields) ≡ find j fields
  unfolding object_of
  get-object_of j [] = get-empty j
  get-object_of j ((k, v) ∷ fields) =
      get-insert j k v (object_of fields) (object_of-is_object fields)
      ∙ ap (λ (rest : Option Value). if text_eq k j then some v else rest) (get-object_of j fields)

  module _ (printed : Printed) where
    open J use {str, number}
    open printed use {read_back}

    unfoldable pub fields_of : Option Bytes → MemwriteEvent → List (Text × Value)
    unfolding resolve_path
    fields_of link e =
        (codes "timestamp", number e.timestamp_ns)
        ∷ (codes "event", str (codes "MEM_WRITE"))
        ∷ (codes "comm", str (read_back e.comm))
        ∷ (codes "pid", number e.pid)
        ∷ (codes "tid", number e.tid)
        ∷ (codes "count", number e.count)
        ∷ (codes "offset", number e.offset)
        ∷ (codes "path", str (read_back (resolve_path link e)))
        ∷ (codes "filename", str (read_back e.filename))
        ∷ (codes "parent", str (read_back e.parent))
        ∷ (codes "head_len", number e.head_len)
        ∷ (codes "tail_len", number e.tail_len)
        ∷ (codes "head", str (read_back (take e.head_len e.head)))
        ∷ (codes "tail", str (read_back (take e.tail_len e.tail)))
        ∷ []

    unfoldable pub handle_event : Option Bytes → MemwriteEvent → Value
    unfolding object_of fields_of
    handle_event link e = object_of (fields_of link e)

    -- The ring buffer's callback passes over an item that is smaller than the struct of an event.
    unfoldable pub handle_data : ℕ → ℕ → Option Bytes → MemwriteEvent → Option Value
    unfolding handle_event
    handle_data struct_size data_sz link e =
        if ltb data_sz struct_size then none else some (handle_event link e)
