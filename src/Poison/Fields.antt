-- ===== src/Poison/Fields.antt =====
-- What can be read from an event that was marked.
use memguard_agent.Base.{
  ◌≡◌, ◌∙◌, true, Option, some, List, [], ◌∷◌, map, if◌then◌else◌, unwrap_or, and_then,
}
use memguard_agent.Event.{Event, get_str}
use memguard_agent.Json.{Json}
use memguard_agent.Poison.Process.{poison_value, mark}
use memguard_agent.Poison.{severity}
use memguard_agent.Text.{Text, codes, text_eq}

module _ (J : Json) where
  open J use {
    Value, get, as_str, as_array, str, array, empty, insert, is_object, get-insert,
    is_object-insert, is_object-empty, as_str-str, as_array-array,
  }

  -- The poison value of an event, and the event's marks: `poison_of ev` reads `data.poison`.
  abbrev pub poison_of : Event J → Option Value
  poison_of ev = get (codes "poison") ev.content

  module _ (matched : List Text) (file : Text) where
    one-is_object : is_object (insert (codes "matched") (array (map str matched)) empty) ≡ true
    one-is_object = is_object-insert _ _ _ ∙ is_object-empty

    two-is_object :
        is_object (
          insert
            (codes "severity")
            (str (severity matched))
            (insert (codes "matched") (array (map str matched)) empty))
        ≡ true
    two-is_object = is_object-insert _ _ _ ∙ one-is_object

    pub get-file : get_str J (codes "file") (poison_value J matched file) ≡ some file
    get-file = rw (get-insert (codes "file") _ _ _ two-is_object) (as_str-str file)

    pub get-severity :
        get_str J (codes "severity") (poison_value J matched file) ≡ some (severity matched)
    get-severity =
        rw
          (
            get-insert (codes "severity") _ _ _ two-is_object,
            get-insert (codes "severity") _ _ _ one-is_object,
          )
          (as_str-str (severity matched))

    pub get-matched :
        and_then (get (codes "matched") (poison_value J matched file)) as_array
        ≡ some (map str matched)
    get-matched =
        rw
          (
            get-insert (codes "matched") _ _ _ two-is_object,
            get-insert (codes "matched") _ _ _ one-is_object,
            get-insert (codes "matched") _ _ _ is_object-empty,
          )
          (as_array-array (map str matched))

  -- A marked event holds the poison value, and every other key as before.
  pub get-mark :
      (ev : Event J) (m : Text) (ms : List Text) (k : Text)
      → is_object ev.content ≡ true
      → get k (mark J ev (m ∷ ms)).content ≡ (
          if text_eq (codes "poison") k
          then some (poison_value J (m ∷ ms) (unwrap_or (get_str J (codes "path") ev.content) []))
          else get k ev.content)
  unfolding mark
  get-mark ev m ms k h = rw (h, get-insert k (codes "poison") _ _ h)
