-- ===== src/Event.antt =====
-- The record of the capture pipeline's `Event` that the analyzers and runners read and build, and
-- what a process meets while it handles one event.
use memguard_agent.Base.{ℕ, Option, and_then}
use memguard_agent.Json.{Json}
use memguard_agent.Text.{Text, Bytes}

module _ (J : Json) where
  open J use {Value, get, as_str, as_u64}

  -- `Event::new_with_timestamp` takes its fields in this order.
  pub record Event : Type 0 where
    pub timestamp : ℕ
    pub source : Text
    pub pid : ℕ
    pub comm : Text
    pub content : Value

  -- `v.get(key).and_then(|v| v.as_str())`
  abbrev pub get_str : Text → Value → Option Text
  get_str k v = and_then (get k v) as_str

  -- `v.get(key).and_then(|v| v.as_u64())`
  abbrev pub get_u64 : Text → Value → Option ℕ
  get_u64 k v = and_then (get k v) as_u64

-- `tokio::fs::read` of a path at the moment of the call: the file's bytes, or `none` on an error.
abbrev pub Files : Type 0
Files = Text → Option Bytes
