-- ===== src/Alert/Sink.antt =====
-- overlay/ext/analysis/src/analyzers/alert_sink.rs: `AlertSink::process` and `StreamSink::push`. The
-- sender's end of the channel and the background task are in `Alert.Flusher`.
pub mod Marked
use memguard_agent.Base.{
  Bool, not, Option, none, some, List, [], ◌∷◌, ◌++◌, if◌then◌else◌, unwrap_or, and_then,
}
use memguard_agent.Alert.{Alert, AlertConfig, enabled}
use memguard_agent.Event.{Event, get_str}
use memguard_agent.Json.{Json}
use memguard_agent.Text.{Text, codes, join}

-- An unbounded channel: what was sent and not yet received, and whether the receiver still lives.
pub record Channel : Type 0 where
  pub buffered : List Alert
  pub receiving : Bool

-- `UnboundedSender::send`, whose error on a closed channel the code ignores.
unfoldable pub send : Channel → Alert → Channel
send ch alert = if ch.receiving then record ch { buffered = ch.buffered ++ (alert ∷ []) } else ch

unfoldable pub push : AlertConfig → Channel → Alert → Channel
unfolding send
push config ch alert = if not (enabled config) then ch else send ch alert

module _ (J : Json) where
  open J use {Value, get, as_str, as_array}

  -- `matched.iter().filter_map(|v| v.as_str())`
  unfoldable pub texts_of : List Value → List Text
  texts_of [] = []
  texts_of (v ∷ vs) = let rest = texts_of vs in elim (as_str v) [ none ↦ rest | some s ↦ s ∷ rest ]

  -- The alert of an event with the given `poison` value.
  unfoldable pub alert_of : Event J → Value → Alert
  unfolding texts_of
  alert_of ev poison =
      let matched = unwrap_or (and_then (get (codes "matched") poison) as_array) [] in
      record {
        ts_ms = ev.timestamp;
        severity = unwrap_or (get_str J (codes "severity") poison) (codes "HIGH");
        pid = ev.pid;
        comm = ev.comm;
        file = unwrap_or (get_str J (codes "file") poison) [];
        signatures = join (codes ",") (texts_of matched);
      }

  -- The closure of `filter_map`, on the event's `poison`.
  unfoldable pub process_poison :
      AlertConfig → Event J → Channel → Option Value → Option (Event J) × Channel
  unfolding alert_of push
  process_poison config ev ch none = (some ev, ch)
  process_poison config ev ch (some poison) = (some ev, push config ch (alert_of ev poison))

  abbrev pub push_some : Option (Event J) → List (Event J) → List (Event J)
  push_some none evs = evs
  push_some (some e) evs = e ∷ evs

  -- `stream.filter_map(…)`: the events passed on, and the channel behind them.
  unfoldable pub process : AlertConfig → List (Event J) → Channel → List (Event J) × Channel
  unfolding process_poison
  process config [] ch = ([], ch)
  process config (ev ∷ evs) ch =
      let (out, ch') = process_poison config ev ch (get (codes "poison") ev.content) in
      let (rest, last) = process config evs ch' in (push_some out rest, last)
