-- ===== src/Alert/Sink/Marked.antt =====
-- What the sink sends of the events that it passes on, and of one that the poison analyzer marked.
use memguard_agent.Base.{
  ◌≡◌, refl, sym, ap, inl, inr, ◌&&◌, none, some, List, [], ◌∷◌, ◌++◌, map, append-nil,
  append_assoc, arith, if◌then◌else◌, Option-cases,
}
use memguard_agent.Alert.Sink.{Channel, push, texts_of, alert_of, process}
use memguard_agent.Alert.{Alert, AlertConfig, enabled}
use memguard_agent.Event.{Event}
use memguard_agent.Json.{Json}
use memguard_agent.Poison.Fields.{get-matched, get-severity, get-file}
use memguard_agent.Poison.Process.{poison_value}
use memguard_agent.Poison.{severity}
use memguard_agent.Text.{Text, codes, join}

module _ (J : Json) where
  open J use {Value, get, str, as_str, as_array, is_object, as_str-str}

  -- The alerts of the events that are marked, in their order.
  unfoldable pub alerts_of : List (Event J) → List Alert
  alerts_of [] = []
  alerts_of (ev ∷ evs) =
      let rest = alerts_of evs in
      elim (get (codes "poison") ev.content) [
        | none ↦ rest
        | some poison ↦ alert_of J ev poison ∷ rest
      ]

  -- What stands in the channel behind a stream.
  abbrev pub after : AlertConfig → Channel → List Alert → Channel
  after config ch alerts =
      if enabled config && ch.receiving then record ch { buffered = ch.buffered ++ alerts } else ch

  after_nil : (config : AlertConfig) (ch : Channel) → after config ch [] ≡ ch
  after_nil config ch = ground (arith, append-nil ch.buffered)

  after_cons :
      (config : AlertConfig) (ch : Channel) (x : Alert) (xs : List Alert)
      → after config (push config ch x) xs ≡ after config ch (x ∷ xs)
  unfolding push
  after_cons config ch x xs = ground (arith, append_assoc ch.buffered (x ∷ []) xs)

  -- The sink passes every event on as it is, and sends the alerts of the marked ones, each once and
  -- in order, if a channel is configured and the receiver lives, and otherwise none.
  pub process-alerts_of :
      (config : AlertConfig) (evs : List (Event J)) (ch : Channel)
      → process J config evs ch ≡ (evs, after config ch (alerts_of evs))
  unfolding process alerts_of
  process-alerts_of config [] ch = ap (λ (c : Channel). ([], c)) (sym (after_nil config ch))
  process-alerts_of config (ev ∷ evs) ch = elim (Option-cases (get (codes "poison") ev.content)) [
    | inl e ↦ rw (e, alerts_of, process-alerts_of config evs ch)
    | inr (poison, e) ↦ rw (
      e,
      alerts_of,
      process-alerts_of config evs (push config ch (alert_of J ev poison)),
      after_cons config ch (alert_of J ev poison) (alerts_of evs),
    )
  ]

  pub texts_of-map : (ss : List Text) → texts_of J (map str ss) ≡ ss
  unfolding texts_of
  texts_of-map [] = refl
  texts_of-map (s ∷ ss) = rw (as_str-str s) (ap (◌∷◌ s) (texts_of-map ss))

  -- The alert of a marked event names its signatures, joined by commas, its severity and its file,
  -- and the event's time, process and command.
  pub alert_of-poison_value :
      (ev : Event J) (matched : List Text) (file : Text)
      → alert_of J ev (poison_value J matched file) ≡ record {
        ts_ms = ev.timestamp;
        severity = severity matched;
        pid = ev.pid;
        comm = ev.comm;
        file = file;
        signatures = join (codes ",") matched;
      }
  unfolding alert_of
  alert_of-poison_value ev matched file = rw (
    get-matched J matched file,
    get-severity J matched file,
    get-file J matched file,
    texts_of-map matched,
  )
