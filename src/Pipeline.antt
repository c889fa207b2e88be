-- ===== src/Pipeline.antt =====
-- The poison analyzer with the alert sink behind it, as the memwrite runner has them: what is sent for
-- a stream of the probe's events.
pub mod Pushed
mod Tests
use memguard_agent.Base.{
  ◌≡◌, refl, ap, ◌∙◌, inl, inr, true, not, none, some, List, [], ◌∷◌, ◌++◌, arith, if◌then◌else◌,
  Bool-cases, is_empty, All,
}
use memguard_agent.Alert.Sink
use memguard_agent.Alert.Sink.Marked.{alerts_of, after, process-alerts_of, alert_of-poison_value}
use memguard_agent.Alert.Sink.{Channel, alert_of}
use memguard_agent.Alert.{Alert, AlertConfig}
use memguard_agent.Event.{Event, Files}
use memguard_agent.Json.{Json}
use memguard_agent.Poison.Detect.{path_or_empty, process_event-mark}
use memguard_agent.Poison.Fields.{poison_of, get-mark}
use memguard_agent.Poison.Process
use memguard_agent.Poison.Process.{is_mem_write, poison_value, mark, matched_of}
use memguard_agent.Poison.{PoisonAnalyzer, severity}
use memguard_agent.Text.Lowercase.{Lowercase}
use memguard_agent.Text.{Text, codes, join}

module _ (J : Json) where
  open J use {Value, get, is_object, get_not_object}

  -- A memory write is an object, since its `event` can be read.
  is_mem_write-is_object : (ev : Event J) → is_mem_write J ev ≡ true → is_object ev.content ≡ true
  unfolding is_mem_write
  is_mem_write-is_object ev w = elim (Bool-cases (is_object ev.content)) [
    | inl o ↦ o
    | inr n ↦
        let nothing = get_not_object (codes "event") ev.content n in
        absurd (ground (arith, rw nothing at w))
  ]

  -- The alert that a reported memory write calls for.
  abbrev pub alert_with : Event J → List Text → Alert
  alert_with ev matched = record {
    ts_ms = ev.timestamp;
    severity = severity matched;
    pid = ev.pid;
    comm = ev.comm;
    file = path_or_empty J ev;
    signatures = join (codes ",") matched;
  }

  abbrev pub alerts_found : Event J → List Text → List Alert
  alerts_found ev matched = if not (is_empty matched) then alert_with ev matched ∷ [] else []

  mark-fields :
      (ev : Event J) (m : Text) (ms : List Text)
      → is_object ev.content ≡ true
      → alert_of J (mark J ev (m ∷ ms)) (poison_value J (m ∷ ms) (path_or_empty J ev))
        ≡ alert_with ev (m ∷ ms)
  unfolding mark
  mark-fields ev m ms o =
      alert_of-poison_value J (mark J ev (m ∷ ms)) (m ∷ ms) (path_or_empty J ev) ∙ rw o

  -- The event comes without a mark.
  abbrev pub IsUnmarked : Files × Event J → Type 0
  IsUnmarked (files, ev) = poison_of J ev ≡ none

  alerts_of-none :
      (e : Event J) (es : List (Event J))
      → poison_of J e ≡ none
      → alerts_of J (e ∷ es) ≡ alerts_of J es
  unfolding alerts_of
  alerts_of-none e es h = rw (h, alerts_of)

  alerts_of-some :
      (e : Event J) (es : List (Event J)) (p : Value)
      → poison_of J e ≡ some p
      → alerts_of J (e ∷ es) ≡ alert_of J e p ∷ alerts_of J es
  unfolding alerts_of
  alerts_of-some e es p h = rw (h, alerts_of)

  alerts_of-mark :
      (ev : Event J) (matched : List Text) (es : List (Event J))
      → is_object ev.content ≡ true
      → poison_of J ev ≡ none
      → alerts_of J (mark J ev matched ∷ es) ≡ alerts_found ev matched ++ alerts_of J es
  alerts_of-mark ev [] es o un = (unfold mark in alerts_of-none ev es un)
  alerts_of-mark ev (m ∷ ms) es o un =
      alerts_of-some (mark J ev (m ∷ ms)) es _ (get-mark J ev m ms (codes "poison") o)
      ∙ ap (λ (x : Alert). x ∷ alerts_of J es) (mark-fields ev m ms o)

  module _ (U : Lowercase) (a : PoisonAnalyzer) where
    abbrev pub alerts_for : Files → Event J → List Alert
    alerts_for files ev =
        if is_mem_write J ev then alerts_found ev (matched_of J U a files ev) else []

    -- One alert for each memory write in which a signature is found.
    unfoldable pub reported : List (Files × Event J) → List Alert
    reported [] = []
    reported ((files, ev) ∷ rest) = let later = reported rest in alerts_for files ev ++ later

  module _ (U : Lowercase) (a : PoisonAnalyzer) where
    alerts_of-process :
        (events : List (Files × Event J))
        → All IsUnmarked events
        → alerts_of J (Process.process J U a events) ≡ reported U a events
    unfolding Process.process reported
    alerts_of-process [] h = (unfold alerts_of in refl)
    alerts_of-process ((files, ev) ∷ rest) h = elim (Bool-cases (is_mem_write J ev)) [
      | inl w ↦
          rw (process_event-mark J U a files ev w, w)
            (alerts_of-mark ev (matched_of J U a files ev) (Process.process J U a rest)
                (is_mem_write-is_object ev w) h.0
              ∙ ap (◌++◌ (alerts_found ev (matched_of J U a files ev)))
                  (alerts_of-process rest h.1))
      | inr n ↦ rw n (alerts_of-none ev _ h.0 ∙ alerts_of-process rest h.1)
    ]

    -- For a stream of events that come without a mark, the sink behind the analyzer sends exactly one
    -- alert for each memory write in which a signature is found, in order, with the signatures, their
    -- severity and the written file, if a channel is configured and the receiver lives, and none
    -- otherwise.
    pub process-process :
        (config : AlertConfig) (ch : Channel) (events : List (Files × Event J))
        → All IsUnmarked events
        → (Sink.process J config (Process.process J U a events) ch).1
          ≡ after J config ch (reported U a events)
    process-process config ch events h =
        rw (process-alerts_of J config (Process.process J U a events) ch)
          (ap (after J config ch) (alerts_of-process events h))
