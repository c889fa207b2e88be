-- ===== src/Pipeline/Pushed.antt =====
-- From a mark to the batch that the background task pushes.
use memguard_agent.Base.{
  ◌≡◌, refl, sym, ap, ◌∙◌, subst, ◌⊎◌, inl, inr, true, false, some, List, [], ◌∷◌, ◌++◌, Bool-cases,
  Option-cases, Elem,
}
use memguard_agent.Alert.Flusher.Delivery.{concat}
use memguard_agent.Alert.Flusher.Running.{sent, IsOrderly, concat-sent}
use memguard_agent.Alert.Flusher.{Action, start, run_flusher}
use memguard_agent.Alert.Sink
use memguard_agent.Alert.Sink.Marked.{alerts_of, after, process-alerts_of, texts_of-map}
use memguard_agent.Alert.Sink.{Channel, alert_of}
use memguard_agent.Alert.{Alert, AlertConfig, enabled}
use memguard_agent.Event.{Event, Files}
use memguard_agent.Json.{Json}
use memguard_agent.Pipeline.{alert_with}
use memguard_agent.Poison.Detect.{MarkedWith, path_or_empty}
use memguard_agent.Poison.Fields.{poison_of}
use memguard_agent.Poison.Process
use memguard_agent.Poison.Process.{mark, process_event}
use memguard_agent.Poison.Reports.{Reports}
use memguard_agent.Poison.{PoisonAnalyzer, severity}
use memguard_agent.Text.Lowercase.{Lowercase}
use memguard_agent.Text.{Text, codes, join}

-- The channel before the first event, while the task runs.
abbrev pub empty_channel : Channel
empty_channel = record { buffered = []; receiving = true }

-- What is in one of the batches is in all of them, one behind the other, and the other way round.
Elem-concat :
    (x : Alert) (bs : List (List Alert))
    → Elem x (concat bs)
    → (b : List Alert) × Elem b bs × Elem x b
Elem-concat x [] m = elim m [ ]
Elem-concat x (b ∷ bs) m = elim (Elem-append_cases b m) [
  | inl first ↦ (b, inl refl, first)
  | inr later ↦ let (c, there, holds) = Elem-concat x bs later in (c, inr there, holds)
]
  where
    Elem-append_cases :
        (ys : List Alert) → Elem x (ys ++ concat bs) → Elem x ys ⊎ Elem x (concat bs)
    Elem-append_cases [] m = inr m
    Elem-append_cases (y ∷ ys) (inl e) = inl (inl e)
    Elem-append_cases (y ∷ ys) (inr m) = elim (Elem-append_cases ys m) [
      | inl here ↦ inl (inr here)
      | inr there ↦ inr there
    ]

module _ (J : Json) where
  open J use {Value}

  alerts_of-Elem :
      (ev : Event J) (p : Value) (evs : List (Event J))
      → Elem ev evs
      → poison_of J ev ≡ some p
      → Elem (alert_of J ev p) (alerts_of J evs)
  unfolding alerts_of
  alerts_of-Elem ev p [] m h = elim m [ ]
  alerts_of-Elem ev p (e ∷ evs) (inl same) h =
      subst (λ (x : Event J). Elem (alert_of J ev p) (alerts_of J (x ∷ evs))) same
        (rw (h, alerts_of) (inl refl))
  alerts_of-Elem ev p (e ∷ evs) (inr m) h = elim (Option-cases (poison_of J e)) [
    | inl none_here ↦ rw (none_here, alerts_of) (alerts_of-Elem ev p evs m h)
    | inr (q, marked) ↦ rw (marked, alerts_of) (inr (alerts_of-Elem ev p evs m h))
  ]

  alert_of-MarkedWith :
      (ev : Event J) (matched : List Text) (file : Text)
      → (marked : MarkedWith J ev matched file)
      → alert_of J ev marked.0 ≡ record {
        ts_ms = ev.timestamp;
        severity = severity matched;
        pid = ev.pid;
        comm = ev.comm;
        file = file;
        signatures = join (codes ",") matched;
      }
  unfolding alert_of
  alert_of-MarkedWith ev matched file (p, poison, list, grade, path) =
      rw (list, grade, path, texts_of-map J matched)

  -- A mark changes the content alone.
  mark-alert :
      (ev : Event J) (sig : Text) (matched : List Text)
      → Elem sig matched
      → record {
        ts_ms = (mark J ev matched).timestamp;
        severity = severity matched;
        pid = (mark J ev matched).pid;
        comm = (mark J ev matched).comm;
        file = path_or_empty J ev;
        signatures = join (codes ",") matched;
      }
        ≡ alert_with J ev matched
  unfolding mark
  mark-alert ev sig [] s = elim s [ ]
  mark-alert ev sig (m ∷ ms) s = elim (Bool-cases (J.is_object ev.content)) [
    | inl object ↦ rw object refl
    | inr other ↦ rw other refl
  ]

  module _ (U : Lowercase) (a : PoisonAnalyzer) where
    process-Elem :
        (files : Files) (ev marked : Event J) (events : List (Files × Event J))
        → Elem (files, ev) events
        → process_event J U a files ev ≡ some marked
        → Elem marked (Process.process J U a events)
    unfolding Process.process
    process-Elem files ev marked [] m h = elim m [ ]
    process-Elem files ev marked ((fs, e) ∷ events) (inl same) h =
        let found =
          subst (λ (p : Files × Event J). process_event J U a p.0 p.1 ≡ some marked) same h in
        rw found (inl refl)
    process-Elem files ev marked ((fs, e) ∷ events) (inr m) h =
        elim (Option-cases (process_event J U a fs e)) [
          | inl dropped ↦ rw dropped (process-Elem files ev marked events m h)
          | inr (passed, e') ↦ rw e' (inr (process-Elem files ev marked events m h))
        ]

    module _ (config : AlertConfig) (on : enabled config ≡ true)
        (events : List (Files × Event J)) where
      -- What the sink behind the analyzer puts into the channel.
      abbrev pub put : List Alert
      put = (Sink.process J config (Process.process J U a events) empty_channel).1.buffered

      put-alerts_of : put ≡ alerts_of J (Process.process J U a events)
      put-alerts_of =
          ap (λ (r : List (Event J) × Channel). r.1.buffered)
            (process-alerts_of J config (Process.process J U a events) empty_channel)
          ∙ all (alerts_of J (Process.process J U a events))
        where
          all : (alerts : List Alert) → (after J config empty_channel alerts).buffered ≡ alerts
          all alerts = rw on refl

      -- A marked event of the stream has its alert in the channel.
      put-Elem :
          (files : Files) (ev : Event J) (sig : Text) (matched : List Text)
          → Elem (files, ev) events
          → Reports J U a files ev matched
          → Elem sig matched
          → Elem (alert_with J ev matched) put
      put-Elem files ev sig matched m (passed, marked) s =
          let seen = process-Elem files ev (mark J ev matched) events m passed in
          let there = alerts_of-Elem (mark J ev matched) marked.0 _ seen marked.1 in
          subst (Elem (alert_with J ev matched)) (sym put-alerts_of) (
            subst (λ (x : Alert). Elem x (alerts_of J (Process.process J U a events)))
              (alert_of-MarkedWith (mark J ev matched) matched (path_or_empty J ev) marked
                ∙ mark-alert ev sig matched s)
              there)

      -- An event that the analyzer marks has its alert in one of the batches, if the batches are what
      -- the sink puts into the channel.
      pub Reports-in_batch :
          (files : Files) (ev : Event J) (sig : Text) (matched : List Text)
          (batches : List (List Alert))
          → Elem (files, ev) events
          → Reports J U a files ev matched
          → Elem sig matched
          → concat batches ≡ put
          → (batch : List Alert) × Elem batch batches × Elem (alert_with J ev matched) batch
      Reports-in_batch files ev sig matched batches m reports s all =
          Elem-concat (alert_with J ev matched) batches (
            subst (Elem (alert_with J ev matched)) (sym all)
              (put-Elem files ev sig matched m reports s))

      -- An event that the analyzer marks is pushed: the alert with its time, process, command and file,
      -- the signatures of the mark and their severity stands in a batch that the task flushes, whatever
      -- the interleaving, if a channel is configured, what is sent to the task is what the sink puts into
      -- the channel, nothing is sent once the senders are gone, and the task has returned.
      pub Reports-pushed :
          (files : Files) (ev : Event J) (sig : Text) (matched : List Text) (xs : List Action)
          → Elem (files, ev) events
          → Reports J U a files ev matched
          → Elem sig matched
          → sent xs ≡ put
          → IsOrderly xs
          → (run_flusher config start xs).running ≡ false
          → (batch : List Alert) × Elem batch (run_flusher config start xs).flushed
            × Elem (alert_with J ev matched) batch
      Reports-pushed files ev sig matched xs m reports s all orderly stopped =
          Reports-in_batch files ev sig matched (run_flusher config start xs).flushed m reports s
            (concat-sent config xs on orderly stopped ∙ all)
