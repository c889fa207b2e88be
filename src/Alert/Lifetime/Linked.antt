-- ===== src/Alert/Lifetime/Linked.antt =====
-- How the channel and the task hang on the senders.
use memguard_agent.Base.{
  ◌-◌, ◌<◌, ◌≡◌, refl, sym, ◌∙◌, ◌≢◌, true, false, not, ◌&&◌, List, [], ◌∷◌, arith, ltb, ◌==◌,
  if_intro, is_empty, All,
}
use memguard_agent.Alert.Flusher.{
  Flusher, Action, send, drop_senders, tick, recv, flush_pending, on_recv, on_closed,
  on_recv_disabled, accepts, act,
}
use memguard_agent.Alert.Lifetime
use memguard_agent.Alert.Lifetime.{
  Sinks, Move, clone_for_stream, clone, push, stream_push, drop_sink, drop_stream_sink, tick_turn,
  recv_turn, end_runtime, one_if, senders, close_if_last, push_alert, move, live,
}
use memguard_agent.Alert.{Alert, AlertConfig, enabled}

-- The channel is closed exactly when no sender is left, and the task returns only then.
pub record IsLinked (s : Sinks) : Type 0 where
  pub closed_is : s.task.closed ≡ (senders s == 0)
  pub runs_is : s.task.closed ≡ false → s.task.running ≡ true

module _ (config : AlertConfig) where
  -- What a turn of the task keeps.
  abbrev Keeps : Flusher → Flusher → Type 0
  Keeps f g = (g.closed ≡ f.closed) × (f.running ≡ true → f.closed ≡ false → g.running ≡ true)

  Keeps-same : (f : Flusher) → Keeps f f
  Keeps-same f = (refl, λ r o. r)

  flush_pending-Keeps : (f : Flusher) → Keeps f (flush_pending f)
  unfolding flush_pending
  flush_pending-Keeps f =
      if_intro (Keeps f) (not (is_empty f.pending)) _ f (λ t. (refl, λ r o. r)) (λ t. Keeps-same f)

  on_recv-Keeps : (bs : List Alert) (f : Flusher) → Keeps f (on_recv bs f)
  unfolding on_recv on_closed
  on_recv-Keeps (b ∷ bs) f = (refl, λ r o. r)
  on_recv-Keeps [] f =
      if_intro (Keeps f) f.closed _ f
        (λ c. (
          if_intro (λ (g : Flusher). g.closed ≡ f.closed) _ _ _ (λ t. refl) (λ t. refl),
          λ r o. absurd (cc (c, o)),
        ))
        (λ o. Keeps-same f)

  on_recv_disabled-Keeps : (bs : List Alert) (f : Flusher) → Keeps f (on_recv_disabled bs f)
  unfolding on_recv_disabled
  on_recv_disabled-Keeps (b ∷ bs) f = (refl, λ r o. r)
  on_recv_disabled-Keeps [] f =
      if_intro (Keeps f) f.closed _ f (λ c. (refl, λ r o. absurd (cc (c, o)))) (λ o. Keeps-same f)

  act-Keeps : (f : Flusher) (x : Action) → x ≢ drop_senders → Keeps f (act config f x)
  unfolding act
  act-Keeps f (send a) h =
      if_intro (Keeps f) (accepts f) _ f (λ t. (refl, λ r o. r)) (λ t. Keeps-same f)
  act-Keeps f drop_senders h = absurd (h refl)
  act-Keeps f tick h =
      if_intro (Keeps f) (f.running && enabled config) _ f (λ t. flush_pending-Keeps f)
        (λ t. Keeps-same f)
  act-Keeps f recv h =
      if_intro (Keeps f) f.running _ f
        (λ r.
          if_intro (Keeps f) (enabled config) _ _ (λ on. on_recv-Keeps f.buffered f)
            (λ off. on_recv_disabled-Keeps f.buffered f))
        (λ r. Keeps-same f)

  act-IsLinked :
      (s : Sinks) (x : Action)
      → x ≢ drop_senders
      → IsLinked s
      → IsLinked (record s { task = act config s.task x })
  act-IsLinked s x other h =
      let (same, runs) = act-Keeps s.task x other in
      record {
        closed_is = same ∙ h.closed_is;
        runs_is = λ o. let o' = sym same ∙ o in runs (h.runs_is o') o';
      }

  push_alert-IsLinked : (s : Sinks) (a : Alert) → IsLinked s → IsLinked (push_alert config s a)
  unfolding push_alert
  push_alert-IsLinked s a h =
      if_intro IsLinked (not (enabled config)) s _ (λ off. h)
        (λ on. act-IsLinked s (send a) (λ e. cc) h)

  close_if_last-IsLinked :
      (s : Sinks)
      → s.task.closed ≡ false
      → s.task.running ≡ true
      → IsLinked (close_if_last config s)
  unfolding close_if_last act
  close_if_last-IsLinked s o r =
      if_intro IsLinked (senders s == 0) _ s
        (λ last. record { closed_is = sym last; runs_is = λ o'. cc })
        (λ more. record { closed_is = o ∙ sym more; runs_is = λ o'. r })

  -- With a sender left, the channel is open.
  pub is_open : (s : Sinks) → 0 < senders s → IsLinked s → s.task.closed ≡ false
  is_open s some_left h = h.closed_is ∙ ground arith

  pub move-IsLinked :
      (s : Sinks) (m : Move) → m ≢ end_runtime → IsLinked s → IsLinked (move config s m)
  unfolding move
  move-IsLinked s clone_for_stream k h =
      if_intro IsLinked s.sink _ s
        (λ t. record { closed_is = is_open s (ground arith) h ∙ ground arith; runs_is = h.runs_is })
        (λ t. h)
  move-IsLinked s clone k h =
      if_intro IsLinked (ltb 0 s.stream_sinks) _ s
        (λ t. record { closed_is = is_open s (ground arith) h ∙ ground arith; runs_is = h.runs_is })
        (λ t. h)
  move-IsLinked s (push a) k h =
      if_intro IsLinked s.sink _ s (λ t. push_alert-IsLinked s a h) (λ t. h)
  move-IsLinked s (stream_push a) k h =
      if_intro IsLinked (ltb 0 s.stream_sinks) _ s (λ t. push_alert-IsLinked s a h) (λ t. h)
  move-IsLinked s drop_sink k h =
      if_intro IsLinked s.sink _ s
        (λ t.
          let o = is_open s (ground arith) h in
          close_if_last-IsLinked (record s { sink = false }) o (h.runs_is o))
        (λ t. h)
  move-IsLinked s drop_stream_sink k h =
      if_intro IsLinked (ltb 0 s.stream_sinks) _ s
        (λ t.
          let o = is_open s (ground arith) h in
          close_if_last-IsLinked (record s { stream_sinks = s.stream_sinks - 1 }) o (h.runs_is o))
        (λ t. h)
  move-IsLinked s tick_turn k h = act-IsLinked s tick (λ e. cc) h
  move-IsLinked s recv_turn k h = act-IsLinked s recv (λ e. cc) h
  move-IsLinked s end_runtime k h = absurd (k refl)

  pub new-IsLinked : IsLinked Lifetime.new
  unfolding Lifetime.new
  new-IsLinked = record { closed_is = refl; runs_is = λ o'. refl }

-- The runtime does not end.
abbrev pub KeepsRuntime : List Move → Type 0
KeepsRuntime = All λ m. m ≢ end_runtime

pub live-IsLinked :
    (config : AlertConfig) (s : Sinks) (ms : List Move)
    → KeepsRuntime ms
    → IsLinked s
    → IsLinked (live config s ms)
unfolding live
live-IsLinked config s [] k h = h
live-IsLinked config s (m ∷ ms) k h =
    live-IsLinked config (move config s m) ms k.1 (move-IsLinked config s m k.0 h)
