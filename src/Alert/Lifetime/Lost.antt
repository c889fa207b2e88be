-- ===== src/Alert/Lifetime/Lost.antt =====
-- What the end of the runtime leaves of the alerts that were pushed.
use memguard_agent.Base.{
  ◌-◌, ◌≡◌, refl, ap, ◌∙◌, true, false, not, ◌&&◌, List, [], ◌∷◌, ◌++◌, arith, ltb, ◌==◌, if_intro,
}
use memguard_agent.Alert.Flusher.Delivery.{concat}
use memguard_agent.Alert.Flusher.{Flusher, Action, send, drop_senders, tick, recv, accepts, act}
use memguard_agent.Alert.Lifetime
use memguard_agent.Alert.Lifetime.Kept.{pushed, live-taken, taken-new}
use memguard_agent.Alert.Lifetime.Linked.{KeepsRuntime, new-IsLinked}
use memguard_agent.Alert.Lifetime.{
  Sinks, Move, clone_for_stream, clone, push, stream_push, drop_sink, drop_stream_sink, tick_turn,
  recv_turn, end_runtime, senders, close_if_last, push_alert, move, live,
}
use memguard_agent.Alert.{Alert, AlertConfig, enabled}

-- The task is gone, and it had pushed these batches.
abbrev IsGone : List (List Alert) → Flusher → Type 0
IsGone batches f = (f.running ≡ false) × (f.flushed ≡ batches)

module _ (config : AlertConfig) where
  pub live-append :
      (s : Sinks) (ms ms' : List Move)
      → live config s (ms ++ ms') ≡ live config (live config s ms) ms'
  unfolding live
  live-append s [] ms' = refl
  live-append s (m ∷ ms) ms' = live-append (move config s m) ms ms'

  live-cons :
      (s : Sinks) (m : Move) (ms : List Move)
      → live config s (m ∷ ms) ≡ live config (move config s m) ms
  unfolding live
  live-cons s m ms = refl

  module _ (batches : List (List Alert)) where
    act-IsGone : (f : Flusher) (x : Action) → IsGone batches f → IsGone batches (act config f x)
    unfolding act
    act-IsGone f (send a) h = if_intro (IsGone batches) (accepts f) _ f (λ t. h) (λ t. h)
    act-IsGone f drop_senders h = h
    act-IsGone f tick h =
        if_intro (IsGone batches) (f.running && enabled config) _ f
          (λ t. absurd (ground (arith, h.0))) (λ t. h)
    act-IsGone f recv h =
        if_intro (IsGone batches) f.running _ f (λ t. absurd (cc (t, h.0))) (λ t. h)

    abbrev HasGone : Sinks → Type 0
    HasGone s = IsGone batches s.task

    push_alert-HasGone : (s : Sinks) (a : Alert) → HasGone s → HasGone (push_alert config s a)
    unfolding push_alert
    push_alert-HasGone s a h =
        if_intro HasGone (not (enabled config)) s _ (λ off. h) (λ on. act-IsGone s.task (send a) h)

    close_if_last-HasGone : (s : Sinks) → HasGone s → HasGone (close_if_last config s)
    unfolding close_if_last
    close_if_last-HasGone s h =
        if_intro HasGone (senders s == 0) _ s (λ last. act-IsGone s.task drop_senders h) (λ more. h)

    move-HasGone : (s : Sinks) (m : Move) → HasGone s → HasGone (move config s m)
    unfolding move
    move-HasGone s clone_for_stream h = if_intro HasGone s.sink _ s (λ t. h) (λ t. h)
    move-HasGone s clone h = if_intro HasGone (ltb 0 s.stream_sinks) _ s (λ t. h) (λ t. h)
    move-HasGone s (push a) h = if_intro HasGone s.sink _ s (λ t. push_alert-HasGone s a h) (λ t. h)
    move-HasGone s (stream_push a) h =
        if_intro HasGone (ltb 0 s.stream_sinks) _ s (λ t. push_alert-HasGone s a h) (λ t. h)
    move-HasGone s drop_sink h =
        if_intro HasGone s.sink _ s (λ t. close_if_last-HasGone (record s { sink = false }) h)
          (λ t. h)
    move-HasGone s drop_stream_sink h =
        if_intro HasGone (ltb 0 s.stream_sinks) _ s
          (λ t. close_if_last-HasGone (record s { stream_sinks = s.stream_sinks - 1 }) h) (λ t. h)
    move-HasGone s tick_turn h = act-IsGone s.task tick h
    move-HasGone s recv_turn h = act-IsGone s.task recv h
    move-HasGone s end_runtime h = (refl, h.1)

    live-HasGone : (s : Sinks) (ms : List Move) → HasGone s → HasGone (live config s ms)
    unfolding live
    live-HasGone s [] h = h
    live-HasGone s (m ∷ ms) h = live-HasGone (move config s m) ms (move-HasGone s m h)

  -- With a channel configured, whatever is done with a new sink before the runtime ends and after,
  -- the alerts that wait in the window or in the channel as it ends are in no batch: the batches that
  -- are ever pushed and then those alerts, one behind the other, are the alerts that went through a
  -- living sink before.
  pub live-lost :
      (before after : List Move)
      → enabled config ≡ true
      → KeepsRuntime before
      → let s = live config Lifetime.new before in
        let t = live config Lifetime.new (before ++ (end_runtime ∷ after)) in
        concat t.task.flushed ++ (s.task.pending ++ s.task.buffered)
        ≡ pushed config Lifetime.new before
  live-lost before after on k =
      let s = live config Lifetime.new before in
      let gone =
        live-HasGone s.task.flushed (move config s end_runtime) after
          (unfold move in (refl, refl)) in
      ap (λ (t : Sinks). concat t.task.flushed ++ (s.task.pending ++ s.task.buffered))
        (live-append Lifetime.new before (end_runtime ∷ after) ∙ live-cons s end_runtime after)
      ∙ ap (λ (b : List (List Alert)). concat b ++ (s.task.pending ++ s.task.buffered)) gone.1
      ∙ live-taken config on Lifetime.new before k (new-IsLinked config)
      ∙ ap (λ (w : List Alert). w ++ pushed config Lifetime.new before) taken-new
