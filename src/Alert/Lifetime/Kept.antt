-- ===== src/Alert/Lifetime/Kept.antt =====
-- While the runtime lives, every alert that is pushed is kept until the task delivers it.
use memguard_agent.Base.{
  ◌-◌, ◌<◌, ◌≡◌, refl, sym, ap, ◌∙◌, ◌≢◌, Bool, true, false, List, [], ◌∷◌, ◌++◌, append-nil,
  append_assoc, arith, ltb, ◌==◌, if◌then◌else◌, if_intro,
}
use memguard_agent.Alert.Flusher.Delivery.{
  concat, taken, act-taken, IsSettled, act-IsSettled, start-IsSettled,
}
use memguard_agent.Alert.Flusher.{send, drop_senders, tick, recv}
use memguard_agent.Alert.Lifetime
use memguard_agent.Alert.Lifetime.{
  Sinks, Move, clone_for_stream, clone, push, stream_push, drop_sink, drop_stream_sink, tick_turn,
  recv_turn, end_runtime, one_if, senders, close_if_last, push_alert, move, live,
}
use memguard_agent.Alert.Lifetime.Linked.{
  IsLinked, KeepsRuntime, is_open, move-IsLinked, new-IsLinked, live-IsLinked,
}
use memguard_agent.Alert.{Alert, AlertConfig, enabled}

-- The alerts that a move pushes through a sink that is alive.
abbrev pub pushed_by : Sinks → Move → List Alert
pushed_by s (push alert) = if s.sink then alert ∷ [] else []
pushed_by s (stream_push alert) = if ltb 0 s.stream_sinks then alert ∷ [] else []
pushed_by s _ = []

unfoldable pub pushed : AlertConfig → Sinks → List Move → List Alert
pushed config s [] = []
pushed config s (m ∷ ms) = pushed_by s m ++ pushed config (move config s m) ms

pub taken-new : taken Lifetime.new.task ≡ []
unfolding Lifetime.new
taken-new = refl

module _ (config : AlertConfig) (on : enabled config ≡ true) where
  push_alert-taken :
      (s : Sinks) (a : Alert)
      → 0 < senders s
      → IsLinked s
      → taken (push_alert config s a).task ≡ taken s.task ++ (a ∷ [])
  unfolding push_alert
  push_alert-taken s a left h =
      let o = is_open config s left h in
      rw on (act-taken config on s.task (send a) ∙ rw (h.runs_is o, o) refl)

  close_if_last-taken : (s : Sinks) → taken (close_if_last config s).task ≡ taken s.task
  unfolding close_if_last
  close_if_last-taken s =
      if_intro (λ (t : Sinks). taken t.task ≡ taken s.task) (senders s == 0) _ s
        (λ last. act-taken config on s.task drop_senders ∙ append-nil (taken s.task)) (λ more. refl)

  -- A push through a sender that may be gone.
  guarded-taken :
      (b : Bool) (s : Sinks) (a : Alert)
      → (b ≡ true → 0 < senders s)
      → IsLinked s
      → taken (if b then push_alert config s a else s).task
        ≡ taken s.task ++ (if b then a ∷ [] else [])
  guarded-taken true s a left h = push_alert-taken s a (left refl) h
  guarded-taken false s a left h = sym (append-nil (taken s.task))

  quiet :
      (b : Bool) (s t : Sinks)
      → taken t.task ≡ taken s.task
      → taken (if b then t else s).task ≡ taken s.task ++ []
  quiet true s t e = e ∙ sym (append-nil (taken s.task))
  quiet false s t e = sym (append-nil (taken s.task))

  move-taken :
      (s : Sinks) (m : Move)
      → IsLinked s
      → taken (move config s m).task ≡ taken s.task ++ pushed_by s m
  unfolding move
  move-taken s clone_for_stream h = quiet s.sink s _ refl
  move-taken s clone h = quiet (ltb 0 s.stream_sinks) s _ refl
  move-taken s (push a) h = guarded-taken s.sink s a (λ t. ground arith) h
  move-taken s (stream_push a) h = guarded-taken (ltb 0 s.stream_sinks) s a (λ t. ground arith) h
  move-taken s drop_sink h = quiet s.sink s _ (close_if_last-taken (record s { sink = false }))
  move-taken s drop_stream_sink h =
      quiet (ltb 0 s.stream_sinks) s _
        (close_if_last-taken (record s { stream_sinks = s.stream_sinks - 1 }))
  move-taken s tick_turn h = act-taken config on s.task tick
  move-taken s recv_turn h = act-taken config on s.task recv
  move-taken s end_runtime h = sym (append-nil (taken s.task))

  pub live-taken :
      (s : Sinks) (ms : List Move)
      → KeepsRuntime ms
      → IsLinked s
      → taken (live config s ms).task ≡ taken s.task ++ pushed config s ms
  unfolding live pushed
  live-taken s [] k h = sym (append-nil (taken s.task))
  live-taken s (m ∷ ms) k h =
      live-taken (move config s m) ms k.1 (move-IsLinked config s m k.0 h)
      ∙ ap (λ (x : List Alert). x ++ pushed config (move config s m) ms) (move-taken s m h)
      ∙ append_assoc (taken s.task) (pushed_by s m) _

  push_alert-IsSettled :
      (s : Sinks) (a : Alert) → IsSettled s.task → IsSettled (push_alert config s a).task
  unfolding push_alert
  push_alert-IsSettled s a h = rw on (act-IsSettled config s.task (send a) on h)

  close_if_last-IsSettled : (s : Sinks) → IsSettled s.task → IsSettled (close_if_last config s).task
  unfolding close_if_last
  close_if_last-IsSettled s h =
      if_intro (λ (t : Sinks). IsSettled t.task) (senders s == 0) _ s
        (λ last. act-IsSettled config s.task drop_senders on h) (λ more. h)

  move-IsSettled :
      (s : Sinks) (m : Move) → m ≢ end_runtime → IsSettled s.task → IsSettled (move config s m).task
  unfolding move
  move-IsSettled s clone_for_stream k h =
      if_intro (λ (t : Sinks). IsSettled t.task) s.sink _ s (λ t. h) (λ t. h)
  move-IsSettled s clone k h =
      if_intro (λ (t : Sinks). IsSettled t.task) (ltb 0 s.stream_sinks) _ s (λ t. h) (λ t. h)
  move-IsSettled s (push a) k h =
      if_intro (λ (t : Sinks). IsSettled t.task) s.sink _ s (λ t. push_alert-IsSettled s a h)
        (λ t. h)
  move-IsSettled s (stream_push a) k h =
      if_intro (λ (t : Sinks). IsSettled t.task) (ltb 0 s.stream_sinks) _ s
        (λ t. push_alert-IsSettled s a h) (λ t. h)
  move-IsSettled s drop_sink k h =
      if_intro (λ (t : Sinks). IsSettled t.task) s.sink _ s
        (λ t. close_if_last-IsSettled (record s { sink = false }) h) (λ t. h)
  move-IsSettled s drop_stream_sink k h =
      if_intro (λ (t : Sinks). IsSettled t.task) (ltb 0 s.stream_sinks) _ s
        (λ t. close_if_last-IsSettled (record s { stream_sinks = s.stream_sinks - 1 }) h) (λ t. h)
  move-IsSettled s tick_turn k h = act-IsSettled config s.task tick on h
  move-IsSettled s recv_turn k h = act-IsSettled config s.task recv on h
  move-IsSettled s end_runtime k h = absurd (k refl)

  live-IsSettled :
      (s : Sinks) (ms : List Move)
      → KeepsRuntime ms
      → IsSettled s.task
      → IsSettled (live config s ms).task
  unfolding live
  live-IsSettled s [] k h = h
  live-IsSettled s (m ∷ ms) k h = live-IsSettled (move config s m) ms k.1 (move-IsSettled s m k.0 h)

  -- With a channel configured, whatever is done with a new sink, the sinks made of it and its task
  -- while the runtime lives, when the task has returned every one of the sinks is gone, and the batches
  -- that were pushed are, one behind the other, exactly the alerts that went through a living sink.
  pub live-delivers :
      (ms : List Move)
      → KeepsRuntime ms
      → (live config Lifetime.new ms).task.running ≡ false
      → (senders (live config Lifetime.new ms) ≡ 0)
        × (concat (live config Lifetime.new ms).task.flushed ≡ pushed config Lifetime.new ms)
  live-delivers ms k stopped =
      let s = live config Lifetime.new ms in
      let linked = live-IsLinked config Lifetime.new ms k (new-IsLinked config) in
      let settled = live-IsSettled Lifetime.new ms k (unfold Lifetime.new in start-IsSettled) in
      (
        ground (arith, linked.runs_is, linked.closed_is),
        sym (append-nil (concat s.task.flushed))
            ∙ ap (λ (w : List Alert). concat s.task.flushed ++ w)
                (sym (settled.nothing_waits stopped))
            ∙ live-taken Lifetime.new ms k (new-IsLinked config)
            ∙ ap (λ (w : List Alert). w ++ pushed config Lifetime.new ms) taken-new,
      )
