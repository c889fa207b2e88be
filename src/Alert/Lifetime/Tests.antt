-- ===== src/Alert/Lifetime/Tests.antt =====
-- The life of a sink on concrete moves, and its theorems at them.
use memguard_agent.Base.{false, ℕ, ◌≡◌, refl, true, none, List, [], ◌∷◌, ◌++◌}
use memguard_agent.Alert.Flusher.Delivery.{concat}
use memguard_agent.Alert.Lifetime
use memguard_agent.Alert.Lifetime.Finished.{recv_turns, live-finishes}
use memguard_agent.Alert.Lifetime.Kept.{pushed, live-delivers}
use memguard_agent.Alert.Lifetime.Lost.{live-lost}
use memguard_agent.Alert.Lifetime.{
  Move, clone_for_stream, clone, stream_push, drop_sink, drop_stream_sink, tick_turn, recv_turn,
  end_runtime, senders, live,
}
use memguard_agent.Alert.{Alert, AlertConfig, enabled}
use memguard_agent.Text.{codes}

abbrev dry : AlertConfig
dry = record {
  wecom_key = none;
  serverchan_key = none;
  base = none;
  dry_run = true;
  interval_secs = 10;
}

abbrev alert_at : ℕ → Alert
alert_at n = record {
  ts_ms = n;
  severity = codes "HIGH";
  pid = 7;
  comm = codes "python3";
  file = codes "/m";
  signatures = codes "免验证";
}

-- A stream of two alerts, with a window between them.
abbrev stream : List Move
stream =
    clone_for_stream
    ∷ clone
    ∷ stream_push (alert_at 1)
    ∷ drop_stream_sink
    ∷ recv_turn
    ∷ tick_turn
    ∷ clone
    ∷ stream_push (alert_at 2)
    ∷ drop_stream_sink
    ∷ drop_stream_sink
    ∷ drop_sink
    ∷ []

abbrev to_the_end : List Move
to_the_end = stream ++ (recv_turn ∷ recv_turn ∷ [])

live-delivers_example :
    (senders (live dry Lifetime.new to_the_end) ≡ 0)
    × (concat (live dry Lifetime.new to_the_end).task.flushed ≡ pushed dry Lifetime.new to_the_end)
unfolding live Lifetime.new enabled
live-delivers_example =
    live-delivers dry refl to_the_end
      (
        λ e. cc,
        (
          λ e. cc,
          (
            λ e. cc,
            (
              λ e. cc,
              (
                λ e. cc,
                (
                  λ e. cc,
                  (λ e. cc, (λ e. cc, (λ e. cc, (λ e. cc, (λ e. cc, (λ e. cc, (λ e. cc, tt))))))),
                ),
              ),
            ),
          ),
        ),
      )
      refl

-- The stream ends and the sink is dropped, but the task has no turn any more.
live-lost_example :
    concat (live dry Lifetime.new (stream ++ (end_runtime ∷ recv_turn ∷ []))).task.flushed
      ++ ([] ++ (alert_at 2 ∷ []))
    ≡ alert_at 1 ∷ alert_at 2 ∷ []
unfolding live Lifetime.new pushed enabled
live-lost_example = live-lost dry stream (recv_turn ∷ []) refl (
  λ e. cc,
  (
    λ e. cc,
    (
      λ e. cc,
      (λ e. cc, (λ e. cc, (λ e. cc, (λ e. cc, (λ e. cc, (λ e. cc, (λ e. cc, (λ e. cc, tt)))))))),
    ),
  ),
)

live-finishes_example :
    ((live dry Lifetime.new (stream ++ recv_turns 2)).task.running ≡ false)
    × (concat (live dry Lifetime.new (stream ++ recv_turns 2)).task.flushed
        ≡ pushed dry Lifetime.new stream)
unfolding live Lifetime.new enabled
live-finishes_example =
    live-finishes dry stream refl
      (
        λ e. cc,
        (
          λ e. cc,
          (
            λ e. cc,
            (
              λ e. cc,
              (λ e. cc, (λ e. cc, (λ e. cc, (λ e. cc, (λ e. cc, (λ e. cc, (λ e. cc, tt))))))),
            ),
          ),
        ),
      )
      refl
