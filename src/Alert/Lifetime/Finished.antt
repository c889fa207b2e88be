-- ===== src/Alert/Lifetime/Finished.antt =====
-- The task comes to its end, with everything delivered, once the sinks are gone.
use memguard_agent.Base.{
  ℕ, zero, suc, ◌≡◌, refl, sym, ap, ◌∙◌, ◌≢◌, true, false, List, [], ◌∷◌, ◌++◌, append-nil,
  append_assoc, ◌==◌, length, All-append,
}
use memguard_agent.Alert.Flusher.Delivery.{concat}
use memguard_agent.Alert.Flusher.Liveness.{recvs, recvs-stop}
use memguard_agent.Alert.Flusher.{Flusher, run_flusher, act, recv}
use memguard_agent.Alert.Lifetime
use memguard_agent.Alert.Lifetime.Kept.{pushed, pushed_by, live-delivers}
use memguard_agent.Alert.Lifetime.Linked.{KeepsRuntime, new-IsLinked, live-IsLinked}
use memguard_agent.Alert.Lifetime.Lost.{live-append}
use memguard_agent.Alert.Lifetime.{Sinks, Move, recv_turn, end_runtime, senders, move, live}
use memguard_agent.Alert.{Alert, AlertConfig, enabled}

abbrev pub recv_turns : ℕ → List Move
recv_turns zero = []
recv_turns (suc n) = recv_turn ∷ recv_turns n

recv_turns-KeepsRuntime : (n : ℕ) → KeepsRuntime (recv_turns n)
recv_turns-KeepsRuntime zero = tt
recv_turns-KeepsRuntime (suc n) = (λ e. cc, recv_turns-KeepsRuntime n)

module _ (config : AlertConfig) where
  live-recv_turns :
      (n : ℕ) (s : Sinks)
      → (live config s (recv_turns n)).task ≡ run_flusher config s.task (recvs n)
  unfolding live run_flusher move
  live-recv_turns zero s = refl
  live-recv_turns (suc n) s = live-recv_turns n (record s { task = act config s.task recv })

  pushed-recv_turns : (n : ℕ) (s : Sinks) → pushed config s (recv_turns n) ≡ []
  unfolding pushed
  pushed-recv_turns zero s = refl
  pushed-recv_turns (suc n) s = pushed-recv_turns n (move config s recv_turn)

  pushed-append :
      (s : Sinks) (ms ms' : List Move)
      → pushed config s (ms ++ ms') ≡ pushed config s ms ++ pushed config (live config s ms) ms'
  unfolding pushed live
  pushed-append s [] ms' = refl
  pushed-append s (m ∷ ms) ms' =
      ap (λ (x : List Alert). pushed_by s m ++ x) (pushed-append (move config s m) ms ms')
      ∙ sym (append_assoc (pushed_by s m) _ _)

  -- With a channel configured, whatever was done with a new sink, the sinks made of it and its task
  -- while the runtime lives, if every one of the sinks is gone, one more turn of receiving than alerts
  -- wait in the channel ends the task, and the batches that it has pushed by then are, one behind the
  -- other, exactly the alerts that went through a living sink.
  pub live-finishes :
      (ms : List Move)
      → enabled config ≡ true
      → KeepsRuntime ms
      → senders (live config Lifetime.new ms) ≡ 0
      → let n = suc (length (live config Lifetime.new ms).task.buffered) in
        let t = live config Lifetime.new (ms ++ recv_turns n) in
        (t.task.running ≡ false) × (concat t.task.flushed ≡ pushed config Lifetime.new ms)
  live-finishes ms on k gone =
      let s = live config Lifetime.new ms in
      let n = suc (length s.task.buffered) in
      let linked = live-IsLinked config Lifetime.new ms k (new-IsLinked config) in
      let closed : s.task.closed ≡ true = linked.closed_is ∙ ap (λ (i : ℕ). i == 0) gone in
      let stopped : (live config Lifetime.new (ms ++ recv_turns n)).task.running ≡ false =
        ap (λ (u : Sinks). u.task.running) (live-append config Lifetime.new ms (recv_turns n))
        ∙ ap (λ (f : Flusher). f.running) (live-recv_turns n s)
        ∙ recvs-stop config s.task closed in
      (
        stopped,
        (live-delivers config on (ms ++ recv_turns n)
              (All-append (λ m. m ≢ end_runtime) ms (recv_turns n) k (recv_turns-KeepsRuntime n))
              stopped).1
            ∙ pushed-append Lifetime.new ms (recv_turns n)
            ∙ ap (λ (x : List Alert). pushed config Lifetime.new ms ++ x) (pushed-recv_turns n s)
            ∙ append-nil (pushed config Lifetime.new ms),
      )
