-- ===== src/Runner/Run/Signals.antt =====
-- A polled stream ends the probe's process group once.
use memguard_agent.Base.{ℕ, ◌≡◌, refl, ◌∙◌, Bool, true, false, Option, none, some, [], ◌∷◌}
use memguard_agent.Runner.Guard.{signal_for, live_guard-first_use, first_use}
use memguard_agent.Runner.Run.{Child, guard_uses, stream_signals}
use memguard_agent.Runner.Stream.{Wait, exited, wait_failed}

-- From its first poll on, a stream signals the group of its process exactly once, with the signal that
-- fits the user, whether it is dropped early or runs to its end, and however the wait goes; and it
-- signals nothing where the process has no number any more.
pub stream_signals_once :
    (needs_sudo : Bool) (child : Child) (to_the_end : Bool)
    → stream_signals needs_sudo child to_the_end
      ≡ elim child.pid [ none ↦ [] | some pid ↦ signal_for needs_sudo pid ∷ [] ]
unfolding stream_signals
stream_signals_once needs_sudo child to_the_end =
    live_guard-first_use child.pid needs_sudo (guard_uses to_the_end child.wait)
    ∙ uses child.pid to_the_end child.wait
  where
    uses :
        (pid : Option ℕ) (end : Bool) (w : Wait)
        → first_use needs_sudo (guard_uses end w) pid
          ≡ elim pid [ none ↦ [] | some p ↦ signal_for needs_sudo p ∷ [] ]
    uses none end w = refl
    uses (some p) false w = refl
    uses (some p) true (exited success status) = refl
    uses (some p) true (wait_failed e) = refl
