-- ===== src/Runner/Guard.antt =====
-- overlay/agentsight-capture/src/runners/common.rs: `ProbeProcessGuard`, which ends the probe's
-- process group, with the signals that it sends as a list.
use memguard_agent.Base.{
  ℕ, ◌≡◌, refl, ap, Bool, true, false, Option, none, some, List, [], ◌∷◌, ◌++◌,
}
use memguard_agent.Text.Decimal.{to_string}
use memguard_agent.Text.{Text, codes}

pub record ProbeProcessGuard : Type 0 where
  pub pgid : Option ℕ
  pub needs_sudo : Bool

unfoldable pub new : Option ℕ → Bool → ProbeProcessGuard
new pid needs_sudo = record { pgid = pid; needs_sudo = needs_sudo }

-- A termination: a run of `sudo` with these arguments, or `killpg` with SIGTERM.
pub data Signal : Type 0 where
  sudo_kill : List Text → Signal
  kill_group : ℕ → Signal

abbrev pub signal_for : Bool → ℕ → Signal
signal_for true pgid =
    sudo_kill
      (codes "-n" ∷ codes "kill" ∷ codes "-TERM" ∷ codes "--" ∷ (codes "-" ++ to_string pgid) ∷ [])
signal_for false pgid = kill_group pgid

unfoldable pub disarm : ProbeProcessGuard → ProbeProcessGuard
disarm g = record g { pgid = none }

unfoldable pub terminate_group : Option ℕ → ProbeProcessGuard → ProbeProcessGuard × List Signal
terminate_group none g = (g, [])
terminate_group (some pgid) g = (record g { pgid = none }, signal_for g.needs_sudo pgid ∷ [])

unfoldable pub terminate : ProbeProcessGuard → ProbeProcessGuard × List Signal
unfolding terminate_group
terminate g = terminate_group g.pgid g

-- The operations that a guard goes through while it lives.
pub data Use : Type 0 where
  disarms : Use
  terminates : Use

unfoldable pub use_guard : ProbeProcessGuard → List Use → ProbeProcessGuard × List Signal
unfolding disarm terminate
use_guard g [] = (g, [])
use_guard g (disarms ∷ us) = use_guard (disarm g) us
use_guard g (terminates ∷ us) =
    let (g', sent) = terminate g in let (last, later) = use_guard g' us in (last, sent ++ later)

-- `Drop`: the guard's life ends by one more `terminate`.
unfoldable pub live_guard : ProbeProcessGuard → List Use → List Signal
unfolding use_guard terminate
live_guard g us = let (last, sent) = use_guard g us in sent ++ (terminate last).1

-- What may be sent for a group: one termination, unless the guard is disarmed first.
abbrev pub first_use : Bool → List Use → Option ℕ → List Signal
first_use sudo us none = []
first_use sudo [] (some pgid) = signal_for sudo pgid ∷ []
first_use sudo (disarms ∷ us) (some pgid) = []
first_use sudo (terminates ∷ us) (some pgid) = signal_for sudo pgid ∷ []

live_guard_unarmed : (sudo : Bool) (us : List Use) → live_guard (new none sudo) us ≡ []
unfolding live_guard new
live_guard_unarmed sudo [] = refl
live_guard_unarmed sudo (disarms ∷ us) = live_guard_unarmed sudo us
live_guard_unarmed sudo (terminates ∷ us) = live_guard_unarmed sudo us

-- However a guard is used, its drop included, its group is signalled at most once: by the first
-- termination, or by the drop, and not at all where the guard is disarmed before both.
pub live_guard-first_use :
    (pid : Option ℕ) (sudo : Bool) (us : List Use)
    → live_guard (new pid sudo) us ≡ first_use sudo us pid
unfolding live_guard new
live_guard-first_use none sudo us = live_guard_unarmed sudo us
live_guard-first_use (some pgid) sudo [] = refl
live_guard-first_use (some pgid) sudo (disarms ∷ us) = live_guard_unarmed sudo us
live_guard-first_use (some pgid) sudo (terminates ∷ us) =
    ap (◌∷◌ (signal_for sudo pgid)) (live_guard_unarmed sudo us)
