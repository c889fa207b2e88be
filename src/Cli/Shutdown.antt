-- ===== src/Cli/Shutdown.antt =====
-- overlay/collector/src/main.rs: the task that waits for a signal, and how a signal reaches the loop that
-- drives a trace (overlay/collector/src/cmd_trace.rs). `tokio::sync::Notify` is a parameter.
pub mod Lost
use memguard_agent.Base.{
  ◌≡◌, Bool, true, false, not, Option, none, some, List, [], ◌∷◌, ◌++◌, if◌then◌else◌,
}
use memguard_agent.Text.{Text, codes}

-- `notified` makes a future, `notify_waiters` completes those that are there and leaves nothing behind for
-- those that are made later.
pub record Notify : Type 1 where
  pub State : Type 0
  pub Notified : Type 0
  pub new : State
  pub notified : State → Notified × State
  pub notify_waiters : State → State
  pub is_ready : State → Notified → Bool
  pub fresh : (s : State) → is_ready (notified s).1 (notified s).0 ≡ false
  pub wakes : (s : State) → is_ready (notify_waiters (notified s).1) (notified s).0 ≡ true

-- What happens: SIGINT or SIGTERM comes, the loop comes to its `select!`, or the `select!` takes an event,
-- so that the future in it is dropped.
pub data Moment : Type 0 where
  signal : Moment
  select : Moment
  event : Moment

module _ (tokio : Notify) where
  open tokio use {State, Notified, notified, notify_waiters, is_ready}

  pub record Process : Type 0 where
    -- The task that waits for a signal has not had one.
    pub handles : Bool
    pub shutdown_requested : Bool
    pub shutdown_notify : State
    -- The future of the loop's `select!`, while the loop waits there.
    pub waits_for : Option Notified
    pub loop_ended : Bool
    pub printed : List Text

  -- Behind `setup_signal_handler`.
  abbrev pub set_up : Process
  set_up = record {
    handles = true;
    shutdown_requested = false;
    shutdown_notify = tokio.new;
    waits_for = none;
    loop_ended = false;
    printed = [];
  }

  -- The metrics of the filters, which other modules print, are left out.
  unfoldable pub notify_shutdown : Bool → Process → Process
  notify_shutdown suppress_terminal_output p = record p {
    printed =
        if not suppress_terminal_output
        then p.printed ++ (codes "\n\nReceived shutdown signal, shutting down..." ∷ [])
        else p.printed;
    shutdown_requested = true;
    shutdown_notify = notify_waiters p.shutdown_notify;
  }

  -- The task of `setup_signal_handler`: it takes one signal and ends.
  unfoldable pub on_signal : Bool → Process → Process
  unfolding notify_shutdown
  on_signal suppress p =
      if p.handles then record (notify_shutdown suppress p) { handles = false } else p

  abbrev pub is_woken : Process → Bool
  is_woken p = elim p.waits_for [ none ↦ false | some n ↦ is_ready p.shutdown_notify n ]

  -- `shutdown.notified()` in a new `select!`.
  abbrev pub at_select : Option Notified → Process → Process
  at_select none p =
      let made = notified p.shutdown_notify in
      record p { waits_for = some made.0; shutdown_notify = made.1 }
  at_select (some n) p = p

  abbrev pub moved : Bool → Moment → Process → Process
  moved suppress signal p = on_signal suppress p
  moved suppress select p = at_select p.waits_for p
  moved suppress event p = record p { waits_for = none }

  -- The loop ends where its future is ready.
  abbrev pub settled : Process → Process
  settled p = if is_woken p then record p { loop_ended = true } else p

  unfoldable pub pass : Bool → Moment → Process → Process
  unfolding on_signal
  pass suppress m p = if p.loop_ended then p else settled (moved suppress m p)

  unfoldable pub pass_all : Bool → List Moment → Process → Process
  unfolding pass
  pass_all suppress [] p = p
  pass_all suppress (m ∷ ms) p = pass_all suppress ms (pass suppress m p)
