-- ===== src/Cli/Shutdown/Lost.antt =====
-- Which signals reach the loop.
use memguard_agent.Base.{
  ◌≡◌, refl, Bool, true, false, Option, none, some, List, [], ◌∷◌, ◌++◌, if_intro, All,
}
use memguard_agent.Cli.Shutdown.{
  Notify, Moment, signal, select, event, Process, set_up, notify_shutdown, on_signal, is_woken,
  settled, pass, pass_all,
}
use memguard_agent.Text.{Text}

-- No signal is among them.
abbrev pub IsCalm : Moment → Type 0
IsCalm signal = ⊥
IsCalm select = Unit
IsCalm event = Unit

-- Whether the loop waits at its `select!` in the end.
abbrev pub waits : Bool → List Moment → Bool
waits at_first [] = at_first
waits at_first (signal ∷ ms) = waits at_first ms
waits at_first (select ∷ ms) = waits true ms
waits at_first (event ∷ ms) = waits false ms

module _ (tokio : Notify) (suppress : Bool) where
  open tokio use {State, Notified, notified, is_ready}

  -- Before the first signal, waiting or not.
  data IsOpen : Bool → Process tokio → Type 0 where
    away :
        (flag : Bool) (s : State) (printed : List Text)
        → IsOpen false (record {
          handles = true;
          shutdown_requested = flag;
          shutdown_notify = s;
          waits_for = none;
          loop_ended = false;
          printed = printed;
        })
    at_wait :
        (flag : Bool) (s : State) (printed : List Text)
        → IsOpen true (record {
          handles = true;
          shutdown_requested = flag;
          shutdown_notify = (notified s).1;
          waits_for = some (notified s).0;
          loop_ended = false;
          printed = printed;
        })

  -- A signal has come, and the loop goes on.
  data IsDeaf : Process tokio → Type 0 where
    deaf :
        (flag : Bool) (s : State) (future : Option Notified) (printed : List Text)
        → (elim future [ none ↦ false | some n ↦ is_ready s n ]) ≡ false
        → IsDeaf (record {
          handles = false;
          shutdown_requested = flag;
          shutdown_notify = s;
          waits_for = future;
          loop_ended = false;
          printed = printed;
        })

  settled-asleep :
      (P : Process tokio → Type 0) (p : Process tokio)
      → is_woken tokio p ≡ false
      → P p
      → P (settled tokio p)
  settled-asleep P p asleep h =
      if_intro P (is_woken tokio p) _ p (λ woken. absurd (cc (woken, asleep))) (λ f. h)

  pass-IsDeaf : (m : Moment) (p : Process tokio) → IsDeaf p → IsDeaf (pass tokio suppress m p)
  unfolding pass on_signal
  pass-IsDeaf signal _ (deaf flag s future printed a) =
      settled-asleep IsDeaf _ a (deaf flag s future printed a)
  pass-IsDeaf select _ (deaf flag s none printed a) =
      let asleep = tokio.fresh s in
      settled-asleep IsDeaf _ asleep (deaf flag (notified s).1 (some (notified s).0) printed asleep)
  pass-IsDeaf select _ (deaf flag s (some n) printed a) =
      settled-asleep IsDeaf _ a (deaf flag s (some n) printed a)
  pass-IsDeaf event _ (deaf flag s future printed a) = deaf flag s none printed refl

  pass_all-deaf :
      (ms : List Moment) (p : Process tokio)
      → IsDeaf p
      → (pass_all tokio suppress ms p).loop_ended ≡ false
  unfolding pass_all
  pass_all-deaf [] _ (deaf flag s future printed a) = refl
  pass_all-deaf (m ∷ ms) p h = pass_all-deaf ms (pass tokio suppress m p) (pass-IsDeaf m p h)

  pass_all-ended :
      (ms : List Moment) (p : Process tokio)
      → p.loop_ended ≡ true
      → (pass_all tokio suppress ms p).loop_ended ≡ true
  unfolding pass_all
  pass_all-ended [] p h = h
  pass_all-ended (m ∷ ms) p h = pass_all-ended ms (pass tokio suppress m p) (
      unfold pass in
      if_intro (λ (q : Process tokio). q.loop_ended ≡ true) p.loop_ended p _ (λ t. h)
        (λ f. absurd (cc (f, h))))

  settled-woken :
      (p : Process tokio) → is_woken tokio p ≡ true → (settled tokio p).loop_ended ≡ true
  settled-woken p woken =
      if_intro (λ (q : Process tokio). q.loop_ended ≡ true) (is_woken tokio p) _ p (λ t. refl)
        (λ f. absurd (cc (f, woken)))

  pass_signal_ends :
      (p : Process tokio) → IsOpen true p → (pass tokio suppress signal p).loop_ended ≡ true
  unfolding pass on_signal notify_shutdown
  pass_signal_ends _ (at_wait flag s printed) =
      settled-woken
        (on_signal tokio suppress (record {
          handles = true;
          shutdown_requested = flag;
          shutdown_notify = (notified s).1;
          waits_for = some (notified s).0;
          loop_ended = false;
          printed = printed;
        }))
        (tokio.wakes s)

  pass-signal-IsDeaf : (p : Process tokio) → IsOpen false p → IsDeaf (pass tokio suppress signal p)
  unfolding pass on_signal notify_shutdown
  pass-signal-IsDeaf _ (away flag s printed) = deaf true _ none _ refl

  after_signal :
      (late : List Moment) (w : Bool) (p : Process tokio)
      → IsOpen w p
      → (pass_all tokio suppress (signal ∷ late) p).loop_ended ≡ w
  unfolding pass_all
  after_signal late false p o =
      pass_all-deaf late (pass tokio suppress signal p) (pass-signal-IsDeaf p o)
  after_signal late true p o =
      pass_all-ended late (pass tokio suppress signal p) (pass_signal_ends p o)

  pass-select-IsOpen :
      (w : Bool) (p : Process tokio) → IsOpen w p → IsOpen true (pass tokio suppress select p)
  unfolding pass
  pass-select-IsOpen _ _ (away flag s printed) =
      settled-asleep (IsOpen true) _ (tokio.fresh s) (at_wait flag s printed)
  pass-select-IsOpen _ _ (at_wait flag s printed) =
      settled-asleep (IsOpen true) _ (tokio.fresh s) (at_wait flag s printed)

  pass-event-IsOpen :
      (w : Bool) (p : Process tokio) → IsOpen w p → IsOpen false (pass tokio suppress event p)
  unfolding pass
  pass-event-IsOpen _ _ (away flag s printed) = away flag s printed
  pass-event-IsOpen _ _ (at_wait flag s printed) = away flag (notified s).1 printed

  before_signal :
      (early late : List Moment) (w : Bool) (p : Process tokio)
      → All IsCalm early
      → IsOpen w p
      → (pass_all tokio suppress (early ++ (signal ∷ late)) p).loop_ended ≡ waits w early
  unfolding pass_all
  before_signal [] late w p h o = after_signal late w p o
  before_signal (signal ∷ early) late w p h o = elim h.0 [ ]
  before_signal (select ∷ early) late w p h o =
      before_signal early late true (pass tokio suppress select p) h.1 (pass-select-IsOpen w p o)
  before_signal (event ∷ early) late w p h o =
      before_signal early late false (pass tokio suppress event p) h.1 (pass-event-IsOpen w p o)

  -- The first signal that comes ends the loop if and only if the loop waits at its `select!` at that
  -- moment. One that comes before the loop waits, or while an event is worked on, is lost, and so are
  -- all signals that follow it.
  pub pass_all-waits :
      (early late : List Moment)
      → All IsCalm early
      → (pass_all tokio suppress (early ++ (signal ∷ late)) (set_up tokio)).loop_ended
        ≡ waits false early
  pass_all-waits early late h =
      before_signal early late false (set_up tokio) h (away false tokio.new [])
