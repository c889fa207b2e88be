-- ===== src/Alert/Flusher.antt =====
-- overlay/ext/analysis/src/analyzers/alert_sink.rs: `run_flusher`, with the channel that feeds it.
-- Whatever the runtime interleaves is a list of actions: a sender sends an alert or the last sender
-- is dropped, and the loop's `select!` takes its tick branch or its receive branch.
pub mod Delivery
pub mod Liveness
pub mod Mailbox
pub mod Running
use memguard_agent.Base.{Bool, true, false, not, ◌&&◌, List, [], ◌∷◌, ◌++◌, if◌then◌else◌, is_empty}
use memguard_agent.Alert.{Alert, AlertConfig, enabled}

pub record Flusher : Type 0 where
  -- The channel: what was sent and not yet received, and whether every sender is gone.
  pub buffered : List Alert
  pub closed : Bool
  -- The window that waits for the next tick.
  pub pending : List Alert
  -- The batches that `flush_alerts` was called with, in order.
  pub flushed : List (List Alert)
  -- The task has not returned, so the receiver lives.
  pub running : Bool

abbrev pub start : Flusher
start = record { buffered = []; closed = false; pending = []; flushed = []; running = true }

pub data Action : Type 0 where
  send : Alert → Action
  drop_senders : Action
  tick : Action
  recv : Action

-- `if !pending.is_empty() { flush_alerts(&pending).await; … }`, with `pending` emptied or dropped.
unfoldable pub flush_pending : Flusher → Flusher
flush_pending f =
    if not (is_empty f.pending)
    then record f { pending = []; flushed = f.flushed ++ (f.pending ∷ []) }
    else f

-- `None => { while let Ok(a) = rx.try_recv() { pending.push(a) } … break }`
unfoldable pub on_closed : Flusher → Flusher
unfolding flush_pending
on_closed f =
    let drained = record f { pending = f.pending ++ f.buffered; buffered = [] } in
    record (flush_pending drained) { running = false }

-- `rx.recv()`: the oldest alert; `None` on an empty channel without senders; or the call waits.
unfoldable pub on_recv : List Alert → Flusher → Flusher
unfolding on_closed
on_recv (a ∷ rest) f = record f { buffered = rest; pending = f.pending ++ (a ∷ []) }
on_recv [] f = if f.closed then on_closed f else f

-- `while rx.recv().await.is_some() {}`, with no channel configured.
unfoldable pub on_recv_disabled : List Alert → Flusher → Flusher
on_recv_disabled (a ∷ rest) f = record f { buffered = rest }
on_recv_disabled [] f = if f.closed then record f { running = false } else f

-- Whether a send reaches the channel.
abbrev pub accepts : Flusher → Bool
accepts f = f.running && not f.closed

unfoldable pub act : AlertConfig → Flusher → Action → Flusher
unfolding on_recv on_recv_disabled flush_pending
act config f (send a) = if accepts f then record f { buffered = f.buffered ++ (a ∷ []) } else f
act config f drop_senders = record f { closed = true }
act config f tick = if f.running && enabled config then flush_pending f else f
act config f recv =
    if f.running
    then (if enabled config then on_recv f.buffered f else on_recv_disabled f.buffered f)
    else f

unfoldable pub run_flusher : AlertConfig → Flusher → List Action → Flusher
unfolding act
run_flusher config f [] = f
run_flusher config f (x ∷ xs) = run_flusher config (act config f x) xs
