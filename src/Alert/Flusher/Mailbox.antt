-- ===== src/Alert/Flusher/Mailbox.antt =====
-- What the background task promises, with no channel, window or clock: a mailbox that delivers what was
-- put into it, oldest first, in batches of any size, and that ends empty. The task refines it.
use memguard_agent.Base.{
  ◌≡◌, refl, sym, ap, ◌∙◌, subst, ◌≢◌, inl, inr, Bool, true, false, not, ◌&&◌, List, [], ◌∷◌, ◌++◌,
  append-nil, append_assoc, arith, if_intro, Bool-cases, is_empty,
}
use memguard_agent.Alert.Flusher.Delivery.{on_closed-settles}
use memguard_agent.Alert.Flusher.{
  Flusher, Action, send, drop_senders, tick, recv, flush_pending, on_closed, on_recv, accepts, act,
  run_flusher,
}
use memguard_agent.Alert.{Alert, AlertConfig, enabled}

pub record Mailbox : Type 0 where
  pub delivered : List (List Alert)
  pub waiting : List Alert
  pub open_for_more : Bool
  pub ended : Bool

pub data Step : Mailbox → Mailbox → Type 0 where
  accept :
      (m : Mailbox) (a : Alert)
      → m.open_for_more ≡ true
      → Step m (record m { waiting = m.waiting ++ (a ∷ []) })
  -- A batch that is not empty, from the front.
  deliver :
      (m : Mailbox) (batch rest : List Alert)
      → batch ≢ []
      → m.waiting ≡ batch ++ rest
      → Step m (record m { waiting = rest; delivered = m.delivered ++ (batch ∷ []) })
  close : (m : Mailbox) → Step m (record m { open_for_more = false })
  -- Only once nothing can come and nothing waits.
  finish :
      (m : Mailbox) → m.open_for_more ≡ false → m.waiting ≡ [] → Step m (record m { ended = true })

pub data Reach (s : Mailbox) : Mailbox → Type 0 where
  here : Reach s s
  then_step : {t u : Mailbox} → Reach s t → Step t u → Reach s u

Reach-trans : {s t u : Mailbox} → Reach s t → Reach t u → Reach s u
Reach-trans r here = r
Reach-trans r (then_step q st) = then_step (Reach-trans r q) st

-- The mailbox that a state of the task stands for.
abbrev pub mailbox_of : Flusher → Mailbox
mailbox_of f = record {
  delivered = f.flushed;
  waiting = f.pending ++ f.buffered;
  open_for_more = not f.closed;
  ended = not f.running;
}

flush_pending-Reach : (f : Flusher) → Reach (mailbox_of f) (mailbox_of (flush_pending f))
unfolding flush_pending
flush_pending-Reach f = elim (Bool-cases (is_empty f.pending)) [
  | inl e ↦ rw e here
  | inr e ↦ rw e (
      then_step here (deliver (mailbox_of f) f.pending f.buffered (λ no. cc (ap is_empty no)) refl))
]

same_mailbox : {m n : Mailbox} → m ≡ n → Reach m n
same_mailbox {m} e = subst (λ (x : Mailbox). Reach m x) e here

flush_pending-closed : (f : Flusher) → (flush_pending f).closed ≡ f.closed
unfolding flush_pending
flush_pending-closed f =
    if_intro {A = Flusher} (λ g. g.closed ≡ f.closed) (not (is_empty f.pending)) _ _ (λ t. refl)
      (λ t. refl)

on_closed-Reach : (f : Flusher) → f.closed ≡ true → Reach (mailbox_of f) (mailbox_of (on_closed f))
unfolding on_closed
on_closed-Reach f c =
    let drained = record f { pending = f.pending ++ f.buffered; buffered = [] } in
    let last = flush_pending drained in
    let taken : mailbox_of f ≡ mailbox_of drained =
      ap (λ (w : List Alert). record (mailbox_of f) { waiting = w })
        (sym (append-nil (f.pending ++ f.buffered))) in
    then_step (Reach-trans (same_mailbox taken) (flush_pending-Reach drained))
      (finish (mailbox_of last) (ap not (flush_pending-closed drained ∙ c)) (on_closed-settles f))

on_recv-Reach :
    (bs : List Alert) (f : Flusher)
    → f.buffered ≡ bs
    → Reach (mailbox_of f) (mailbox_of (on_recv bs f))
unfolding on_recv
on_recv-Reach [] f b =
    if_intro (λ g. Reach (mailbox_of f) (mailbox_of g)) f.closed _ f (λ c. on_closed-Reach f c)
      (λ o. here)
on_recv-Reach (a ∷ rest) f b = same_mailbox (
    ap (λ (w : List Alert). record (mailbox_of f) { waiting = w })
      (ap (◌++◌ f.pending) b ∙ sym (append_assoc f.pending (a ∷ []) rest)))

accepts-open : (f : Flusher) → accepts f ≡ true → not f.closed ≡ true
accepts-open f h = ground arith

module _ (config : AlertConfig) (on : enabled config ≡ true) where
  act-Reach : (f : Flusher) (x : Action) → Reach (mailbox_of f) (mailbox_of (act config f x))
  unfolding act
  act-Reach f (send a) = elim (Bool-cases (accepts f)) [
    | inl t ↦ rw t (
        subst (λ (w : List Alert). Reach (mailbox_of f) (record (mailbox_of f) { waiting = w }))
          (append_assoc f.pending f.buffered (a ∷ []))
          (then_step here (accept (mailbox_of f) a (accepts-open f t))))
    | inr n ↦ rw n here
  ]
  act-Reach f drop_senders = then_step here (close (mailbox_of f))
  act-Reach f tick =
      if_intro (λ g. Reach (mailbox_of f) (mailbox_of g)) (f.running && enabled config) _ f
        (λ t. flush_pending-Reach f) (λ n. here)
  act-Reach f recv =
      if_intro (λ g. Reach (mailbox_of f) (mailbox_of g)) f.running _ f
        (λ t. rw on (on_recv-Reach f.buffered f refl)) (λ n. here)

  -- With a channel configured, whatever the interleaving of sends, ticks and receives, the states of
  -- the task stand for mailboxes that the rules of the mailbox lead through: only what was put in is
  -- delivered, oldest first, in batches that are not empty, and the task ends only when no sender is
  -- left and nothing waits.
  pub run_flusher-Reach :
      (f : Flusher) (xs : List Action) → Reach (mailbox_of f) (mailbox_of (run_flusher config f xs))
  unfolding run_flusher
  run_flusher-Reach f [] = here
  run_flusher-Reach f (x ∷ xs) = Reach-trans (act-Reach f x) (run_flusher-Reach (act config f x) xs)
