-- ===== src/Alert/Flusher/Delivery.antt =====
-- No alert is lost, repeated or reordered between the channel and the pushed batches.
use memguard_agent.Base.{
  ◌≡◌, refl, sym, ap, ◌∙◌, ◌≢◌, inl, inr, true, false, ◌&&◌, List, [], ◌∷◌, ◌++◌, append-nil,
  append_assoc, arith, if◌then◌else◌, if_intro, Bool-cases, is_empty, All, All-append,
}
use memguard_agent.Alert.Flusher.{
  Flusher, start, Action, send, drop_senders, tick, recv, flush_pending, on_closed, on_recv,
  accepts, act, run_flusher,
}
use memguard_agent.Alert.{Alert, AlertConfig, enabled}

abbrev pub concat : List (List Alert) → List Alert
concat [] = []
concat (b ∷ bs) = b ++ concat bs

concat-append : (bs : List (List Alert)) (b : List Alert) → concat (bs ++ (b ∷ [])) ≡ concat bs ++ b
concat-append [] b = append-nil b
concat-append (x ∷ bs) b =
    ap (λ (y : List Alert). x ++ y) (concat-append bs b) ∙ sym (append_assoc x _ b)

-- All that the channel took: pushed, waiting in the window, or waiting in the channel.
abbrev pub taken : Flusher → List Alert
taken f = concat f.flushed ++ (f.pending ++ f.buffered)

-- What an action adds to it.
abbrev pub added : Flusher → Action → List Alert
added f (send a) = if accepts f then a ∷ [] else []
added f drop_senders = []
added f tick = []
added f recv = []

-- The alerts that a run's sends put into the channel.
unfoldable pub accepted : AlertConfig → Flusher → List Action → List Alert
accepted config f [] = []
accepted config f (x ∷ xs) = added f x ++ accepted config (act config f x) xs

flush_pending-taken : (f : Flusher) → taken (flush_pending f) ≡ taken f
unfolding flush_pending
flush_pending-taken f = elim (Bool-cases (is_empty f.pending)) [
  | inl e ↦ rw e
  | inr e ↦ rw (e, concat-append f.flushed f.pending) (append_assoc (concat f.flushed) f.pending _)
]

on_closed-taken : (f : Flusher) → taken (on_closed f) ≡ taken f
unfolding on_closed
on_closed-taken f =
    flush_pending-taken (record f { pending = f.pending ++ f.buffered; buffered = [] })
    ∙ ap (λ (x : List Alert). concat f.flushed ++ x) (append-nil (f.pending ++ f.buffered))

on_recv-taken : (bs : List Alert) (f : Flusher) → f.buffered ≡ bs → taken (on_recv bs f) ≡ taken f
unfolding on_recv
on_recv-taken (a ∷ rest) f e =
    ap (λ (x : List Alert). concat f.flushed ++ x)
      (append_assoc f.pending (a ∷ []) rest ∙ ap (λ (b : List Alert). f.pending ++ b) (sym e))
on_recv-taken [] f e =
    if_intro (λ g. taken g ≡ taken f) f.closed (on_closed f) f (λ c. on_closed-taken f) (λ c. refl)

module _ (config : AlertConfig) (on : enabled config ≡ true) where
  pub act-taken : (f : Flusher) (x : Action) → taken (act config f x) ≡ taken f ++ added f x
  unfolding act
  act-taken f (send a) = elim (Bool-cases (accepts f)) [
    | inl t ↦ rw t (simp append_assoc)
    | inr t ↦ rw t (sym (append-nil (taken f)))
  ]
  act-taken f drop_senders = sym (append-nil (taken f))
  act-taken f tick =
      if_intro (λ g. taken g ≡ taken f) (f.running && enabled config) (flush_pending f) f
        (λ r. flush_pending-taken f) (λ r. refl)
      ∙ sym (append-nil (taken f))
  act-taken f recv =
      if_intro (λ g. taken g ≡ taken f) f.running _ f
        (λ r.
          if_intro (λ g. taken g ≡ taken f) (enabled config) _ _
            (λ t. on_recv-taken f.buffered f refl) (λ off. cc))
        (λ r. refl)
      ∙ sym (append-nil (taken f))

  -- With a channel configured, whatever the interleaving, the pushed batches, the window and the
  -- channel hold, one behind the other, exactly what they held before and the alerts that the
  -- sends put into the channel since.
  pub run_flusher-taken :
      (f : Flusher) (xs : List Action)
      → taken (run_flusher config f xs) ≡ taken f ++ accepted config f xs
  unfolding run_flusher accepted
  run_flusher-taken f [] = sym (append-nil (taken f))
  run_flusher-taken f (x ∷ xs) =
      run_flusher-taken (act config f x) xs
      ∙ ap (λ (y : List Alert). y ++ accepted config (act config f x) xs) (act-taken f x)
      ∙ append_assoc (taken f) (added f x) _

-- A batch that is pushed is not empty, and when the task has returned nothing waits.
pub record IsSettled (f : Flusher) : Type 0 where
  pub no_empty_batch : All (λ b. b ≢ []) f.flushed
  pub nothing_waits : f.running ≡ false → f.pending ++ f.buffered ≡ []

flush_pending-All :
    (f : Flusher) → All (λ b. b ≢ []) f.flushed → All (λ b. b ≢ []) (flush_pending f).flushed
unfolding flush_pending
flush_pending-All f h = elim (Bool-cases (is_empty f.pending)) [
  | inl e ↦ rw e h
  | inr e ↦
      rw e (
        All-append (λ b. b ≢ []) f.flushed (f.pending ∷ []) h (λ empty. cc (ap is_empty empty), tt))
]

pub on_closed-settles : (f : Flusher) → (on_closed f).pending ++ (on_closed f).buffered ≡ []
unfolding on_closed
on_closed-settles f = ground arith

on_closed-IsSettled : (f : Flusher) → IsSettled f → IsSettled (on_closed f)
on_closed-IsSettled f h = record {
  no_empty_batch =
      (unfold on_closed in
        flush_pending-All (record f { pending = f.pending ++ f.buffered; buffered = [] })
          h.no_empty_batch);
  nothing_waits = λ stopped. on_closed-settles f;
}

flush_pending-IsSettled :
    (f : Flusher) → f.running ≡ true → IsSettled f → IsSettled (flush_pending f)
flush_pending-IsSettled f r h = record {
  no_empty_batch = flush_pending-All f h.no_empty_batch;
  nothing_waits = λ stopped. absurd (unfold flush_pending in ground arith);
}

pub start-IsSettled : IsSettled start
start-IsSettled = record { no_empty_batch = tt; nothing_waits = λ stopped. refl }

on_recv-IsSettled :
    (bs : List Alert) (f : Flusher) → f.running ≡ true → IsSettled f → IsSettled (on_recv bs f)
unfolding on_recv
on_recv-IsSettled (a ∷ rest) f r h = record {
  no_empty_batch = h.no_empty_batch;
  nothing_waits = λ stopped. cc;
}
on_recv-IsSettled [] f r h =
    if_intro IsSettled f.closed (on_closed f) f (λ c. on_closed-IsSettled f h) (λ c. h)

module _ (config : AlertConfig) where
  pub act-IsSettled :
      (f : Flusher) (x : Action) → enabled config ≡ true → IsSettled f → IsSettled (act config f x)
  unfolding act
  act-IsSettled f (send a) on h =
      if_intro IsSettled (accepts f) _ f
        (λ t. record {
          no_empty_batch = h.no_empty_batch;
          nothing_waits = λ stopped. absurd (ground arith);
        })
        (λ t. h)
  act-IsSettled f drop_senders on h = record {
    no_empty_batch = h.no_empty_batch;
    nothing_waits = h.nothing_waits;
  }
  act-IsSettled f tick on h =
      if_intro IsSettled (f.running && enabled config) (flush_pending f) f
        (λ t. flush_pending-IsSettled f (ground arith) h) (λ t. h)
  act-IsSettled f recv on h =
      if_intro IsSettled f.running _ f
        (λ r.
          if_intro IsSettled (enabled config) _ _ (λ t. on_recv-IsSettled f.buffered f r h)
            (λ off. cc))
        (λ r. h)

  pub run_flusher-IsSettled :
      (f : Flusher) (xs : List Action)
      → enabled config ≡ true
      → IsSettled f
      → IsSettled (run_flusher config f xs)
  unfolding run_flusher
  run_flusher-IsSettled f [] on h = h
  run_flusher-IsSettled f (x ∷ xs) on h =
      run_flusher-IsSettled (act config f x) xs on (act-IsSettled f x on h)

  -- With a channel configured, when the task has been started and has returned, the batches that
  -- it pushed are, one behind the other, exactly the alerts that were sent to it, and none of them
  -- is empty.
  pub run_flusher-delivers :
      (xs : List Action)
      → enabled config ≡ true
      → (run_flusher config start xs).running ≡ false
      → (concat (run_flusher config start xs).flushed ≡ accepted config start xs)
        × All (λ b. b ≢ []) (run_flusher config start xs).flushed
  run_flusher-delivers xs on stopped =
      let settled = run_flusher-IsSettled start xs on start-IsSettled in
      (
        sym (append-nil (concat (run_flusher config start xs).flushed))
            ∙ ap (λ (w : List Alert). concat (run_flusher config start xs).flushed ++ w)
                (sym (settled.nothing_waits stopped))
            ∙ run_flusher-taken config on start xs,
        settled.no_empty_batch,
      )
