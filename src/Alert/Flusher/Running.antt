-- ===== src/Alert/Flusher/Running.antt =====
-- A task that is running takes every alert.
use memguard_agent.Base.{
  ◌≡◌, refl, sym, ap, ◌∙◌, true, false, not, ◌&&◌, List, [], ◌∷◌, ◌++◌, if_intro, is_empty,
}
use memguard_agent.Alert.Flusher.{
  Flusher, start, Action, send, drop_senders, tick, recv, flush_pending, on_recv, on_recv_disabled,
  accepts, act, run_flusher,
}
use memguard_agent.Alert.Flusher.Delivery.{accepted, added, concat, run_flusher-delivers}
use memguard_agent.Alert.{Alert, AlertConfig, enabled}

-- The alerts that are sent, in order.
abbrev pub sent : List Action → List Alert
sent [] = []
sent (send a ∷ xs) = a ∷ sent xs
sent (drop_senders ∷ xs) = sent xs
sent (tick ∷ xs) = sent xs
sent (recv ∷ xs) = sent xs

-- Nothing is sent once the senders are gone.
abbrev pub IsOrderly : List Action → Type 0
IsOrderly [] = Unit
IsOrderly (send a ∷ xs) = IsOrderly xs
IsOrderly (drop_senders ∷ xs) = sent xs ≡ []
IsOrderly (tick ∷ xs) = IsOrderly xs
IsOrderly (recv ∷ xs) = IsOrderly xs

module _ (config : AlertConfig) where
  -- It runs, and senders are left.
  record IsLive (f : Flusher) : Type 0 where
    runs : f.running ≡ true
    has_senders : f.closed ≡ false

  flush_pending-IsLive : (f : Flusher) → IsLive f → IsLive (flush_pending f)
  unfolding flush_pending
  flush_pending-IsLive f h =
      if_intro IsLive (not (is_empty f.pending)) _ f
        (λ t. record { runs = h.runs; has_senders = h.has_senders }) (λ t. h)

  on_recv-IsLive : (bs : List Alert) (f : Flusher) → IsLive f → IsLive (on_recv bs f)
  unfolding on_recv
  on_recv-IsLive (b ∷ bs) f h = record { runs = h.runs; has_senders = h.has_senders }
  on_recv-IsLive [] f h =
      if_intro IsLive f.closed _ f (λ c. absurd (cc (c, h.has_senders))) (λ o. h)

  on_recv_disabled-IsLive :
      (bs : List Alert) (f : Flusher) → IsLive f → IsLive (on_recv_disabled bs f)
  unfolding on_recv_disabled
  on_recv_disabled-IsLive (b ∷ bs) f h = record { runs = h.runs; has_senders = h.has_senders }
  on_recv_disabled-IsLive [] f h =
      if_intro IsLive f.closed _ f (λ c. absurd (cc (c, h.has_senders))) (λ o. h)

  send-IsLive : (f : Flusher) (a : Alert) → IsLive f → IsLive (act config f (send a))
  unfolding act
  send-IsLive f a h =
      if_intro IsLive (accepts f) _ f (λ t. record { runs = h.runs; has_senders = h.has_senders })
        (λ t. h)

  tick-IsLive : (f : Flusher) → IsLive f → IsLive (act config f tick)
  unfolding act
  tick-IsLive f h =
      if_intro IsLive (f.running && enabled config) _ f (λ t. flush_pending-IsLive f h) (λ t. h)

  recv-IsLive : (f : Flusher) → IsLive f → IsLive (act config f recv)
  unfolding act
  recv-IsLive f h =
      if_intro IsLive f.running _ f
        (λ t.
          if_intro IsLive (enabled config) _ _ (λ on. on_recv-IsLive f.buffered f h)
            (λ off. on_recv_disabled-IsLive f.buffered f h))
        (λ t. h)

  added-live : (f : Flusher) (a : Alert) → IsLive f → added f (send a) ≡ a ∷ []
  added-live f a h = rw (h.runs, h.has_senders) refl

  accepted-nothing : (f : Flusher) (xs : List Action) → sent xs ≡ [] → accepted config f xs ≡ []
  unfolding accepted
  accepted-nothing f [] h = refl
  accepted-nothing f (send a ∷ xs) h = cc
  accepted-nothing f (drop_senders ∷ xs) h = accepted-nothing (act config f drop_senders) xs h
  accepted-nothing f (tick ∷ xs) h = accepted-nothing (act config f tick) xs h
  accepted-nothing f (recv ∷ xs) h = accepted-nothing (act config f recv) xs h

  accepted-sent :
      (f : Flusher) (xs : List Action) → IsLive f → IsOrderly xs → accepted config f xs ≡ sent xs
  unfolding accepted
  accepted-sent f [] h o = refl
  accepted-sent f (send a ∷ xs) h o =
      ap (◌++◌ (added f (send a))) (accepted-sent (act config f (send a)) xs (send-IsLive f a h) o)
      ∙ ap (λ (new : List Alert). new ++ sent xs) (added-live f a h)
  accepted-sent f (drop_senders ∷ xs) h o =
      accepted-nothing (act config f drop_senders) xs o ∙ sym o
  accepted-sent f (tick ∷ xs) h o = accepted-sent (act config f tick) xs (tick-IsLive f h) o
  accepted-sent f (recv ∷ xs) h o = accepted-sent (act config f recv) xs (recv-IsLive f h) o

  start-IsLive : IsLive start
  start-IsLive = record { runs = refl; has_senders = refl }

  -- With a channel configured, however the sends are mixed with ticks and receives, if nothing is sent
  -- once the senders are gone and the task has returned in the end, the batches that it pushed are, one
  -- behind the other, exactly the alerts that were sent.
  pub concat-sent :
      (xs : List Action)
      → enabled config ≡ true
      → IsOrderly xs
      → (run_flusher config start xs).running ≡ false
      → concat (run_flusher config start xs).flushed ≡ sent xs
  concat-sent xs on orderly stopped =
      (run_flusher-delivers config xs on stopped).0 ∙ accepted-sent start xs start-IsLive orderly
