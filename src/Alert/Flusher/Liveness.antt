-- ===== src/Alert/Flusher/Liveness.antt =====
-- The task gets through its channel, and returns when the senders are gone.
use memguard_agent.Base.{
  ℕ, zero, suc, ◌≡◌, refl, sym, ap, ◌∙◌, subst, inl, inr, Bool, true, false, ◌&&◌, List, [], ◌∷◌,
  ◌++◌, append-nil, append_assoc, arith, if_intro, Bool-cases, length,
}
use memguard_agent.Alert.Flusher.Delivery.{concat, taken, accepted, run_flusher-taken}
use memguard_agent.Alert.Flusher.{
  Flusher, Action, send, drop_senders, accepts, tick, recv, act, run_flusher,
}
use mathlib.Core.Path.{ap₂}
use memguard_agent.Alert.{Alert, AlertConfig, enabled}

-- `n` wake-ups of the receive branch.
abbrev pub recvs : ℕ → List Action
recvs zero = []
recvs (suc n) = recv ∷ recvs n

run_flusher-append :
    (config : AlertConfig) (f : Flusher) (xs ys : List Action)
    → run_flusher config f (xs ++ ys) ≡ run_flusher config (run_flusher config f xs) ys
unfolding run_flusher
run_flusher-append config f [] ys = refl
run_flusher-append config f (x ∷ xs) ys = run_flusher-append config (act config f x) xs ys

module _ (config : AlertConfig) where
  -- The running task with the given contents.
  abbrev active : List Alert → Bool → List Alert → List (List Alert) → Flusher
  active bs c p fl = record { buffered = bs; closed = c; pending = p; flushed = fl; running = true }

  act-recv :
      (a : Alert) (bs : List Alert) (c : Bool) (p : List Alert) (fl : List (List Alert))
      → enabled config ≡ true
      → act config (active (a ∷ bs) c p fl) recv ≡ active bs c (p ++ (a ∷ [])) fl
  unfolding act
  act-recv a bs c p fl on = rw on

  act-recv_disabled :
      (a : Alert) (bs : List Alert) (c : Bool) (p : List Alert) (fl : List (List Alert))
      → enabled config ≡ false
      → act config (active (a ∷ bs) c p fl) recv ≡ active bs c p fl
  unfolding act
  act-recv_disabled a bs c p fl off = rw off

  -- The channel's alerts go into the window, in order.
  recvs-pending :
      (bs : List Alert) (c : Bool) (p : List Alert) (fl : List (List Alert))
      → enabled config ≡ true
      → run_flusher config (active bs c p fl) (recvs (length bs)) ≡ active [] c (p ++ bs) fl
  unfolding run_flusher
  recvs-pending [] c p fl on = ap (λ (w : List Alert). active [] c w fl) (sym (append-nil p))
  recvs-pending (a ∷ bs) c p fl on =
      ap (λ (f : Flusher). run_flusher config f (recvs (length bs))) (act-recv a bs c p fl on)
      ∙ recvs-pending bs c (p ++ (a ∷ [])) fl on
      ∙ ap (λ (w : List Alert). active [] c w fl) (append_assoc p (a ∷ []) bs)

  tick-empties :
      (c : Bool) (p : List Alert) (fl : List (List Alert))
      → enabled config ≡ true
      → (act config (active [] c p fl) tick).pending
          ++ (act config (active [] c p fl) tick).buffered
        ≡ []
  unfolding act
  tick-empties c [] fl on = rw on
  tick-empties c (a ∷ p) fl on = rw on

  accepted-recvs_tick : (n : ℕ) (f : Flusher) → accepted config f (recvs n ++ (tick ∷ [])) ≡ []
  unfolding accepted
  accepted-recvs_tick zero f = refl
  accepted-recvs_tick (suc n) f = accepted-recvs_tick n (act config f recv)

  recvs_tick-empties :
      (bs : List Alert) (c : Bool) (p : List Alert) (fl : List (List Alert))
      → enabled config ≡ true
      → let f = run_flusher config (active bs c p fl) (recvs (length bs) ++ (tick ∷ [])) in
        f.pending ++ f.buffered ≡ []
  recvs_tick-empties bs c p fl on =
      rw
        (
          run_flusher-append config (active bs c p fl) (recvs (length bs)) (tick ∷ []),
          recvs-pending bs c p fl on,
        )
        (unfold run_flusher in tick-empties c (p ++ bs) fl on)

  -- While the task runs with a channel configured, receiving as many alerts as the channel holds
  -- and then one tick pushes everything that was taken.
  pub tick_pushes_all :
      (f : Flusher)
      → f.running ≡ true
      → enabled config ≡ true
      → concat (run_flusher config f (recvs (length f.buffered) ++ (tick ∷ []))).flushed ≡ taken f
  tick_pushes_all f r on =
      let last = run_flusher config f (recvs (length f.buffered) ++ (tick ∷ [])) in
      let awake : f ≡ active f.buffered f.closed f.pending f.flushed =
        ap (λ (b : Bool). record f { running = b }) r in
      let empty : last.pending ++ last.buffered ≡ [] =
        subst
          (λ (g : Flusher).
            (run_flusher config g (recvs (length f.buffered) ++ (tick ∷ []))).pending
              ++ (run_flusher config g (recvs (length f.buffered) ++ (tick ∷ []))).buffered
            ≡ [])
          (sym awake) (recvs_tick-empties f.buffered f.closed f.pending f.flushed on) in
      sym (append-nil (concat last.flushed))
      ∙ ap (λ (w : List Alert). concat last.flushed ++ w) (sym empty)
      ∙ run_flusher-taken config on f (recvs (length f.buffered) ++ (tick ∷ []))
      ∙ ap (λ (w : List Alert). taken f ++ w) (accepted-recvs_tick (length f.buffered) f)
      ∙ append-nil (taken f)

  act-stopped : (f : Flusher) (x : Action) → f.running ≡ false → (act config f x).running ≡ false
  unfolding act
  act-stopped f (send a) r = if_intro (λ g. g.running ≡ false) (accepts f) _ f (λ t. r) (λ t. r)
  act-stopped f drop_senders r = r
  act-stopped f tick r =
      if_intro (λ g. g.running ≡ false) (f.running && enabled config) _ f
        (λ t. absurd (ground arith)) (λ t. r)
  act-stopped f recv r = if_intro (λ g. g.running ≡ false) f.running _ f (λ t. cc) (λ t. r)

  run_flusher-stopped :
      (f : Flusher) (xs : List Action)
      → f.running ≡ false
      → (run_flusher config f xs).running ≡ false
  unfolding run_flusher
  run_flusher-stopped f [] r = r
  run_flusher-stopped f (x ∷ xs) r = run_flusher-stopped (act config f x) xs (act-stopped f x r)

  act-recv_closed :
      (p : List Alert) (fl : List (List Alert))
      → (act config (active [] true p fl) recv).running ≡ false
  unfolding act
  act-recv_closed p fl =
      if_intro {A = Flusher} (λ g. g.running ≡ false) (enabled config) _ _ (λ t. refl) (λ t. refl)

  recvs-stop_active :
      (bs p : List Alert) (fl : List (List Alert))
      → (run_flusher config (active bs true p fl) (recvs (suc (length bs)))).running ≡ false
  unfolding run_flusher
  recvs-stop_active [] p fl = act-recv_closed p fl
  recvs-stop_active (a ∷ bs) p fl = elim (Bool-cases (enabled config)) [
    | inl on ↦
        subst (λ (g : Flusher). (run_flusher config g (recvs (suc (length bs)))).running ≡ false)
          (sym (act-recv a bs true p fl on)) (recvs-stop_active bs (p ++ (a ∷ [])) fl)
    | inr off ↦
        subst (λ (g : Flusher). (run_flusher config g (recvs (suc (length bs)))).running ≡ false)
          (sym (act-recv_disabled a bs true p fl off)) (recvs-stop_active bs p fl)
  ]

  -- When every sender is gone, one more wake-up than the channel holds alerts ends the task,
  -- whether or not a channel is configured.
  pub recvs-stop :
      (f : Flusher)
      → f.closed ≡ true
      → (run_flusher config f (recvs (suc (length f.buffered)))).running ≡ false
  recvs-stop f c = elim (Bool-cases f.running) [
    | inl r ↦
        let awake : f ≡ active f.buffered true f.pending f.flushed =
          ap₂ (λ (b d : Bool). record f { closed = b; running = d }) c r in
        subst
          (λ (g : Flusher).
            (run_flusher config g (recvs (suc (length f.buffered)))).running ≡ false)
          (sym awake) (recvs-stop_active f.buffered f.pending f.flushed)
    | inr r ↦ run_flusher-stopped f (recvs (suc (length f.buffered))) r
  ]
