-- ===== src/Probe/Main/Status.antt =====
-- What the runner learns from the probe's status.
use memguard_agent.Base.{
  ℕ, ◌%◌, ◌<◌, ◌≡◌, ◌≢◌, ◌⊎◌, refl, ap, ◌∙◌, subst, inl, inr, Bool, true, false, not, ◌||◌, ◌&&◌,
  Option, none, some, List, [], ◌∷◌, ◌++◌, arith, if◌then◌else◌, ◌==◌, ==_iff, Bool-cases, All,
}
use memguard_agent.Base.Int.{ℤ, pos, negsuc}
use memguard_agent.Json.{Json}
use memguard_agent.Probe.Main.{Libbpf, is_zero, is_eintr, is_negative, poll_loop, main, status}
use memguard_agent.Base.Result.{Result, ok, err}
use memguard_agent.Runner.{runner_error_json}
use memguard_agent.Runner.Binary.{
  BinaryExecutor, TryWait, still_running, has_exited, try_failed, command, startup_delay_ms,
  startup_check,
}
use memguard_agent.Runner.Run.{Child, runner_label, get_json_stream}
use memguard_agent.Runner.Run.Events.{get_json_stream-values_from}
use memguard_agent.Runner.Stream.Lines.{GoesOn, Ends, lines_of, values_of}
use memguard_agent.Runner.Stream.{Read, Wait, exited, after_exit}
use memguard_agent.Text.{Text, codes}

-- What the poll of a round returns; no round that is told to stop polls.
abbrev pub last_polled : ℤ → List ℤ → ℤ
last_polled error [] = error
last_polled error (p ∷ ps) = last_polled p ps

-- It reads some events, or none in time, or is interrupted.
abbrev pub Continues : ℤ → Type 0
Continues p = (is_eintr p || not (is_negative p)) ≡ true

abbrev pub going_on : List ℤ → List (Bool × ℤ)
going_on [] = []
going_on (p ∷ ps) = (false, p) ∷ going_on ps

-- A loop that is told to stop returns what its last poll returned.
pub poll_loop-last_polled :
    (error : ℤ) (ps : List ℤ) (unused : ℤ) (rest : List (Bool × ℤ))
    → All Continues ps
    → poll_loop error (going_on ps ++ ((true, unused) ∷ rest)) ≡ some (last_polled error ps)
unfolding poll_loop
poll_loop-last_polled error [] unused rest h = refl
poll_loop-last_polled error (pos n ∷ ps) unused rest h =
    poll_loop-last_polled (pos n) ps unused rest h.1
poll_loop-last_polled error (negsuc n ∷ ps) unused rest h = elim (Bool-cases (n == 3)) [
  | inl interrupted ↦ rw interrupted (poll_loop-last_polled (negsuc n) ps unused rest h.1)
  | inr failed ↦ let c = h.0 in absurd (cc (rw failed at c))
]

pos_of_zero : (r : ℤ) → is_zero r ≡ true → r ≡ pos 0
pos_of_zero (pos n) h = ap pos ((==_iff n 0).0 h)
pos_of_zero (negsuc n) h = cc

-- Once its program is attached and its ring buffer made, a probe that is told to stop returns what its
-- last poll returned: the number of events read, or the error of an interruption, and 0 if it has not
-- polled.
pub main-last_polled :
    (libbpf : Libbpf) (ps : List ℤ) (unused : ℤ) (rest : List (Bool × ℤ))
    → libbpf.opens ≡ true
    → is_zero libbpf.load ≡ true
    → is_zero libbpf.attach ≡ true
    → libbpf.has_ring_buffer ≡ true
    → libbpf.rounds ≡ going_on ps ++ ((true, unused) ∷ rest)
    → All Continues ps
    → main libbpf ≡ some (last_polled (pos 0) ps)
unfolding main
main-last_polled libbpf ps unused rest opened loaded attached made rounds h =
    rw (opened, loaded, attached, made)
      (ap (poll_loop libbpf.attach) rounds
        ∙ ap (λ (e : ℤ). poll_loop e (going_on ps ++ ((true, unused) ∷ rest)))
            (pos_of_zero libbpf.attach attached)
        ∙ poll_loop-last_polled (pos 0) ps unused rest h)

-- What a step of libbpf returns: 0, or an error that is no multiple of 256.
abbrev pub IsOutcome : ℤ → Type 0
IsOutcome (pos n) = n ≡ 0
IsOutcome (negsuc n) = n % 256 < 255

-- A round that is not told to stop; its poll may return any number of events.
abbrev pub IsUntold : Bool × ℤ → Type 0
IsUntold (stop, pos n) = stop ≡ false
IsUntold (stop, negsuc n) = (stop ≡ false) × (n % 256 < 255)

-- The one failure that the status tells nobody of.
abbrev pub lacks_ring_buffer : Libbpf → Bool
lacks_ring_buffer libbpf =
    libbpf.opens && (is_zero libbpf.load && (is_zero libbpf.attach && not libbpf.has_ring_buffer))

abbrev pub succeeds : ℤ → Bool
succeeds returned = status returned == 0

failure_told : (r : ℤ) → IsOutcome r → is_zero r ≡ false → succeeds r ≡ false
failure_told (pos n) h f = ground arith
failure_told (negsuc n) h f = ground arith

some-injective : {x y : ℤ} → some x ≡ some y → x ≡ y
some-injective e = cc

-- A loop that is not told to stop ends with an error.
poll_loop_told :
    (error returned : ℤ) (rounds : List (Bool × ℤ))
    → All IsUntold rounds
    → poll_loop error rounds ≡ some returned
    → succeeds returned ≡ false
unfolding poll_loop
poll_loop_told error returned [] h e = cc
poll_loop_told error returned ((true, pos n) ∷ rounds) h e = absurd (cc (h.0))
poll_loop_told error returned ((false, pos n) ∷ rounds) h e =
    poll_loop_told (pos n) returned rounds h.1 e
poll_loop_told error returned ((true, negsuc n) ∷ rounds) h e = absurd (cc (h.0.0))
poll_loop_told error returned ((false, negsuc n) ∷ rounds) h e = elim (Bool-cases (n == 3)) [
  | inl interrupted ↦ poll_loop_told (negsuc n) returned rounds h.1 (rw interrupted at e)
  | inr failed ↦
      subst (λ (r : ℤ). succeeds r ≡ false) (some-injective (rw failed at e))
        (failure_told (negsuc n) h.0.1 refl)
]

-- A probe that ends without being told to exits with the status 0 exactly if it lacks its ring buffer.
main-succeeds :
    (libbpf : Libbpf) (returned : ℤ)
    → IsOutcome libbpf.load
    → IsOutcome libbpf.attach
    → All IsUntold libbpf.rounds
    → main libbpf ≡ some returned
    → succeeds returned ≡ lacks_ring_buffer libbpf
unfolding main
main-succeeds libbpf returned load attach rounds e = elim (Bool-cases libbpf.opens) [
  | inr f ↦ rw f (told (pos 1) refl (rw f at e))
  | inl opened ↦ elim (Bool-cases (is_zero libbpf.load)) [
    | inr f ↦
        rw (opened, f) (told libbpf.load (failure_told libbpf.load load f) (rw (opened, f) at e))
    | inl loaded ↦ elim (Bool-cases (is_zero libbpf.attach)) [
      | inr f ↦
          rw (opened, loaded, f)
            (told libbpf.attach (failure_told libbpf.attach attach f) (rw (opened, loaded, f) at e))
      | inl attached ↦ elim (Bool-cases libbpf.has_ring_buffer) [
        | inl made ↦
            rw (opened, loaded, attached, made)
              (poll_loop_told libbpf.attach returned libbpf.rounds rounds
                (rw (opened, loaded, attached, made) at e))
        | inr missing ↦
            rw (opened, loaded, attached, missing)
              (subst (λ (r : ℤ). succeeds r ≡ true)
                (some-injective (rw (opened, loaded, attached, missing) at e))
                (ap succeeds (pos_of_zero libbpf.attach attached)))
      ]
    ]
  ]
]
  where
    told : (r : ℤ) → succeeds r ≡ false → some r ≡ some returned → succeeds returned ≡ false
    told r h same = subst (λ (x : ℤ). succeeds x ≡ false) (some-injective same) h

module _ (J : Json) (from_str : Text → Option J.Value) (file_name : Text → Option Text)
    (needs_sudo : Bool) (spawn : List Text → Result Child) where
  -- The values of a probe's lines, and behind them its failure, if it is told of.
  abbrev pub values_with : BinaryExecutor → Child → List Read → Bool → Text → List J.Value
  values_with e child before unnoticed text =
      values_of J from_str (lines_of before)
      ++ (let label = runner_label file_name e.runner_name e.binary_path in
          if unnoticed
          then []
          else runner_error_json J child.uptime label (label ++ (codes " exited with " ++ text))
            ∷ [])

  after_exited :
      (now : ℕ) (label text : Text) (success : Bool)
      → after_exit J now label (exited success text) ≡ (
          if success
          then []
          else runner_error_json J now label (label ++ (codes " exited with " ++ text)) ∷ [])
  unfolding after_exit
  after_exited now label text true = refl
  after_exited now label text false = refl

  startup_check-cases :
      (e : BinaryExecutor) (tried : TryWait) (delay : Option ℕ)
      → ((message : Text) × (delay ≢ none)
          × (tried ≢ still_running)
          × (startup_check needs_sudo e tried delay ≡ err message))
        ⊎ (((delay ≡ none) ⊎ (tried ≡ still_running))
            × (startup_check needs_sudo e tried delay ≡ ok tt))
  unfolding startup_check
  startup_check-cases e tried none = inr (inl refl, refl)
  startup_check-cases e still_running (some d) = inr (inr refl, refl)
  startup_check-cases e (has_exited t) (some d) = inl (_, λ h. cc, λ h. cc, refl)
  startup_check-cases e (try_failed m) (some d) = inl (_, λ h. cc, λ h. cc, refl)

  -- A probe that ends without being told to, whose process was started, has closed its output and is
  -- waited for, so that the runner learns whether its status is 0, with libbpf's errors no multiples of
  -- 256: where the runner checks it behind a startup delay and does
  -- not find it running, the runner fails. Else its stream has the values of the probe's lines and then
  -- the probe's failure, but nothing behind the values exactly if the probe was opened, loaded and
  -- attached and only its ring buffer could not be made.
  pub ended_probe_told :
      (libbpf : Libbpf) (returned : ℤ) (e : BinaryExecutor) (child : Child)
      (before rest : List Read) (last : Read) (text : Text)
      → IsOutcome libbpf.load
      → IsOutcome libbpf.attach
      → All IsUntold libbpf.rounds
      → main libbpf ≡ some returned
      → spawn (command needs_sudo e) ≡ ok child
      → child.reads ≡ before ++ (last ∷ rest)
      → All GoesOn before
      → Ends last
      → child.wait ≡ exited (status returned == 0) text
      → ((message : Text) × (startup_delay_ms needs_sudo e ≢ none)
          × (child.tried ≢ still_running)
          × (get_json_stream J from_str file_name needs_sudo spawn e ≡ err message))
        ⊎ (((startup_delay_ms needs_sudo e ≡ none) ⊎ (child.tried ≡ still_running))
            × (get_json_stream J from_str file_name needs_sudo spawn e
                ≡ ok (child, values_with e child before (lacks_ring_buffer libbpf) text)))
  unfolding get_json_stream
  ended_probe_told libbpf returned e child before rest last text load attach rounds ended spawned
        reads goes ends waited =
      elim (startup_check-cases e child.tried (startup_delay_ms needs_sudo e)) [
        | inl (message, delayed, gone, checked) ↦
            inl (message, delayed, gone, rw (spawned, checked) refl)
        | inr (running, checked) ↦ inr (
          running,
          get_json_stream-values_from J from_str file_name needs_sudo spawn e child before rest last
                spawned checked reads goes ends
              ∙ ap (λ (vs : List J.Value). ok (child, values_of J from_str (lines_of before) ++ vs))
                  (ap
                      (λ (w : Wait).
                        after_exit J child.uptime
                          (runner_label file_name e.runner_name e.binary_path) w)
                      (waited
                        ∙ ap (λ (b : Bool). exited b text)
                            (main-succeeds libbpf returned load attach rounds ended))
                    ∙ after_exited child.uptime _ text (lacks_ring_buffer libbpf)),
        )
      ]
