-- ===== src/Probe/Window.antt =====
-- What the windows of a captured write hold.
use memguard_agent.Base.{
  ℕ, ◌+◌, ◌-◌, ◌%◌, ◌^◌, ◌≤◌, ◌<◌, min, ◌≡◌, sym, ap, ◌∙◌, inl, inr, some, arith, ltb, leb,
  if◌then◌else◌, lt→ltb, Bool-cases, length, take, drop, take_all, length-drop,
}
use mathlib.Core.Path.{ap₂}
use memguard_agent.Probe.{Kernel, payload_half, head_window, tail_window}
use memguard_agent.Text.{Bytes}

-- The written buffer can be read: it holds these bytes.
abbrev pub Holds : Kernel → Bytes → Type 0
Holds k written =
    (off size : ℕ)
    → off + size ≤ length written
    → k.read_user off size ≡ some (take size (drop off written))

-- A cut at the list's own length, or before it, is the same cut.
take-min : (n : ℕ) (xs : Bytes) → take (min n (length xs)) xs ≡ take n xs
take-min n xs = elim (Bool-cases (leb n (length xs))) [
  | inl t ↦ let e : min n (length xs) ≡ n = ground arith in ap (λ (m : ℕ). take m xs) e
  | inr f ↦
      let e : min n (length xs) ≡ length xs = ground arith in
      ap (λ (m : ℕ). take m xs) e
      ∙ take_all (length xs) xs (omega arith)
      ∙ sym (take_all n xs (ground arith))
]

masked : (n : ℕ) → (if ltb n 128 then n else 128) % 256 ≡ min 128 n
masked n = ground arith

module _ (k : Kernel) (written : Bytes) (holds : Holds k written) where
  -- The first 128 bytes, or all of a shorter write.
  pub head_window-take :
      head_window k (length written)
      ≡ (take payload_half written, min payload_half (length written))
  unfolding head_window
  head_window-take =
      let n = min payload_half (length written) in
      let shown : take n written ≡ take payload_half written = take-min payload_half written in
      elim (Bool-cases (ltb 0 n)) [
        | inl t ↦
            rw (masked (length written), t, holds 0 n (omega arith))
              (ap (λ (w : Bytes). (w, n)) shown)
        | inr f ↦
            let none_read : n ≡ 0 = ground arith in
            rw (masked (length written), f)
              (ap₂ (λ (w : Bytes) (m : ℕ). (w, m))
                (ap (λ (m : ℕ). take m written) (sym none_read) ∙ shown) (sym none_read))
      ]

  -- The last 128 bytes of a longer write.
  pub tail_window-drop :
      payload_half < length written
      → length written < 2 ^ 32
      → tail_window k (length written)
        ≡ (drop (length written - payload_half) written, payload_half)
  unfolding tail_window
  tail_window-drop long h =
      let n = length written in
      let same : n % 2 ^ 32 ≡ n = omega arith in
      let rest : length (drop (n - payload_half) written) ≤ payload_half =
        omega (arith, length-drop (n - payload_half) written) in
      rw (same, lt→ltb payload_half n long, holds (n - payload_half) payload_half (omega arith))
        (ap (λ (w : Bytes). (w, payload_half))
          (take_all payload_half (drop (n - payload_half) written) rest))
