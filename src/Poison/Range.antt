-- ===== src/Poison/Range.antt =====
-- The file scan reads the bytes from `offset` on, `count` of them and at most `max_scan`.
use memguard_agent.Base.{
  ℕ, zero, suc, ◌+◌, ◌-◌, ◌^◌, ◌≤◌, ◌<◌, min, ◌≡◌, refl, ap, ◌∙◌, ◌≢◌, inl, inr, true, false, List,
  [], ◌∷◌, ◌++◌, arith, leb, if◌then◌else◌, leb→le, Bool-cases, length, take, drop, is_empty, keep,
  All, length-take, length-drop, drop-append_le, take-append_ge, Elem, keep-Elem, Elem-keep,
}
use memguard_agent.Poison.Scan.{push_matching-keep, contains-lowercase, plain-IsScalar}
use memguard_agent.Poison.{chunk_hit, scan_bytes, max_scan, saturating_add}
use memguard_agent.Text.Lowercase.{Lowercase, IsPlain, SameLetters}
use memguard_agent.Text.Utf8.Embeds.{from_utf8_lossy-embeds, encode_char-first}
use memguard_agent.Text.Utf8.{as_bytes, from_utf8_lossy}
use memguard_agent.Text.{Text, Bytes, contains}

take-min : (n : ℕ) (xs : Bytes) → take (min n (length xs)) xs ≡ take n xs
take-min zero xs = ap (λ k. take k xs) (let e : min 0 (length xs) ≡ 0 = omega arith in e)
take-min (suc n) [] = ap (λ k. take {A = ℕ} k []) (let e : min (suc n) 0 ≡ 0 = omega arith in e)
take-min (suc n) (x ∷ xs) =
    ap (λ k. take k (x ∷ xs))
      (let e : min (suc n) (suc (length xs)) ≡ suc (min n (length xs)) = omega arith in e)
    ∙ ap (◌∷◌ x) (take-min n xs)

is_empty-take : (n : ℕ) (xs : Bytes) → n ≢ 0 → length xs ≢ 0 → is_empty (take n xs) ≡ false
is_empty-take zero xs h k = absurd (h refl)
is_empty-take (suc n) [] h k = absurd (k refl)
is_empty-take (suc n) (x ∷ xs) h k = refl

is_empty-length : (xs : Bytes) → length xs ≡ 0 → is_empty xs ≡ true
is_empty-length [] h = refl
is_empty-length (x ∷ xs) h = absurd (omega arith)

-- The bytes that a scan of `count` bytes from `offset` covers.
abbrev pub written : Bytes → ℕ → ℕ → Bytes
written bytes offset count = take (min count max_scan) (drop offset bytes)

module _ (bytes : Bytes) (offset count : ℕ) (fits : length bytes < 2 ^ 64) where
  abbrev start : ℕ
  start = min offset (length bytes)

  abbrev end : ℕ
  end = min (saturating_add offset (min count max_scan)) (length bytes)

  drop-start : start < end → drop start bytes ≡ drop offset bytes
  drop-start h = ap (λ k. drop k bytes) (omega arith)

  slice-written : start < end → take (end - start) (drop start bytes) ≡ written bytes offset count
  slice-written h = rw (drop-start h) (
      ap (λ k. take k (drop offset bytes)) (omega (arith, length-drop offset bytes))
      ∙ take-min (min count max_scan) (drop offset bytes))

  written_empty : end ≤ start → is_empty (written bytes offset count) ≡ true
  written_empty h = is_empty-length (written bytes offset count) (
      omega (arith, length-take (min count max_scan) (drop offset bytes), length-drop offset bytes))

  written_nonempty : start < end → is_empty (written bytes offset count) ≡ false
  written_nonempty h =
      is_empty-take (min count max_scan) (drop offset bytes) (omega arith)
        (omega (arith, length-drop offset bytes))

nonempty :
    (before : Bytes) (s : Text) (after : Bytes)
    → s ≢ []
    → is_empty (before ++ (as_bytes s ++ after)) ≡ false
unfolding as_bytes
nonempty (b ∷ before) s after ne = refl
nonempty [] [] after ne = absurd (ne refl)
nonempty [] (c ∷ s) after ne =
    let (b, rest, e, k) = encode_char-first c in
    ap (λ (x : Bytes). is_empty ((x ++ as_bytes s) ++ after)) e

-- A piece of the file that lies in the range lies whole in the covered bytes.
written-embeds :
    (before piece after : Bytes) (offset count : ℕ)
    → offset ≤ length before
    → length before + length piece ≤ offset + min count max_scan
    → written (before ++ (piece ++ after)) offset count
      ≡ drop offset before
        ++ (piece ++ take (min count max_scan - length (drop offset before) - length piece) after)
written-embeds before piece after offset count h k =
    rw (drop-append_le offset before (piece ++ after) h) (
      take-append_ge (min count max_scan) (drop offset before) (piece ++ after)
        (omega (arith, length-drop offset before))
      ∙ ap (λ (x : Bytes). drop offset before ++ x)
          (take-append_ge (min count max_scan - length (drop offset before)) piece after
            (omega (arith, length-drop offset before))))

module _ (U : Lowercase) where
  open U use {to_lowercase}

  -- The signatures that the covered bytes hold; none where no byte is covered.
  pub found_in : Bytes → List Text → List Text
  found_in slice sigs =
      if is_empty slice then [] else keep (chunk_hit U (to_lowercase (from_utf8_lossy slice))) sigs

  -- A scan of any range of a file below 2 ^ 64 bytes, also one past the end of the file or of
  -- `u64`, reports exactly the signatures of the bytes that it covers.
  pub scan_bytes-written :
      (bytes : Bytes) (offset count : ℕ) (sigs : List Text)
      → length bytes < 2 ^ 64
      → scan_bytes U bytes offset count sigs ≡ found_in (written bytes offset count) sigs
  unfolding scan_bytes found_in
  scan_bytes-written bytes offset count sigs fits =
      elim (Bool-cases (leb (end bytes offset count fits) (start bytes offset count fits))) [
        | inl t ↦ rw (t, written_empty bytes offset count fits (leb→le _ _ t))
        | inr f ↦
            let h : start bytes offset count fits < end bytes offset count fits = ground arith in
            rw (f, written_nonempty bytes offset count fits h)
              (push_matching-keep _ [] sigs
                ∙ ap (λ (s : Bytes). keep (chunk_hit U (to_lowercase (from_utf8_lossy s))) sigs)
                    (slice-written bytes offset count fits h))
      ]

  -- A text that lies in the covered bytes, in any case of its ASCII letters, is reported.
  pub found_in-embeds :
      (before : Bytes) (s : Text) (after : Bytes) (sig : Text) (sigs : List Text)
      → s ≢ []
      → All IsPlain s
      → All IsPlain sig
      → SameLetters s sig
      → Elem sig sigs
      → Elem sig (found_in (before ++ (as_bytes s ++ after)) sigs)
  unfolding found_in
  found_in-embeds before s after sig sigs ne hs hsig same m =
      let (p, q, e) = from_utf8_lossy-embeds before s after (plain-IsScalar s hs) in
      rw (nonempty before s after ne)
        (keep-Elem _ sig sigs m (rw e (contains-lowercase U p s q sig hs hsig same)))

  pub found_in-Elem :
      (slice : Bytes) (sig : Text) (sigs : List Text)
      → Elem sig (found_in slice sigs)
      → Elem sig sigs × (contains (to_lowercase (from_utf8_lossy slice)) (to_lowercase sig) ≡ true)
  unfolding found_in
  found_in-Elem slice sig sigs m = elim (Bool-cases (is_empty slice)) [
    | inl t ↦ absurd (rw t at m)
    | inr f ↦ Elem-keep _ sig sigs (rw f at m)
  ]

  -- A signature that lies anywhere in the written range of the file is reported, in any case of
  -- its ASCII letters and whatever bytes stand around it.
  pub scan_bytes-Elem :
      (before : Bytes) (s : Text) (after : Bytes) (offset count : ℕ) (sig : Text) (sigs : List Text)
      → length (before ++ (as_bytes s ++ after)) < 2 ^ 64
      → offset ≤ length before
      → length before + length (as_bytes s) ≤ offset + min count max_scan
      → s ≢ []
      → All IsPlain s
      → All IsPlain sig
      → SameLetters s sig
      → Elem sig sigs
      → Elem sig (scan_bytes U (before ++ (as_bytes s ++ after)) offset count sigs)
  scan_bytes-Elem before s after offset count sig sigs fits h k ne hs hsig same m =
      rw
        (
          scan_bytes-written (before ++ (as_bytes s ++ after)) offset count sigs fits,
          written-embeds before (as_bytes s) after offset count h k,
        )
        (found_in-embeds (drop offset before) s _ sig sigs ne hs hsig same m)
