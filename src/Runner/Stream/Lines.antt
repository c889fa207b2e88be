-- ===== src/Runner/Stream/Lines.antt =====
-- The values of the stream are those of the probe's lines.
use memguard_agent.Base.{ℕ, ◌≡◌, refl, ap, Bool, true, Option, List, [], ◌∷◌, ◌++◌, All}
use memguard_agent.Json.{Json}
use memguard_agent.Runner.Stream.{
  Read, line, end_of_output, interrupted, failed, Wait, parse_line, yield, read_loop, after_exit,
  json_stream,
}
use memguard_agent.Text.{Text, Bytes}

-- Reads that go on: lines, and interruptions, which are tried again.
abbrev pub GoesOn : Read → Type 0
GoesOn (line bytes) = Unit
GoesOn interrupted = Unit
GoesOn end_of_output = ⊥
GoesOn failed = ⊥

-- A read that ends the output.
abbrev pub Ends : Read → Type 0
Ends (line bytes) = ⊥
Ends interrupted = ⊥
Ends end_of_output = Unit
Ends failed = Unit

abbrev pub lines_of : List Read → List Bytes
lines_of [] = []
lines_of (line bytes ∷ reads) = bytes ∷ lines_of reads
lines_of (interrupted ∷ reads) = lines_of reads
lines_of (end_of_output ∷ reads) = lines_of reads
lines_of (failed ∷ reads) = lines_of reads

module _ (J : Json) (from_str : Text → Option J.Value) where
  pub values_of : List Bytes → List J.Value
  values_of [] = []
  values_of (l ∷ ls) = yield J from_str (parse_line J from_str l) (values_of ls)

  read_loop-values_of :
      (reads rest : List Read) (last : Read)
      → All GoesOn reads
      → Ends last
      → read_loop J from_str (reads ++ (last ∷ rest)) ≡ (values_of (lines_of reads), true)
  unfolding read_loop values_of
  read_loop-values_of [] rest end_of_output g e = refl
  read_loop-values_of [] rest failed g e = refl
  read_loop-values_of [] rest (line bytes) g e = elim e [ ]
  read_loop-values_of [] rest interrupted g e = elim e [ ]
  read_loop-values_of (line bytes ∷ reads) rest last g e =
      ap
        (λ (x : List J.Value × Bool).
          let y : List J.Value × Bool = (yield J from_str (parse_line J from_str bytes) x.0, x.1) in
          y)
        (read_loop-values_of reads rest last g.1 e)
  read_loop-values_of (interrupted ∷ reads) rest last g e =
      read_loop-values_of reads rest last g.1 e
  read_loop-values_of (end_of_output ∷ reads) rest last g e = absurd g.0
  read_loop-values_of (failed ∷ reads) rest last g e = absurd g.0

  -- Up to the first end or failure of the output, the stream yields the value of each line that
  -- parses, in order, whatever interruptions come between; behind them comes what the probe's exit
  -- gives.
  pub json_stream-values_of :
      (now : ℕ) (label : Text) (reads rest : List Read) (last : Read) (wait : Wait)
      → All GoesOn reads
      → Ends last
      → json_stream J from_str now label (reads ++ (last ∷ rest)) wait
        ≡ values_of (lines_of reads) ++ after_exit J now label wait
  unfolding json_stream
  json_stream-values_of now label reads rest last wait g e =
      rw (read_loop-values_of reads rest last g e)
