-- ===== src/Alert/Message/Lines.antt =====
-- The body of a pushed batch has a line for each alert.
use memguard_agent.Base.Int.{ℤ, as_i64}
use memguard_agent.Base.{
  ℕ, ◌≤◌, ◌≡◌, sym, ap, ◌∙◌, inl, inr, Option, some, List, [], ◌∷◌, ◌++◌, map, append-nil,
  append_assoc, arith, Option-cases, length, All, Elem, Elem-append_right, Elem-append_left,
}
use memguard_agent.Alert.Message.{alert_line, format_ts, push_lines, build_body}
use memguard_agent.Alert.{Alert}
use memguard_agent.Text.Decimal.{to_string, to_string-All}
use memguard_agent.Text.Split.{Lacks, Lacks-append, split-join, split-Elem}
use memguard_agent.Text.{Text, codes, split, join}

to_string-Lacks : (n : ℕ) → Lacks b'\n' (to_string n)
to_string-Lacks n = digits_lack (to_string n) (to_string-All n)
  where
    digits_lack : (s : Text) → All (λ c. 48 ≤ c) s → Lacks b'\n' s
    digits_lack [] h = tt
    digits_lack (c ∷ s) h = (omega arith, digits_lack s h.1)

module _ (clock : ℤ → Option Text) where
  push_lines-map :
      (lines : List Text) (pending : List Alert)
      → push_lines clock lines pending ≡ lines ++ map (alert_line clock) pending
  unfolding push_lines
  push_lines-map lines [] = sym (append-nil lines)
  push_lines-map lines (a ∷ pending) =
      push_lines-map (lines ++ (alert_line clock a ∷ [])) pending
      ∙ append_assoc lines (alert_line clock a ∷ []) (map (alert_line clock) pending)

  pub build_body-join :
      (pending : List Alert)
      → build_body clock pending ≡ join (b'\n' ∷ []) (map (alert_line clock) pending)
  unfolding build_body
  build_body-join pending = ap (join (b'\n' ∷ [])) (push_lines-map [] pending)

  -- No text that the alert quotes holds a newline.
  pub record IsOneLine (a : Alert) : Type 0 where
    pub severity_line : Lacks b'\n' a.severity
    pub comm_line : Lacks b'\n' a.comm
    pub file_line : Lacks b'\n' a.file
    pub signatures_line : Lacks b'\n' a.signatures

  module _ (clock_line : (t : ℤ) (s : Text) → clock t ≡ some s → Lacks b'\n' s) where
    format_ts-Lacks : (ts : ℕ) → Lacks b'\n' (format_ts clock ts)
    unfolding format_ts
    format_ts-Lacks ts = elim (Option-cases (clock (as_i64 ts))) [
      | inl e ↦ rw e (omega arith)
      | inr (s, e) ↦ rw e (clock_line (as_i64 ts) s e)
    ]

    alert_line-Lacks : (a : Alert) → IsOneLine a → Lacks b'\n' (alert_line clock a)
    unfolding alert_line
    alert_line-Lacks a h = after (codes "[") _ _ (omega arith) (format_ts-Lacks a.ts_ms) (
        after (codes "] ") _ _ (omega arith) h.severity_line (
          after (codes " pid=") _ _ (omega arith) (to_string-Lacks a.pid) (
            after (codes " comm=") _ _ (omega arith) h.comm_line (
              after (codes " file=") _ _ (omega arith) h.file_line
                (Lacks-append b'\n' (codes " sig=") _ (omega arith) h.signatures_line)))))
      where
        after :
            (label s t : Text)
            → Lacks b'\n' label
            → Lacks b'\n' s
            → Lacks b'\n' t
            → Lacks b'\n' (label ++ (s ++ t))
        after label s t hl hs ht = Lacks-append b'\n' label _ hl (Lacks-append b'\n' _ _ hs ht)

    -- Where neither the formatted times nor the texts of the alerts hold a newline, splitting the
    -- body of a batch that is not empty at newlines gives one line for each alert, in their order.
    pub split-build_body :
        (a : Alert) (pending : List Alert)
        → All IsOneLine (a ∷ pending)
        → split b'\n' (build_body clock (a ∷ pending)) ≡ map (alert_line clock) (a ∷ pending)
    split-build_body a pending h = rw (build_body-join (a ∷ pending)) (
        split-join b'\n' (alert_line clock a) (map (alert_line clock) pending)
          (lines-Lacks (a ∷ pending) h))
      where
        lines-Lacks :
            (batch : List Alert)
            → All IsOneLine batch
            → All (Lacks b'\n') (map (alert_line clock) batch)
        lines-Lacks [] h = tt
        lines-Lacks (b ∷ batch) h = (alert_line-Lacks b h.0, lines-Lacks batch h.1)

  -- A newline in the name of the writing process makes the body of a batch of its one alert two lines
  -- or more.
  pub newline_in_comm_splits :
      (a : Alert) → Elem b'\n' a.comm → 2 ≤ length (split b'\n' (build_body clock (a ∷ [])))
  unfolding alert_line
  newline_in_comm_splits a m = rw (build_body-join (a ∷ [])) (
      split-Elem b'\n' (join (b'\n' ∷ []) (alert_line clock a ∷ [])) (
        unfold join in
        Elem-append_right b'\n' (codes "[") _ (
          Elem-append_right b'\n' (format_ts clock a.ts_ms) _ (
            Elem-append_right b'\n' (codes "] ") _ (
              Elem-append_right b'\n' a.severity _ (
                Elem-append_right b'\n' (codes " pid=") _ (
                  Elem-append_right b'\n' (to_string a.pid) _ (
                    Elem-append_right b'\n' (codes " comm=") _
                      (Elem-append_left b'\n' a.comm _ m)))))))))
