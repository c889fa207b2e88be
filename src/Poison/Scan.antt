-- ===== src/Poison/Scan.antt =====
-- What the two scans report.
use memguard_agent.Base.{
  ℕ, ◌≡◌, sym, ◌∙◌, inl, inr, Bool, true, Option, none, some, List, [], ◌∷◌, ◌++◌, map, append-nil,
  append_assoc, arith, Bool-cases, keep, All,
}
use memguard_agent.Event.{Files}
use memguard_agent.Poison.{push_matching, scan_windows, window_hit, scan_bytes, scan_file_range}
use memguard_agent.Text.Lowercase.{Lowercase, ascii_lower, IsPlain, SameLetters}
use memguard_agent.Text.Search.{contains-append}
use memguard_agent.Text.Utf8.{IsScalar}
use memguard_agent.Text.{Text, Bytes, contains}

-- The loop keeps the signatures that hit, in their order.
pub push_matching-keep :
    (hit : Text → Bool) (matched sigs : List Text)
    → push_matching hit matched sigs ≡ matched ++ keep hit sigs
unfolding push_matching
push_matching-keep hit matched [] = sym (append-nil matched)
push_matching-keep hit matched (sig ∷ sigs) = elim (Bool-cases (hit sig)) [
  | inl t ↦ rw t (push_matching-keep hit (matched ++ (sig ∷ [])) sigs ∙ append_assoc matched _ _)
  | inr f ↦ rw f (push_matching-keep hit matched sigs)
]

pub plain-IsScalar : (s : Text) → All IsPlain s → All IsScalar s
plain-IsScalar [] h = tt
plain-IsScalar (c ∷ s) h = (ground arith, plain-IsScalar s h.1)

module _ (U : Lowercase) where
  open U use {to_lowercase, lowercase_plain, lowercase_embeds}

  -- The window scan reports exactly the signatures that either window contains.
  pub scan_windows-keep :
      (head tail : Option Text) (sigs : List Text)
      → scan_windows U head tail sigs ≡ keep (window_hit U head tail) sigs
  unfolding scan_windows
  scan_windows-keep head tail sigs = push_matching-keep (window_hit U head tail) [] sigs

  -- A text in any case of its ASCII letters is found in what holds it.
  pub contains-lowercase :
      (before s after sig : Text)
      → All IsPlain s
      → All IsPlain sig
      → SameLetters s sig
      → contains (to_lowercase (before ++ (s ++ after))) (to_lowercase sig) ≡ true
  contains-lowercase before s after sig hs hsig same =
      let (p, q, e) = lowercase_embeds before s after hs in
      rw (e, lowercase_plain sig hsig, same) (contains-append p (map ascii_lower sig) q)

  pub scan_file_range-some :
      (files : Files) (path : Text) (offset count : ℕ) (sigs : List Text) {bytes : Bytes}
      → files path ≡ some bytes
      → scan_file_range U files path offset count sigs ≡ scan_bytes U bytes offset count sigs
  unfolding scan_file_range
  scan_file_range-some files path offset count sigs e = rw (e, scan_file_range)

  -- A file that cannot be read is passed over.
  pub scan_file_range-none :
      (files : Files) (path : Text) (offset count : ℕ) (sigs : List Text)
      → files path ≡ none
      → scan_file_range U files path offset count sigs ≡ []
  unfolding scan_file_range
  scan_file_range-none files path offset count sigs e = rw (e, scan_file_range)
