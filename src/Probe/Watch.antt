-- ===== src/Probe/Watch.antt =====
-- Which writes the probe captures.
use memguard_agent.Base.{
  ℕ, zero, suc, ◌≤◌, ◌<◌, ◌≡◌, refl, ap, ◌≢◌, inl, inr, false, List, [], ◌∷◌, arith, leb,
  if◌then◌else◌, Bool-cases, length, take, is_empty, any, All, length-take,
}
use memguard_agent.Probe.Loader.{parse_arg, tokens, add_prefixes, watch_prefixes}
use memguard_agent.Probe.{
  match_chars, match_prefixes, match_prefix, watch_prefix_len, max_watch_prefixes,
}
use memguard_agent.Text.{Bytes, starts_with}

-- A prefix that ends within its array.
abbrev pub IsShort : Bytes → Type 0
IsShort pfx = length pfx < watch_prefix_len

match_chars-starts_with :
    (n : ℕ) (s pfx : Bytes) → length pfx < n → match_chars n s pfx ≡ starts_with s pfx
unfolding match_chars
match_chars-starts_with zero s pfx h = absurd (omega arith)
match_chars-starts_with (suc n) [] [] h = refl
match_chars-starts_with (suc n) (c ∷ s) [] h = refl
match_chars-starts_with (suc n) [] (d ∷ pfx) h = refl
match_chars-starts_with (suc n) (c ∷ s) (d ∷ pfx) h =
    ground (arith, match_chars-starts_with n s pfx)

match_prefixes-any :
    (n : ℕ) (prefixes : List Bytes) (s : Bytes)
    → All IsShort prefixes
    → length prefixes ≤ n
    → match_prefixes n prefixes s ≡ any (starts_with s) prefixes
unfolding match_prefixes
match_prefixes-any zero [] s h k = refl
match_prefixes-any zero (pfx ∷ prefixes) s h k = absurd (omega arith)
match_prefixes-any (suc n) [] s h k = refl
match_prefixes-any (suc n) (pfx ∷ prefixes) s h k = rw (
  match_chars-starts_with watch_prefix_len s pfx h.0,
  match_prefixes-any n prefixes s h.1 (omega arith),
)

-- What the loader hands over: one prefix at least, eight at most, each within its array.
pub record IsLoaded (prefixes : List Bytes) : Type 0 where
  pub some_prefix : prefixes ≢ []
  pub few : length prefixes ≤ max_watch_prefixes
  pub short : All IsShort prefixes

below : (n : ℕ) → leb 64 n ≡ false → n < 64
below n h = ground arith

cut-IsShort :
    (tok : Bytes) → IsShort (if leb watch_prefix_len (length tok) then take 63 tok else tok)
cut-IsShort tok = elim (Bool-cases (leb 64 (length tok))) [
  | inl t ↦ rw t (omega (arith, length-take 63 tok))
  | inr f ↦ rw f (below (length tok) f)
]

add_prefixes-IsShort : (places : ℕ) (toks : List Bytes) → All IsShort (add_prefixes places toks)
unfolding add_prefixes
add_prefixes-IsShort zero toks = tt
add_prefixes-IsShort (suc places) [] = tt
add_prefixes-IsShort (suc places) (tok ∷ toks) = (cut-IsShort tok, add_prefixes-IsShort places toks)

length-add_prefixes : (places : ℕ) (toks : List Bytes) → length (add_prefixes places toks) ≤ places
unfolding add_prefixes
length-add_prefixes zero toks = omega arith
length-add_prefixes (suc places) [] = omega arith
length-add_prefixes (suc places) (tok ∷ toks) = omega (arith, length-add_prefixes places toks)

-- Whatever text `--prefix` is given, the loader hands over at least one and at most eight prefixes,
-- each within its array.
pub watch_prefixes-IsLoaded : (arg : Bytes) → IsLoaded (watch_prefixes arg)
unfolding watch_prefixes
watch_prefixes-IsLoaded arg =
    let found = add_prefixes max_watch_prefixes (tokens (parse_arg arg)) in
    elim (Bool-cases (is_empty found)) [
      | inl t ↦ rw t (record { some_prefix = λ e. cc; few = (omega arith); short = (omega arith) })
      | inr f ↦ rw f (record {
        some_prefix = λ e. cc (ap is_empty e);
        few = length-add_prefixes max_watch_prefixes (tokens (parse_arg arg));
        short = add_prefixes-IsShort max_watch_prefixes (tokens (parse_arg arg));
      })
    ]

-- With the prefixes that the loader hands over for any text, a file name is captured exactly when it
-- starts with one of them.
pub match_prefix-watch_prefixes :
    (arg s : Bytes) → match_prefix (watch_prefixes arg) s ≡ any (starts_with s) (watch_prefixes arg)
unfolding match_prefix
match_prefix-watch_prefixes arg s =
    let loaded = watch_prefixes-IsLoaded arg in
    match_prefixes-any max_watch_prefixes (watch_prefixes arg) s loaded.short loaded.few
