-- ===== src/Probe/Loader/Parts.antt =====
-- The prefixes that the loader hands over are parts of the text of `--prefix`.
use memguard_agent.Base.{
  ℕ, zero, suc, ◌≤◌, ◌≡◌, refl, ◌⊎◌, inl, inr, Bool, true, false, not, List, [], ◌∷◌, arith, leb,
  ◌==◌, if◌then◌else◌, Bool-cases, length, is_empty, keep, any, All, take_all, Elem, Elem-keep,
}
use memguard_agent.Probe.Loader.{parse_arg, tokens, add_prefixes, watch_prefixes, default_prefix}
use memguard_agent.Probe.{max_watch_prefixes}
use memguard_agent.Text.{Bytes, onto_first, split, starts_with}

any-Elem :
    (p : Bytes → Bool) (xs : List Bytes) → any p xs ≡ true → (x : Bytes) × Elem x xs × (p x ≡ true)
any-Elem p [] h = cc
any-Elem p (x ∷ xs) h = elim (Bool-cases (p x)) [
  | inl t ↦ (x, inl refl, t)
  | inr f ↦ let (y, m, t) = any-Elem p xs (rw f at h) in (y, inr m, t)
]

AtMost : ℕ → Bytes → Type 0
AtMost n t = length t ≤ n

AtMost-le : (m n : ℕ) (ts : List Bytes) → m ≤ n → All (AtMost m) ts → All (AtMost n) ts
unfolding AtMost
AtMost-le m n [] k h = tt
AtMost-le m n (t ∷ ts) k h = (omega arith, AtMost-le m n ts k h.1)

onto_first-AtMost :
    (n c : ℕ) (ts : List Bytes) → All (AtMost n) ts → All (AtMost (suc n)) (onto_first c ts)
unfolding AtMost onto_first
onto_first-AtMost n c [] h = (omega arith, tt)
onto_first-AtMost n c (t ∷ ts) h = (omega arith, AtMost-le n (suc n) ts (omega arith) h.1)

-- A part of a text is no longer than the text.
split-AtMost : (s : Bytes) → All (AtMost (length s)) (split b',' s)
unfolding AtMost split
split-AtMost [] = (omega arith, tt)
split-AtMost (c ∷ s) = elim (Bool-cases (c == b',')) [
  | inl t ↦ rw t (
    omega arith,
    AtMost-le (length s) (suc (length s)) (split b',' s) (omega arith) (split-AtMost s),
  )
  | inr f ↦ rw f (onto_first-AtMost (length s) c (split b',' s) (split-AtMost s))
]

short_is_not_cut : (n : ℕ) → n ≤ 63 → leb 64 n ≡ false
short_is_not_cut n h = ground arith

-- A prefix that is handed over is one of the tokens.
add_prefixes-Elem :
    (places : ℕ) (toks : List Bytes) (x : Bytes)
    → All (AtMost 63) toks
    → Elem x (add_prefixes places toks)
    → Elem x toks
unfolding add_prefixes AtMost
add_prefixes-Elem zero toks x h m = elim m [ ]
add_prefixes-Elem (suc places) [] x h m = elim m [ ]
add_prefixes-Elem (suc places) (tok ∷ toks) x h (inl e) =
    inl (rw (short_is_not_cut (length tok) h.0) at e)
add_prefixes-Elem (suc places) (tok ∷ toks) x h (inr m) =
    inr (add_prefixes-Elem places toks x h.1 m)

AtMost-keep :
    (n : ℕ) (p : Bytes → Bool) (ts : List Bytes) → All (AtMost n) ts → All (AtMost n) (keep p ts)
AtMost-keep n p [] h = tt
AtMost-keep n p (t ∷ ts) h = elim (Bool-cases (p t)) [
  | inl y ↦ rw y (h.0, AtMost-keep n p ts h.1)
  | inr f ↦ rw f (AtMost-keep n p ts h.1)
]

add_prefixes-is_empty :
    (places : ℕ) (toks : List Bytes)
    → is_empty (add_prefixes (suc places) toks) ≡ true
    → is_empty toks ≡ true
unfolding add_prefixes
add_prefixes-is_empty places [] h = refl
add_prefixes-is_empty places (tok ∷ toks) h = cc

token_part :
    (arg : Bytes)
    → length arg ≤ 63
    → (x : Bytes) → Elem x (add_prefixes max_watch_prefixes (tokens arg))
    → Elem x (split b',' arg) × (not (is_empty x) ≡ true)
unfolding tokens
token_part arg h x there =
    let parts = AtMost-le (length arg) 63 (split b',' arg) h (split-AtMost arg) in
    Elem-keep (λ tok. not (is_empty tok)) x (split b',' arg)
      (add_prefixes-Elem max_watch_prefixes (tokens arg) x
        (AtMost-keep 63 (λ tok. not (is_empty tok)) (split b',' arg) parts) there)

-- A name that starts with a watched prefix holds a part of the text of `--prefix`.
pub named_part :
    (arg name : Bytes)
    → length arg ≤ 63
    → any (starts_with name) (watch_prefixes arg) ≡ true
    → (is_empty (tokens arg) ≡ true)
      ⊎ ((x : Bytes) × Elem x (split b',' arg) × (starts_with name x ≡ true))
unfolding watch_prefixes parse_arg
named_part arg name h m =
    let whole : parse_arg arg ≡ arg = take_all 63 arg h in
    let found = add_prefixes max_watch_prefixes (tokens arg) in
    let m' : any (starts_with name) (if is_empty found then default_prefix ∷ [] else found) ≡ true =
      rw whole at m in
    elim (Bool-cases (is_empty found)) [
      | inl t ↦ inl (add_prefixes-is_empty 7 (tokens arg) t)
      | inr f ↦
          let (x, there, starts) = any-Elem (starts_with name) found (rw f at m') in
          inr (x, (token_part arg h x there).0, starts)
    ]
