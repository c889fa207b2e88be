-- ===== src/Probe/Options.antt =====
-- overlay/bpf/memwrite.c: `parse_arg`, on the options that `argp_parse` hands to it one after the other.
use memguard_agent.Base.{
  ℕ, ◌≡◌, ap, inl, inr, Bool, true, false, Option, none, some, List, [], ◌∷◌, ◌++◌, ◌==◌,
  if◌then◌else◌, Option-cases, and_then,
}
use memguard_agent.Probe.Loader.{parse_arg, default_prefix}
use memguard_agent.Text.{Bytes}

pub record Options : Type 0 where
  pub prefix : Bytes
  -- The messages of libbpf are printed.
  pub verbose : Bool

abbrev pub default_options : Options
default_options = record { prefix = default_prefix; verbose = false }

-- `none` is ARGP_ERR_UNKNOWN, for which argp shows the usage and exits.
unfoldable pub parse_option : Options → ℕ → Bytes → Option Options
unfolding parse_arg
parse_option o key arg =
    if key == b'p'
    then some (record o { prefix = parse_arg arg })
    else if key == b'v'
    then some (record o { verbose = true })
    else none

unfoldable pub parse_options : Options → List (ℕ × Bytes) → Option Options
unfolding parse_option
parse_options o [] = some o
parse_options o ((key, arg) ∷ rest) =
    let next = parse_option o key arg in and_then next (λ p. parse_options p rest)

-- Of the texts that are given with --prefix, the last one counts.
pub parse_options-append :
    (o p : Options) (opts : List (ℕ × Bytes)) (arg : Bytes)
    → parse_options o opts ≡ some p
    → parse_options o (opts ++ ((b'p', arg) ∷ [])) ≡ some (record p { prefix = parse_arg arg })
unfolding parse_options
parse_options-append o p [] arg h =
    ap (λ (m : Option Options). and_then m (λ q. some (record q { prefix = parse_arg arg }))) h
parse_options-append o p ((key, text) ∷ opts) arg h =
    elim (Option-cases (parse_option o key text)) [
      | inl n ↦ absurd (none-some (rw n at h))
      | inr (q, e) ↦ rw e (parse_options-append q p opts arg (rw e at h))
    ]
  where
    none-some : none ≡ some p → ⊥
    none-some e = cc
