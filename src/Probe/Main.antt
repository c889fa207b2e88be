-- ===== src/Probe/Main.antt =====
-- overlay/bpf/memwrite.c: what `main` returns. What libbpf's calls return is a parameter; the arguments, the
-- limits and the texts on the error output are left out.
pub mod Status
pub mod Texts
use memguard_agent.Base.{
  ℕ, ◌-◌, ◌%◌, Bool, true, false, not, Option, none, some, List, [], ◌∷◌, ◌==◌, if◌then◌else◌,
}
use memguard_agent.Base.Int.{ℤ, pos, negsuc}

pub record Libbpf : Type 0 where
  -- Whether `memwrite_bpf__open` and `ring_buffer__new` give what they are to give.
  pub opens : Bool
  pub load : ℤ
  pub attach : ℤ
  pub has_ring_buffer : Bool
  -- For each round of the loop: whether `stop` is set, and, where it is not, what the poll returns.
  pub rounds : List (Bool × ℤ)

abbrev pub is_zero : ℤ → Bool
is_zero (pos n) = n == 0
is_zero (negsuc n) = false

-- `-EINTR` is -4.
abbrev pub is_eintr : ℤ → Bool
is_eintr (pos n) = false
is_eintr (negsuc n) = n == 3

abbrev pub is_negative : ℤ → Bool
is_negative (pos n) = false
is_negative (negsuc n) = true

-- The loop, with the `err` so far; `none` where it still polls.
unfoldable pub poll_loop : ℤ → List (Bool × ℤ) → Option ℤ
poll_loop error [] = none
poll_loop error ((stop, polled) ∷ rounds) =
    let later = poll_loop polled rounds in
    if stop
    then some error
    else if is_eintr polled
    then later
    else if is_negative polled
    then some polled
    else later

-- The prefixes that `main` sets between its opening and its loading are `watch_prefixes`.
unfoldable pub main : Libbpf → Option ℤ
unfolding poll_loop
main libbpf =
    if not libbpf.opens
    then some (pos 1)
    else if not (is_zero libbpf.load)
    then some libbpf.load
    else if not (is_zero libbpf.attach)
    then some libbpf.attach
    else if not libbpf.has_ring_buffer
    then some libbpf.attach
    else poll_loop libbpf.attach libbpf.rounds

-- The status that a parent sees of what `main` returns.
abbrev pub status : ℤ → ℕ
status (pos n) = n % 256
status (negsuc n) = 255 - n % 256
