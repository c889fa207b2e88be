-- ===== src/Runner/System.antt =====
-- overlay/agentsight-capture/src/runners/common.rs: what the runner asks the system for.
use memguard_agent.Base.{
  ℕ, ◌≡◌, refl, ap, ◌≢◌, Bool, true, false, not, Option, none, some, List, [], ◌∷◌, ◌++◌, ◌==◌,
  if◌then◌else◌, unwrap_or, and_then, is_empty, All,
}
use memguard_agent.Text.Trim.{trim_start_clean}
use memguard_agent.Text.{Text, codes, is_whitespace, trim_start, join}

-- `geteuid() != 0`
unfoldable pub needs_sudo : ℕ → Bool
needs_sudo euid = not (euid == 0)

-- The characters up to the first white space.
unfoldable pub word : Text → Text
word [] = []
word (c ∷ cs) = let rest = word cs in if is_whitespace c then [] else c ∷ rest

-- `split_whitespace().next()`
unfoldable pub first_word : Text → Option Text
unfolding trim_start word
first_word text = let t = trim_start text in if is_empty t then none else some (word t)

-- `/proc/uptime`, where it can be read; `to_ns` parses a number of seconds as an `f64` and turns it into
-- nanoseconds.
unfoldable pub current_boot_time_ns : (Text → Option ℕ) → Option Text → ℕ
unfolding first_word
current_boot_time_ns to_ns uptime = unwrap_or (and_then (and_then uptime first_word) to_ns) 0

-- What is logged before a probe is started.
unfoldable pub executing : Bool → Text → List Text → Text
executing needs_sudo binary_path additional_args =
    if needs_sudo
    then codes "Executing binary (via sudo): "
      ++ (binary_path ++ (codes " " ++ join (codes " ") additional_args))
    else if is_empty additional_args
    then codes "Executing binary: " ++ binary_path
    else codes "Executing binary: "
      ++ (binary_path ++ (codes " " ++ join (codes " ") additional_args))

word-append :
    (w rest : Text) (c : ℕ)
    → All (λ d. is_whitespace d ≡ false) w
    → is_whitespace c ≡ true
    → word (w ++ (c ∷ rest)) ≡ w
unfolding word
word-append [] rest c h space = rw space refl
word-append (d ∷ w) rest c h space = rw h.0 (ap (◌∷◌ d) (word-append w rest c h.1 space))

-- The time since boot is read from the first of the two numbers that the kernel prints.
pub current_boot_time_ns_lem :
    (to_ns : Text → Option ℕ) (w rest : Text) (ns : ℕ)
    → All (λ d. is_whitespace d ≡ false) w
    → w ≢ []
    → to_ns w ≡ some ns
    → current_boot_time_ns to_ns (some (w ++ (b' ' ∷ rest))) ≡ ns
unfolding current_boot_time_ns first_word
current_boot_time_ns_lem to_ns [] rest ns h ne parsed = absurd (ne refl)
current_boot_time_ns_lem to_ns (d ∷ w) rest ns h ne parsed =
    rw
      (
        trim_start_clean (d ∷ (w ++ (b' ' ∷ rest))) h.0,
        word-append (d ∷ w) rest b' ' h (unfold is_whitespace in refl),
        parsed,
      )
      refl
