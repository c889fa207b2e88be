-- ===== src/Probe/Main/Texts.antt =====
-- overlay/bpf/memwrite.c: what `main` prints on the error output.
use memguard_agent.Base.{
  ℕ, ◌+◌, ◌≡◌, refl, Bool, true, false, not, List, [], ◌∷◌, ◌++◌, map, if◌then◌else◌,
}
use memguard_agent.Base.Int.{ℤ, pos, negsuc}
use memguard_agent.Probe.Main.{Libbpf, is_zero, is_eintr, is_negative}
use memguard_agent.Runner.Log.{stderr_line, stderr_end, stderr_warnings}
use memguard_agent.Text.Decimal.{to_string}
use memguard_agent.Text.{Text, Bytes, codes, trim}

-- `%d`
unfoldable pub print_int : ℤ → Text
print_int (pos n) = to_string n
print_int (negsuc n) = codes "-" ++ to_string (n + 1)

unfoldable pub poll_texts : List (Bool × ℤ) → List Text
unfolding print_int
poll_texts [] = []
poll_texts ((stop, polled) ∷ rounds) =
    let later = poll_texts rounds in
    if stop
    then []
    else if is_eintr polled
    then later
    else if is_negative polled
    then (codes "ring buffer poll error: " ++ print_int polled) ∷ []
    else later

abbrev pub no_ring_buffer_text : Text
no_ring_buffer_text = codes "Failed to create ring buffer"

-- The lines, for so many prefixes of that text.
unfoldable pub main_texts : ℕ → Bytes → Libbpf → List Text
unfolding print_int poll_texts
main_texts nprefixes prefix libbpf =
    if not libbpf.opens
    then codes "Failed to open memwrite BPF skeleton" ∷ []
    else if not (is_zero libbpf.load)
    then (codes "Failed to load memwrite BPF program: " ++ print_int libbpf.load) ∷ []
    else if not (is_zero libbpf.attach)
    then (codes "Failed to attach memwrite probes: " ++ print_int libbpf.attach) ∷ []
    else if not libbpf.has_ring_buffer
    then no_ring_buffer_text ∷ []
    else (codes "memwrite: watching "
        ++ (to_string nprefixes
            ++ (codes " prefixes (\"" ++ (prefix ++ codes "\") (Ctrl+C to stop)"))))
      ∷ poll_texts libbpf.rounds

stderr_warnings-no_ring_buffer_text :
    (label : Text)
    → stderr_warnings label (stderr_line no_ring_buffer_text ∷ (stderr_end ∷ []))
      ≡ (codes "[" ++ (label ++ (codes "] STDERR: " ++ no_ring_buffer_text))) ∷ []
unfolding stderr_warnings trim
stderr_warnings-no_ring_buffer_text label = refl

-- A probe that cannot make its ring buffer leaves one trace: the runner's warning with its message.
pub no_ring_buffer-warned :
    (nprefixes : ℕ) (prefix : Bytes) (libbpf : Libbpf) (label : Text)
    → libbpf.opens ≡ true
    → is_zero libbpf.load ≡ true
    → is_zero libbpf.attach ≡ true
    → libbpf.has_ring_buffer ≡ false
    → stderr_warnings label
        (map stderr_line (main_texts nprefixes prefix libbpf) ++ (stderr_end ∷ []))
      ≡ (codes "[" ++ (label ++ (codes "] STDERR: " ++ no_ring_buffer_text))) ∷ []
unfolding main_texts
no_ring_buffer-warned nprefixes prefix libbpf label o l a r =
    rw (o, l, a, r) (stderr_warnings-no_ring_buffer_text label)
