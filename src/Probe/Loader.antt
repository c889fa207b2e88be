-- ===== src/Probe/Loader.antt =====
-- overlay/bpf/memwrite.c: the prefixes that the loader gives the probe.
pub mod Parts
use memguard_agent.Base.{
  ℕ, zero, suc, ◌-◌, not, List, [], ◌∷◌, leb, if◌then◌else◌, length, take, is_empty, keep,
}
use memguard_agent.Probe.{watch_prefix_len, max_watch_prefixes}
use memguard_agent.Text.{Bytes, codes, split}

-- `snprintf(prefix, sizeof(prefix), "%s", arg)`
unfoldable pub parse_arg : Bytes → Bytes
parse_arg arg = take 63 arg

abbrev pub default_prefix : Bytes
default_prefix = codes "ehragent_memory"

-- The tokens of `strtok_r` at commas: it gives no empty one.
unfoldable pub tokens : Bytes → List Bytes
tokens s = keep (λ tok. not (is_empty tok)) (split b',' s)

-- `main`'s loop over the tokens, with the places left in `prefixes`.
unfoldable pub add_prefixes : ℕ → List Bytes → List Bytes
add_prefixes zero toks = []
add_prefixes (suc places) [] = []
add_prefixes (suc places) (tok ∷ toks) =
    let rest = add_prefixes places toks in
    (if leb watch_prefix_len (length tok) then take (watch_prefix_len - 1) tok else tok) ∷ rest

-- The prefixes for the text of `--prefix`, the default where it names none.
unfoldable pub watch_prefixes : Bytes → List Bytes
unfolding parse_arg tokens add_prefixes
watch_prefixes arg =
    let prefixes = add_prefixes max_watch_prefixes (tokens (parse_arg arg)) in
    if is_empty prefixes then default_prefix ∷ [] else prefixes
