-- ===== src/Probe.antt =====
-- overlay/bpf/memwrite.bpf.c and overlay/bpf/memwrite.h: the probe's part in the kernel. A C string is
-- the list of its bytes before the zero. What the kernel's helpers read is a parameter, `Kernel`.
pub mod Loader
pub mod Options
pub mod Line
pub mod Watch
pub mod Window
pub mod Read
pub mod Seen
pub mod Segment
pub mod Compensated
pub mod Pushed
pub mod Main
pub mod Agrees
mod Tests
use memguard_agent.Base.{
  ℕ, zero, suc, ◌-◌, ◌/◌, ◌%◌, ◌^◌, Bool, true, false, not, ◌||◌, Option, none, some, List, [], ◌∷◌,
  ltb, leb, ◌==◌, if◌then◌else◌, take,
}
use memguard_agent.Base.Int.{ℤ, pos, negsuc}
use memguard_agent.Text.{Bytes}

abbrev pub watch_prefix_len : ℕ
watch_prefix_len = 64

abbrev pub max_watch_prefixes : ℕ
max_watch_prefixes = 8

abbrev pub filename_len : ℕ
filename_len = 127

abbrev pub parent_len : ℕ
parent_len = 64

abbrev pub payload_half : ℕ
payload_half = 128

-- `struct memwrite_event`, its strings up to their zero and its windows up to their lengths.
pub record MemwriteEvent : Type 0 where
  pub timestamp_ns : ℕ
  pub pid : ℕ
  pub tid : ℕ
  pub count : ℕ
  pub offset : ℕ
  pub comm : Bytes
  pub filename : Bytes
  pub parent : Bytes
  pub head_len : ℕ
  pub tail_len : ℕ
  pub head : Bytes
  pub tail : Bytes

-- The inner loop of `match_prefix`, with the rounds left.
unfoldable pub match_chars : ℕ → Bytes → Bytes → Bool
match_chars zero s pfx = true
match_chars (suc n) s [] = true
match_chars (suc n) [] (d ∷ pfx) = false
match_chars (suc n) (c ∷ s) (d ∷ pfx) =
    let rest = match_chars n s pfx in if not (c == d) then false else rest

-- The outer loop, over the first `watch_prefix_count` prefixes.
unfoldable pub match_prefixes : ℕ → List Bytes → Bytes → Bool
unfolding match_chars
match_prefixes zero prefixes s = false
match_prefixes (suc n) [] s = false
match_prefixes (suc n) (pfx ∷ prefixes) s =
    let rest = match_prefixes n prefixes s in
    if match_chars watch_prefix_len s pfx then true else rest

unfoldable pub match_prefix : List Bytes → Bytes → Bool
unfolding match_prefixes
match_prefix = match_prefixes max_watch_prefixes

-- What the helpers of the kernel give at one call: whether the ring buffer has room, the process, the
-- clock, and the memory at the file's name, its parent's name and the position, where it can be read.
pub record Kernel : Type 0 where
  pub room : Bool
  pub pid_tgid : ℕ
  pub ktime_ns : ℕ
  pub comm : Bytes
  pub name : Option Bytes
  pub parent : Option Bytes
  pub position : Option ℤ
  -- `bpf_probe_read_user` of so many bytes at an offset of the written buffer.
  pub read_user : ℕ → ℕ → Option Bytes

-- A window is what is read, with its length, and empty where the read fails.
abbrev pub window : ℕ → Option Bytes → Bytes × ℕ
window size none = ([], 0)
window size (some bytes) = (bytes, size)

-- The file name that is captured, `none` where it cannot be read or has no watched prefix.
unfoldable pub watched_name : List Bytes → Option Bytes → Option Bytes
unfolding match_prefix
watched_name prefixes none = none
watched_name prefixes (some name) =
    let fname = take (filename_len - 1) name in
    if not (match_prefix prefixes fname) then none else some fname

-- `off < 0 ? 0 : (u64)off`
abbrev pub offset_of : Option ℤ → ℕ
offset_of none = 0
offset_of (some (pos n)) = n
offset_of (some (negsuc n)) = 0

-- `(u64)off`
abbrev pub raw_offset_of : Option ℤ → ℕ
raw_offset_of none = 0
raw_offset_of (some (pos n)) = n
raw_offset_of (some (negsuc n)) = 2 ^ 64 - 1 - n

abbrev pub parent_of : Option Bytes → Bytes
parent_of none = []
parent_of (some name) = take (parent_len - 1) name

module _ (k : Kernel) where
  unfoldable pub head_window : ℕ → Bytes × ℕ
  head_window count =
      let head_len = (if ltb count payload_half then count else payload_half) % 256 in
      if ltb 0 head_len then window head_len (k.read_user 0 head_len) else ([], 0)

  unfoldable pub tail_window : ℕ → Bytes × ℕ
  tail_window count =
      let tc = count % 2 ^ 32 in
      if ltb payload_half tc
      then window payload_half (k.read_user (tc - payload_half) payload_half)
      else ([], 0)

  -- The head window of a segment: of 128 bytes, or empty.
  unfoldable pub segment_window : ℕ → Bytes × ℕ
  segment_window iov_len =
      if leb payload_half iov_len then window payload_half (k.read_user 0 payload_half) else ([], 0)

  -- The event that is filled in for a write to a watched file.
  unfoldable pub write_event : ℕ → Bytes → MemwriteEvent
  unfolding head_window tail_window
  write_event count fname = record {
    timestamp_ns = k.ktime_ns;
    pid = k.pid_tgid / 2 ^ 32;
    tid = k.pid_tgid % 2 ^ 32;
    count = count;
    offset = offset_of k.position;
    comm = k.comm;
    filename = fname;
    parent = parent_of k.parent;
    head_len = (head_window count).1;
    tail_len = (tail_window count).1;
    head = (head_window count).0;
    tail = (tail_window count).0;
  }

  -- The event that is filled in for the first segment of a `writev`.
  abbrev pub segment_event : ℕ → Bytes → MemwriteEvent
  segment_event iov_len fname = record {
    timestamp_ns = k.ktime_ns;
    pid = k.pid_tgid / 2 ^ 32;
    tid = k.pid_tgid % 2 ^ 32;
    count = iov_len;
    offset = raw_offset_of k.position;
    comm = k.comm;
    filename = fname;
    parent = [];
    head_len = (segment_window iov_len).1;
    tail_len = 0;
    head = (segment_window iov_len).0;
    tail = [];
  }

module _ (prefixes : List Bytes) (k : Kernel) where
  -- `memwrite_vfs_write`; `valid` where neither `file` nor `buf` is null.
  unfoldable pub vfs_write : Bool → ℕ → Option MemwriteEvent
  unfolding watched_name
  vfs_write valid count =
      if not valid || count == 0 then none else elim (watched_name prefixes k.name) [
        | none ↦ none
        | some fname ↦ if not k.room then none else some (write_event k count fname)
      ]

  -- `memwrite_vfs_writev`, on the length of the first segment, if it can be read.
  unfoldable pub vfs_writev : Bool → Option ℕ → Option MemwriteEvent
  unfolding watched_name segment_window
  vfs_writev valid iov = if not valid then none else elim (watched_name prefixes k.name) [
    | none ↦ none
    | some fname ↦ elim iov [
      | none ↦ none
      | some iov_len ↦
          if iov_len == 0 || not k.room then none else some (segment_event k iov_len fname)
    ]
  ]
