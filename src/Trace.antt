-- ===== src/Trace.antt =====
-- overlay/collector/src/cmd_trace.rs: the configuration of a trace and the arguments of its probes.
pub mod Watching
pub mod Agent
pub mod Drive
pub mod Server
pub mod Memwrite
pub mod Built
pub mod Chain
pub mod Failing
pub mod Session
mod Tests
use memguard_agent.Base.{
  ℕ, Bool, true, false, Option, none, some, List, [], ◌∷◌, ◌++◌, if◌then◌else◌, is_none,
}
use memguard_agent.Text.Decimal.{to_string}
use memguard_agent.Text.{Text, codes}

abbrev pub default_server_listen : Text
default_server_listen = codes "127.0.0.1"

abbrev pub default_record_stdio_max_bytes : ℕ
default_record_stdio_max_bytes = 65536

pub record OtelConfig : Type 0 where
  pub endpoint : Option Text
  pub capture_content : Bool

-- `Seed` is the type of the process seeds, which belong to another crate.
pub record TraceConfig (Seed : Type 0) : Type 0 where
  pub ssl : Bool
  pub pid : Option ℕ
  pub session_id : Option ℕ
  pub ssl_uid : Option ℕ
  pub comm : Option Text
  pub ssl_filter : List Text
  pub ssl_handshake : Bool
  pub ssl_http : Bool
  pub ssl_raw_data : Bool
  pub process : Bool
  pub process_seed_pids : List Seed
  pub stdio : Bool
  pub stdio_uid : Option ℕ
  pub stdio_comm : Option Text
  pub stdio_all_fds : Bool
  pub stdio_max_bytes : ℕ
  pub duration : Option ℕ
  pub mode : Option ℕ
  pub system : Bool
  pub system_interval : ℕ
  pub http_filter : List Text
  pub disable_auth_removal : Bool
  pub otel : Option OtelConfig
  pub binary_path : Option Text
  pub memwrite : Bool
  pub memwrite_binary_path : Option Text
  pub memwrite_prefix : Option Text
  pub memwrite_rules : Option Text
  pub alert_wecom : Option Text
  pub alert_serverchan : Option Text
  pub alert_base : Option Text
  pub alert_dry_run : Bool
  pub alert_interval_secs : ℕ
  pub db_path : Option Text
  pub quiet : Bool
  pub server : Bool
  pub server_listen : Option Text
  pub server_port : ℕ

-- `for_record`, with `Default` for what it leaves out.
unfoldable pub for_record : (Seed : Type 0) → TraceConfig Seed
for_record Seed = record {
  ssl = true;
  pid = none;
  session_id = none;
  ssl_uid = none;
  comm = none;
  ssl_filter = [];
  ssl_handshake = false;
  ssl_http = true;
  ssl_raw_data = false;
  process = true;
  process_seed_pids = [];
  stdio = false;
  stdio_uid = none;
  stdio_comm = none;
  stdio_all_fds = false;
  stdio_max_bytes = default_record_stdio_max_bytes;
  duration = none;
  mode = none;
  system = true;
  system_interval = 2;
  http_filter = [];
  disable_auth_removal = false;
  otel = none;
  binary_path = none;
  memwrite = false;
  memwrite_binary_path = none;
  memwrite_prefix = none;
  memwrite_rules = none;
  alert_wecom = none;
  alert_serverchan = none;
  alert_base = none;
  alert_dry_run = false;
  alert_interval_secs = 0;
  db_path = none;
  quiet = true;
  server = false;
  server_listen = none;
  server_port = 0;
}

-- `if let Some(n) = option { args.extend([flag, n.to_string()]) }`
abbrev pub number_arg : Text → Option ℕ → List Text
number_arg flag none = []
number_arg flag (some n) = flag ∷ to_string n ∷ []

-- `if let Some(s) = option { args.extend([flag, s.to_string()]) }`
abbrev pub text_arg : Text → Option Text → List Text
text_arg flag none = []
text_arg flag (some s) = flag ∷ s ∷ []

unfoldable pub build_stdio_args : ℕ → Option ℕ → Option Text → Bool → ℕ → List Text
build_stdio_args pid uid comm all_fds max_bytes =
    (codes "-p" ∷ to_string pid ∷ [])
    ++ (number_arg (codes "-u") uid
        ++ (text_arg (codes "-c") comm
            ++ ((if all_fds then codes "--all-fds" ∷ [] else [])
                ++ (codes "--max-bytes" ∷ to_string max_bytes ∷ []))))

module _ {Seed : Type 0} where
  unfoldable pub build_ssl_args : TraceConfig Seed → List Text
  build_ssl_args cfg =
      (if is_none cfg.session_id then number_arg (codes "-p") cfg.pid else [])
      ++ (number_arg (codes "--session") cfg.session_id
          ++ (number_arg (codes "-u") cfg.ssl_uid
              ++ ((if is_none cfg.binary_path then text_arg (codes "-c") cfg.comm else [])
                  ++ ((if cfg.ssl_handshake then codes "--handshake" ∷ [] else [])
                      ++ text_arg (codes "--binary-path") cfg.binary_path))))

  unfoldable pub build_process_args : TraceConfig Seed → List Text
  build_process_args cfg =
      number_arg (codes "-p") cfg.pid
      ++ (number_arg (codes "--session") cfg.session_id
          ++ (text_arg (codes "-c") cfg.comm
              ++ (number_arg (codes "-d") cfg.duration ++ number_arg (codes "-m") cfg.mode)))
