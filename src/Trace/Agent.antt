-- ===== src/Trace/Agent.antt =====
-- overlay/collector/src/cmd_trace.rs: the runners and analyzers that `build_trace_agent_with_view`
-- puts together. An analyzer of another crate stands for itself with the settings that it gets.
use memguard_agent.Base.Result.{Result, ok, err, ◌>>=◌, map_err}
use memguard_agent.Base.{
  ℕ, Bool, true, not, ◌&&◌, ◌||◌, Option, none, some, List, [], ◌∷◌, ◌++◌, map, if◌then◌else◌,
  unwrap_or, is_empty, keep,
}
use memguard_agent.Alert
use memguard_agent.Alert.{AlertConfig}
use memguard_agent.Poison
use memguard_agent.Poison.{PoisonAnalyzer, is_rule}
use memguard_agent.Runner.Binary
use memguard_agent.Runner.Binary.{BinaryRunner, add_analyzer, with_args}
use memguard_agent.Text.{Text, codes, lines, trim}
use memguard_agent.Trace.{
  TraceConfig, OtelConfig, build_stdio_args, build_ssl_args, build_process_args, number_arg,
}

pub data Analyzer : Type 0 where
  timestamp_normalizer : Analyzer
  ssl_filter : List Text → Analyzer
  sse_processor : ℕ → Analyzer
  -- Whether it keeps the raw data.
  http_parser : Bool → Analyzer
  http_decompressor : Analyzer
  http_filter : List Text → Analyzer
  auth_header_remover : Analyzer
  poison : PoisonAnalyzer → Analyzer
  alert_sink : AlertConfig → Analyzer

-- A runner of the agent; those of other crates by what they are given.
pub data TraceRunner (Seed : Type 0) : Type 0 where
  binary : BinaryRunner Analyzer → TraceRunner Seed
  process : Text → List Text → List Seed → List Analyzer → TraceRunner Seed
  system : ℕ → Option Text → Option ℕ → Option ℕ → List Analyzer → TraceRunner Seed

-- A sink of the materializing analyzer.
pub data ViewSink : Type 0 where
  sqlite : Text → ViewSink
  otel : OtelConfig → ViewSink

pub record TraceAgent (Seed : Type 0) : Type 0 where
  pub runners : List (TraceRunner Seed)
  pub view_sinks : List ViewSink

-- What the trace takes from outside: the paths of the bundled probes, the rules file, the database.
pub record Outside : Type 0 where
  pub sslsniff_path : Text
  pub stdiocap_path : Result Text
  pub process_path : Text
  pub read_to_string : Text → Result Text
  pub open_sqlite : Text → Result (Unit {0})

unfoldable pub add_http_analyzers :
    BinaryRunner Analyzer → Bool → List Text → Bool → BinaryRunner Analyzer
unfolding add_analyzer
add_http_analyzers runner include_raw_data filters disable_auth_removal =
    let a = add_analyzer runner (sse_processor 30000) in
    let b = add_analyzer a (http_parser include_raw_data) in
    let c = add_analyzer b http_decompressor in
    let d = add_analyzer c (sse_processor 30000) in
    let e = if not (is_empty filters) then add_analyzer d (http_filter filters) else d in
    if not disable_auth_removal then add_analyzer e auth_header_remover else e

unfoldable pub configure_ssl_runner :
    BinaryRunner Analyzer → List Text → Bool → Bool → List Text → Bool → BinaryRunner Analyzer
unfolding add_analyzer add_http_analyzers
configure_ssl_runner runner filters http raw_data http_filters disable_auth_removal =
    let a = add_analyzer runner timestamp_normalizer in
    let b = if not (is_empty filters) then add_analyzer a (ssl_filter filters) else a in
    if http then add_http_analyzers b raw_data http_filters disable_auth_removal else b

-- The rules of a file's text: `text.lines().map(trim).filter(…)`.
unfoldable pub file_rules : Text → List Text
file_rules text = keep is_rule (map trim (lines text))

-- `if let Some(k) = … { alert_cfg = f(alert_cfg, k) }`
abbrev pub set_if : Option Text → (AlertConfig → Text → AlertConfig) → AlertConfig → AlertConfig
set_if none f c = c
set_if (some k) f c = f c k

module _ (outside : Outside) where
  open outside use {read_to_string, open_sqlite}

  unfoldable pub read_rules : Option Text → Result (List Text)
  unfolding file_rules
  read_rules none = ok []
  read_rules (some path) =
      map_err (λ e. codes "failed to read --memwrite-rules '" ++ (path ++ (codes "': " ++ e)))
        (read_to_string path)
      >>= λ text. ok (file_rules text)

  unfoldable pub database_sinks : Option Text → Result (List ViewSink)
  database_sinks none = ok []
  database_sinks (some path) =
      map_err (λ e. codes "failed to open SQLite database '" ++ (path ++ (codes "': " ++ e)))
        (open_sqlite path)
      >>= λ done. ok (sqlite path ∷ [])

abbrev pub otel_sinks : Option OtelConfig → List ViewSink
otel_sinks none = []
otel_sinks (some config) = otel config ∷ []

module _ {Seed : Type 0} where
  unfoldable pub alert_config : TraceConfig Seed → AlertConfig
  unfolding Alert.new Alert.interval_secs Alert.wecom Alert.serverchan Alert.base Alert.dry_run
  alert_config cfg =
      let c = Alert.interval_secs Alert.new cfg.alert_interval_secs in
      let d = set_if cfg.alert_wecom Alert.wecom c in
      let e = set_if cfg.alert_serverchan Alert.serverchan d in
      let f = set_if cfg.alert_base Alert.base e in
      if cfg.alert_dry_run then Alert.dry_run f true else f

  -- The analyzers of the memwrite runner, once the rules are read.
  unfoldable pub memwrite_runner : TraceConfig Seed → Text → List Text → BinaryRunner Analyzer
  unfolding Binary.memwrite with_args add_analyzer Poison.with_rules Poison.new alert_config
      Alert.enabled
  memwrite_runner cfg bin rules =
      let prefix = unwrap_or cfg.memwrite_prefix (codes "ehragent_memory") in
      let a = with_args (Binary.memwrite Analyzer bin) (codes "--prefix" ∷ prefix ∷ []) in
      let b = add_analyzer a timestamp_normalizer in
      let c = add_analyzer b (poison (Poison.with_rules (Poison.new prefix) rules)) in
      let alerts = alert_config cfg in
      if Alert.enabled alerts then add_analyzer c (alert_sink alerts) else c

  unfoldable pub system_runners : TraceConfig Seed → List (TraceRunner Seed)
  system_runners cfg =
      if cfg.system
      then system cfg.system_interval cfg.comm cfg.pid cfg.session_id (timestamp_normalizer ∷ [])
        ∷ []
      else []

  -- `if !cfg.ssl && … { return Err(…) }`
  unfoldable pub check_enabled : TraceConfig Seed → Result (Unit {0})
  check_enabled cfg =
      if not cfg.ssl && (not cfg.process && (not cfg.stdio && (not cfg.system && not cfg.memwrite)))
      then err (
          codes
            "At least one monitoring type must be enabled (--ssl, --process, --stdio, --system, or --memwrite)")
      else ok tt

  -- `prepare_process_seeds`: `seeds` are those of a snapshot of `/proc`, if it can be taken.
  unfoldable pub prepare_process_seeds :
      (TraceConfig Seed → Result (List Seed)) → TraceConfig Seed → Result (TraceConfig Seed)
  prepare_process_seeds seeds cfg =
      if not cfg.process || not (is_empty cfg.process_seed_pids)
      then ok cfg
      else map_err (λ e. codes "failed to collect /proc snapshot: " ++ e) (seeds cfg) >>= λ found.
          ok (record cfg { process_seed_pids = found })

  module _ (outside : Outside) where
    open outside use {sslsniff_path, stdiocap_path, process_path}

    unfoldable pub ssl_runners : TraceConfig Seed → List (TraceRunner Seed)
    unfolding configure_ssl_runner build_ssl_args Binary.ssl with_args
    ssl_runners cfg =
        let args = build_ssl_args cfg in
        let runner = Binary.ssl Analyzer sslsniff_path in
        let given = if not (is_empty args) then with_args runner args else runner in
        if cfg.ssl
        then binary (
            configure_ssl_runner given cfg.ssl_filter cfg.ssl_http cfg.ssl_raw_data cfg.http_filter
              cfg.disable_auth_removal)
          ∷ []
        else []

    unfoldable pub stdio_runner : TraceConfig Seed → Option ℕ → Result (List (TraceRunner Seed))
    unfolding build_stdio_args Binary.stdio with_args add_analyzer
    stdio_runner cfg none = err (codes "stdio capture currently requires --pid")
    stdio_runner cfg (some pid) = stdiocap_path >>= λ path.
        let args =
          build_stdio_args pid cfg.stdio_uid cfg.stdio_comm cfg.stdio_all_fds cfg.stdio_max_bytes
          ++ number_arg (codes "--session") cfg.session_id in
        ok (
          binary (add_analyzer (with_args (Binary.stdio Analyzer path) args) timestamp_normalizer)
          ∷ [])

    unfoldable pub stdio_runners : TraceConfig Seed → Result (List (TraceRunner Seed))
    unfolding stdio_runner
    stdio_runners cfg = if cfg.stdio then stdio_runner cfg cfg.pid else ok []

    unfoldable pub process_runners : TraceConfig Seed → List (TraceRunner Seed)
    unfolding build_process_args
    process_runners cfg =
        if cfg.process
        then process process_path (build_process_args cfg) cfg.process_seed_pids
            (timestamp_normalizer ∷ [])
          ∷ []
        else []

    unfoldable pub memwrite_of : TraceConfig Seed → Option Text → Result (List (TraceRunner Seed))
    unfolding memwrite_runner read_rules
    memwrite_of cfg none = err (codes "--memwrite requires --memwrite-path")
    memwrite_of cfg (some bin) = read_rules outside cfg.memwrite_rules >>= λ rules.
        ok (binary (memwrite_runner cfg bin rules) ∷ [])

    unfoldable pub memwrite_runners : TraceConfig Seed → Result (List (TraceRunner Seed))
    unfolding memwrite_of
    memwrite_runners cfg = if cfg.memwrite then memwrite_of cfg cfg.memwrite_binary_path else ok []

    unfoldable pub build_trace_agent_with_view : TraceConfig Seed → Result (TraceAgent Seed)
    unfolding ssl_runners stdio_runners process_runners memwrite_runners system_runners
        check_enabled database_sinks
    build_trace_agent_with_view cfg = do
      stdio ← stdio_runners cfg
      memwrite ← memwrite_runners cfg
      checked ← check_enabled cfg
      sinks ← database_sinks outside cfg.db_path
      ok (record {
        runners =
            ssl_runners cfg ++ (stdio ++ (process_runners cfg ++ (memwrite ++ system_runners cfg)));
        view_sinks = sinks ++ otel_sinks cfg.otel;
      })
