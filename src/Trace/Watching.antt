-- ===== src/Trace/Watching.antt =====
-- overlay/collector/src/cmd_trace.rs: what the runner of the memory probe is made of.
use memguard_agent.Base.Result.{Result, ok, err, >>=-eq-ok, map_err}
use memguard_agent.Base.{
  max, ◌≡◌, refl, sym, ◌∙◌, true, ◌||◌, Option, none, some, List, [], ◌∷◌, map, arith,
  if◌then◌else◌, is_some, is_empty, keep, Elem,
}
use memguard_agent.Alert
use memguard_agent.Alert.{AlertConfig}
use memguard_agent.Poison.{poison_signatures, is_rule}
use memguard_agent.Runner.Binary.{BinaryRunner}
use memguard_agent.Text.{Text, codes, lines, trim}
use memguard_agent.Trace.Agent.{
  Analyzer, TraceAgent, Outside, timestamp_normalizer, poison, alert_sink, binary, file_rules,
  read_rules, alert_config, memwrite_runner, build_trace_agent_with_view,
}
use memguard_agent.Trace.Built.{memwrite-Elem}
use memguard_agent.Trace.Memwrite.{prefix_of, rules_of-read_rules, memwrite_runner-analyzers}
use memguard_agent.Trace.{TraceConfig}

map_err-from_ok :
    {A : Type 0} → (f : Text → Text) (r : Result A) (x : A) → map_err f r ≡ ok x → r ≡ ok x
map_err-from_ok f (ok y) x h = h
map_err-from_ok f (err e) x h = cc

module _ {Seed : Type 0} (outside : Outside) (cfg : TraceConfig Seed) where
  -- The lines of the rules file that are rules; none where there is no file.
  abbrev pub IsRulesOf : Option Text → List Text → Type 0
  IsRulesOf none rules = rules ≡ []
  IsRulesOf (some path) rules =
      (text : Text) × (outside.read_to_string path ≡ ok text)
      × (rules ≡ keep is_rule (map trim (lines text)))

  -- The settings of the alert sink, where one is asked for.
  abbrev pub asked_alerts : AlertConfig
  asked_alerts = record {
    wecom_key = cfg.alert_wecom;
    serverchan_key = cfg.alert_serverchan;
    base = cfg.alert_base;
    dry_run = cfg.alert_dry_run;
    interval_secs = max cfg.alert_interval_secs 1;
  }

  abbrev pub asked_sinks : List Analyzer
  asked_sinks =
      if cfg.alert_dry_run || is_some cfg.alert_wecom || is_some cfg.alert_serverchan
      then alert_sink asked_alerts ∷ []
      else []

  -- A runner of the probe: its program, what it is given, how its lines are read, and the analyzers
  -- that its events go through.
  pub record IsWatching (bin : Text) (rules : List Text) (r : BinaryRunner Analyzer) : Type 0 where
    pub program_is : r.executor.binary_path ≡ bin
    pub args_are : r.executor.additional_args ≡ codes "--prefix" ∷ prefix_of cfg ∷ []
    pub source_is : r.source ≡ codes "memwrite"
    pub field_is : r.timestamp_field ≡ codes "timestamp"
    pub analyzers_are :
        r.analyzers
        ≡ timestamp_normalizer
          ∷ poison (record {
            prefix = prefix_of cfg;
            rules = if is_empty rules then poison_signatures else rules;
          })
          ∷ asked_sinks

  read_rules-IsRulesOf :
      (path : Option Text) (rules : List Text)
      → read_rules outside path ≡ ok rules
      → IsRulesOf path rules
  unfolding read_rules file_rules
  read_rules-IsRulesOf none rules h = ground arith
  read_rules-IsRulesOf (some path) rules h =
      let (text, e, last) = >>=-eq-ok _ (λ (text : Text). ok (file_rules text)) h in
      (text, map_err-from_ok _ (outside.read_to_string path) text e, sym (ok-injective last))
    where
      ok-injective : {a b : List Text} → ok a ≡ ok b → a ≡ b
      ok-injective h' = cc

  alert_config-asked : alert_config cfg ≡ asked_alerts
  unfolding alert_config
  alert_config-asked = ground arith

  sinks-asked :
      (if Alert.enabled (alert_config cfg) then alert_sink (alert_config cfg) ∷ [] else [])
      ≡ asked_sinks
  unfolding Alert.enabled
  sinks-asked = rw alert_config-asked refl

  memwrite_runner-IsWatching :
      (bin : Text) (rules : List Text)
      → read_rules outside cfg.memwrite_rules ≡ ok rules
      → IsWatching bin rules (memwrite_runner cfg bin rules)
  unfolding memwrite_runner
  memwrite_runner-IsWatching bin rules h = record {
    program_is = ground arith;
    args_are = ground arith;
    source_is = ground arith;
    field_is = ground arith;
    analyzers_are =
        memwrite_runner-analyzers cfg bin rules
        ∙ rw (rules_of-read_rules cfg outside rules h, sinks-asked) refl;
  }

  -- An agent that is built with memory writes watched has a runner that starts the program at the
  -- configured path with the configured prefix, or the default one; reads its lines with the time in
  -- `timestamp`, as events of `memwrite`; and sends them through the normalizer of their time, the
  -- poison analyzer, with the same prefix and the lines of the rules file that are rules, or the
  -- built-in signatures where no file is given or none of its lines is a rule, and then, exactly if a
  -- dry run or a channel's key is configured, the alert sink with the configured settings, its
  -- interval one second at least.
  pub build_trace_agent-IsWatching :
      (agent : TraceAgent Seed)
      → build_trace_agent_with_view outside cfg ≡ ok agent
      → cfg.memwrite ≡ true
      → (bin : Text) × (rules : List Text) × (r : BinaryRunner Analyzer) × (cfg.memwrite_binary_path
          ≡ some bin)
        × IsRulesOf cfg.memwrite_rules rules
        × IsWatching bin rules r
        × Elem (binary r) agent.runners
  build_trace_agent-IsWatching agent h on =
      let (bin, rules, e, read, there) = memwrite-Elem outside cfg agent h on in
      (
        bin,
        rules,
        memwrite_runner cfg bin rules,
        e,
        read_rules-IsRulesOf cfg.memwrite_rules rules read,
        memwrite_runner-IsWatching bin rules read,
        there,
      )
