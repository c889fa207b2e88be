-- ===== src/Trace/Memwrite.antt =====
-- The memwrite runner: its rules and its alerts.
use memguard_agent.Base.Result.{ok, >>=-eq-ok}
use memguard_agent.Base.{
  max, ◌≡◌, subst, ◌||◌, Option, none, some, List, [], ◌∷◌, arith, if◌then◌else◌, is_some,
  unwrap_or, is_empty,
}
use memguard_agent.Alert
use memguard_agent.Alert.{AlertConfig}
use memguard_agent.Poison
use memguard_agent.Poison.Rules.{cleaned, cleaned-cleaned, with_rules_clean}
use memguard_agent.Poison.{PoisonAnalyzer, poison_signatures, is_rule}
use memguard_agent.Text.{Text, codes, lines}
use memguard_agent.Trace.Agent.{
  timestamp_normalizer, poison, alert_sink, Outside, file_rules, read_rules, alert_config,
  memwrite_runner,
}
use memguard_agent.Trace.{TraceConfig}

-- The rules of a file are clean.
cleaned-read_rules :
    (outside : Outside) (path : Option Text) (rules : List Text)
    → read_rules outside path ≡ ok rules
    → cleaned rules ≡ rules
unfolding read_rules
cleaned-read_rules outside none rules h = ground arith
cleaned-read_rules outside (some path) rules h =
    let (text, e, last) = >>=-eq-ok _ (λ (text : Text). ok (file_rules text)) h in
    subst (λ (rs : List Text). cleaned rs ≡ rs) (ok-injective last) (cleaned-cleaned (lines text))
  where
    ok-injective : {a b : List Text} → ok a ≡ ok b → a ≡ b
    ok-injective h = cc

module _ {Seed : Type 0} (cfg : TraceConfig Seed) where
  -- Alerts are on exactly when a dry run or a channel's key is asked for, the alert sink keeps
  -- those settings and the base URL, and its interval is the configured one, one second at least.
  pub alert_config_lem :
      (Alert.enabled (alert_config cfg)
        ≡ (cfg.alert_dry_run || is_some cfg.alert_wecom || is_some cfg.alert_serverchan))
      × ((alert_config cfg).dry_run ≡ cfg.alert_dry_run)
      × ((alert_config cfg).wecom_key ≡ cfg.alert_wecom)
      × ((alert_config cfg).serverchan_key ≡ cfg.alert_serverchan)
      × ((alert_config cfg).base ≡ cfg.alert_base)
      × ((alert_config cfg).interval_secs ≡ max cfg.alert_interval_secs 1)
  unfolding alert_config Alert.enabled
  alert_config_lem =
      (ground arith, ground arith, ground arith, ground arith, ground arith, ground arith)

  abbrev pub prefix_of : Text
  prefix_of = unwrap_or cfg.memwrite_prefix (codes "ehragent_memory")

  -- The signatures that the runner's analyzer holds for a rules file that was read.
  abbrev pub rules_of : List Text → List Text
  rules_of rules = (Poison.with_rules (Poison.new prefix_of) rules).rules

  -- The rules of a file that was read are cleaned once more, which changes nothing: the analyzer
  -- holds the file's rules, or the built-in signatures where the file has none or none is given.
  pub rules_of-read_rules :
      (outside : Outside) (rules : List Text)
      → read_rules outside cfg.memwrite_rules ≡ ok rules
      → rules_of rules ≡ (if is_empty rules then poison_signatures else rules)
  unfolding Poison.new
  rules_of-read_rules outside rules h =
      with_rules_clean (Poison.new prefix_of) rules
        (cleaned-read_rules outside cfg.memwrite_rules rules h)

  -- Every event of the probe goes through the normalizer of its time, the poison analyzer with the
  -- configured prefix and rules, and, where alerts are on, the alert sink, in this order.
  pub memwrite_runner-analyzers :
      (bin : Text) (rules : List Text)
      → (memwrite_runner cfg bin rules).analyzers
        ≡ timestamp_normalizer
          ∷ poison (record { prefix = prefix_of; rules = rules_of rules })
          ∷ (if Alert.enabled (alert_config cfg) then alert_sink (alert_config cfg) ∷ [] else [])
  unfolding memwrite_runner Poison.with_rules Poison.new
  memwrite_runner-analyzers bin rules = ground arith
