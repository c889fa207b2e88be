-- ===== src/Trace/Chain/Found.antt =====
-- The memwrite runner of an agent that was built, and what goes through it.
use memguard_agent.Base.Result.{ok, >>=-eq-ok}
use memguard_agent.Base.{
  ℕ, ◌≡◌, sym, ap, ◌∙◌, subst, ◌≢◌, inl, inr, Bool, not, Option, none, some, List, [], ◌∷◌, ◌++◌,
  arith, if◌then◌else◌, if_intro, Bool-cases, is_empty, All, Elem,
}
use memguard_agent.Runner.Binary
use memguard_agent.Runner.Binary.{BinaryRunner, process_through_analyzers, with_args, add_analyzer}
use memguard_agent.Text.{Text, codes}
use memguard_agent.Trace.Agent.{
  Analyzer, memwrite_runner, TraceRunner, process, system, TraceAgent, Outside, binary, read_rules,
  ssl_runners, stdio_runners, stdio_runner, process_runners, system_runners, configure_ssl_runner,
  add_http_analyzers, build_trace_agent_with_view,
}
use memguard_agent.Trace.Built.{Parts-of, memwrite_of-ok, memwrite_runners-on, memwrite_runners-off}
use memguard_agent.Trace.{TraceConfig, build_ssl_args}

module _ {Seed : Type 0} where
  abbrev source_of : TraceRunner Seed → Option Text
  source_of (binary r) = some r.source
  source_of (process path args seeds analyzers) = none
  source_of (system interval comm pid session analyzers) = none

  -- The runners of a list read other probes' output.
  abbrev IsElsewhere : List (TraceRunner Seed) → Type 0
  IsElsewhere = All λ r. source_of r ≢ some (codes "memwrite")

  IsElsewhere-Elem :
      (r : BinaryRunner Analyzer) (rs : List (TraceRunner Seed))
      → r.source ≡ codes "memwrite"
      → IsElsewhere rs
      → ¬ (Elem (binary r) rs)
  IsElsewhere-Elem r [] from h m = elim m [ ]
  IsElsewhere-Elem r (x ∷ xs) from h (inl e) = h.0 (sym (ap source_of e) ∙ ap some from)
  IsElsewhere-Elem r (x ∷ xs) from h (inr m) = IsElsewhere-Elem r xs from h.1 m

source-add_http_analyzers :
    (r : BinaryRunner Analyzer) (raw : Bool) (filters : List Text) (keep_auth : Bool)
    → (add_http_analyzers r raw filters keep_auth).source ≡ r.source
unfolding add_http_analyzers add_analyzer
source-add_http_analyzers r raw filters keep_auth = ground arith

source-configure_ssl_runner :
    (r : BinaryRunner Analyzer) (filters : List Text) (http raw : Bool) (http_filters : List Text)
    (keep_auth : Bool)
    → (configure_ssl_runner r filters http raw http_filters keep_auth).source ≡ r.source
unfolding configure_ssl_runner add_analyzer
source-configure_ssl_runner r filters http raw http_filters keep_auth = elim (Bool-cases http) [
  | inl on ↦ rw (on, source-add_http_analyzers) (ground arith)
  | inr off ↦ rw off (ground arith)
]

module _ {Seed : Type 0} (outside : Outside) (cfg : TraceConfig Seed) where
  ssl_runners-IsElsewhere : IsElsewhere (ssl_runners outside cfg)
  unfolding ssl_runners Binary.ssl Binary.new with_args
  ssl_runners-IsElsewhere =
      let given : (if not (is_empty (build_ssl_args cfg))
            then with_args (Binary.ssl Analyzer outside.sslsniff_path) (build_ssl_args cfg)
            else Binary.ssl Analyzer outside.sslsniff_path).source
          ≡ codes "ssl" =
        ground arith in
      if_intro IsElsewhere cfg.ssl _ []
        (λ on. (
          λ e. cc (
            source-configure_ssl_runner
                (if not (is_empty (build_ssl_args cfg))
                  then with_args (Binary.ssl Analyzer outside.sslsniff_path) (build_ssl_args cfg)
                  else Binary.ssl Analyzer outside.sslsniff_path)
                cfg.ssl_filter cfg.ssl_http cfg.ssl_raw_data cfg.http_filter
                cfg.disable_auth_removal,
            given,
            e,
          ),
          tt,
        ))
        (λ off. tt)

  ok-injective : {a b : List (TraceRunner Seed)} → ok a ≡ ok b → a ≡ b
  ok-injective h = cc

  stdio_runner-IsElsewhere :
      (pid : Option ℕ) (rs : List (TraceRunner Seed))
      → stdio_runner outside cfg pid ≡ ok rs
      → IsElsewhere rs
  unfolding stdio_runner Binary.stdio Binary.new with_args add_analyzer
  stdio_runner-IsElsewhere none rs h = cc
  stdio_runner-IsElsewhere (some pid) rs h =
      let (path, e, last) = >>=-eq-ok outside.stdiocap_path _ h in
      subst IsElsewhere (ok-injective last) (λ e'. cc, tt)

  stdio_runners-IsElsewhere :
      (rs : List (TraceRunner Seed)) → stdio_runners outside cfg ≡ ok rs → IsElsewhere rs
  unfolding stdio_runners
  stdio_runners-IsElsewhere rs h = elim (Bool-cases cfg.stdio) [
    | inl on ↦ stdio_runner-IsElsewhere cfg.pid rs (rw on at h)
    | inr off ↦ subst IsElsewhere (ok-injective (rw off at h)) tt
  ]

  process_runners-IsElsewhere : IsElsewhere (process_runners outside cfg)
  unfolding process_runners
  process_runners-IsElsewhere =
      if_intro IsElsewhere cfg.process _ [] (λ on. (λ e. cc, tt)) (λ off. tt)

  system_runners-IsElsewhere : IsElsewhere (system_runners cfg)
  unfolding system_runners
  system_runners-IsElsewhere =
      if_intro IsElsewhere cfg.system _ [] (λ on. (λ e. cc, tt)) (λ off. tt)

  -- A runner of a built agent that reads the memory probe is the one that the configuration asks
  -- for, at the configured path and with the rules that were read.
  pub memwrite_runner-found :
      (agent : TraceAgent Seed) (r : BinaryRunner Analyzer)
      → build_trace_agent_with_view outside cfg ≡ ok agent
      → Elem (binary r) agent.runners
      → r.source ≡ codes "memwrite"
      → (bin : Text) × (rules : List Text) × (cfg.memwrite_binary_path ≡ some bin)
        × (read_rules outside cfg.memwrite_rules ≡ ok rules)
        × (r ≡ memwrite_runner cfg bin rules)
  memwrite_runner-found agent r built m from =
      let p = Parts-of outside cfg agent built in
      let all = subst (Elem (binary r)) p.runners_are m in
      let a = without (ssl_runners outside cfg) _ ssl_runners-IsElsewhere all in
      let b = without p.stdio _ (stdio_runners-IsElsewhere p.stdio p.stdio_is) a in
      let c = without (process_runners outside cfg) _ process_runners-IsElsewhere b in
      let d = within p.memwrite (system_runners cfg) system_runners-IsElsewhere c in
      elim (Bool-cases cfg.memwrite) [
        | inl on ↦
            let (bin, rules, e, e', is) =
              memwrite_of-ok outside cfg cfg.memwrite_binary_path p.memwrite
                (memwrite_runners-on outside cfg p.memwrite on p.memwrite_is) in
            (bin, rules, e, e', only (memwrite_runner cfg bin rules) (subst (Elem (binary r)) is d))
        | inr off ↦ absurd (
            subst (Elem (binary r)) (memwrite_runners-off outside cfg p.memwrite off p.memwrite_is)
              d)
      ]
    where
      without :
          (xs ys : List (TraceRunner Seed))
          → IsElsewhere xs
          → Elem (binary r) (xs ++ ys)
          → Elem (binary r) ys
      without [] ys h m' = m'
      without (x ∷ xs) ys h (inl e) = absurd (IsElsewhere-Elem r (x ∷ xs) from h (inl e))
      without (x ∷ xs) ys h (inr m') = without xs ys h.1 m'

      within :
          (xs ys : List (TraceRunner Seed))
          → IsElsewhere ys
          → Elem (binary r) (xs ++ ys)
          → Elem (binary r) xs
      within [] ys h m' = absurd (IsElsewhere-Elem r ys from h m')
      within (x ∷ xs) ys h (inl e) = inl e
      within (x ∷ xs) ys h (inr m') = inr (within xs ys h m')

      binary-injective :
          (x y : BinaryRunner Analyzer) → ◌≡◌ {A = TraceRunner Seed} (binary x) (binary y) → x ≡ y
      binary-injective x y e = cc

      only :
          (x : BinaryRunner Analyzer)
          → Elem {A = TraceRunner Seed} (binary r) (binary x ∷ [])
          → r ≡ x
      only x (inl e) = binary-injective r x e
      only x (inr m') = elim m' [ ]

  memwrite_runner-field :
      (bin : Text) (rules : List Text)
      → (memwrite_runner cfg bin rules).timestamp_field ≡ codes "timestamp"
  unfolding memwrite_runner Binary.memwrite Binary.new with_args add_analyzer
  memwrite_runner-field bin rules = ground arith

  -- Its times are read from the probe's field.
  pub memwrite_runner-found_field :
      (agent : TraceAgent Seed) (r : BinaryRunner Analyzer)
      → build_trace_agent_with_view outside cfg ≡ ok agent
      → Elem (binary r) agent.runners
      → r.source ≡ codes "memwrite"
      → r.timestamp_field ≡ codes "timestamp"
  memwrite_runner-found_field agent r built m from =
      let (bin, rules, _, _, is) = memwrite_runner-found agent r built m from in
      ap (λ (x : BinaryRunner Analyzer). x.timestamp_field) is ∙ memwrite_runner-field bin rules
