-- ===== src/Trace/Built.antt =====
-- What an agent that could be built consists of.
use memguard_agent.Base.Result.{Result, ok, err, >>=-eq-ok}
use memguard_agent.Base.{
  ℕ, ◌+◌, ◌<◌, ◌≡◌, refl, sym, ap, ◌∙◌, subst, inl, inr, Bool, true, false, Option, none, some,
  List, [], ◌∷◌, ◌++◌, arith, Bool-cases, length, length-append, Elem, Elem-append_right,
  Elem-append_left,
}
use mathlib.Core.Path.{ap₂}
use memguard_agent.Text.{Text}
use memguard_agent.Trace.Agent.{
  TraceRunner, TraceAgent, Outside, binary, read_rules, ssl_runners, stdio_runners, process_runners,
  memwrite_runner, memwrite_of, memwrite_runners, system_runners, check_enabled, database_sinks,
  build_trace_agent_with_view,
}
use memguard_agent.Trace.{TraceConfig}

abbrev pub one_if : Bool → ℕ
one_if true = 1
one_if false = 0

-- The runners that a configuration asks for.
abbrev pub asked : {Seed : Type 0} → TraceConfig Seed → ℕ
asked cfg =
    one_if cfg.ssl
    + (one_if cfg.stdio + (one_if cfg.process + (one_if cfg.memwrite + one_if cfg.system)))

module _ {Seed : Type 0} (outside : Outside) (cfg : TraceConfig Seed) where
  -- The parts of an agent that was built.
  pub record Parts (agent : TraceAgent Seed) : Type 0 where
    pub stdio : List (TraceRunner Seed)
    pub memwrite : List (TraceRunner Seed)
    pub stdio_is : stdio_runners outside cfg ≡ ok stdio
    pub memwrite_is : memwrite_runners outside cfg ≡ ok memwrite
    enabled : check_enabled cfg ≡ ok tt
    pub runners_are :
        agent.runners
        ≡ ssl_runners outside cfg
          ++ (stdio ++ (process_runners outside cfg ++ (memwrite ++ system_runners cfg)))

  pub Parts-of :
      (agent : TraceAgent Seed) → build_trace_agent_with_view outside cfg ≡ ok agent → Parts agent
  unfolding build_trace_agent_with_view
  Parts-of agent h =
      let (stdio, e, h₁) = >>=-eq-ok (stdio_runners outside cfg) _ h in
      let (memwrite, e', h₂) = >>=-eq-ok (memwrite_runners outside cfg) _ h₁ in
      let (checked, e'', h₃) = >>=-eq-ok (check_enabled cfg) _ h₂ in
      let (sinks, e₄, h₄) = >>=-eq-ok (database_sinks outside cfg.db_path) _ h₃ in
      record {
        stdio = stdio;
        memwrite = memwrite;
        stdio_is = e;
        memwrite_is = e';
        enabled = e'';
        runners_are = sym (ap (λ (r : Result (TraceAgent Seed)). runners_in r) h₄);
      }
    where
      runners_in : Result (TraceAgent Seed) → List (TraceRunner Seed)
      runners_in (ok a) = a.runners
      runners_in (err e) = []

  length-ssl_runners : length (ssl_runners outside cfg) ≡ one_if cfg.ssl
  unfolding ssl_runners
  length-ssl_runners = ground arith

  length-process_runners : length (process_runners outside cfg) ≡ one_if cfg.process
  unfolding process_runners
  length-process_runners = ground arith

  length-system_runners : length (system_runners cfg) ≡ one_if cfg.system
  unfolding system_runners
  length-system_runners = ground arith

  length-stdio_runners :
      (rs : List (TraceRunner Seed))
      → stdio_runners outside cfg ≡ ok rs
      → length rs ≡ one_if cfg.stdio
  unfolding stdio_runners
  length-stdio_runners rs h = ground arith

  pub memwrite_of-ok :
      (path : Option Text) (rs : List (TraceRunner Seed))
      → memwrite_of outside cfg path ≡ ok rs
      → (bin : Text) × (rules : List Text) × (path ≡ some bin)
        × (read_rules outside cfg.memwrite_rules ≡ ok rules)
        × (rs ≡ binary (memwrite_runner cfg bin rules) ∷ [])
  unfolding memwrite_of
  memwrite_of-ok none rs h = cc
  memwrite_of-ok (some bin) rs h =
      let (rules, e, last) =
        >>=-eq-ok (read_rules outside cfg.memwrite_rules)
          (λ (rules : List Text). ok (binary (memwrite_runner cfg bin rules) ∷ [])) h in
      (bin, rules, refl, e, ok-injective (sym last))
    where
      ok-injective : {a b : List (TraceRunner Seed)} → ok a ≡ ok b → a ≡ b
      ok-injective h = cc

  pub memwrite_runners-on :
      (rs : List (TraceRunner Seed))
      → cfg.memwrite ≡ true
      → memwrite_runners outside cfg ≡ ok rs
      → memwrite_of outside cfg cfg.memwrite_binary_path ≡ ok rs
  unfolding memwrite_runners
  memwrite_runners-on rs on h = rw on at h

  pub memwrite_runners-off :
      (rs : List (TraceRunner Seed))
      → cfg.memwrite ≡ false
      → memwrite_runners outside cfg ≡ ok rs
      → rs ≡ []
  unfolding memwrite_runners
  memwrite_runners-off rs off h = nil_of (rw off at h)
    where
      nil_of : ok [] ≡ ok rs → rs ≡ []
      nil_of e = cc

  length-memwrite_runners :
      (rs : List (TraceRunner Seed))
      → memwrite_runners outside cfg ≡ ok rs
      → length rs ≡ one_if cfg.memwrite
  length-memwrite_runners rs h = elim (Bool-cases cfg.memwrite) [
    | inl on ↦
        let (bin, rules, e, e', r) =
          memwrite_of-ok cfg.memwrite_binary_path rs (memwrite_runners-on rs on h) in
        rw on (ap length r)
    | inr off ↦ rw off (ap length (memwrite_runners-off rs off h))
  ]

  check_enabled-asked : check_enabled cfg ≡ ok tt → 0 < asked cfg
  unfolding check_enabled
  check_enabled-asked h = ground arith

  -- An agent that is built has as many runners as are asked for, and at least one.
  pub length-runners :
      (agent : TraceAgent Seed)
      → build_trace_agent_with_view outside cfg ≡ ok agent
      → (length agent.runners ≡ asked cfg) × (0 < length agent.runners)
  length-runners agent h =
      let p = Parts-of agent h in
      let same : length agent.runners ≡ asked cfg =
        ap length p.runners_are
        ∙ length-append (ssl_runners outside cfg) _
        ∙ ap₂ (λ (m n : ℕ). m + n) length-ssl_runners
            (length-append p.stdio _
              ∙ ap₂ (λ (m n : ℕ). m + n) (length-stdio_runners p.stdio p.stdio_is)
                  (length-append (process_runners outside cfg) _
                    ∙ ap₂ (λ (m n : ℕ). m + n) length-process_runners
                        (length-append p.memwrite _
                          ∙ ap₂ (λ (m n : ℕ). m + n)
                              (length-memwrite_runners p.memwrite p.memwrite_is)
                              length-system_runners))) in
      (same, rw same (check_enabled-asked p.enabled))

  -- An agent that is built with memory writes watched has a runner of the probe at the configured
  -- path, with the rules that were read from the rules file, or with none to read.
  pub memwrite-Elem :
      (agent : TraceAgent Seed)
      → build_trace_agent_with_view outside cfg ≡ ok agent
      → cfg.memwrite ≡ true
      → (bin : Text) × (rules : List Text) × (cfg.memwrite_binary_path ≡ some bin)
        × (read_rules outside cfg.memwrite_rules ≡ ok rules)
        × Elem (binary (memwrite_runner cfg bin rules)) agent.runners
  memwrite-Elem agent h on =
      let p = Parts-of agent h in
      let (bin, rules, e, e', r) =
        memwrite_of-ok cfg.memwrite_binary_path p.memwrite
          (memwrite_runners-on p.memwrite on p.memwrite_is) in
      let runner = binary (memwrite_runner cfg bin rules) in
      (
        bin,
        rules,
        e,
        e',
        subst (Elem runner) (sym p.runners_are) (
            Elem-append_right runner (ssl_runners outside cfg) _ (
              Elem-append_right runner p.stdio _ (
                Elem-append_right runner (process_runners outside cfg) _ (
                  Elem-append_left runner p.memwrite _ (subst (Elem runner) (sym r) (inl refl)))))),
      )
