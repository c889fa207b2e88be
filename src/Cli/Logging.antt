-- ===== src/Cli/Logging.antt =====
-- overlay/collector/src/main.rs: `init_logging`. `env_logger` is a parameter.
use memguard_agent.Base.{◌≡◌, ◌∙◌, Bool, Option, if◌then◌else◌, if_intro}
use memguard_agent.Text.{Text, codes}

pub data LevelFilter : Type 0 where
  off : LevelFilter
  error : LevelFilter
  warn : LevelFilter
  info : LevelFilter
  debug : LevelFilter
  trace : LevelFilter

-- A builder, made from the value of RUST_LOG. `global` is the level of a module without a filter of
-- its own, which `filter_level` sets and the other methods leave alone.
pub record Builder : Type 1 where
  pub State : Type 0
  pub from_env : Option Text → State
  pub filter_level : LevelFilter → State → State
  pub filter_module : Text → LevelFilter → State → State
  -- `target(Target::Pipe(…))`, with the writer of the diagnostics.
  pub pipe : State → State
  pub global : State → LevelFilter
  pub global-filter_level : (l : LevelFilter) (s : State) → global (filter_level l s) ≡ l
  pub global-filter_module :
      (m : Text) (l : LevelFilter) (s : State) → global (filter_module m l s) ≡ global s
  pub global-pipe : (s : State) → global (pipe s) ≡ global s

module _ (env_logger : Builder) where
  open env_logger use {State, from_env, filter_level, filter_module, pipe, global}

  unfoldable pub init_logging : Option Text → Bool → State
  init_logging rust_log suppress_terminal_output =
      let a = from_env rust_log in
      let b = filter_level warn a in
      let c = filter_module (codes "headless_chrome::browser::transport") error b in
      if suppress_terminal_output then pipe c else c

  -- Whatever RUST_LOG says, a module without a filter of its own logs warnings and errors alone.
  pub global-init_logging :
      (rust_log : Option Text) (suppress : Bool) → global (init_logging rust_log suppress) ≡ warn
  unfolding init_logging
  global-init_logging rust_log suppress =
      if_intro (λ (s : State). global s ≡ warn) suppress _ _
        (λ t. env_logger.global-pipe _ ∙ filtered) (λ f. filtered)
    where
      filtered :
          global (
            filter_module
              (codes "headless_chrome::browser::transport")
              error
              (filter_level warn (from_env rust_log)))
          ≡ warn
      filtered = env_logger.global-filter_module _ error _ ∙ env_logger.global-filter_level warn _
