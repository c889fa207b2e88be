-- ===== src/Trace/Tests.antt =====
-- A trace with concrete settings, and its theorems at them.
use memguard_agent.Base.{ℕ, ◌≡◌, refl, Bool, true, false, Option, none, some, List, [], ◌∷◌, Elem}
use memguard_agent.Base.Result.{Result, ok, err}
use memguard_agent.Event.{Event}
use memguard_agent.Json.Tree.{Tree, object, end, tree_json}
use memguard_agent.Runner.{runner_error_from_event}
use memguard_agent.Text.{contains, Text, codes, trim}
use memguard_agent.Trace.Agent.{
  Analyzer, Outside, TraceAgent, binary, read_rules, build_trace_agent_with_view,
}
use memguard_agent.Runner.Binary.{BinaryRunner}
use memguard_agent.Trace.Watching.{IsRulesOf, IsWatching, build_trace_agent-IsWatching}
use memguard_agent.Trace.Drive.{next, no_next, cancelled}
use memguard_agent.Trace.Server.Reach.{Reached, start_web_server-Reached}
use memguard_agent.Trace.Server.{
  Web, start_web_server_if_enabled, start_web_server_silent_if_enabled,
}
use memguard_agent.Trace.Session.Binary.{chosen, prepare-chosen}
use memguard_agent.Trace.Session.Ends.{Completed, run_trace-Completed}
use memguard_agent.Trace.Session.Silent.{SilentlyCompleted, run_trace_silent-Completed}
use memguard_agent.Trace.Session.{run_trace_silent_until_cancel, Resolvers, prepare, run_trace}
use memguard_agent.Text.Decimal.{to_string}
use memguard_agent.Trace.{TraceConfig, for_record, build_ssl_args}

abbrev cfg : TraceConfig ℕ
cfg = record (for_record ℕ) {
  comm = some (codes "claude");
  memwrite = true;
  memwrite_binary_path = some (codes "/opt/memwrite");
  memwrite_rules = some (codes "rules.txt");
  alert_dry_run = true;
}

abbrev outside : Outside
outside = record {
  sslsniff_path = codes "/opt/sslsniff";
  stdiocap_path = err (codes "none");
  process_path = codes "/opt/process";
  read_to_string = λ path. ok (codes "# note\n  Two Words \n");
  open_sqlite = λ path. ok tt;
}

abbrev agent_of : Result (TraceAgent ℕ) → TraceAgent ℕ
agent_of (ok a) = a
agent_of (err e) = record { runners = []; view_sinks = [] }

abbrev agent : TraceAgent ℕ
agent = agent_of (build_trace_agent_with_view outside cfg)

abbrev event : Tree → Event tree_json
event content = record {
  timestamp = 1;
  source = codes "ssl";
  pid = 2;
  comm = codes "claude";
  content = content;
}

abbrev fine : Event tree_json
fine = event (object end)

args_of : build_ssl_args cfg ≡ codes "-c" ∷ codes "claude" ∷ []
unfolding build_ssl_args for_record
args_of = refl

build_trace_agent-IsWatching_example :
    (bin : Text) × (rules : List Text) × (r : BinaryRunner Analyzer) × (cfg.memwrite_binary_path
      ≡ some bin)
    × IsRulesOf outside cfg cfg.memwrite_rules rules
    × IsWatching outside cfg bin rules r
    × Elem (binary r) agent.runners
unfolding build_trace_agent_with_view for_record read_rules
build_trace_agent-IsWatching_example = build_trace_agent-IsWatching outside cfg agent refl refl

-- A server that any address parses to, and that is its database and whether it serves a live host.
abbrev web : Web
web = record {
  Addr = Text;
  Server = Option Text × Bool;
  parse = λ s. ok s;
  new_with_db_path = λ db. ok (db, false);
  with_live_host = λ s. (s.0, true);
  is_finished = λ s a. false;
}

announced :
    start_web_server_if_enabled web true (codes " 0.0.0.0 ") 80 (some (codes "x.db"))
    ≡ ok (
        some (record {
          url = codes "http://127.0.0.1:80/";
          server = (some (codes "x.db"), false);
          addr = codes "0.0.0.0:80";
        }))
unfolding start_web_server_if_enabled trim to_string
announced = refl

-- The address of all interfaces is announced as it is given, where it is in brackets.
announced_any :
    start_web_server_if_enabled web true (codes "[::]") 80 none
    ≡ ok (
        some
          (record { url = codes "http://[::]:80/"; server = (none, true); addr = codes "[::]:80" }))
unfolding start_web_server_if_enabled trim to_string
announced_any = refl

start_web_server-Reached_example :
    Reached web [] 80 none true (start_web_server_if_enabled web true [] 80 none)
    × Reached web [] 80 none true (start_web_server_silent_if_enabled web true [] 80 none)
start_web_server-Reached_example = start_web_server-Reached web true [] 80 none

-- A system with one binary that embeds TLS and no process of an agent.
abbrev resolvers : Resolvers ℕ
resolvers = record {
  container_binary = λ path. ok none;
  binary_path_for_ssl = λ comm. ok (some (codes "/usr/bin/node"));
  seeds = λ cfg. ok [];
}

abbrev prepared : TraceConfig ℕ
prepared = record cfg { binary_path = some (codes "/usr/bin/node") }

prepare-chosen_example :
    (resolved : Option (Text × Text)) × (resolvers.container_binary cfg.binary_path ≡ ok resolved)
    × (prepared ≡ record cfg {
      binary_path = chosen resolvers cfg resolved;
      process_seed_pids = prepared.process_seed_pids;
    })
unfolding prepare for_record contains
prepare-chosen_example = prepare-chosen resolvers cfg prepared refl

run_trace-Completed_example :
    Completed tree_json resolvers web outside (λ a. ok (next fine ∷ no_next ∷ [])) cfg
unfolding run_trace for_record read_rules runner_error_from_event contains
run_trace-Completed_example =
    run_trace-Completed tree_json resolvers web outside (λ a. ok (next fine ∷ no_next ∷ [])) cfg
      refl

run_trace_silent-Completed_example :
    SilentlyCompleted tree_json resolvers web outside
      (λ a. ok (next fine ∷ cancelled ∷ []))
      cfg
      none
unfolding run_trace_silent_until_cancel for_record read_rules runner_error_from_event contains
run_trace_silent-Completed_example =
    run_trace_silent-Completed tree_json resolvers web outside
      (λ a. ok (next fine ∷ cancelled ∷ [])) cfg none refl
