-- ===== src/Pipeline/Tests.antt =====
-- The analyzer and the sink on a concrete memory write.
use memguard_agent.Base.{String, ◌≡◌, refl, true, none, List, [], ◌∷◌}
use memguard_agent.Alert.Sink
use memguard_agent.Alert.Sink.Marked.{after}
use memguard_agent.Alert.Sink.{Channel}
use memguard_agent.Alert.{AlertConfig}
use memguard_agent.Event.{Event, Files}
use memguard_agent.Json.Tree.{text, object, field, end, tree_json}
use memguard_agent.Pipeline.{alert_with, reported, process-process}
use memguard_agent.Poison.Process
use memguard_agent.Poison.Process.{is_mem_write, matched_of}
use memguard_agent.Poison.{PoisonAnalyzer, poison_signatures, scan_windows}
use memguard_agent.Text.Lowercase.Ascii.{ascii_lowercase}
use memguard_agent.Text.{codes, contains}

abbrev analyzer : PoisonAnalyzer
analyzer = record { prefix = codes "ehr"; rules = poison_signatures }

abbrev dry : AlertConfig
dry = record {
  wecom_key = none;
  serverchan_key = none;
  base = none;
  dry_run = true;
  interval_secs = 10;
}

abbrev write : String → Event tree_json
write head = record {
  timestamp = 5;
  source = codes "memwrite";
  pid = 7;
  comm = codes "python3";
  content = object (
      field (codes "event") (text (codes "MEM_WRITE"))
        (field (codes "head") (text (codes head)) end));
}

abbrev no_disk : Files
no_disk path = none

abbrev events : List (Files × Event tree_json)
events = (no_disk, write "a No Validation.") ∷ (no_disk, write "fine") ∷ []

abbrev channel : Channel
channel = record { buffered = []; receiving = true }

one_alert :
    reported tree_json ascii_lowercase analyzer events
    ≡ alert_with tree_json (write "a No Validation.") (codes "no validation" ∷ []) ∷ []
unfolding reported is_mem_write matched_of scan_windows contains
one_alert = refl

process-process_example :
    (Sink.process tree_json dry
      (Process.process tree_json ascii_lowercase analyzer events)
      channel).1
    ≡ after tree_json dry channel (reported tree_json ascii_lowercase analyzer events)
process-process_example =
    process-process tree_json ascii_lowercase analyzer dry channel events (refl, (refl, tt))
