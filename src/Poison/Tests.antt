-- ===== src/Poison/Tests.antt =====
-- The analyzer on concrete events, and its theorems at them.
use memguard_agent.Base.{
  String, ◌≡◌, refl, ◌↔◌, ◌⊎◌, inl, inr, true, none, some, List, [], ◌∷◌, ◌++◌, arith, Elem,
}
use memguard_agent.Event.{Event, Files}
use memguard_agent.Json.Tree.{text, number, object, field, end, tree_json}
use std.Equiv.{IsContr}
use memguard_agent.Poison.Bag.{Bag, of_list, found, found_of_bag}
use memguard_agent.Poison.Detect.{windows_of, windows_hide_file}
use memguard_agent.Poison.Passes.{Passes, process-Passes}
use memguard_agent.Poison.Process.{is_mem_write, matched_of, process_event, process}
use memguard_agent.Poison.Range.{scan_bytes-written, found_in, written}
use memguard_agent.Poison.Reports.{Reports, Reports-in_window, Reports-in_file}
use memguard_agent.Poison.Rules.{with_rules-Elem}
use memguard_agent.Poison.Severity.{replicate, repeated_rule_critical}
use memguard_agent.Poison.Sound.{FilesFit, HeldByFile, matched_of-Elem}
use memguard_agent.Poison.{
  PoisonAnalyzer, new, with_rules, is_rule, poison_signatures, severity, scan_windows, scan_bytes,
  scan_file_range, window_hit,
}
use memguard_agent.Text.Lowercase.Ascii.{ascii_lowercase}
use memguard_agent.Text.Utf8.{as_bytes, encode_char, from_utf8_lossy}
use memguard_agent.Text.{Text, Bytes, codes, is_whitespace, trim, contains, split}

abbrev analyzer : PoisonAnalyzer
analyzer = record { prefix = codes "ehr"; rules = poison_signatures }

abbrev write : String → String → Event tree_json
write head tail = record {
  timestamp = 5;
  source = codes "memwrite";
  pid = 7;
  comm = codes "python3";
  content = object (
      field (codes "event") (text (codes "MEM_WRITE")) (
        field (codes "head") (text (codes head)) (
          field (codes "tail") (text (codes tail)) (
            field (codes "path") (text (codes "/tmp/ehr.db"))
              (field (codes "offset") (number 2) (field (codes "count") (number 20) end))))));
}

abbrev page : Bytes
page = as_bytes (codes "abcde") ++ (as_bytes (codes "Auto Import") ++ as_bytes (codes "xyzabc"))

abbrev disk : Files
disk path = some page

abbrev no_disk : Files
no_disk path = none

new_rules : (new (codes "ehr")).rules ≡ poison_signatures
unfolding new
new_rules = refl

seen_in_tail :
    matched_of tree_json ascii_lowercase analyzer no_disk (write "x" "No Validation, 免验证")
    ≡ codes "免验证" ∷ codes "no validation" ∷ []
unfolding matched_of scan_windows contains
seen_in_tail = refl

seen_in_file :
    matched_of tree_json ascii_lowercase analyzer disk (write "x" "y") ≡ codes "auto import" ∷ []
unfolding matched_of scan_windows scan_file_range contains from_utf8_lossy as_bytes encode_char
    split
seen_in_file = refl

trimmed_rules :
    (with_rules analyzer (codes "# note" ∷ codes "  Two Words " ∷ codes "" ∷ [])).rules
    ≡ codes "Two Words" ∷ []
unfolding with_rules trim
trimmed_rules = refl

process-Passes_example : Passes tree_json ((disk, write "x" "y") ∷ (no_disk, write "a" "b") ∷ []) (
    process tree_json ascii_lowercase analyzer
      ((disk, write "x" "y") ∷ (no_disk, write "a" "b") ∷ []))
process-Passes_example =
    process-Passes tree_json ascii_lowercase analyzer
      ((disk, write "x" "y") ∷ (no_disk, write "a" "b") ∷ [])

Reports-in_window_example :
    (matched : List Text) × Reports tree_json ascii_lowercase analyzer no_disk
      (write "a No Validation." "y")
      matched
    × Elem (codes "no validation") matched
unfolding is_mem_write
Reports-in_window_example =
    Reports-in_window tree_json ascii_lowercase analyzer no_disk (write "a No Validation." "y") refl
      refl (codes "No Validation") (codes "no validation") (omega arith) (omega arith) refl
      (inr (inr (inr (inr (inr (inr (inr (inr (inr (inr (inr (inl refl)))))))))))) (codes "a ")
      (codes ".") (inl refl)

Reports-in_file_example :
    (matched : List Text) × Reports tree_json ascii_lowercase analyzer disk (write "x" "y") matched
    × (windows_of tree_json ascii_lowercase analyzer (write "x" "y") ≡ []
        → Elem (codes "auto import") matched)
unfolding is_mem_write as_bytes encode_char split contains
Reports-in_file_example =
    Reports-in_file tree_json ascii_lowercase analyzer disk (write "x" "y") refl refl
      (codes "Auto Import") (codes "auto import") (omega arith) (omega arith) refl
      (inr (inr (inr (inr (inr (inr (inr (inr (inr (inr (inr (inr (inr (inl refl))))))))))))))
      (codes "/tmp/ehr.db") 2 20 (as_bytes (codes "abcde")) (as_bytes (codes "xyzabc")) refl refl
      refl refl refl (omega arith) (omega arith) (omega arith) (λ e. cc)

no_disk_fits : FilesFit no_disk
no_disk_fits path bytes e = cc

matched_of-Elem_example :
    Elem (codes "no validation") poison_signatures
    × ((window_hit ascii_lowercase
            (some (codes "a no validation"))
            (some (codes "y"))
            (codes "no validation")
          ≡ true)
        ⊎ HeldByFile tree_json ascii_lowercase analyzer no_disk no_disk_fits
            (codes "no validation")
            (some (codes "/tmp/ehr.db"))
            (some 2)
            (some 20))
unfolding matched_of scan_windows contains
matched_of-Elem_example =
    matched_of-Elem tree_json ascii_lowercase analyzer no_disk no_disk_fits (codes "no validation")
      (write "a no validation" "y") (inl refl)

windows_hide_file_example :
    process_event tree_json ascii_lowercase analyzer disk (write "no validation" "y")
    ≡ process_event tree_json ascii_lowercase analyzer no_disk (write "no validation" "y")
unfolding scan_windows contains
windows_hide_file_example =
    windows_hide_file tree_json ascii_lowercase analyzer disk no_disk (write "no validation" "y")
      (λ e. cc)

scan_bytes-written_example :
    scan_bytes ascii_lowercase page 2 20 poison_signatures
    ≡ found_in ascii_lowercase (written page 2 20) poison_signatures
unfolding as_bytes encode_char
scan_bytes-written_example =
    scan_bytes-written ascii_lowercase page 2 20 poison_signatures (omega arith)

-- A `#` behind a signature starts no comment.
with_rules-Elem_example :
    Elem (codes "ab # note") (with_rules analyzer (codes " ab # note" ∷ [])).rules ↔ (
      (l : Text) × Elem l (codes " ab # note" ∷ [])
      × (trim l ≡ codes "ab # note")
      × (is_rule (codes "ab # note") ≡ true))
unfolding trim
with_rules-Elem_example =
    with_rules-Elem analyzer (codes " ab # note" ∷ []) (codes " ab # note") (codes "ab # note")
      (inl refl) refl

repeated_rule_critical_example :
    severity (
      scan_windows ascii_lowercase
        (some (codes "a bc"))
        none
        (with_rules analyzer (replicate 3 (codes "bc"))).rules)
    ≡ codes "CRITICAL"
unfolding is_whitespace contains
repeated_rule_critical_example =
    repeated_rule_critical ascii_lowercase analyzer (some (codes "a bc")) none (codes "bc") 3
      (omega arith) ((refl, refl), refl) refl

found_of_bag_example : IsContr (
    (g : Bag → Bag × Text) × ((rules : List Text)
      → g (of_list rules)
        ≡ found ascii_lowercase tree_json (codes "ehr") disk (write "x" "y") rules))
found_of_bag_example = found_of_bag ascii_lowercase tree_json (codes "ehr") disk (write "x" "y")
