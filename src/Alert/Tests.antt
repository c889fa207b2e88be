-- ===== src/Alert/Tests.antt =====
-- The alert sink on concrete alerts, and its theorems at them.
use memguard_agent.Base.{
  ◌≤◌, String, ◌≡◌, refl, ap, inl, inr, true, false, not, Option, none, some, [], ◌∷◌, ◌++◌, map,
  arith, is_none, length, All,
}
use memguard_agent.Base.Int.{ℤ}
use memguard_agent.Alert.Flusher.{send, tick, recv, start, run_flusher}
use memguard_agent.Alert.Flusher.Delivery.{concat, taken}
use memguard_agent.Alert.Flusher.Liveness.{recvs, tick_pushes_all}
use memguard_agent.Alert.Flusher.Mailbox.{Reach, mailbox_of, run_flusher-Reach}
use memguard_agent.Alert.Message.Lines.{IsOneLine, split-build_body, newline_in_comm_splits}
use memguard_agent.Alert.Message.{alert_line, build_body, build_title}
use memguard_agent.Alert.Send.Delivered.{HttpConnector, delivered, delivered-flush_alerts}
use memguard_agent.Alert.Send.Targets.{
  goes_to, StaysUnder, flush_alerts_dry_run, flush_alerts-StaysUnder,
}
use memguard_agent.Alert.Send.{Http, flush_alerts}
use memguard_agent.Alert.Url.Decode.{percent_decode, from_utf8_lossy-percent_decode-urlencode}
use memguard_agent.Alert.Url.{urlencode, is_unreserved}
use memguard_agent.Alert.{Alert, AlertConfig, new, wecom, enabled}
use memguard_agent.Json.Tree.{tree_json}
use memguard_agent.Text.Decimal.{to_string}
use memguard_agent.Text.Utf8.{as_bytes, encode_char, from_utf8_lossy}
use memguard_agent.Text.Split.{Lacks}
use memguard_agent.Text.{starts_with, Text, codes, split}

abbrev dry : AlertConfig
dry = record {
  wecom_key = none;
  serverchan_key = none;
  base = none;
  dry_run = true;
  interval_secs = 10;
}

abbrev live : AlertConfig
live = record {
  wecom_key = some (codes "k1");
  serverchan_key = some (codes "k2");
  base = some (codes "http://h/");
  dry_run = false;
  interval_secs = 10;
}

abbrev alert_by : String → Alert
alert_by comm = record {
  ts_ms = 5;
  severity = codes "HIGH";
  pid = 7;
  comm = codes comm;
  file = codes "/m";
  signatures = codes "免验证";
}

abbrev no_clock : ℤ → Option Text
no_clock t = none

abbrev http : Http tree_json
http = record { to_vec = λ v. some (b'{' ∷ b'}' ∷ []); is_uri = λ u. true }

built : enabled (wecom new (codes "k")) ≡ true
unfolding enabled wecom new
built = refl

title : build_title (alert_by "a" ∷ alert_by "b" ∷ []) ≡ codes "MemGuard 告警 2条 「记忆库写入×2」"
unfolding build_title to_string
title = refl

encoded : urlencode (codes "a &é") ≡ codes "a%20%26%C3%A9"
unfolding urlencode as_bytes is_unreserved encode_char
encoded = refl

tick_pushes_all_example :
    concat
      (run_flusher dry
        (run_flusher dry start (send (alert_by "a") ∷ []))
        (recvs 1 ++ (tick ∷ []))).flushed
    ≡ taken (run_flusher dry start (send (alert_by "a") ∷ []))
unfolding enabled run_flusher
tick_pushes_all_example =
    tick_pushes_all dry (run_flusher dry start (send (alert_by "a") ∷ [])) refl refl

flush_alerts_dry_run_example :
    All
      (λ p. is_none (goes_to p) ≡ true)
      (flush_alerts tree_json http no_clock dry (alert_by "a" ∷ []))
flush_alerts_dry_run_example = flush_alerts_dry_run tree_json http no_clock dry (alert_by "a" ∷ [])

flush_alerts-StaysUnder_example :
    All
      (StaysUnder (codes "http://h"))
      (flush_alerts tree_json http no_clock live (alert_by "a" ∷ []))
flush_alerts-StaysUnder_example =
    flush_alerts-StaysUnder tree_json http no_clock live (alert_by "a" ∷ []) (codes "http://h")
      (codes "/") refl (refl, tt) refl

from_utf8_lossy-percent_decode-urlencode_example :
    from_utf8_lossy (percent_decode (urlencode (codes "a &é"))) ≡ codes "a &é"
from_utf8_lossy-percent_decode-urlencode_example =
    from_utf8_lossy-percent_decode-urlencode (codes "a &é") (ground arith)

one_line : (comm : String) → Lacks b'\n' (codes comm) → IsOneLine no_clock (alert_by comm)
one_line comm h = record {
  severity_line = (omega arith);
  comm_line = h;
  file_line = (omega arith);
  signatures_line = (omega arith);
}

split-build_body_example :
    split b'\n' (build_body no_clock (alert_by "a" ∷ alert_by "b" ∷ []))
    ≡ map (alert_line no_clock) (alert_by "a" ∷ alert_by "b" ∷ [])
split-build_body_example =
    split-build_body no_clock (λ t s e. cc) (alert_by "a") (alert_by "b" ∷ [])
      (one_line "a" (omega arith), (one_line "b" (omega arith), tt))

newline_in_comm_splits_example :
    2 ≤ length (split b'\n' (build_body no_clock (alert_by "a\nb" ∷ [])))
newline_in_comm_splits_example = newline_in_comm_splits no_clock (alert_by "a\nb") (inr (inl refl))

run_flusher-Reach_example :
    Reach
      (mailbox_of start)
      (mailbox_of (run_flusher dry start (send (alert_by "a") ∷ recv ∷ tick ∷ [])))
unfolding enabled
run_flusher-Reach_example =
    run_flusher-Reach dry refl start (send (alert_by "a") ∷ recv ∷ tick ∷ [])

abbrev connector : HttpConnector
connector = record {
  connects = λ url. not (starts_with url (codes "https://"));
  enforces_http = λ url h. ap not h;
}

abbrev public_config : AlertConfig
public_config = record live { base = none }

delivered-flush_alerts_example :
    delivered connector (flush_alerts tree_json http no_clock public_config (alert_by "a" ∷ []))
    ≡ []
delivered-flush_alerts_example =
    delivered-flush_alerts connector tree_json http no_clock public_config (alert_by "a" ∷ []) refl
