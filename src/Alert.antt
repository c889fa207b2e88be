-- ===== src/Alert.antt =====
-- overlay/ext/analysis/src/analyzers/alert_sink.rs: the configuration and the alerts of `AlertSink`.
pub mod Message
pub mod Url
pub mod Send
pub mod Sink
pub mod Flusher
pub mod Lifetime
mod Tests
use memguard_agent.Base.{ℕ, max, Bool, false, ◌||◌, Option, none, some, is_some}
use memguard_agent.Text.{Text, codes}

abbrev pub wecom_api : Text
wecom_api = codes "https://qyapi.weixin.qq.com/cgi-bin/webhook/send"

abbrev pub serverchan_api : Text
serverchan_api = codes "https://sctapi.ftqq.com"

abbrev pub default_interval_secs : ℕ
default_interval_secs = 10

-- A single poison alert waiting to be pushed.
pub record Alert : Type 0 where
  pub ts_ms : ℕ
  pub severity : Text
  pub pid : ℕ
  pub comm : Text
  pub file : Text
  pub signatures : Text

pub record AlertConfig : Type 0 where
  pub wecom_key : Option Text
  pub serverchan_key : Option Text
  pub base : Option Text
  pub dry_run : Bool
  pub interval_secs : ℕ

unfoldable pub new : AlertConfig
new = record {
  wecom_key = none;
  serverchan_key = none;
  base = none;
  dry_run = false;
  interval_secs = default_interval_secs;
}

unfoldable pub wecom : AlertConfig → Text → AlertConfig
wecom c key = record c { wecom_key = some key }

unfoldable pub serverchan : AlertConfig → Text → AlertConfig
serverchan c key = record c { serverchan_key = some key }

unfoldable pub base : AlertConfig → Text → AlertConfig
base c url = record c { base = some url }

unfoldable pub dry_run : AlertConfig → Bool → AlertConfig
dry_run c v = record c { dry_run = v }

unfoldable pub interval_secs : AlertConfig → ℕ → AlertConfig
interval_secs c secs = record c { interval_secs = max secs 1 }

unfoldable pub enabled : AlertConfig → Bool
enabled c = c.dry_run || is_some c.wecom_key || is_some c.serverchan_key
