-- ===== src/Alert/Message.antt =====
-- overlay/ext/analysis/src/analyzers/alert_sink.rs: the title and the body of a pushed batch.
pub mod Lines
use memguard_agent.Base.Int.{ℤ, as_i64}
use memguard_agent.Base.{ℕ, Option, List, [], ◌∷◌, ◌++◌, unwrap_or, length}
use memguard_agent.Alert.{Alert}
use memguard_agent.Text.Decimal.{to_string}
use memguard_agent.Text.{Text, codes, join}

unfoldable pub build_title : List Alert → Text
build_title pending =
    codes "MemGuard 告警 "
    ++ (to_string (length pending)
        ++ (codes "条 「记忆库写入×" ++ (to_string (length pending) ++ codes "」")))

-- `clock` is chrono's `from_timestamp_millis` followed by `format("%H:%M:%S")`.
module _ (clock : ℤ → Option Text) where
  unfoldable pub format_ts : ℕ → Text
  format_ts ts_ms = unwrap_or (clock (as_i64 ts_ms)) (codes "??:??:??")

  -- The line of one alert.
  unfoldable pub alert_line : Alert → Text
  unfolding format_ts
  alert_line a =
      codes "["
      ++ (format_ts a.ts_ms
          ++ (codes "] "
              ++ (a.severity
                  ++ (codes " pid="
                      ++ (to_string a.pid
                          ++ (codes " comm="
                              ++ (a.comm
                                  ++ (codes " file="
                                      ++ (a.file ++ (codes " sig=" ++ a.signatures))))))))))

  -- `for a in pending { lines.push(…) }`
  unfoldable pub push_lines : List Text → List Alert → List Text
  push_lines lines [] = lines
  push_lines lines (a ∷ pending) = push_lines (lines ++ (alert_line a ∷ [])) pending

  unfoldable pub build_body : List Alert → Text
  unfolding push_lines
  build_body pending = join (b'\n' ∷ []) (push_lines [] pending)
