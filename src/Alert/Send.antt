-- ===== src/Alert/Send.antt =====
-- overlay/ext/analysis/src/analyzers/alert_sink.rs: `flush_alerts`, `post_json` and `get_url`, as the
-- list of what a flush writes to the log or sends. Log lines of other kinds and the servers' answers,
-- which the code only logs, are left out.
pub mod Targets
pub mod Delivered
use memguard_agent.Base.Int.{ℤ}
use memguard_agent.Base.{Bool, Option, none, some, List, [], ◌∷◌, ◌++◌, if◌then◌else◌}
use memguard_agent.Alert.Message.{build_title, build_body}
use memguard_agent.Alert.Url.{override_url, urlencode}
use memguard_agent.Alert.{Alert, AlertConfig, wecom_api, serverchan_api}
use memguard_agent.Json.{Json}
use memguard_agent.Text.{Text, Bytes, codes}

pub data Push : Type 0 where
  -- The title and the body of a dry run, in the log.
  logged : Text → Text → Push
  -- A POST of JSON, and a GET with no body.
  posted : Text → Bytes → Push
  fetched : Text → Push

-- What the libraries decide: the bytes of a JSON value, and whether a text is a URI.
pub record Http (J : Json) : Type 0 where
  pub to_vec : J.Value → Option Bytes
  pub is_uri : Text → Bool

unfoldable pub wecom_url : AlertConfig → Text → Text
wecom_url config key =
    let suffix = codes "?key=" ++ key in
    elim config.base [ none ↦ wecom_api ++ suffix | some b ↦ override_url b wecom_api suffix ]

unfoldable pub serverchan_url : AlertConfig → Text → Text
serverchan_url config key =
    let suffix = codes "/" ++ (key ++ codes ".send") in
    elim config.base [
      | none ↦ serverchan_api ++ suffix
      | some b ↦ override_url b serverchan_api suffix
    ]

module _ (J : Json) (http : Http J) where
  open J use {Value, str, empty, insert}
  open http use {to_vec, is_uri}

  unfoldable pub post_json : Text → Value → List Push
  post_json url payload = elim (to_vec payload) [
    | none ↦ []
    | some body ↦ if is_uri url then posted url body ∷ [] else []
  ]

  unfoldable pub get_url : Text → List Push
  get_url url = if is_uri url then fetched url ∷ [] else []

  -- `json!({"msgtype": "markdown", "markdown": {"content": …}})`
  abbrev pub wecom_payload : Text → Text → Value
  wecom_payload title body =
      insert (codes "markdown")
        (insert (codes "content") (str (codes "**" ++ (title ++ (codes "**\n" ++ body)))) empty)
        (insert (codes "msgtype") (str (codes "markdown")) empty)

  unfoldable pub push_wecom : AlertConfig → Text → Text → Option Text → List Push
  unfolding post_json wecom_url
  push_wecom config title body none = []
  push_wecom config title body (some key) =
      post_json (wecom_url config key) (wecom_payload title body)

  unfoldable pub push_serverchan : AlertConfig → Text → Text → Option Text → List Push
  unfolding get_url serverchan_url
  push_serverchan config title body none = []
  push_serverchan config title body (some key) = get_url (
      serverchan_url config key
      ++ (codes "?title=" ++ (urlencode title ++ (codes "&desp=" ++ urlencode body))))

  unfoldable pub flush_alerts : (ℤ → Option Text) → AlertConfig → List Alert → List Push
  unfolding push_wecom push_serverchan
  flush_alerts clock config pending =
      let title = build_title pending in
      let body = build_body clock pending in
      if config.dry_run
      then logged title body ∷ []
      else push_wecom config title body config.wecom_key
        ++ push_serverchan config title body config.serverchan_key
