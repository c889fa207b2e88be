-- ===== src/Trace/Server.antt =====
-- overlay/collector/src/cmd_trace.rs: the start of the web server, printing and silent. The server and
-- socket addresses belong to other crates: `Web` is what the start needs of them.
pub mod Handle
pub mod Reach
pub mod Started
use memguard_agent.Base.{
  ℕ, Bool, not, ◌||◌, Option, none, some, ◌++◌, if◌then◌else◌, is_some, is_empty,
}
use memguard_agent.Base.Result.{Result, ok, err, ◌>>=◌, map_err}
use memguard_agent.Text.Decimal.{to_string}
use memguard_agent.Text.{Text, codes, text_eq, trim}
use memguard_agent.Trace.{default_server_listen}

pub record Web : Type 1 where
  pub Addr : Type 0
  pub Server : Type 0
  -- `str::parse`, `WebServer::new_with_db_path` and `with_live_host`
  pub parse : Text → Result Addr
  pub new_with_db_path : Option Text → Result Server
  pub with_live_host : Server → Server
  -- Whether the task that serves is finished after the first moment.
  pub is_finished : Server → Addr → Bool

pub record StartedWebServer (web : Web) : Type 0 where
  pub url : Text
  pub server : web.Server
  pub addr : web.Addr

abbrev pub listen_or_default : Text → Text
listen_or_default listen = if is_empty (trim listen) then default_server_listen else trim listen

-- The host under which a browser finds the server.
abbrev pub host_of : Text → Text
host_of listen =
    if text_eq listen (codes "0.0.0.0") || text_eq listen (codes "::")
    then codes "127.0.0.1"
    else listen

abbrev pub with_port : Text → ℕ → Text
with_port host port = host ++ (codes ":" ++ to_string port)

abbrev pub url_of : Text → ℕ → Text
url_of host port = codes "http://" ++ (with_port host port ++ codes "/")

module _ (web : Web) where
  open web use {Addr, Server, parse, new_with_db_path, with_live_host, is_finished}

  -- What both starts do, with the server that they make for a database.
  unfoldable pub start_with :
      (Option Text → Result Server)
      → Bool
      → Text
      → ℕ
      → Option Text
      → Result (Option (StartedWebServer web))
  start_with make enable listen port db =
      if not enable
      then ok none
      else (map_err (λ e. codes "Invalid server address: " ++ e)
            (parse (with_port (listen_or_default listen) port))
          >>= λ addr.
              map_err (λ e. codes "Failed to create web server: " ++ e) (make db) >>= λ server.
              if is_finished server addr
              then err (codes "web server exited during startup")
              else ok (
                  some (record {
                    url = url_of (host_of (listen_or_default listen)) port;
                    server = server;
                    addr = addr;
                  })))

  unfoldable pub web_server_for_capture : Option Text → Result Server
  web_server_for_capture db =
      new_with_db_path db >>= λ server. ok (if is_some db then server else with_live_host server)

  unfoldable pub start_web_server_if_enabled :
      Bool → Text → ℕ → Option Text → Result (Option (StartedWebServer web))
  unfolding start_with web_server_for_capture
  start_web_server_if_enabled = start_with web_server_for_capture

  unfoldable pub start_web_server_silent_if_enabled :
      Bool → Text → ℕ → Option Text → Result (Option (StartedWebServer web))
  unfolding start_with
  start_web_server_silent_if_enabled =
      start_with (λ db. new_with_db_path db >>= λ server. ok (with_live_host server))
