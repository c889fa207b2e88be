-- ===== src/Trace/Server/Handle.antt =====
-- overlay/collector/src/cmd_trace.rs: the URLs that a printing start announces, and the drop of a
-- `StartedWebServer`, which holds the task that serves.
use memguard_agent.Base.{
  ℕ, ◌≡◌, ap, ◌≢◌, Bool, true, false, not, Option, some, List, [], ◌∷◌, ◌++◌, if◌then◌else◌,
}
use memguard_agent.Base.Result.{Result, ok, err, map_err, >>=-eq-ok}
use memguard_agent.Trace.Server.Started.{map_err-ok}
use memguard_agent.Text.{Text, codes}
use memguard_agent.Trace.Server.{
  Web, StartedWebServer, start_with, with_port, listen_or_default, host_of, url_of,
}

-- What has become of the task.
pub data ServingTask : Type 0 where
  serves : ServingTask
  ended : ServingTask
  aborted : ServingTask

-- `JoinHandle::abort`, which does nothing to a task that has ended.
unfoldable pub abort : ServingTask → ServingTask
abort serves = aborted
abort ended = ended
abort aborted = aborted

-- `Drop for StartedWebServer`
unfoldable pub drop_started : ServingTask → ServingTask
unfolding abort
drop_started = abort

-- Nobody serves behind the drop.
pub drop_started_ends : (task : ServingTask) → drop_started task ≢ serves
unfolding drop_started
drop_started_ends serves e = cc
drop_started_ends ended e = cc
drop_started_ends aborted e = cc

module _ (web : Web) where
  open web use {Server, parse}

  -- `print_web_server_start(&url)`, before the server is spawned.
  unfoldable pub announced :
      (Option Text → Result Server) → Bool → Text → ℕ → Option Text → List Text
  announced make enable listen port db =
      if not enable then [] else elim (parse (with_port (listen_or_default listen) port)) [
        | err e ↦ []
        | ok addr ↦ elim (make db) [
          | err e ↦ []
          | ok server ↦ url_of (host_of (listen_or_default listen)) port ∷ []
        ]
      ]

  -- A server that is started has its URL announced, and no other.
  pub announced-start_with :
      (make : Option Text → Result Server) (enable : Bool) (listen : Text) (port : ℕ)
      (db : Option Text) (server : StartedWebServer web)
      → start_with web make enable listen port db ≡ ok (some server)
      → announced make enable listen port db ≡ server.url ∷ []
  unfolding start_with announced
  announced-start_with make false listen port db server h = cc
  announced-start_with make true listen port db server h =
      let (addr, e, h₁) =
        >>=-eq-ok
          (map_err (λ e. codes "Invalid server address: " ++ e)
            (parse (with_port (listen_or_default listen) port)))
          _ h in
      let (made, e', h₂) =
        >>=-eq-ok (map_err (λ e. codes "Failed to create web server: " ++ e) (make db)) _ h₁ in
      rw (map_err-ok _ _ addr e, map_err-ok _ (make db) made e')
        (ap (λ (u : Text). u ∷ []) (url_is addr made (web.is_finished made addr) h₂))
    where
      url_is :
          (addr : web.Addr) (made : Server) (finished : Bool)
          → (if finished
              then err (codes "web server exited during startup")
              else ok (
                  some (record {
                    url = url_of (host_of (listen_or_default listen)) port;
                    server = made;
                    addr = addr;
                  })))
            ≡ ok (some server)
          → url_of (host_of (listen_or_default listen)) port ≡ server.url
      url_is addr made true e = cc
      url_is addr made false e = cc
