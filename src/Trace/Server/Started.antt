-- ===== src/Trace/Server/Started.antt =====
-- When a start gives a server.
use memguard_agent.Base.{ℕ, ◌≡◌, Bool, true, false, Option, some, ◌++◌, if◌then◌else◌, is_some}
use memguard_agent.Base.Result.{Result, ok, err, ◌>>=◌, map_err}
use memguard_agent.Text.{Text, codes}
use memguard_agent.Trace.Server.{
  Web, StartedWebServer, start_with, with_port, listen_or_default, host_of, url_of,
}

pub map_err-ok :
    {A : Type 0} (f : Text → Text) (r : Result A) (a : A) → map_err f r ≡ ok a → r ≡ ok a
map_err-ok f (ok b) a h = h
map_err-ok f (err e) a h = cc

-- A start that succeeds gives a server exactly where one is asked for.
pub is_some-start_with :
    (web : Web) (make : Option Text → Result web.Server) (enable : Bool) (listen : Text) (port : ℕ)
    (db : Option Text) (server : Option (StartedWebServer web))
    → start_with web make enable listen port db ≡ ok server
    → is_some server ≡ enable
unfolding start_with
is_some-start_with web make false listen port db server h = cc
is_some-start_with web make true listen port db server h =
    from_made (web.parse (with_port (listen_or_default listen) port)) (make db) h
  where
    given :
        (s : StartedWebServer web) (finished : Bool)
        → (if finished then err (codes "web server exited during startup") else ok (some s))
          ≡ ok server
        → is_some server ≡ true
    given s true e = cc
    given s false e = cc

    from_made :
        (address : Result web.Addr) (made : Result web.Server)
        → (map_err (λ e. codes "Invalid server address: " ++ e) address >>= λ addr.
            map_err (λ e. codes "Failed to create web server: " ++ e) made >>= λ s.
            if web.is_finished s addr
            then err (codes "web server exited during startup")
            else ok (
                some (record {
                  url = url_of (host_of (listen_or_default listen)) port;
                  server = s;
                  addr = addr;
                })))
          ≡ ok server
        → is_some server ≡ true
    from_made (err m) made e = cc
    from_made (ok addr) (err m) e = cc
    from_made (ok addr) (ok s) e = given _ (web.is_finished s addr) e
