-- ===== src/Trace/Server/Reach.antt =====
-- Where a started server is found.
use memguard_agent.Base.{
  ℕ, ◌≡◌, refl, sym, ◌∙◌, ◌≢◌, ◌⊎◌, inl, inr, Bool, true, false, Option, none, some, [], ◌∷◌, ◌++◌,
  if◌then◌else◌, is_none, is_some, Bool-cases, is_empty,
}
use memguard_agent.Base.Result.{Result, ok, err, ◌>>=◌, >>=-eq-ok, Result-cases}
use memguard_agent.Text.Decimal.{to_string}
use memguard_agent.Text.{Text, codes, text_eq, text_eq_iff, trim}
use memguard_agent.Trace.Server.{
  Web, StartedWebServer, listen_or_default, host_of, with_port, start_with, web_server_for_capture,
  start_web_server_if_enabled, start_web_server_silent_if_enabled,
}

-- The address that a given one stands for: this machine's where it is blank, and else itself, trimmed.
abbrev pub IsAddress : Text → Text → Type 0
IsAddress listen address =
    ((trim listen ≡ []) × (address ≡ codes "127.0.0.1"))
    ⊎ ((trim listen ≢ []) × (address ≡ trim listen))

-- The host that an address is announced with: this machine's for the texts `0.0.0.0` and `::`, and
-- else the address.
abbrev pub IsHost : Text → Text → Type 0
IsHost address host =
    (((address ≡ codes "0.0.0.0") ⊎ (address ≡ codes "::")) × (host ≡ codes "127.0.0.1"))
    ⊎ ((address ≢ codes "0.0.0.0") × (address ≢ codes "::") × (host ≡ address))

listen_or_default-IsAddress : (listen : Text) → IsAddress listen (listen_or_default listen)
listen_or_default-IsAddress listen = elim (Bool-cases (is_empty (trim listen))) [
  | inl t ↦ rw t (inl (is_empty-nil (trim listen) t, refl))
  | inr f ↦ rw f (inr (not_nil (trim listen) f, refl))
]
  where
    is_empty-nil : (s : Text) → is_empty s ≡ true → s ≡ []
    is_empty-nil [] h = refl
    is_empty-nil (c ∷ s) h = cc

    not_nil : (s : Text) → is_empty s ≡ false → s ≢ []
    not_nil s h e = cc

host_of-IsHost : (address : Text) → IsHost address (host_of address)
host_of-IsHost address = elim (Bool-cases (text_eq address (codes "0.0.0.0"))) [
  | inl four ↦ rw four (inl (inl ((text_eq_iff address (codes "0.0.0.0")).0 four), refl))
  | inr not_four ↦ elim (Bool-cases (text_eq address (codes "::"))) [
    | inl six ↦ rw (not_four, six) (inl (inr ((text_eq_iff address (codes "::")).0 six), refl))
    | inr not_six ↦
        rw (not_four, not_six)
          (inr (
            λ e. cc ((text_eq_iff address (codes "0.0.0.0")).1 e, not_four),
            λ e. cc ((text_eq_iff address (codes "::")).1 e, not_six),
            refl,
          ))
  ]
]

module _ (web : Web) where
  -- A server that is started is announced with the host of its address and its port, and listens where
  -- they are parsed to; it is made for the database, and serves a live host where it is to.
  abbrev pub Reached :
      Text → ℕ → Option Text → Bool → Result (Option (StartedWebServer web)) → Type 0
  Reached listen port db live (err e) = Unit
  Reached listen port db live (ok none) = Unit
  Reached listen port db live (ok (some s)) =
      (address : Text) × (host : Text) × (made : web.Server) × IsAddress listen address
      × IsHost address host
      × (s.url ≡ codes "http://" ++ ((host ++ (codes ":" ++ to_string port)) ++ codes "/"))
      × (web.parse (address ++ (codes ":" ++ to_string port)) ≡ ok s.addr)
      × (web.new_with_db_path db ≡ ok made)
      × (s.server ≡ (if live then web.with_live_host made else made))
      × (web.is_finished s.server s.addr ≡ false)

  start_with-Reached :
      (make : Option Text → Result web.Server) (enable live : Bool) (listen : Text) (port : ℕ)
      (db : Option Text)
      → ((server : web.Server)
          → make db ≡ ok server
          → (made : web.Server) × (web.new_with_db_path db ≡ ok made)
            × (server ≡ (if live then web.with_live_host made else made)))
      → Reached listen port db live (start_with web make enable listen port db)
  unfolding start_with
  start_with-Reached make enable live listen port db makes =
      let address = with_port (listen_or_default listen) port in
      elim (Bool-cases enable) [
        | inl on ↦ elim (Result-cases (web.parse address)) [
          | inl (m, e) ↦ rw (on, e) tt
          | inr (addr, e) ↦ elim (Result-cases (make db)) [
            | inl (m, e') ↦ rw (on, e, e') tt
            | inr (server, e') ↦ elim (Bool-cases (web.is_finished server addr)) [
              | inl done ↦ rw (on, e, e', done) tt
              | inr alive ↦
                  let (made, from_db, is_made) = makes server e' in
                  rw (on, e, e', alive)
                    (
                      listen_or_default listen,
                      host_of (listen_or_default listen),
                      made,
                      listen_or_default-IsAddress listen,
                      host_of-IsHost (listen_or_default listen),
                      refl,
                      e,
                      from_db,
                      is_made,
                      alive,
                    )
            ]
          ]
        ]
        | inr off ↦ rw off tt
      ]

  ok-injective : {a b : web.Server} → ok a ≡ ok b → a ≡ b
  ok-injective h = cc

  -- A server that is started, in a printing or a silent trace, still runs; is made for the given
  -- database, and serves a live host in a silent trace, and in a printing one where there is no
  -- database; listens at what its address parses to with the port, the trimmed text that is given, or
  -- 127.0.0.1 where that is blank; and is announced with the port and with its address, or with
  -- 127.0.0.1 where its address is the text 0.0.0.0 or the text `::`.
  pub start_web_server-Reached :
      (enable : Bool) (listen : Text) (port : ℕ) (db : Option Text)
      → Reached listen port db (is_none db) (start_web_server_if_enabled web enable listen port db)
        × Reached listen port db true (start_web_server_silent_if_enabled web enable listen port db)
  unfolding start_web_server_if_enabled start_web_server_silent_if_enabled web_server_for_capture
  start_web_server-Reached enable listen port db = (
    start_with-Reached (web_server_for_capture web) enable (is_none db) listen port db (λ server h.
        let (made, e, last) =
          >>=-eq-ok (web.new_with_db_path db)
            (λ s. ok (if is_some db then s else web.with_live_host s)) h in
        (made, e, sym (ok-injective last) ∙ swapped db (web.with_live_host made) made)),
    start_with-Reached (λ x. web.new_with_db_path x >>= λ server. ok (web.with_live_host server))
        enable true listen port db
        (λ server h.
          let (made, e, last) =
            >>=-eq-ok (web.new_with_db_path db) (λ s. ok (web.with_live_host s)) h in
          (made, e, sym (ok-injective last))),
  )
    where
      swapped :
          (o : Option Text) (a b : web.Server)
          → (if is_some o then b else a) ≡ (if is_none o then a else b)
      swapped none a b = refl
      swapped (some t) a b = refl
