-- ===== src/Alert/Send/Targets.antt =====
-- Where a flush sends to.
use memguard_agent.Base.Int.{ℤ}
use memguard_agent.Base.{
  ◌≡◌, refl, sym, ap, ◌∙◌, arith, subst, inl, inr, true, false, Option, none, some, List, [], ◌∷◌,
  ◌++◌, append_assoc, ◌==◌, if_intro, Option-cases, is_none, All, All-append, Elem,
  Elem-append_right, Elem-append_left,
}
use memguard_agent.Alert.Message.{build_title, build_body}
use memguard_agent.Alert.Send.{
  Push, logged, posted, fetched, Http, wecom_url, serverchan_url, post_json, get_url, push_wecom,
  push_serverchan, flush_alerts, wecom_payload,
}
use memguard_agent.Alert.Url.{urlencode}
use memguard_agent.Alert.Url.Override.{override_url_lem}
use memguard_agent.Text.Trim.{EndsClean}
use memguard_agent.Alert.{Alert, AlertConfig}
use memguard_agent.Json.{Json}
use memguard_agent.Text.Search.{starts_with-append}
use memguard_agent.Text.{Text, Bytes, codes, starts_with}

-- The URL that a push goes to; a dry run goes to none.
abbrev pub goes_to : Push → Option Text
goes_to (logged title body) = none
goes_to (posted url body) = some url
goes_to (fetched url) = some url

-- The addresses of the services, without a scheme.
abbrev pub wecom_address : Text
wecom_address = codes "qyapi.weixin.qq.com/cgi-bin/webhook/send?key="

abbrev pub serverchan_address : Text
serverchan_address = codes "sctapi.ftqq.com/"

-- A push that stays on the machine, or goes to the address of its service behind a base, one slash
-- between them.
abbrev pub StaysUnder : Text → Push → Type 0
StaysUnder base (logged title body) = Unit
StaysUnder base (posted url body) = starts_with url (base ++ (b'/' ∷ wecom_address)) ≡ true
StaysUnder base (fetched url) = starts_with url (base ++ (b'/' ∷ serverchan_address)) ≡ true

module _ (config : AlertConfig) (base slashes : Text) (clean : EndsClean (λ c. c == b'/') base)
    (h : All (λ c. (c == b'/') ≡ true) slashes) (e : config.base ≡ some (base ++ slashes)) where
  starts_with-address :
      (address more url : Text)
      → url ≡ base ++ (b'/' ∷ (address ++ more))
      → starts_with url (base ++ (b'/' ∷ address)) ≡ true
  starts_with-address address more url same =
      rw (same, ← append_assoc base (b'/' ∷ address) more)
        (starts_with-append (base ++ (b'/' ∷ address)) more)

  wecom_url-starts :
      (key : Text) → starts_with (wecom_url config key) (base ++ (b'/' ∷ wecom_address)) ≡ true
  unfolding wecom_url
  wecom_url-starts key = starts_with-address wecom_address key (wecom_url config key) (
      rw (e, wecom_url)
        (override_url_lem base slashes (codes "https:")
          (codes "qyapi.weixin.qq.com/cgi-bin/webhook/send") (codes "?key=" ++ key) clean h
          (omega arith)))

  serverchan_url-starts :
      (key more : Text)
      → starts_with (serverchan_url config key ++ more) (base ++ (b'/' ∷ serverchan_address)) ≡ true
  unfolding serverchan_url
  serverchan_url-starts key more =
      starts_with-address serverchan_address ((key ++ codes ".send") ++ more)
        (serverchan_url config key ++ more)
        (ap (λ (u : Text). u ++ more)
            (rw (e, serverchan_url)
              (override_url_lem base slashes (codes "https:") (codes "sctapi.ftqq.com")
                (codes "/" ++ (key ++ codes ".send")) clean h (omega arith)))
          ∙ append_assoc base (b'/' ∷ (serverchan_address ++ (key ++ codes ".send"))) more)

module _ (J : Json) (http : Http J) where
  open http use {to_vec, is_uri}

  post_json-Elem :
      (url : Text) (payload : J.Value) (body : Bytes)
      → to_vec payload ≡ some body
      → is_uri url ≡ true
      → Elem (posted url body) (post_json J http url payload)
  unfolding post_json
  post_json-Elem url payload body v u = rw (v, post_json, u) (inl refl)

  get_url-Elem : (url : Text) → is_uri url ≡ true → Elem (fetched url) (get_url J http url)
  unfolding get_url
  get_url-Elem url u = rw u (inl refl)

  module _ (P : Push → Type 0) where
    post_json-All :
        (url : Text) (payload : J.Value)
        → ((body : Bytes) → P (posted url body))
        → All P (post_json J http url payload)
    unfolding post_json
    post_json-All url payload h = elim (Option-cases (to_vec payload)) [
      | inl e ↦ rw (e, post_json) tt
      | inr (body, e) ↦
          rw (e, post_json)
            (if_intro (All P) (is_uri url) (posted url body ∷ []) [] (λ t. (h body, tt)) (λ f. tt))
    ]

    get_url-All : (url : Text) → P (fetched url) → All P (get_url J http url)
    unfolding get_url
    get_url-All url h = if_intro (All P) (is_uri url) (fetched url ∷ []) [] (λ t. (h, tt)) (λ f. tt)

    pub push_wecom-All :
        (config : AlertConfig) (title body : Text) (key : Option Text)
        → ((k : Text) (content : Bytes) → P (posted (wecom_url config k) content))
        → All P (push_wecom J http config title body key)
    unfolding push_wecom
    push_wecom-All config title body none h = tt
    push_wecom-All config title body (some k) h =
        post_json-All (wecom_url config k) (wecom_payload J http title body) (h k)

    pub push_serverchan-All :
        (config : AlertConfig) (title body : Text) (key : Option Text)
        → ((k more : Text) → P (fetched (serverchan_url config k ++ more)))
        → All P (push_serverchan J http config title body key)
    unfolding push_serverchan
    push_serverchan-All config title body none h = tt
    push_serverchan-All config title body (some k) h = get_url-All _ (h k _)

  module _ (clock : ℤ → Option Text) (config : AlertConfig) (pending : List Alert) where
    -- What a flush does stays in the log exactly when the sink is on a dry run.
    pub flush_alerts_dry_run :
        All (λ p. is_none (goes_to p) ≡ config.dry_run) (flush_alerts J http clock config pending)
    unfolding flush_alerts
    flush_alerts_dry_run =
        let P = λ (p : Push). is_none (goes_to p) ≡ config.dry_run in
        if_intro (All P) config.dry_run _ _ (λ t. (sym t, tt))
          (λ f.
            All-append P _ _ (push_wecom-All P config _ _ config.wecom_key (λ k content. sym f))
              (push_serverchan-All P config _ _ config.serverchan_key (λ k more. sym f)))

    -- With a base URL configured, which may end in slashes, whatever is sent goes to the base without
    -- them, then one slash, and then the address of the service without its scheme: WeCom's for what
    -- is posted and ServerChan's for what is fetched.
    pub flush_alerts-StaysUnder :
        (base slashes : Text)
        → EndsClean (λ c. c == b'/') base
        → All (λ c. (c == b'/') ≡ true) slashes
        → config.base ≡ some (base ++ slashes)
        → All (StaysUnder base) (flush_alerts J http clock config pending)
    unfolding flush_alerts
    flush_alerts-StaysUnder base slashes clean h e =
        let P = StaysUnder base in
        if_intro (All P) config.dry_run _ _ (λ t. (tt, tt))
          (λ f.
            All-append P _ _
              (push_wecom-All P config _ _ config.wecom_key
                (λ k content. wecom_url-starts config base slashes clean h e k))
              (push_serverchan-All P config _ _ config.serverchan_key
                (λ k more. serverchan_url-starts config base slashes clean h e k more)))

    -- The URL of a ServerChan push.
    abbrev pub sent_url : Text → Text
    sent_url key =
        serverchan_url config key
        ++ (codes "?title="
            ++ (urlencode (build_title pending)
                ++ (codes "&desp=" ++ urlencode (build_body clock pending))))

    flush_alerts_sent :
        config.dry_run ≡ false
        → flush_alerts J http clock config pending
          ≡ push_wecom J http config
              (build_title pending)
              (build_body clock pending)
              config.wecom_key
            ++ push_serverchan J http config
                (build_title pending)
                (build_body clock pending)
                config.serverchan_key
    unfolding flush_alerts
    flush_alerts_sent d = rw d

    -- Where the sink is on no dry run and has a WeCom key, the payload serialises and the URL is a
    -- URI, the payload with the title and body of the whole batch is posted to WeCom's URL.
    pub flush_alerts-posted :
        (key : Text) (body : Bytes)
        → config.dry_run ≡ false
        → config.wecom_key ≡ some key
        → to_vec (wecom_payload J http (build_title pending) (build_body clock pending)) ≡ some body
        → is_uri (wecom_url config key) ≡ true
        → Elem (posted (wecom_url config key) body) (flush_alerts J http clock config pending)
    flush_alerts-posted key body d k v u = rw (flush_alerts_sent d) (
        Elem-append_left (posted (wecom_url config key) body) _ _ (
          subst
            (λ (o : Option Text).
              Elem (posted (wecom_url config key) body)
                (push_wecom J http config (build_title pending) (build_body clock pending) o))
            (sym k) (unfold push_wecom in post_json-Elem (wecom_url config key) _ body v u)))

    -- Where the sink is on no dry run and has a ServerChan key, and the URL is a URI, ServerChan's
    -- URL is fetched with the percent-encoded title and body of the whole batch.
    pub flush_alerts-fetched :
        (key : Text)
        → config.dry_run ≡ false
        → config.serverchan_key ≡ some key
        → is_uri (sent_url key) ≡ true
        → Elem (fetched (sent_url key)) (flush_alerts J http clock config pending)
    flush_alerts-fetched key d k u = rw (flush_alerts_sent d) (
        Elem-append_right (fetched (sent_url key)) _ _ (
          subst
            (λ (o : Option Text).
              Elem (fetched (sent_url key))
                (push_serverchan J http config (build_title pending) (build_body clock pending) o))
            (sym k) (unfold push_serverchan in get_url-Elem (sent_url key) u)))
