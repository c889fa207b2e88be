-- ===== src/Alert/Send/Delivered.antt =====
-- overlay/ext/analysis/src/analyzers/alert_sink.rs: which requests of a flush get an answer. The client
-- is hyper's, with the connector that `build_http` gives it.
use memguard_agent.Base.{
  ◌≡◌, refl, Bool, true, false, Option, none, some, List, [], ◌∷◌, ◌++◌, if_intro, keep, All,
  All-append,
}
use memguard_agent.Base.Int.{ℤ}
use memguard_agent.Alert.Send.Targets.{goes_to, push_wecom-All, push_serverchan-All}
use memguard_agent.Alert.Send.{Push, Http, wecom_url, serverchan_url, flush_alerts}
use memguard_agent.Alert.{Alert, AlertConfig}
use memguard_agent.Json.{Json}
use memguard_agent.Text.{Text, codes, starts_with}

-- An `HttpConnector` that is not told otherwise connects to no URL of the scheme https.
pub record HttpConnector : Type 0 where
  pub connects : Text → Bool
  pub enforces_http :
      (url : Text) → starts_with url (codes "https://") ≡ true → connects url ≡ false

module _ (connector : HttpConnector) where
  abbrev pub is_answered : Push → Bool
  is_answered push = elim (goes_to push) [ none ↦ false | some url ↦ connector.connects url ]

  -- The requests for which `client.request` is `Ok`, where every host that is connected to answers.
  unfoldable pub delivered : List Push → List Push
  delivered pushes = keep is_answered pushes

  keep_nothing :
      (pushes : List Push) → All (λ p. is_answered p ≡ false) pushes → keep is_answered pushes ≡ []
  keep_nothing [] h = refl
  keep_nothing (p ∷ pushes) h = rw h.0 (keep_nothing pushes h.1)

  wecom_refused :
      (config : AlertConfig) (key : Text)
      → config.base ≡ none
      → connector.connects (wecom_url config key) ≡ false
  unfolding wecom_url
  wecom_refused config key e = connector.enforces_http _ (rw e refl)

  serverchan_refused :
      (config : AlertConfig) (key more : Text)
      → config.base ≡ none
      → connector.connects (serverchan_url config key ++ more) ≡ false
  unfolding serverchan_url
  serverchan_refused config key more e = connector.enforces_http _ (rw e refl)

  module _ (J : Json) (http : Http J) (clock : ℤ → Option Text) (config : AlertConfig)
      (pending : List Alert) where
    -- Where no base URL is configured, no request of a flush gets an answer: both services have https
    -- URLs, and the client's connector refuses them.
    pub delivered-flush_alerts :
        config.base ≡ none → delivered (flush_alerts J http clock config pending) ≡ []
    unfolding delivered flush_alerts
    delivered-flush_alerts e =
        let P = λ (p : Push). is_answered p ≡ false in
        keep_nothing _ (
          if_intro (All P) config.dry_run _ _ (λ t. (refl, tt))
            (λ f.
              All-append P _ _
                (push_wecom-All J http P config _ _ config.wecom_key
                  (λ k content. wecom_refused config k e))
                (push_serverchan-All J http P config _ _ config.serverchan_key
                  (λ k more. serverchan_refused config k more e))))
