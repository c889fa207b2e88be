-- ===== src/Alert/Url/Override.antt =====
-- The URL that takes the place of an API's, with another host.
use memguard_agent.Base.{◌≡◌, true, ◌∷◌, ◌++◌, ◌==◌, All}
use memguard_agent.Alert.Url.{override_url}
use memguard_agent.Text.Split.{Lacks, after_slashes-append}
use memguard_agent.Text.Trim.{EndsClean, trim_end_of-append}
use memguard_agent.Text.{Text}

-- With a base URL that is followed by any number of slashes and itself ends in none, the API's
-- address is put behind the base without its scheme, one slash between them, and the suffix behind
-- it.
pub override_url_lem :
    (base slashes scheme rest suffix : Text)
    → EndsClean (λ c. c == b'/') base
    → All (λ c. (c == b'/') ≡ true) slashes
    → Lacks b'/' scheme
    → override_url (base ++ slashes) (scheme ++ (b'/' ∷ b'/' ∷ rest)) suffix
      ≡ base ++ (b'/' ∷ (rest ++ suffix))
unfolding override_url
override_url_lem base slashes scheme rest suffix hb hs hl =
    rw (trim_end_of-append (λ c. c == b'/') slashes base hb hs, after_slashes-append scheme rest hl)
