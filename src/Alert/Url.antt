-- ===== src/Alert/Url.antt =====
-- overlay/ext/analysis/src/analyzers/alert_sink.rs: `override_url` and `urlencode`.
pub mod Decode
pub mod Override
use memguard_agent.Base.{ℕ, Bool, ◌&&◌, ◌||◌, [], ◌∷◌, ◌++◌, leb, ◌==◌, if◌then◌else◌, unwrap_or}
use memguard_agent.Text.Decimal.{hex_byte}
use memguard_agent.Text.Utf8.{as_bytes}
use memguard_agent.Text.{Text, Bytes, trim_end_of, after_slashes}

-- The bytes that `urlencode` leaves as they are.
unfoldable pub is_unreserved : ℕ → Bool
is_unreserved b =
    (leb b'A' b && leb b b'Z')
    || (leb b'a' b && leb b b'z')
    || (leb b'0' b && leb b b'9')
    || b == b'-'
    || b == b'_'
    || b == b'.'
    || b == b'~'

-- The loop over the bytes, with what has been written so far.
unfoldable pub encode_bytes : Text → Bytes → Text
unfolding is_unreserved hex_byte
encode_bytes out [] = out
encode_bytes out (b ∷ bs) =
    encode_bytes (if is_unreserved b then out ++ (b ∷ []) else out ++ (b'%' ∷ hex_byte b)) bs

unfoldable pub urlencode : Text → Text
unfolding encode_bytes
urlencode s = encode_bytes [] (as_bytes s)

unfoldable pub override_url : Text → Text → Text → Text
override_url base api suffix =
    let no_scheme = unwrap_or (after_slashes api) api in
    trim_end_of (λ c. c == b'/') base ++ (b'/' ∷ (no_scheme ++ suffix))
