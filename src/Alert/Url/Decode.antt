-- ===== src/Alert/Url/Decode.antt =====
-- Percent-decoding gives back what `urlencode` was given, and nothing in its output separates the
-- parts of a query.
use memguard_agent.Base.{
  ℕ, ◌+◌, ◌-◌, ◌*◌, ◌<◌, ◌≡◌, refl, sym, ap, ◌∙◌, ◌≢◌, ◌⊎◌, inl, inr, true, false, [], ◌∷◌, ◌++◌,
  append-nil, append_assoc, arith, leb, ◌==◌, if◌then◌else◌, Bool-cases, All, All-append,
}
use memguard_agent.Alert.Url.{is_unreserved, encode_bytes, urlencode}
use memguard_agent.Text.Decimal.{hex_byte}
use memguard_agent.Text.Utf8.Embeds.{as_bytes-lt, from_utf8_lossy-as_bytes}
use memguard_agent.Text.Utf8.{IsScalar, as_bytes, from_utf8_lossy}
use memguard_agent.Text.{Text, Bytes}

-- What one byte becomes.
abbrev pub encode_byte : ℕ → Text
encode_byte b = if is_unreserved b then b ∷ [] else b'%' ∷ hex_byte b

abbrev pub encoded : Bytes → Text
encoded [] = []
encoded (b ∷ bs) = encode_byte b ++ encoded bs

encode_bytes-encoded : (bs : Bytes) (out : Text) → encode_bytes out bs ≡ out ++ encoded bs
unfolding encode_bytes
encode_bytes-encoded [] out = sym (append-nil out)
encode_bytes-encoded (b ∷ bs) out = elim (Bool-cases (is_unreserved b)) [
  | inl t ↦ rw t (encode_bytes-encoded bs (out ++ (b ∷ [])) ∙ append_assoc out _ _)
  | inr f ↦ rw f (encode_bytes-encoded bs (out ++ (b'%' ∷ hex_byte b)) ∙ append_assoc out _ _)
]

pub hex_value : ℕ → ℕ
hex_value c = if leb b'A' c then c - 55 else c - 48

-- Percent-decoding, as a server does it.
pub percent_decode : Text → Bytes
percent_decode [] = []
percent_decode (c ∷ []) = c ∷ []
percent_decode (c ∷ (d ∷ [])) = c ∷ d ∷ []
percent_decode (c ∷ (d ∷ (e ∷ s))) = elim (c == b'%') [
  | true ↦ (hex_value d * 16 + hex_value e) ∷ percent_decode s
  | false ↦ c ∷ percent_decode (d ∷ (e ∷ s))
]

percent_decode_plain : (c : ℕ) (s : Text) → c ≢ b'%' → percent_decode (c ∷ s) ≡ c ∷ percent_decode s
unfolding percent_decode
percent_decode_plain c [] h = refl
percent_decode_plain c (d ∷ []) h = refl
percent_decode_plain c (d ∷ (e ∷ s)) h = ground arith

percent_decode_hex :
    (b : ℕ) (s : Text) → b < 256 → percent_decode (b'%' ∷ (hex_byte b ++ s)) ≡ b ∷ percent_decode s
unfolding percent_decode hex_byte hex_value
percent_decode_hex b s h = ap (λ (n : ℕ). n ∷ percent_decode s) (ground arith)

unreserved-ne : (b : ℕ) → is_unreserved b ≡ true → b ≢ b'%'
unfolding is_unreserved
unreserved-ne b h = ground arith

percent_decode-encoded : (bs : Bytes) → All (λ b. b < 256) bs → percent_decode (encoded bs) ≡ bs
percent_decode-encoded [] h = (unfold percent_decode in refl)
percent_decode-encoded (b ∷ bs) h = elim (Bool-cases (is_unreserved b)) [
  | inl t ↦ rw t (
      percent_decode_plain b (encoded bs) (unreserved-ne b t)
      ∙ ap (◌∷◌ b) (percent_decode-encoded bs h.1))
  | inr f ↦
      rw f (percent_decode_hex b (encoded bs) h.0 ∙ ap (◌∷◌ b) (percent_decode-encoded bs h.1))
]

-- A server that percent-decodes an encoded text of Unicode scalar values and reads it as UTF-8 has
-- the text back.
pub from_utf8_lossy-percent_decode-urlencode :
    (s : Text) → All IsScalar s → from_utf8_lossy (percent_decode (urlencode s)) ≡ s
unfolding urlencode
from_utf8_lossy-percent_decode-urlencode s h =
    rw (encode_bytes-encoded (as_bytes s) [], percent_decode-encoded (as_bytes s) (as_bytes-lt s h))
      (from_utf8_lossy-as_bytes s h)

-- The characters that an encoded text is made of: unreserved ones and `%`.
abbrev pub IsSafe : ℕ → Type 0
IsSafe c = (is_unreserved c ≡ true) ⊎ (c ≡ b'%')

hex_byte-IsSafe : (b : ℕ) → b < 256 → All IsSafe (hex_byte b)
unfolding hex_byte is_unreserved
hex_byte-IsSafe b h = ground arith

encoded-IsSafe : (bs : Bytes) → All (λ b. b < 256) bs → All IsSafe (encoded bs)
encoded-IsSafe [] h = tt
encoded-IsSafe (b ∷ bs) h =
    All-append IsSafe (encode_byte b) (encoded bs)
      (elim (Bool-cases (is_unreserved b)) [
        | inl t ↦ rw t (inl t, tt)
        | inr f ↦ rw f (inr refl, hex_byte-IsSafe b h.0)
      ])
      (encoded-IsSafe bs h.1)

-- An encoded text of Unicode scalar values holds unreserved characters and `%` alone.
pub urlencode-IsSafe : (s : Text) → All IsScalar s → All IsSafe (urlencode s)
unfolding urlencode
urlencode-IsSafe s h =
    rw (encode_bytes-encoded (as_bytes s) []) (encoded-IsSafe (as_bytes s) (as_bytes-lt s h))
