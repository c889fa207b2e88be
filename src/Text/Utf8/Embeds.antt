-- ===== src/Text/Utf8/Embeds.antt =====
-- A text that stands encoded between any bytes is decoded as it was.
use memguard_agent.Base.{
  ℕ, ◌+◌, ◌/◌, ◌%◌, ◌≤◌, ◌<◌, [], ◌∷◌, ◌++◌, ◌≡◌, ◌⊎◌, inl, inr, refl, sym, ap, ◌∙◌, arith, ltb,
  append_assoc, append-nil, All, All-append, Bool-cases, ltb→lt,
}
use memguard_agent.Text.{Text, Bytes}
use memguard_agent.Text.Utf8.{
  IsScalar, encode_char, as_bytes, Decoder, idle, more, next_byte, at_end, decode, from_utf8_lossy,
}
use memguard_agent.Text.Utf8.Chars.{decode-encode_char}

-- The bounds of a next byte lie among the continuation bytes.
abbrev pub IsBounded : Decoder → Type 0
IsBounded idle = Unit
IsBounded (more lo hi left bits) = (0x80 ≤ lo) × (hi ≤ 0xbf)

next_byte-IsBounded : (d : Decoder) (b : ℕ) → IsBounded d → IsBounded (next_byte d b).1
unfolding next_byte
next_byte-IsBounded idle b h = ground arith
next_byte-IsBounded (more lo hi left bits) b h = ground arith

-- The first byte of a character ends what was pending.
decode-first :
    (d : Decoder) (b : ℕ) (bs : Bytes)
    → IsBounded d
    → (b < 0x80) ⊎ (0xc0 ≤ b)
    → decode d (b ∷ bs) ≡ at_end d ++ decode idle (b ∷ bs)
unfolding decode
decode-first idle b bs h k = refl
decode-first (more lo hi left bits) b bs h k = ground arith

-- The first byte of a character is no continuation byte.
pub encode_char-first :
    (c : ℕ) → (b : ℕ) × (rest : Bytes) × (encode_char c ≡ b ∷ rest) × ((b < 0x80) ⊎ (0xc0 ≤ b))
unfolding encode_char
encode_char-first c = elim (Bool-cases (ltb c 0x80)) [
  | inl a ↦ (c, [], rw a, inl (ltb→lt _ _ a))
  | inr a ↦ elim (Bool-cases (ltb c 0x800)) [
    | inl b ↦ (0xc0 + c / 64, (0x80 + c % 64) ∷ [], rw (a, b), inr (omega arith))
    | inr b ↦ elim (Bool-cases (ltb c 0x10000)) [
      | inl e ↦ (
        0xe0 + c / 4096,
        (0x80 + c / 64 % 64) ∷ (0x80 + c % 64) ∷ [],
        rw (a, b, e),
        inr (omega arith),
      )
      | inr e ↦ (
        0xf0 + c / 262144,
        (0x80 + c / 4096 % 64) ∷ (0x80 + c / 64 % 64) ∷ (0x80 + c % 64) ∷ [],
        rw (a, b, e),
        inr (omega arith),
      )
    ]
  ]
]

-- A character is decoded as it was, whatever was pending in front of it.
decode-encode_char_pending :
    (d : Decoder) (c : ℕ) (bs : Bytes)
    → IsBounded d
    → IsScalar c
    → decode d (encode_char c ++ bs) ≡ at_end d ++ (c ∷ decode idle bs)
decode-encode_char_pending d c bs h v =
    let (b, rest, e, k) = encode_char-first c in
    ap (λ (x : Bytes). decode d (x ++ bs)) e
    ∙ decode-first d b (rest ++ bs) h k
    ∙ ap (λ (x : Bytes). at_end d ++ decode idle (x ++ bs)) (sym e)
    ∙ ap (λ (x : Text). at_end d ++ x) (decode-encode_char c bs v)

decode-as_bytes :
    (s : Text) (bs : Bytes) → All IsScalar s → decode idle (as_bytes s ++ bs) ≡ s ++ decode idle bs
unfolding as_bytes
decode-as_bytes [] bs h = refl
decode-as_bytes (c ∷ s) bs h =
    rw append_assoc
      (decode-encode_char c (as_bytes s ++ bs) h.0 ∙ ap (◌∷◌ c) (decode-as_bytes s bs h.1))

decode-cons :
    (d : Decoder) (b : ℕ) (bs : Bytes)
    → decode d (b ∷ bs) ≡ (next_byte d b).0 ++ decode (next_byte d b).1 bs
unfolding decode
decode-cons d b bs = refl

-- Between any bytes a text is decoded as it was, with other text around it.
decode-embeds :
    (before : Bytes) (d : Decoder) (s : Text) (after : Bytes)
    → IsBounded d
    → All IsScalar s
    → (p : Text) × (q : Text) × (decode d (before ++ (as_bytes s ++ after)) ≡ p ++ (s ++ q))
unfolding as_bytes
decode-embeds [] d [] after h v = ([], decode d after, refl)
decode-embeds [] d (c ∷ s) after h v = (
  at_end d,
  decode idle after,
  rw append_assoc (
      decode-encode_char_pending d c (as_bytes s ++ after) h v.0
      ∙ ap (λ (x : Text). at_end d ++ (c ∷ x)) (decode-as_bytes s after v.1)),
)
decode-embeds (b ∷ before) d s after h v =
    let (p, q, e) = decode-embeds before (next_byte d b).1 s after (next_byte-IsBounded d b h) v in
    (
      (next_byte d b).0 ++ p,
      q,
      decode-cons d b (before ++ (as_bytes s ++ after))
          ∙ ap (λ (x : Text). (next_byte d b).0 ++ x) e
          ∙ sym (append_assoc (next_byte d b).0 p (s ++ q)),
    )

pub from_utf8_lossy-embeds :
    (before : Bytes) (s : Text) (after : Bytes)
    → All IsScalar s
    → (p : Text) × (q : Text) × (from_utf8_lossy (before ++ (as_bytes s ++ after)) ≡ p ++ (s ++ q))
unfolding from_utf8_lossy
from_utf8_lossy-embeds before s after v = decode-embeds before idle s after tt v

-- Decoding what was encoded gives the text back.
pub from_utf8_lossy-as_bytes : (s : Text) → All IsScalar s → from_utf8_lossy (as_bytes s) ≡ s
unfolding from_utf8_lossy
from_utf8_lossy-as_bytes s v =
    ap (decode idle) (sym (append-nil (as_bytes s)))
    ∙ decode-as_bytes s [] v
    ∙ (unfold decode in append-nil s)

pub encode_char-lt : (c : ℕ) → IsScalar c → All (λ b. b < 256) (encode_char c)
unfolding encode_char
encode_char-lt c v = ground arith

-- Every byte of an encoded text is a byte.
pub as_bytes-lt : (s : Text) → All IsScalar s → All (λ b. b < 256) (as_bytes s)
unfolding as_bytes
as_bytes-lt [] v = tt
as_bytes-lt (c ∷ s) v =
    All-append _ (encode_char c) (as_bytes s) (encode_char-lt c v.0) (as_bytes-lt s v.1)
