-- ===== src/Text/Utf8/Chars.antt =====
-- A character that stands encoded in front of any bytes is decoded as it was.
use memguard_agent.Base.{
  ℕ, ◌+◌, ◌-◌, ◌*◌, ◌/◌, ◌%◌, ◌≤◌, ◌<◌, ◌∷◌, ◌++◌, ◌≡◌, ◌≢◌, inl, inr, ap, ◌∙◌, arith, ltb, ◌==◌,
  if◌then◌else◌, Bool-cases, ltb→lt,
}
use memguard_agent.Text.{Bytes}
use memguard_agent.Text.Utf8.{IsScalar, encode_char, idle, more, decode}

-- A byte in its bounds goes on with the character, and the last one ends it.
decode-more :
    (lo hi left bits b : ℕ) (bs : Bytes)
    → lo ≤ b
    → b ≤ hi
    → left ≢ 1
    → decode (more lo hi left bits) (b ∷ bs)
      ≡ decode (more 0x80 0xbf (left - 1) (bits * 64 + (b - 0x80))) bs
unfolding decode
decode-more lo hi left bits b bs p q r = ground arith

decode-last :
    (lo hi bits b : ℕ) (bs : Bytes)
    → lo ≤ b
    → b ≤ hi
    → decode (more lo hi 1 bits) (b ∷ bs) ≡ (bits * 64 + (b - 0x80)) ∷ decode idle bs
unfolding decode
decode-last lo hi bits b bs p q = ground arith

module _ (b : ℕ) (bs : Bytes) where
  decode-lead_2 :
      0xc2 ≤ b → b < 0xe0 → decode idle (b ∷ bs) ≡ decode (more 0x80 0xbf 1 (b - 0xc0)) bs
  unfolding decode
  decode-lead_2 h k = ground arith

  decode-lead_3 :
      0xe0 ≤ b
      → b < 0xf0
      → decode idle (b ∷ bs)
        ≡ decode
            (more
              (if b == 0xe0 then 0xa0 else 0x80)
              (if b == 0xed then 0x9f else 0xbf)
              2
              (b - 0xe0))
            bs
  unfolding decode
  decode-lead_3 h k = ground arith

  decode-lead_4 :
      0xf0 ≤ b
      → b < 0xf5
      → decode idle (b ∷ bs)
        ≡ decode
            (more
              (if b == 0xf0 then 0x90 else 0x80)
              (if b == 0xf4 then 0x8f else 0xbf)
              3
              (b - 0xf0))
            bs
  unfolding decode
  decode-lead_4 h k = ground arith

module _ (c : ℕ) (bs : Bytes) where
  decode_1 : c < 0x80 → decode idle (c ∷ bs) ≡ c ∷ decode idle bs
  unfolding decode
  decode_1 h = ground arith

  decode_2 :
      0x80 ≤ c
      → c < 0x800
      → decode idle ((0xc0 + c / 64) ∷ (0x80 + c % 64) ∷ bs) ≡ c ∷ decode idle bs
  decode_2 h k =
      decode-lead_2 _ _ (omega arith) (omega arith)
      ∙ decode-last 0x80 0xbf _ _ bs (omega arith) (omega arith)
      ∙ ap (λ (n : ℕ). n ∷ decode idle bs) (omega arith)

  decode_3 :
      0x800 ≤ c
      → c < 0x10000
      → IsScalar c
      → decode idle ((0xe0 + c / 4096) ∷ (0x80 + c / 64 % 64) ∷ (0x80 + c % 64) ∷ bs)
        ≡ c ∷ decode idle bs
  decode_3 h k v =
      decode-lead_3 _ _ (omega arith) (omega arith)
      ∙ decode-more _ _ 2 _ _ _ (ground arith) (ground arith) (omega arith)
      ∙ decode-last 0x80 0xbf _ _ bs (omega arith) (omega arith)
      ∙ ap (λ (n : ℕ). n ∷ decode idle bs) (omega arith)

  decode_4 :
      0x10000 ≤ c
      → IsScalar c
      → decode idle (
          (0xf0 + c / 262144)
          ∷ (0x80 + c / 4096 % 64)
          ∷ (0x80 + c / 64 % 64)
          ∷ (0x80 + c % 64)
          ∷ bs)
        ≡ c ∷ decode idle bs
  decode_4 h v =
      decode-lead_4 _ _ (omega arith) (omega arith)
      ∙ decode-more _ _ 3 _ _ _ (ground arith) (ground arith) (omega arith)
      ∙ decode-more _ _ 2 _ _ _ (omega arith) (omega arith) (omega arith)
      ∙ decode-last 0x80 0xbf _ _ bs (omega arith) (omega arith)
      ∙ ap (λ (n : ℕ). n ∷ decode idle bs) (omega arith)

pub decode-encode_char :
    (c : ℕ) (bs : Bytes) → IsScalar c → decode idle (encode_char c ++ bs) ≡ c ∷ decode idle bs
unfolding encode_char
decode-encode_char c bs v = elim (Bool-cases (ltb c 0x80)) [
  | inl a ↦ rw a (decode_1 c bs (ltb→lt _ _ a))
  | inr a ↦ elim (Bool-cases (ltb c 0x800)) [
    | inl b ↦ rw (a, b) (decode_2 c bs (ground arith) (ltb→lt _ _ b))
    | inr b ↦ elim (Bool-cases (ltb c 0x10000)) [
      | inl e ↦ rw (a, b, e) (decode_3 c bs (ground arith) (ltb→lt _ _ e) v)
      | inr e ↦ rw (a, b, e) (decode_4 c bs (ground arith) v)
    ]
  ]
]
