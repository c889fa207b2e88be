-- ===== src/Text/Utf8/Parts.antt =====
-- The parts of an encoded text are the encoded parts of the text.
use memguard_agent.Base.{
  ℕ, ◌≤◌, ◌<◌, ◌≡◌, refl, sym, ap, ◌∙◌, ◌≢◌, inl, inr, List, [], ◌∷◌, ◌++◌, map, arith, ◌==◌,
  Bool-cases, length, All, Elem,
}
use memguard_agent.Text.Split.{Lacks, split-pos}
use memguard_agent.Text.Utf8.{encode_char, as_bytes}
use memguard_agent.Text.{Text, Bytes, split, onto_first}

-- A first part with more bytes in front.
in_front : Bytes → List Bytes → List Bytes
in_front bs [] = bs ∷ []
in_front bs (t ∷ ts) = (bs ++ t) ∷ ts

onto_first-in_front :
    (b : ℕ) (bs : Bytes) (ts : List Bytes) → onto_first b (in_front bs ts) ≡ in_front (b ∷ bs) ts
unfolding onto_first in_front
onto_first-in_front b bs [] = refl
onto_first-in_front b bs (t ∷ ts) = refl

in_front-nil : (ts : List Bytes) → 1 ≤ length ts → in_front [] ts ≡ ts
unfolding in_front
in_front-nil [] h = absurd (omega arith)
in_front-nil (t ∷ ts) h = refl

split-in_front :
    (sep : ℕ) (bs t : Bytes) → Lacks sep bs → split sep (bs ++ t) ≡ in_front bs (split sep t)
unfolding split
split-in_front sep [] t h = sym (in_front-nil (split sep t) (split-pos sep t))
split-in_front sep (b ∷ bs) t h = elim (Bool-cases (b == sep)) [
  | inl y ↦ absurd (ground arith)
  | inr f ↦
      rw f
        (ap (onto_first b) (split-in_front sep bs t h.1) ∙ onto_first-in_front b bs (split sep t))
]

-- An ASCII character stands in no other character's bytes.
encode_char-Lacks : (sep c : ℕ) → sep < 0x80 → c ≢ sep → Lacks sep (encode_char c)
unfolding encode_char
encode_char-Lacks sep c h ne = ground arith

encode_char-ascii : (c : ℕ) → c < 0x80 → encode_char c ≡ c ∷ []
unfolding encode_char
encode_char-ascii c h = ground arith

map-onto_first :
    (c : ℕ) (ts : List Text)
    → 1 ≤ length ts
    → map as_bytes (onto_first c ts) ≡ in_front (encode_char c) (map as_bytes ts)
unfolding onto_first as_bytes in_front
map-onto_first c [] h = absurd (omega arith)
map-onto_first c (t ∷ ts) h = refl

pub split-as_bytes :
    (sep : ℕ) (s : Text) → sep < 0x80 → split sep (as_bytes s) ≡ map as_bytes (split sep s)
unfolding split as_bytes
split-as_bytes sep [] h = refl
split-as_bytes sep (c ∷ s) h = elim (Bool-cases (c == sep)) [
  | inl t ↦ rw (encode_char-ascii c (ground arith), t) (ap (◌∷◌ []) (split-as_bytes sep s h))
  | inr f ↦ rw f (
      split-in_front sep (encode_char c) (as_bytes s) (encode_char-Lacks sep c h (ground arith))
      ∙ ap (in_front (encode_char c)) (split-as_bytes sep s h)
      ∙ sym (map-onto_first c (split sep s) (split-pos sep s)))
]

pub Elem-map :
    (ts : List Text) (y : Bytes)
    → Elem y (map as_bytes ts)
    → (t : Text) × Elem t ts × (y ≡ as_bytes t)
Elem-map [] y m = elim m [ ]
Elem-map (t ∷ ts) y (inl e) = (t, inl refl, e)
Elem-map (t ∷ ts) y (inr m) = let (u, there, e) = Elem-map ts y m in (u, inr there, e)

-- The parts of a text have its characters.
onto_first-All :
    (P : ℕ → Type 0) (c : ℕ) (ts : List Text) → P c → All (All P) ts → All (All P) (onto_first c ts)
unfolding onto_first
onto_first-All P c [] p h = ((p, tt), tt)
onto_first-All P c (t ∷ ts) p h = ((p, h.0), h.1)

split-All : (P : ℕ → Type 0) (sep : ℕ) (s : Text) → All P s → All (All P) (split sep s)
unfolding split
split-All P sep [] h = (tt, tt)
split-All P sep (c ∷ s) h = elim (Bool-cases (c == sep)) [
  | inl t ↦ rw t (tt, split-All P sep s h.1)
  | inr f ↦ rw f (onto_first-All P c (split sep s) h.0 (split-All P sep s h.1))
]

All-Elem : {A : Type 0} → (P : A → Type 0) (x : A) (xs : List A) → All P xs → Elem x xs → P x
All-Elem P x [] h m = elim m [ ]
All-Elem P x (y ∷ ys) h (inl e) = rw e h.0
All-Elem P x (y ∷ ys) h (inr m) = All-Elem P x ys h.1 m

pub split-Elem-All :
    (P : ℕ → Type 0) (sep : ℕ) (s t : Text) → All P s → Elem t (split sep s) → All P t
split-Elem-All P sep s t h m = All-Elem (All P) t (split sep s) (split-All P sep s h) m

-- A text of ASCII characters is encoded as it is.
pub as_bytes-ascii : (s : Text) → All (λ c. c < 0x80) s → as_bytes s ≡ s
unfolding as_bytes
as_bytes-ascii [] h = refl
as_bytes-ascii (c ∷ s) h = rw (encode_char-ascii c h.0) (ap (◌∷◌ c) (as_bytes-ascii s h.1))
