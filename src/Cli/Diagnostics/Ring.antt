-- ===== src/Cli/Diagnostics/Ring.antt =====
-- The diagnostics are the newest distinct messages, eight at most.
use memguard_agent.Base.{
  ℕ, zero, suc, ◌-◌, ◌≤◌, ◌≡◌, refl, sym, ap, ◌∙◌, subst, ◌≢◌, ◌⊎◌, inl, inr, true, false, Option,
  none, some, List, [], ◌∷◌, ◌++◌, reverse, append-nil, arith, ltb, leb, Bool-cases, length, take,
  drop, last?, length-append, take-append-drop, length-drop, drop-append_le, take-append_ge,
}
use mathlib.Core.List.{reverse-append, reverse-reverse}
use memguard_agent.Cli.Diagnostics.{
  pop_front_while, is_last, push_tui_diagnostic, recent_tui_diagnostics, push_all,
}
use memguard_agent.Text.{Text, text_eq_iff}

drop_eq : (j k : ℕ) (ds : List Text) → j ≡ k → drop j ds ≡ drop k ds
drop_eq j k ds e = ap (λ (n : ℕ). drop n ds) e

pop_front_while_short : (ds : List Text) → length ds ≤ 8 → pop_front_while ds ≡ ds
unfolding pop_front_while
pop_front_while_short [] h = refl
pop_front_while_short (d ∷ ds) h = ground arith

-- What is left are the newest eight.
pop_front_while-drop : (ds : List Text) → pop_front_while ds ≡ drop (length ds - 8) ds
unfolding pop_front_while
pop_front_while-drop [] = refl
pop_front_while-drop (d ∷ ds) = elim (Bool-cases (ltb 8 (length (d ∷ ds)))) [
  | inl t ↦ rw t (
      pop_front_while-drop ds
      ∙ drop_eq (suc (length ds - 8)) (suc (length ds) - 8) (d ∷ ds) (ground arith))
  | inr f ↦ rw f (drop_eq 0 (suc (length ds) - 8) (d ∷ ds) (ground arith))
]

-- No two messages next to each other are the same.
abbrev pub NoRepeat : List Text → Type 0
NoRepeat [] = Unit
NoRepeat (x ∷ []) = Unit
NoRepeat (x ∷ (y ∷ r)) = (x ≢ y) × NoRepeat (y ∷ r)

NoRepeat-tail : (x : Text) (ds : List Text) → NoRepeat (x ∷ ds) → NoRepeat ds
NoRepeat-tail x [] h = tt
NoRepeat-tail x (y ∷ r) h = h.1

NoRepeat-drop : (k : ℕ) (ds : List Text) → NoRepeat ds → NoRepeat (drop k ds)
NoRepeat-drop zero ds h = h
NoRepeat-drop (suc k) [] h = tt
NoRepeat-drop (suc k) (d ∷ ds) h = NoRepeat-drop k ds (NoRepeat-tail d ds h)

NoRepeat-concat :
    (ds : List Text) (m : Text)
    → NoRepeat ds
    → is_last (last? ds) m ≡ false
    → NoRepeat (ds ++ (m ∷ []))
NoRepeat-concat [] m h l = tt
NoRepeat-concat (x ∷ []) m h l = (λ e. cc ((text_eq_iff x m).1 e), tt)
NoRepeat-concat (x ∷ (y ∷ r)) m h l = (h.0, NoRepeat-concat (y ∷ r) m h.1 l)

last?-concat : (ds : List Text) (m : Text) → last? (ds ++ (m ∷ [])) ≡ some m
last?-concat [] m = refl
last?-concat (x ∷ []) m = refl
last?-concat (x ∷ (y ∷ r)) m = last?-concat (y ∷ r) m

last?-is_last : (o : Option Text) (m : Text) → is_last o m ≡ true → o ≡ some m
last?-is_last none m h = cc
last?-is_last (some l) m h = ap some ((text_eq_iff l m).0 h)

pushed :
    (ds : List Text) (m : Text)
    → pop_front_while (ds ++ (m ∷ [])) ≡ drop (length ds - 7) ds ++ (m ∷ [])
pushed ds m =
    pop_front_while-drop (ds ++ (m ∷ []))
    ∙ drop_eq (length (ds ++ (m ∷ [])) - 8) (length ds - 7) (ds ++ (m ∷ []))
        (omega (arith, length-append ds (m ∷ [])))
    ∙ drop-append_le (length ds - 7) ds (m ∷ []) (omega arith)

pub record IsRing (ds : List Text) : Type 0 where
  pub bounded : length ds ≤ 8
  pub no_repeat : NoRepeat ds

-- Where eight messages at most are kept and none stands next to an equal one, the same holds after
-- a push, and the pushed message is the newest.
pub push_tui_diagnostic-IsRing :
    (ds : List Text) (m : Text)
    → IsRing ds
    → IsRing (push_tui_diagnostic ds m) × (last? (push_tui_diagnostic ds m) ≡ some m)
unfolding push_tui_diagnostic
push_tui_diagnostic-IsRing ds m h = elim (Bool-cases (is_last (last? ds) m)) [
  | inl t ↦ rw t (h, last?-is_last (last? ds) m t)
  | inr f ↦
      rw (f, pushed ds m)
        (
          record {
            bounded =
                (omega (
                  arith,
                  length-append (drop (length ds - 7) ds) (m ∷ []),
                  length-drop (length ds - 7) ds,
                ));
            no_repeat = subst NoRepeat (drop-append_le (length ds - 7) ds (m ∷ []) (omega arith)) (
                NoRepeat-drop (length ds - 7) (ds ++ (m ∷ []))
                  (NoRepeat-concat ds m h.no_repeat f));
          },
          last?-concat (drop (length ds - 7) ds) m,
        )
]

-- So it stays for any number of messages, from the empty ring on.
pub push_all-IsRing : (ds ms : List Text) → IsRing ds → IsRing (push_all ds ms)
unfolding push_all
push_all-IsRing ds [] h = h
push_all-IsRing ds (m ∷ ms) h =
    push_all-IsRing (push_tui_diagnostic ds m) ms (push_tui_diagnostic-IsRing ds m h).0

length-reverse : (xs : List Text) → length (reverse xs) ≡ length xs
length-reverse [] = refl
length-reverse (x ∷ xs) =
    ap length (reverse-append (x ∷ []) xs)
    ∙ length-append (reverse xs) (x ∷ [])
    ∙ omega (arith, length-reverse xs)

abbrev no_text : List Text
no_text = []

take_nil : (n : ℕ) → take n no_text ≡ []
take_nil zero = refl
take_nil (suc n) = refl

take_none : (n k : ℕ) (ds : List Text) → (n ≡ 0) ⊎ (k ≡ 0) → take n (reverse (take k ds)) ≡ []
take_none n k ds (inl e) = ap (λ (j : ℕ). take j (reverse (take k ds))) e
take_none n k ds (inr e) = ap (λ (j : ℕ). take n (reverse (take j ds))) e ∙ take_nil n

zero_or : (n limit : ℕ) → (limit - (n - (n - limit)) ≡ 0) ⊎ (n - limit ≡ 0)
zero_or n limit = elim (Bool-cases (leb limit n)) [
  | inl t ↦ inl (ground arith)
  | inr f ↦ inr (ground arith)
]

take-reverse :
    (ds : List Text) (limit : ℕ) → take limit (reverse ds) ≡ reverse (drop (length ds - limit) ds)
take-reverse ds limit =
    let k = length ds - limit in
    let l = length-reverse (drop k ds) ∙ length-drop k ds in
    ap (λ (xs : List Text). take limit (reverse xs)) (sym (take-append-drop k ds))
    ∙ ap (take limit) (reverse-append (take k ds) (drop k ds))
    ∙ take-append_ge limit (reverse (drop k ds)) (reverse (take k ds)) (omega (arith, l))
    ∙ ap (λ (n : ℕ). reverse (drop k ds) ++ take (limit - n) (reverse (take k ds))) l
    ∙ ap (λ (xs : List Text). reverse (drop k ds) ++ xs)
        (take_none (limit - (length ds - k)) k ds (zero_or (length ds) limit))
    ∙ append-nil (reverse (drop k ds))

-- The recent diagnostics are the newest ones, in the order in which they came.
pub recent_tui_diagnostics-drop :
    (ds : List Text) (limit : ℕ) → recent_tui_diagnostics ds limit ≡ drop (length ds - limit) ds
unfolding recent_tui_diagnostics
recent_tui_diagnostics-drop ds limit =
    ap reverse (take-reverse ds limit) ∙ reverse-reverse (drop (length ds - limit) ds)
