-- ===== src/Poison/Bag.antt =====
-- The rules of the analyzer up to their order.
use memguard_agent.Base.{
  ℕ, suc, min, ◌≡◌, refl, sym, ap, ◌∙◌, fun_ext, inl, inr, Bool, true, false, Option, none, some,
  List, [], ◌∷◌, leb, if◌then◌else◌, Bool-cases, Option-cases, length, is_empty, keep,
}
use mathlib.Core.HLevel.{Σ_prop_path}
use mathlib.Core.List.{Permᴰ}
use mathlib.Core.List.Permᴰ.{nil, cons, swap, trans}
use mathlib.Core.Path.{ap₂}
use mathlib.Core.Quot
use mathlib.Core.Quot.{Quot, Quot-set}
use std.Equiv.{IsContr}
use memguard_agent.Event.{Event, Files, get_str, get_u64}
use memguard_agent.Json.{Json}
use memguard_agent.Poison.Process.{is_watched, compensate, matched_of}
use memguard_agent.Poison.Scan.{
  push_matching-keep, scan_windows-keep, scan_file_range-some, scan_file_range-none,
}
use memguard_agent.Poison.{
  PoisonAnalyzer, scan_windows, scan_file_range, severity, window_hit, scan_bytes, saturating_add,
  max_scan, chunk_hit, chunk_of,
}
use memguard_agent.Text.Lowercase.{Lowercase}
use memguard_agent.Text.{Text, Bytes, codes}

-- Two lists hold the same signatures, as often.
abbrev pub SameRules : List Text → List Text → Type 0
SameRules = Permᴰ {A = Text}

-- Lists of signatures up to order.
abbrev pub Bag : Type 0
Bag = Quot SameRules

abbrev pub of_list : List Text → Bag
of_list = Quot.mk

same : (xs : List Text) → SameRules xs xs
same [] = nil
same (x ∷ xs) = cons refl (same xs)

keep-SameRules :
    (p : Text → Bool) (xs ys : List Text) → SameRules xs ys → SameRules (keep p xs) (keep p ys)
keep-SameRules p [] [] nil = nil
keep-SameRules p (x ∷ xs) (y ∷ ys) (cons e d) = elim (Bool-cases (p x)) [
  | inl t ↦ rw (t, sym (ap p e) ∙ t) (cons e (keep-SameRules p xs ys d))
  | inr f ↦ rw (f, sym (ap p e) ∙ f) (keep-SameRules p xs ys d)
]
keep-SameRules p (x ∷ (y ∷ xs)) (y' ∷ (x' ∷ ys)) (swap e e') = elim (Bool-cases (p x)) [
  | inl t ↦ elim (Bool-cases (p y)) [
    | inl t' ↦ rw (t, t', sym (ap p e) ∙ t, sym (ap p e') ∙ t') (swap e e')
    | inr f' ↦ rw (t, f', sym (ap p e) ∙ t, sym (ap p e') ∙ f') (cons e (same (keep p xs)))
  ]
  | inr f ↦ elim (Bool-cases (p y)) [
    | inl t' ↦ rw (f, t', sym (ap p e) ∙ f, sym (ap p e') ∙ t') (cons e' (same (keep p xs)))
    | inr f' ↦ rw (f, f', sym (ap p e) ∙ f, sym (ap p e') ∙ f') (same (keep p xs))
  ]
]
keep-SameRules p xs zs (trans {l₂ = ys} d d') =
    trans (keep-SameRules p xs ys d) (keep-SameRules p ys zs d')

length-SameRules : (xs ys : List Text) → SameRules xs ys → length xs ≡ length ys
length-SameRules [] [] nil = refl
length-SameRules (x ∷ xs) (y ∷ ys) (cons e d) = ap suc (length-SameRules xs ys d)
length-SameRules (x ∷ (y ∷ xs)) (y' ∷ (x' ∷ ys)) (swap e e') = refl
length-SameRules xs zs (trans {l₂ = ys} d d') = length-SameRules xs ys d ∙ length-SameRules ys zs d'

is_empty-SameRules : (xs ys : List Text) → SameRules xs ys → is_empty xs ≡ is_empty ys
is_empty-SameRules [] [] nil = refl
is_empty-SameRules (x ∷ xs) (y ∷ ys) (cons e d) = refl
is_empty-SameRules (x ∷ (y ∷ xs)) (y' ∷ (x' ∷ ys)) (swap e e') = refl
is_empty-SameRules xs zs (trans {l₂ = ys} d d') =
    is_empty-SameRules xs ys d ∙ is_empty-SameRules ys zs d'

severity-SameRules : (xs ys : List Text) → SameRules xs ys → severity xs ≡ severity ys
unfolding severity
severity-SameRules xs ys d = rw (length-SameRules xs ys d) refl

module _ (U : Lowercase) where
  scan_windows-SameRules :
      (head tail : Option Text) (xs ys : List Text)
      → SameRules xs ys
      → SameRules (scan_windows U head tail xs) (scan_windows U head tail ys)
  scan_windows-SameRules head tail xs ys d =
      rw (scan_windows-keep U head tail xs, scan_windows-keep U head tail ys)
        (keep-SameRules (window_hit U head tail) xs ys d)

  scan_bytes-SameRules :
      (bytes : Bytes) (offset count : ℕ) (xs ys : List Text)
      → SameRules xs ys
      → SameRules (scan_bytes U bytes offset count xs) (scan_bytes U bytes offset count ys)
  unfolding scan_bytes
  scan_bytes-SameRules bytes offset count xs ys d =
      let len = length bytes in
      let start = min offset len in
      let end = min (saturating_add offset (min count max_scan)) len in
      elim (Bool-cases (leb end start)) [
        | inl t ↦ rw t nil
        | inr f ↦
            rw
              (
                f,
                push_matching-keep (chunk_hit U (chunk_of U bytes start end)) [] xs,
                push_matching-keep (chunk_hit U (chunk_of U bytes start end)) [] ys,
              )
              (keep-SameRules (chunk_hit U (chunk_of U bytes start end)) xs ys d)
      ]

  scan_file_range-SameRules :
      (files : Files) (path : Text) (offset count : ℕ) (xs ys : List Text)
      → SameRules xs ys
      → SameRules
          (scan_file_range U files path offset count xs)
          (scan_file_range U files path offset count ys)
  scan_file_range-SameRules files path offset count xs ys d = elim (Option-cases (files path)) [
    | inl n ↦
        rw
          (
            scan_file_range-none U files path offset count xs n,
            scan_file_range-none U files path offset count ys n,
          )
          nil
    | inr (bytes, e) ↦
        rw
          (
            scan_file_range-some U files path offset count xs e,
            scan_file_range-some U files path offset count ys e,
          )
          (scan_bytes-SameRules bytes offset count xs ys d)
  ]

  module _ (J : Json) (prefix : Text) where
    abbrev pub with : List Text → PoisonAnalyzer
    with rules = record { prefix = prefix; rules = rules }

    compensate-SameRules :
        (files : Files) (path : Option Text) (offset count : Option ℕ) (xs ys : List Text)
        → SameRules xs ys
        → SameRules
            (compensate J U (with xs) files path offset count)
            (compensate J U (with ys) files path offset count)
    unfolding compensate
    compensate-SameRules files none offset count xs ys d = nil
    compensate-SameRules files (some path) none count xs ys d = nil
    compensate-SameRules files (some path) (some offset) none xs ys d = nil
    compensate-SameRules files (some path) (some offset) (some count) xs ys d =
        elim (Bool-cases (is_watched J U (with xs) path)) [
          | inl t ↦ rw t (scan_file_range-SameRules files path offset count xs ys d)
          | inr f ↦ rw f nil
        ]

    matched_of-SameRules :
        (files : Files) (ev : Event J) (xs ys : List Text)
        → SameRules xs ys
        → SameRules (matched_of J U (with xs) files ev) (matched_of J U (with ys) files ev)
    unfolding matched_of
    matched_of-SameRules files ev xs ys d =
        let path = get_str J (codes "path") ev.content in
        let offset = get_u64 J (codes "offset") ev.content in
        let count = get_u64 J (codes "count") ev.content in
        let shown =
          scan_windows-SameRules (get_str J (codes "head") ev.content)
            (get_str J (codes "tail") ev.content) xs ys d in
        pick _ _ (is_empty-SameRules _ _ shown)
          (compensate-SameRules files path offset count xs ys d) shown
      where
        pick :
            (b b' : Bool) {c c' w w' : List Text}
            → b ≡ b'
            → SameRules c c'
            → SameRules w w'
            → SameRules (if b then c else w) (if b' then c' else w')
        pick true true e dc dw = dc
        pick true false e dc dw = cc
        pick false true e dc dw = cc
        pick false false e dc dw = dw

    -- What an event is found to hold, up to order, and how grave that is.
    abbrev pub found : Files → Event J → List Text → Bag × Text
    found files ev rules =
        let matched = matched_of J U (with rules) files ev in (of_list matched, severity matched)

    found-SameRules :
        (files : Files) (ev : Event J) (xs ys : List Text)
        → SameRules xs ys
        → found files ev xs ≡ found files ev ys
    found-SameRules files ev xs ys d =
        let alike = matched_of-SameRules files ev xs ys d in
        ap₂ (λ (b : Bag) (t : Text). (b, t)) (Quot.sound alike) (severity-SameRules _ _ alike)

    -- Whatever the event and the files, the signatures that an event is marked with, up to order, and
    -- its severity hang on the rules up to order alone: exactly one function of the bag of rules gives
    -- them for every list of rules.
    pub found_of_bag :
        (files : Files) (ev : Event J)
        → IsContr (
            (g : Bag → Bag × Text) × ((rules : List Text)
              → g (of_list rules) ≡ found files ev rules))
    found_of_bag files ev = (
      (Quot.lift results (found files ev) (found-SameRules files ev), λ rules. refl),
      λ other.
          Σ_prop_path (λ g. hlevel results)
            (fun_ext (Quot.ind (λ b. hlevel results) (λ rules. other.1 rules))),
    )
      where
        results : IsSet (Bag × Text)
        results = hlevel Quot-set
