-- ===== src/Probe/Agrees.antt =====
-- The analyzer watches every file that the probe captures.
use memguard_agent.Base.{
  ℕ, ◌≤◌, ◌≡◌, refl, sym, ap, ◌∙◌, subst, inl, inr, Bool, true, false, not, ◌||◌, Option, none,
  some, List, [], ◌∷◌, ◌++◌, append_assoc, arith, Bool-cases, length, take, is_empty, keep, any,
  All, Elem,
}
use memguard_agent.Json.{Json}
use memguard_agent.Poison.Process.{is_watched}
use memguard_agent.Poison.{PoisonAnalyzer}
use memguard_agent.Probe.Line.{Printed, resolve_path}
use memguard_agent.Probe.Loader.{tokens, watch_prefixes}
use memguard_agent.Probe.Loader.Parts.{named_part}
use memguard_agent.Probe.Read.{vfs_write-some}
use memguard_agent.Probe.Watch.{match_prefix-watch_prefixes}
use memguard_agent.Probe.{MemwriteEvent, Kernel, match_prefix, watched_name, write_event, vfs_write}
use memguard_agent.Text.Lowercase.{Lowercase}
use memguard_agent.Text.Split.{split-pos}
use memguard_agent.Text.Search.{starts_with-split, contains-append}
use memguard_agent.Text.Utf8.{IsScalar, as_bytes, from_utf8_lossy}
use memguard_agent.Text.Utf8.Embeds.{from_utf8_lossy-embeds}
use memguard_agent.Text.Utf8.Parts.{split-as_bytes, Elem-map, split-Elem-All}
use memguard_agent.Text.{Text, Bytes, split, starts_with, contains}

Elem-any :
    (p : Bytes → Bool) (x : Bytes) (xs : List Bytes) → Elem x xs → p x ≡ true → any p xs ≡ true
Elem-any p x [] m h = elim m [ ]
Elem-any p x (y ∷ xs) (inl e) h = rw (rw e at h)
Elem-any p x (y ∷ xs) (inr m) h = elim (Bool-cases (p y)) [
  | inl t ↦ rw t
  | inr f ↦ rw f (Elem-any p x xs m h)
]

no_token :
    (ts : List Bytes)
    → 1 ≤ length ts
    → is_empty (keep (λ tok. not (is_empty tok)) ts) ≡ true
    → Elem [] ts
no_token [] h k = absurd (omega arith)
no_token ([] ∷ ts) h k = inl refl
no_token ((c ∷ t) ∷ ts) h k = cc

resolve_path-end :
    (link : Option Bytes) (e : MemwriteEvent)
    → (front : Bytes) × (resolve_path link e ≡ front ++ e.filename)
unfolding resolve_path
resolve_path-end none e = ([], refl)
resolve_path-end (some link) e = elim (Bool-cases (is_empty (take 511 link))) [
  | inl t ↦ ([], rw t)
  | inr f ↦ (
    take 511 link ++ (b'/' ∷ []),
    rw f (sym (append_assoc (take 511 link) (b'/' ∷ []) e.filename)),
  )
]

starts_with-nil : (s : Bytes) → starts_with s [] ≡ true
starts_with-nil [] = refl
starts_with-nil (c ∷ s) = refl

watched_name-some :
    (prefixes : List Bytes) (name : Option Bytes) (fname : Bytes)
    → watched_name prefixes name ≡ some fname
    → match_prefix prefixes fname ≡ true
unfolding watched_name
watched_name-some prefixes none fname h = cc
watched_name-some prefixes (some name) fname h =
    elim (Bool-cases (match_prefix prefixes (take 126 name))) [
      | inl t ↦ subst (λ (n : Bytes). match_prefix prefixes n ≡ true) (some-injective (rw t at h)) t
      | inr f ↦ absurd (none-some (rw f at h))
    ]
  where
    some-injective : {x y : Bytes} → some x ≡ some y → x ≡ y
    some-injective e = cc

    none-some : {y : Bytes} → none ≡ some y → ⊥
    none-some e = cc

module _ (J : Json) (U : Lowercase) (a : PoisonAnalyzer) where
  part-is_watched :
      (path x : Text)
      → Elem x (split b',' a.prefix)
      → contains path x ≡ true
      → is_watched J U a path ≡ true
  part-is_watched path x m h =
      rw (Elem-any (contains path) x (split b',' a.prefix) m h) (or_true (is_empty a.prefix))
    where
      or_true : (b : Bool) → (b || true) ≡ true
      or_true true = refl
      or_true false = refl

  -- A path whose bytes end in a name that starts with an encoded part of the prefix.
  encoded-is_watched :
      (front name y : Bytes)
      → All IsScalar a.prefix
      → Elem y (split b',' (as_bytes a.prefix))
      → starts_with name y ≡ true
      → is_watched J U a (from_utf8_lossy (front ++ name)) ≡ true
  encoded-is_watched front name y v m h =
      let (x, there, e) =
        Elem-map (split b',' a.prefix) y
          (subst (Elem y) (split-as_bytes b',' a.prefix (omega arith)) m) in
      let (rest, whole) = starts_with-split name (as_bytes x) (rw e at h) in
      let (p, q, decoded) =
        from_utf8_lossy-embeds front x rest (split-Elem-All IsScalar b',' a.prefix x v there) in
      rw (whole, decoded) (part-is_watched (p ++ (x ++ q)) x there (contains-append p x q))

  named-is_watched :
      (link : Option Bytes) (e : MemwriteEvent)
      → All IsScalar a.prefix
      → length (as_bytes a.prefix) ≤ 63
      → any (starts_with e.filename) (watch_prefixes (as_bytes a.prefix)) ≡ true
      → is_watched J U a (from_utf8_lossy (resolve_path link e)) ≡ true
  named-is_watched link e v h m =
      let (front, ends) = resolve_path-end link e in
      let arg = as_bytes a.prefix in
      rw ends (elim (named_part arg e.filename h m) [
        | inl no_tokens ↦
            encoded-is_watched front e.filename [] v
              (no_token (split b',' arg) (split-pos b',' arg) (unfold tokens in no_tokens))
              (starts_with-nil e.filename)
        | inr (y, there, starts) ↦ encoded-is_watched front e.filename y v there starts
      ])

  -- A write that the probe captures, with the prefixes of the encoded text that the analyzer is given
  -- too, which is 63 bytes long at most, is to a file that the analyzer watches, whether or not the
  -- writer's working directory could be read, if what is printed of its path reads back as the
  -- path's bytes decoded, as it does where the path is printable ASCII.
  pub vfs_write-is_watched :
      (printed : Printed) (k : Kernel) (valid : Bool) (count : ℕ) (e : MemwriteEvent)
      (link : Option Bytes)
      → All IsScalar a.prefix
      → length (as_bytes a.prefix) ≤ 63
      → vfs_write (watch_prefixes (as_bytes a.prefix)) k valid count ≡ some e
      → printed.read_back (resolve_path link e) ≡ from_utf8_lossy (resolve_path link e)
      → is_watched J U a (printed.read_back (resolve_path link e)) ≡ true
  vfs_write-is_watched printed k valid count e link v h captured reads =
      let prefixes = watch_prefixes (as_bytes a.prefix) in
      let (fname, w, same) = vfs_write-some prefixes k valid count e captured in
      let name : fname ≡ e.filename =
        (unfold write_event in ap (λ (x : MemwriteEvent). x.filename) same) in
      rw reads (
        named-is_watched link e v h (
          sym (match_prefix-watch_prefixes (as_bytes a.prefix) e.filename)
          ∙ subst (λ (n : Bytes). match_prefix prefixes n ≡ true) name
              (watched_name-some prefixes k.name fname w)))
