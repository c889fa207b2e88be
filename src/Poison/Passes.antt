-- ===== src/Poison/Passes.antt =====
-- The analyzer passes every event on, in order, and changes nothing of it but its mark.
use memguard_agent.Base.{◌≡◌, refl, ◌≢◌, inl, inr, List, [], ◌∷◌, Bool-cases}
use memguard_agent.Event.{Event, Files}
use memguard_agent.Json.{Json}
use memguard_agent.Poison.Process.{is_mem_write, mark, matched_of, process}
use memguard_agent.Poison.{PoisonAnalyzer}
use memguard_agent.Text.Lowercase.{Lowercase}
use memguard_agent.Text.{Text, codes, text_ne}

module _ (J : Json) where
  open J use {get, is_object, get-insert}

  -- The same event, but for what may stand under `poison`.
  pub record SameBut (ev e : Event J) : Type 0 where
    pub same_timestamp : e.timestamp ≡ ev.timestamp
    pub same_source : e.source ≡ ev.source
    pub same_pid : e.pid ≡ ev.pid
    pub same_comm : e.comm ≡ ev.comm
    pub same_keys : (k : Text) → codes "poison" ≢ k → get k e.content ≡ get k ev.content

  SameBut-self : (ev : Event J) → SameBut ev ev
  SameBut-self ev = record {
    same_timestamp = refl;
    same_source = refl;
    same_pid = refl;
    same_comm = refl;
    same_keys = λ k ne. refl;
  }

  mark-SameBut : (ev : Event J) (matched : List Text) → SameBut ev (mark J ev matched)
  unfolding mark
  mark-SameBut ev [] = SameBut-self ev
  mark-SameBut ev (m ∷ ms) = elim (Bool-cases (is_object ev.content)) [
    | inl t ↦ record {
      same_timestamp = rw t;
      same_source = rw t;
      same_pid = rw t;
      same_comm = rw t;
      same_keys =
          λ k ne. rw (t, get-insert k (codes "poison") _ _ t, text_ne (codes "poison") k ne) refl;
    }
    | inr f ↦ rw f (SameBut-self ev)
  ]

  abbrev pub Passes : List (Files × Event J) → List (Event J) → Type 0
  Passes [] [] = Unit
  Passes [] (e ∷ es) = ⊥
  Passes (x ∷ xs) [] = ⊥
  Passes ((files, ev) ∷ xs) (e ∷ es) = SameBut ev e × Passes xs es

  -- As many events leave the analyzer as enter it, in the same order, each with its time, source,
  -- process and every key but `poison` as it was.
  pub process-Passes :
      (U : Lowercase) (a : PoisonAnalyzer) (events : List (Files × Event J))
      → Passes events (process J U a events)
  unfolding process
  process-Passes U a [] = tt
  process-Passes U a ((files, ev) ∷ rest) = elim (Bool-cases (is_mem_write J ev)) [
    | inl t ↦ rw t (mark-SameBut ev (matched_of J U a files ev), process-Passes U a rest)
    | inr f ↦ rw f (SameBut-self ev, process-Passes U a rest)
  ]
