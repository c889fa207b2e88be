-- ===== src/Base/Result.antt =====
-- Rust's `Result` with an error that is told by its message.
use mathlib.Core.List.{List}
use mathlib.Core.Logic.{◌⊎◌, inl, inr}
use mathlib.Core.Path.{◌≡◌, refl}
use Prim.Native.Nat.{ℕ}

pub data Result {ℓ} (A : Type ℓ) : Type ℓ where
  ok : A → Result A
  err : List ℕ → Result A

infixl 5 ◌>>=◌
abbrev pub ◌>>=◌ {ℓ κ} : {S : Type ℓ} {T : Type κ} → Result S → (S → Result T) → Result T
err message >>= next = err message
ok found >>= next = next found

-- `map_err`
abbrev pub map_err {ℓ} : {A : Type ℓ} → (List ℕ → List ℕ) → Result A → Result A
map_err told (ok a) = ok a
map_err told (err message) = err (told message)

-- A chain that succeeds has succeeded in its first step and in what follows.
pub >>=-eq-ok {ℓ κ} :
    {S : Type ℓ} {T : Type κ} (step : Result S) (next : S → Result T) {end : T}
    → (step >>= next) ≡ ok end
    → (found : S) × (step ≡ ok found) × (next found ≡ ok end)
>>=-eq-ok (err message) next done = cc
>>=-eq-ok (ok found) next done = (found, refl, done)

pub Result-cases :
    {A : Type 0} (r : Result A) → ((m : List ℕ) × (r ≡ err m)) ⊎ ((x : A) × (r ≡ ok x))
Result-cases (err m) = inl (m, refl)
Result-cases (ok x) = inr (x, refl)
