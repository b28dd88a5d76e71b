-- ===== src/Api/Act.antt =====
-- internal/api/handler: code that changes the state behind the API and may return an error. What was
-- written before the error stays written.
use link_raft.Prelude.{tt, ℕ, Str, Bool, true, false, Option, none, some, List, [], ◌∷◌}
use link_raft.Prelude.Results.{Result, ok, err}

-- `echo.NewHTTPError`, an error of the key-value store, another error, or a panic.
pub data Failure : Type 0 where
  http : ℕ → Str → Failure
  unavailable : Failure
  internal : Failure
  panicked : Failure

abbrev pub Act : Type 0 → Type 0 → Type 0
Act S A = S → S × Result Failure A

module _ {S A : Type 0} where
  abbrev pub pure : A → Act S A
  pure a s = (s, ok a)

  abbrev pub raise : Failure → Act S A
  raise e s = (s, err e)

  abbrev pub returning : Result Failure A → Act S A
  returning r s = (s, r)

  -- The value of `found, err := …` behind the test of `found`.
  abbrev pub require : Failure → Option A → Act S A
  require e none = raise e
  require e (some a) = pure a

module _ {S A B : Type 0} where
  abbrev pub continue : Result Failure A → (A → Act S B) → Act S B
  continue (ok a) f s = f a s
  continue (err e) f s = (s, err e)

  infixl 5 ◌>>=◌ ◌>>◌
  unfoldable pub ◌>>=◌ : Act S A → (A → Act S B) → Act S B
  ◌>>=◌ m f s = let (t, r) = m s in continue r f t

  abbrev pub ◌>>◌ : Act S A → Act S B → Act S B
  m >> n = m >>= λ _. n

module _ {S : Type 0} where
  -- An early return of an error.
  abbrev pub reject : Bool → Failure → Act S (Unit {0})
  reject true e = raise e
  reject false e = pure tt

  -- A statement under an `if` without an `else`.
  abbrev pub when : Bool → Act S (Unit {0}) → Act S (Unit {0})
  when true m = m
  when false m = pure tt

  -- for _, x := range xs { … }
  abbrev pub each : {X : Type 0} → (X → Act S (Unit {0})) → List X → Act S (Unit {0})
  each f [] = pure tt
  each f (x ∷ xs) = f x >>= λ u. each f xs

-- The statuses of package net/http.
abbrev pub bad_request : Str → Failure
bad_request = http 400

abbrev pub unauthorized : Str → Failure
unauthorized = http 401

abbrev pub forbidden : Str → Failure
forbidden = http 403

abbrev pub not_found : Str → Failure
not_found = http 404

abbrev pub conflict : Str → Failure
conflict = http 409
