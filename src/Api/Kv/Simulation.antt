-- ===== src/Api/Kv/Simulation.antt =====
-- internal/api/handler/repo.go: code over the interface `KV`, as long as no call of it fails, does
-- what it does over the store's content.
use link_raft.Prelude.{
  tt, ◌≡◌, refl, Str, Bool, true, false, Option, none, some, List, [], ◌∷◌, if◌then◌else◌,
}
use link_raft.Prelude.Dict.{Dict}
use link_raft.Prelude.Results.{Result, ok, err}
use link_raft.Api.Act.{
  Failure, http, unavailable, internal, panicked, Act, pure, raise, returning, require, continue,
  ◌>>=◌, reject, when, each,
}
use link_raft.Api.Kv.{Kv, plain}

module _ {S : Type 0} (view : S → Dict Str) where
  -- The same result at the same content, or the store has failed.
  abbrev pub Agrees : {A : Type 0} → S × Result Failure A → Dict Str × Result Failure A → Type 0
  Agrees (s, ok a) q = q ≡ (view s, ok a)
  Agrees (s, err (http c m)) q = q ≡ (view s, err (http c m))
  Agrees (s, err internal) q = q ≡ (view s, err internal)
  Agrees (s, err panicked) q = q ≡ (view s, err panicked)
  Agrees (s, err unavailable) q = Unit

  pub record Sim {A : Type 0} (m : Act S A) (n : Act (Dict Str) A) : Type 0 where
    pub at : (s : S) → Agrees (m s) (n (view s))

  -- What an implementation of `KV` is held to.
  pub record Simulates (kv : Kv S) : Type 0 where
    pub get : (k : Str) → Sim (kv.get k) (plain.get k)
    pub set : (k v : Str) → Sim (kv.set k v) (plain.set k v)
    pub delete : (k : Str) → Sim (kv.delete k) (plain.delete k)
    pub incr : (k : Str) → Sim (kv.incr k) (plain.incr k)
    pub keys : (p : Str) → Sim (kv.keys p) (plain.keys p)

module _ {S : Type 0} {view : S → Dict Str} where
  pub Sim-pure : {A : Type 0} (a : A) → Sim view (pure a) (pure a)
  Sim-pure a = record { at = λ s. refl }

  pub Sim-raise : {A : Type 0} (e : Failure) → Sim view (raise {A = A} e) (raise e)
  Sim-raise (http c m) = record { at = λ s. refl }
  Sim-raise unavailable = record { at = λ s. tt }
  Sim-raise internal = record { at = λ s. refl }
  Sim-raise panicked = record { at = λ s. refl }

  pub Sim-returning : {A : Type 0} (r : Result Failure A) → Sim view (returning r) (returning r)
  Sim-returning (ok a) = Sim-pure a
  Sim-returning (err e) = Sim-raise e

  pub Sim-require : {A : Type 0} (e : Failure) (o : Option A) → Sim view (require e o) (require e o)
  Sim-require e none = Sim-raise e
  Sim-require e (some a) = Sim-pure a

  pub Sim-reject : (b : Bool) (e : Failure) → Sim view (reject b e) (reject b e)
  Sim-reject true e = Sim-raise e
  Sim-reject false e = Sim-pure tt

  pub Sim-if :
      {A : Type 0} (b : Bool) {m m' : Act S A} {n n' : Act (Dict Str) A}
      → Sim view m n
      → Sim view m' n'
      → Sim view (if b then m else m') (if b then n else n')
  Sim-if true h h' = h
  Sim-if false h h' = h'

  pub Sim-when :
      (b : Bool) {m : Act S (Unit {0})} {n : Act (Dict Str) (Unit {0})}
      → Sim view m n
      → Sim view (when b m) (when b n)
  Sim-when true h = h
  Sim-when false h = Sim-pure tt

module _ {S : Type 0} {view : S → Dict Str} {A B : Type 0} where
  continue-Agrees :
      (f : A → Act S B) (g : A → Act (Dict Str) B)
      → ((a : A) → Sim view (f a) (g a))
      → (p : S × Result Failure A) (q : Dict Str × Result Failure A) → Agrees view p q
      → Agrees view (continue p.1 f p.0) (continue q.1 g q.0)
  continue-Agrees f g h (s, ok a) q e = rw e ((h a).at s)
  continue-Agrees f g h (s, err (http c m)) q e = rw e refl
  continue-Agrees f g h (s, err internal) q e = rw e refl
  continue-Agrees f g h (s, err panicked) q e = rw e refl
  continue-Agrees f g h (s, err unavailable) q e = tt

  pub Sim-bind :
      {m : Act S A} {n : Act (Dict Str) A} {f : A → Act S B} {g : A → Act (Dict Str) B}
      → Sim view m n
      → ((a : A) → Sim view (f a) (g a))
      → Sim view (m >>= f) (n >>= g)
  unfolding ◌>>=◌
  Sim-bind {m} {n} {f} {g} h k = record {
    at = λ s. continue-Agrees f g k (m s) (n (view s)) (h.at s);
  }

module _ {S : Type 0} {view : S → Dict Str} {X : Type 0} where
  pub Sim-each :
      (f : X → Act S (Unit {0})) (g : X → Act (Dict Str) (Unit {0}))
      → ((x : X) → Sim view (f x) (g x))
      → (xs : List X) → Sim view (each f xs) (each g xs)
  Sim-each f g h [] = Sim-pure tt
  Sim-each f g h (x ∷ xs) = Sim-bind (h x) (λ u. Sim-each f g h xs)

module _ {S : Type 0} {view : S → Dict Str} {kv : Kv S} where
  pub Sim-get : Simulates view kv → (k : Str) → Sim view (kv.get k) (plain.get k)
  Sim-get h = h.get

  pub Sim-set : Simulates view kv → (k v : Str) → Sim view (kv.set k v) (plain.set k v)
  Sim-set h = h.set

  pub Sim-delete : Simulates view kv → (k : Str) → Sim view (kv.delete k) (plain.delete k)
  Sim-delete h = h.delete

  pub Sim-incr : Simulates view kv → (k : Str) → Sim view (kv.incr k) (plain.incr k)
  Sim-incr h = h.incr

  pub Sim-keys : Simulates view kv → (p : Str) → Sim view (kv.keys p) (plain.keys p)
  Sim-keys h = h.keys

pub ruleset sim_rules = (
  Sim-pure, Sim-raise, Sim-returning, Sim-require, Sim-reject, Sim-when, Sim-if, Sim-bind, Sim-each,
  Sim-get, Sim-set, Sim-delete, Sim-incr, Sim-keys,
)
