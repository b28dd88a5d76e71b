-- ===== src/Api/Yields.antt =====
-- internal/api/handler: rules for what a handler over the content of the store has done when it
-- returns without an error, one for each statement at the head of a block.
pub mod Records
use link_raft.Prelude.{
  tt, ℕ, zero, suc, ◌≡◌, refl, sym, ap, subst, Str, Bool, true, false, not, Option, none, some,
  List, [], ◌∷◌, ◌++◌, select, sort_strs, arith, if◌then◌else◌,
}
use link_raft.Prelude.Dict.{Dict, lookup, insert, erase, keys}
use link_raft.Prelude.Int.{ℤ, pos, negsuc, inc_int64}
use link_raft.Prelude.Results.{Result, ok, err}
use link_raft.Kvs.Number.{format_int}
use link_raft.Kvs.Store.{apply_locked, current_int, with_prefix}
use link_raft.Api.Act.{
  Act, Failure, internal, raise, pure, require, returning, reject, when, each, continue, ◌>>=◌,
  ◌>>◌,
}
use link_raft.Api.Kv.{Kv, plain}
use link_raft.Api.Kv.Simulation.{Sim, Agrees}
use link_raft.Api.Repo.{
  Json, id_eq, ids_or_empty, decoded, get_json, set_json, index, prepend_index, append_index,
  remove_index,
}
use link_raft.Api.Text.{path_id}

-- When `m` returns a value at `s`, then `Q` holds of it and of the state afterwards.
pub record Yields {S A : Type 0} (m : Act S A) (s : S) (Q : A → S → Type 0) : Type 0 where
  pub at : (t : S) (a : A) → m s ≡ (t, ok a) → Q a t

-- A handler's success at the store is a success at its content.
pub Yields-Sim :
    {S A : Type 0} {view : S → Dict Str} {m : Act S A} {n : Act (Dict Str) A} {s : S}
    {Q : A → Dict Str → Type 0}
    → Sim view m n
    → Yields n (view s) Q
    → Yields m s (λ a t. Q a (view t))
Yields-Sim {view = view} {n = n} {s = s} h y = record {
  at = λ t a e. y.at (view t) a (subst (λ p. Agrees view p (n (view s))) e (h.at s));
}

pub Yields-weaken :
    {S A : Type 0} {s : S} {m : Act S A} {Q R : A → S → Type 0}
    → Yields m s Q
    → ((a : A) (t : S) → Q a t → R a t)
    → Yields m s R
Yields-weaken y f = record { at = λ t a e. f a t (y.at t a e) }

module _ {S A : Type 0} {s : S} {Q : A → S → Type 0} where
  pub Yields-pure : {a : A} → Q a s → Yields (pure a) s Q
  Yields-pure {a} q = record {
    at =
        λ t b e. let p : a ≡ b = cc in let r : s ≡ t = cc in subst (λ x. Q x t) p (subst (Q a) r q);
  }

  pub Yields-raise : {x : Failure} → Yields (raise x) s Q
  Yields-raise = record { at = λ t b e. absurd cc }

module _ {S A B : Type 0} {s : S} {f : A → Act S B} {R : B → S → Type 0} where
  Yields-continue :
      {Q : A → S → Type 0} (m : Act S A) (r : Result Failure A) (u : S)
      → m s ≡ (u, r)
      → Yields m s Q
      → ((a : A) (t : S) → Q a t → Yields (f a) t R)
      → (t : S) (b : B) → continue r f u ≡ (t, ok b)
      → R b t
  Yields-continue m (ok a) u g y k t b e = (k a u (y.at u a g)).at t b e
  Yields-continue m (err x) u g y k t b e = absurd cc

  pub Yields-bind :
      {Q : A → S → Type 0} {m : Act S A}
      → Yields m s Q
      → ((a : A) (t : S) → Q a t → Yields (f a) t R)
      → Yields (m >>= f) s R
  unfolding ◌>>=◌
  Yields-bind {m = m} y k = record {
    at = λ t b e. let (u, r) = m s in Yields-continue m r u refl y k t b e;
  }

  pub Yields-require :
      (x : Failure) (o : Option A)
      → ((a : A) → o ≡ some a → Yields (f a) s R)
      → Yields (require x o >>= f) s R
  unfolding ◌>>=◌
  Yields-require x none k = record { at = λ t b e. absurd cc }
  Yields-require x (some a) k = record { at = (k a refl).at }

  pub Yields-returning :
      (r : Result Failure A)
      → ((a : A) → r ≡ ok a → Yields (f a) s R)
      → Yields (returning r >>= f) s R
  unfolding ◌>>=◌
  Yields-returning (err x) k = record { at = λ t b e. absurd cc }
  Yields-returning (ok a) k = record { at = (k a refl).at }

module _ {S A B : Type 0} {s : S} {R : B → S → Type 0} where
  pub Yields-pure_bind : (f : A → Act S B) (a : A) → Yields (f a) s R → Yields (pure a >>= f) s R
  unfolding ◌>>=◌
  Yields-pure_bind f a y = record { at = y.at }

module _ {S : Type 0} {s : S} {Q : Unit {0} → S → Type 0} where
  pub Yields-reject_last : (x : Failure) (b : Bool) → (b ≡ false → Q tt s) → Yields (reject b x) s Q
  Yields-reject_last x true q = Yields-raise
  Yields-reject_last x false q = Yields-pure (q refl)

  pub Yields-when_last :
      (b : Bool) {m : Act S (Unit {0})}
      → (b ≡ true → Yields m s Q)
      → (b ≡ false → Q tt s)
      → Yields (when b m) s Q
  Yields-when_last true y q = y refl
  Yields-when_last false y q = Yields-pure (q refl)

module _ {S B : Type 0} {s : S} {R : B → S → Type 0} where
  pub Yields-reject :
      (f : Unit {0} → Act S B) (x : Failure) (b : Bool)
      → (b ≡ false → Yields (f tt) s R)
      → Yields (reject b x >>= f) s R
  unfolding ◌>>=◌
  Yields-reject f x true k = record { at = λ t b e. absurd cc }
  Yields-reject f x false k = record { at = (k refl).at }

  pub Yields-path_id :
      (f : ℤ → Act S B) (o : Option ℤ)
      → ((id : ℤ) → o ≡ some id → Yields (f id) s R)
      → Yields (path_id o >>= f) s R
  unfolding ◌>>=◌ path_id
  Yields-path_id f none k = record { at = λ t b e. absurd cc }
  Yields-path_id f (some (negsuc n)) k = record { at = λ t b e. absurd cc }
  Yields-path_id f (some (pos zero)) k = record { at = λ t b e. absurd cc }
  Yields-path_id f (some (pos (suc n))) k = record { at = (k (pos (suc n)) refl).at }

module _ {B : Type 0} {d : Dict Str} {R : B → Dict Str → Type 0} where
  pub Yields-get :
      (f : Option Str → Act (Dict Str) B) (k : Str)
      → Yields (f (lookup k d)) d R
      → Yields (plain.get k >>= f) d R
  unfolding ◌>>=◌ plain
  Yields-get f k y = record { at = y.at }

  pub Yields-set :
      (f : Unit {0} → Act (Dict Str) B) (k v : Str)
      → Yields (f tt) (insert k v d) R
      → Yields (plain.set k v >>= f) d R
  unfolding ◌>>=◌ plain apply_locked
  Yields-set f k v y = record { at = y.at }

  pub Yields-delete :
      (f : Unit {0} → Act (Dict Str) B) (k : Str)
      → Yields (f tt) (erase k d) R
      → Yields (plain.delete k >>= f) d R
  unfolding ◌>>=◌ plain apply_locked
  Yields-delete f k y = record { at = y.at }

  pub Yields-incr :
      (f : ℤ → Act (Dict Str) B) (k : Str)
      → Yields
          (f (inc_int64 (current_int k d)))
          (insert k (format_int (inc_int64 (current_int k d))) d)
          R
      → Yields (plain.incr k >>= f) d R
  unfolding ◌>>=◌ plain apply_locked
  Yields-incr f k y = record { at = y.at }

  pub Yields-keys :
      (f : List Str → Act (Dict Str) B) (p : Str)
      → Yields (f (sort_strs (with_prefix p (keys d)))) d R
      → Yields (plain.keys p >>= f) d R
  unfolding ◌>>=◌ plain
  Yields-keys f p y = record { at = y.at }

module _ {d : Dict Str} {Q : Unit {0} → Dict Str → Type 0} where
  pub Yields-set_last : (k v : Str) → Q tt (insert k v d) → Yields (plain.set k v) d Q
  unfolding plain apply_locked
  Yields-set_last k v q = record { at = (Yields-pure q).at }

  pub Yields-delete_last : (k : Str) → Q tt (erase k d) → Yields (plain.delete k) d Q
  unfolding plain apply_locked
  Yields-delete_last k q = record { at = (Yields-pure q).at }
