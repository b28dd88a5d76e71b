-- ===== src/Api/Remote.antt =====
-- internal/kvs/client.go behind the interface `KV` of internal/api/handler/repo.go: the client of a
-- cluster as the store of the API.
use link_raft.Prelude.{
  tt, ℕ, ◌≡◌, refl, sym, ap, subst, ◌∙◌, Str, str_eq_refl, Bool, true, false, Option, none, some,
  List, [], ◌∷◌, arith,
}
use link_raft.Prelude.Dict.{Dict, insert, erase}
use link_raft.Prelude.Int.{ℤ}
use link_raft.Prelude.Results.{Result, ok, err}
use link_raft.Kvs.Store.{apply_locked}
use link_raft.Kvs.Server.{Reply}
use link_raft.Kvs.Client.{
  Client, CallError, Network, Rpc, Calling, call, client_get, client_set, client_delete,
  client_incr, client_keys,
}
use link_raft.Kvs.Client.Attempts.{Ends, Returns, call-Returns}
use link_raft.Kvs.Client.Rounds.{Rule}
use link_raft.Api.Act.{Act, Failure, http, internal, panicked, unavailable}
use link_raft.Api.Kv.{Kv, plain}
use link_raft.Api.Kv.Simulation.{Agrees}

-- The requests of the service.
pub record Service (W : Type 0) : Type 0 where
  pub get : Str → Rpc W (Str × Bool)
  pub set : Str → Str → Rpc W (Unit {0})
  pub delete : Str → Rpc W (Unit {0})
  pub incr : Str → Rpc W ℤ
  pub keys : Str → Rpc W (List Str)

-- `value, found` as the interface has them.
abbrev pub found_option : Str × Bool → Option Str
found_option (v, false) = none
found_option (v, true) = some v

module _ {W A B : Type 0} (f : A → B) where
  abbrev pub returned : Calling W × Result CallError A → (Client × W) × Result Failure B
  returned (s, ok a) = ((s.client, s.world), ok (f a))
  returned (s, err e) = ((s.client, s.world), err unavailable)

-- `*kvs.Client` as a `KV`
unfoldable pub client_kv : {W : Type 0} → Network W → Service W → Kv (Client × W)
client_kv net service = record {
  get = λ k s. returned found_option (client_get net service.get k s.0 s.1);
  set = λ k v s. returned (λ u. u) (client_set net service.set k v s.0 s.1);
  delete = λ k s. returned (λ u. u) (client_delete net service.delete k s.0 s.1);
  incr = λ k s. returned (λ z. z) (client_incr net service.incr k s.0 s.1);
  keys = λ p s. returned (λ ks. ks) (client_keys net service.keys p s.0 s.1);
}

-- The operation, done none or more times, with whatever results.
pub data Repeats {B : Type 0} (n : Act (Dict Str) B) (d : Dict Str) : Dict Str → Type 0 where
  never : Repeats n d d
  again : {e : Dict Str} → Repeats n d e → Repeats n d (n e).0

module _ {B : Type 0} (n : Act (Dict Str) B) where
  Repeats-trans : {d e f : Dict Str} → Repeats n d e → Repeats n e f → Repeats n d f
  Repeats-trans h never = h
  Repeats-trans h (again g) = again (Repeats-trans h g)

  -- An operation that can be repeated without a difference.
  IsIdempotent : Type 0
  IsIdempotent = (d : Dict Str) → n (n d).0 ≡ n d

  Repeats-result : {d e : Dict Str} → IsIdempotent → Repeats n d e → n e ≡ n d
  unfolding IsIdempotent
  Repeats-result same never = refl
  Repeats-result same (again {e} h) = same e ∙ Repeats-result same h

module _ {W : Type 0} (net : Network W) (content : W → Dict Str) where
  -- What requests for the operation `n` do to the content of the cluster while nothing else writes to it.
  -- A request that a leader answers has done it with the result that is answered, and before that perhaps
  -- done it for requests that were not answered. A request that fails or is redirected may have done it all
  -- the same, at once or in a later request or wait: a leader that steps down answers so for an entry
  -- that its successor commits. `quiet` says that no other command is on its way.
  pub record Performs {A B : Type 0} (rpc : Rpc W A) (f : A → B) (n : Act (Dict Str) B)
      : Type 1 where
    pub quiet : W → Type 0
    pub stays : (a : Str) (v : W) → quiet v → quiet (rpc a v).0
    pub hits :
        (a : Str) (v w : W) (r : Reply A)
        → quiet v
        → rpc a v ≡ (w, some r)
        → r.not_leader ≡ false
        → (e : Dict Str) × Repeats n (content v) e × (n e ≡ (content w, ok (f r.content)))
    pub passes :
        (a : Str) (v w : W) (r : Reply A)
        → quiet v
        → rpc a v ≡ (w, some r)
        → r.not_leader ≡ true
        → Repeats n (content v) (content w)
    pub misses :
        (a : Str) (v w : W) → quiet v → rpc a v ≡ (w, none) → Repeats n (content v) (content w)
    pub waits :
        (w : W) → quiet w → quiet (net.wait w).0 × Repeats n (content w) (content (net.wait w).0)

  pub record IsFaithful (service : Service W) : Type 1 where
    pub get : (k : Str) → Performs (service.get k) found_option (plain.get k)
    pub set : (k v : Str) → Performs (service.set k v) (λ u. u) (plain.set k v)
    pub delete : (k : Str) → Performs (service.delete k) (λ u. u) (plain.delete k)
    pub incr : (k : Str) → Performs (service.incr k) (λ z. z) (plain.incr k)
    pub keys : (p : Str) → Performs (service.keys p) (λ ks. ks) (plain.keys p)

  abbrev view_of : Client × W → Dict Str
  view_of s = content s.1

  -- What a call has done: the operation at least once, the last time with the result that it returns,
  -- unless it returns an error.
  abbrev pub AtLeastOnce :
      {B : Type 0} → Act (Dict Str) B → Dict Str → (Client × W) × Result Failure B → Type 0
  AtLeastOnce n d (s, ok b) = (e : Dict Str) × Repeats n d e × (n e ≡ (content s.1, ok b))
  AtLeastOnce n d (s, err e) = Unit

  module _ {A B : Type 0} (rpc : Rpc W A) (f : A → B) (n : Act (Dict Str) B)
      (h : Performs rpc f n) where
    Waiting : Dict Str → Calling W → Type 0
    Waiting d s = h.quiet s.world × Repeats n d (content s.world)

    Performed : Dict Str → A → Calling W → Type 0
    Performed d a s = (e : Dict Str) × Repeats n d e × (n e ≡ (content s.world, ok (f a)))

    still : (a : Str) (v w : W) {o : Option (Reply A)} → h.quiet v → rpc a v ≡ (w, o) → h.quiet w
    still a v w q e = subst (λ p. h.quiet p.0) e (h.stays a v q)

    Rule-Performed :
        (d : Dict Str) → Rule net rpc (λ bs s. Waiting d s) (Ends (Waiting d) (Performed d))
    unfolding Waiting Performed
    Rule-Performed d = record {
      done = λ s j. j;
      skip = λ a bs s c j e. j;
      fail = λ a bs s c w (quiet, j) q. (
        still a s.world w quiet q.replied,
        Repeats-trans n j (h.misses a s.world w quiet q.replied),
      );
      pass = λ a bs s c w r (quiet, j) q m e. (
        still a s.world w quiet q.replied,
        Repeats-trans n j (h.passes a s.world w r quiet q.replied m),
      );
      hint = λ a bs s c w r (quiet, j) q m e. (
        still a s.world w quiet q.replied,
        Repeats-trans n j (h.passes a s.world w r quiet q.replied m),
      );
      answer = λ a bs s c w r (quiet, j) q m.
          let (e, before, done) = h.hits a s.world w r quiet q.replied m in
          (e, Repeats-trans n j before, done);
    }

    returned-AtLeastOnce :
        (q : Calling W × Result CallError A) (d : Dict Str)
        → Returns (Waiting d) (Performed d) q
        → AtLeastOnce n d (returned f q)
    unfolding Waiting Performed
    returned-AtLeastOnce (s, ok a) d j = j
    returned-AtLeastOnce (s, err e) d j = tt

    -- A call of the client, at a cluster where no other command is on its way.
    call-AtLeastOnce :
        (s : Client × W)
        → h.quiet s.1
        → AtLeastOnce n (view_of s) (returned f (call net rpc s.0 s.1))
    unfolding Waiting
    call-AtLeastOnce s quiet = returned-AtLeastOnce (call net rpc s.0 s.1) (content s.1) (
        call-Returns net rpc (Waiting (content s.1)) (Performed (content s.1))
          (Rule-Performed (content s.1))
          (λ t (q, j). let (q', more) = h.waits t.world q in (q', Repeats-trans n j more)) s.0 s.1
          (quiet, never))

    once-Agrees :
        (q : (Client × W) × Result Failure B) (d : Dict Str)
        → IsIdempotent n
        → ((e : Failure) (t : Client × W) → q ≡ (t, err e) → e ≡ unavailable)
        → AtLeastOnce n d q
        → Agrees view_of q (n d)
    once-Agrees (s, ok b) d same only (e, h, done) = sym (Repeats-result n same h) ∙ done
    once-Agrees (s, err unavailable) d same only h = tt
    once-Agrees (s, err (http c m)) d same only h = absurd (other c m (only _ s refl))
      where
        other : (c : ℕ) (m : Str) → http c m ≡ unavailable → ⊥
        other c m e = cc
    once-Agrees (s, err internal) d same only h = absurd (other (only _ s refl))
      where
        other : internal ≡ unavailable → ⊥
        other e = cc
    once-Agrees (s, err panicked) d same only h = absurd (other (only _ s refl))
      where
        other : panicked ≡ unavailable → ⊥
        other e = cc

    returned-unavailable :
        (q : Calling W × Result CallError A) (e : Failure) (t : Client × W)
        → returned f q ≡ (t, err e)
        → e ≡ unavailable
    returned-unavailable (s, ok a) e t h = absurd cc
    returned-unavailable (s, err x) e t h = cc

    call-Agrees :
        (s : Client × W)
        → h.quiet s.1
        → IsIdempotent n
        → Agrees view_of (returned f (call net rpc s.0 s.1)) (n (view_of s))
    call-Agrees s quiet same =
        once-Agrees (returned f (call net rpc s.0 s.1)) (view_of s) same
          (λ e t. returned-unavailable (call net rpc s.0 s.1) e t) (call-AtLeastOnce s quiet)

insert-insert : (k v : Str) (d : Dict Str) → insert k v (insert k v d) ≡ insert k v d
unfolding insert
insert-insert k v [] = ground (arith, str_eq_refl k)
insert-insert k v ((j, w) ∷ d) = ground (arith, str_eq_refl k, insert-insert k v d)

erase-erase : (k : Str) (d : Dict Str) → erase k (erase k d) ≡ erase k d
unfolding erase
erase-erase k [] = refl
erase-erase k ((j, w) ∷ d) = ground (arith, erase-erase k d)

get-IsIdempotent : (k : Str) → IsIdempotent (plain.get k)
unfolding IsIdempotent plain
get-IsIdempotent k d = refl

keys-IsIdempotent : (p : Str) → IsIdempotent (plain.keys p)
unfolding IsIdempotent plain
keys-IsIdempotent p d = refl

set-IsIdempotent : (k v : Str) → IsIdempotent (plain.set k v)
unfolding IsIdempotent plain apply_locked
set-IsIdempotent k v d = ap (λ e. (e, ok tt)) (insert-insert k v d)

delete-IsIdempotent : (k : Str) → IsIdempotent (plain.delete k)
unfolding IsIdempotent plain apply_locked
delete-IsIdempotent k d = ap (λ e. (e, ok tt)) (erase-erase k d)

module _ {W : Type 0} (net : Network W) (content : W → Dict Str) (service : Service W)
    (h : IsFaithful net content service) where
  -- The operations of the client as a `KV`, where nothing else is on its way to the cluster.
  pub record IsRefined (kv : Kv (Client × W)) : Type 0 where
    pub get :
        (k : Str) (s : Client × W)
        → (h.get k).quiet s.1
        → Agrees (λ t. content t.1) (kv.get k s) (plain.get k (content s.1))
    pub set :
        (k v : Str) (s : Client × W)
        → (h.set k v).quiet s.1
        → Agrees (λ t. content t.1) (kv.set k v s) (plain.set k v (content s.1))
    pub delete :
        (k : Str) (s : Client × W)
        → (h.delete k).quiet s.1
        → Agrees (λ t. content t.1) (kv.delete k s) (plain.delete k (content s.1))
    pub keys :
        (p : Str) (s : Client × W)
        → (h.keys p).quiet s.1
        → Agrees (λ t. content t.1) (kv.keys p s) (plain.keys p (content s.1))
    pub incr :
        (k : Str) (s : Client × W)
        → (h.incr k).quiet s.1
        → AtLeastOnce net content (plain.incr k) (content s.1) (kv.incr k s)

  -- At a cluster where a request does only what it says, but may do it even if it fails or is redirected,
  -- also later on, and where no other command is on its way: if the client's Get, Set, Delete or Keys
  -- returns no error, then its result and the content of the cluster are those of the operation done
  -- once, however often it was retried; an Incr that returns a number has been done at least once, the
  -- last time with that number, and perhaps more often.
  pub client_kv-IsRefined : IsRefined (client_kv net service)
  unfolding client_kv client_get client_set client_delete client_incr client_keys
  client_kv-IsRefined = record {
    get = λ k s q.
        call-Agrees net content (service.get k) found_option (plain.get k) (h.get k) s q
          (get-IsIdempotent k);
    set = λ k v s q.
        call-Agrees net content (service.set k v) (λ u. u) (plain.set k v) (h.set k v) s q
          (set-IsIdempotent k v);
    delete = λ k s q.
        call-Agrees net content (service.delete k) (λ u. u) (plain.delete k) (h.delete k) s q
          (delete-IsIdempotent k);
    keys = λ p s q.
        call-Agrees net content (service.keys p) (λ ks. ks) (plain.keys p) (h.keys p) s q
          (keys-IsIdempotent p);
    incr = λ k s q.
        call-AtLeastOnce net content (service.incr k) (λ z. z) (plain.incr k) (h.incr k) s q;
  }
