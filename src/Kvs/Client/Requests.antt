-- ===== src/Kvs/Client/Requests.antt =====
-- internal/kvs/client.go: how many requests `call` sends.
use link_raft.Prelude.{
  ℕ, zero, suc, ◌+◌, ◌*◌, ◌≤◌, ◌≡◌, refl, Str, str_eq, Bool, true, false, not, Option, List, [],
  ◌∷◌, select, length, arith,
}
use link_raft.Prelude.Results.{Result}
use link_raft.Kvs.Server.{Reply}
use link_raft.Kvs.Client.{
  Client, CallError, Network, Rpc, client_for, first_of, candidates, set_leader, Calling, ordered,
  Round, answered, hinted, exhausted, try_candidates, waited, after_round, attempts, call, calling,
}
use link_raft.Kvs.Client.Rounds.{Asked, Rule, Rule-try_candidates}

client_for-addrs :
    {W : Type 0} (net : Network W) (a : Str) (w : W) (c : Client)
    → (client_for net a w c).0.addrs ≡ c.addrs
unfolding client_for
client_for-addrs net a w c = grind arith

length-select {ℓ} : {A : Type ℓ} (p : A → Bool) (xs : List A) → length (select p xs) ≤ length xs
length-select p [] = omega arith
length-select p (x ∷ xs) = ground (arith, length-select p xs)

length-first_of : (a : Str) (bs : List Str) → length (first_of a bs) ≤ length bs + 1
unfolding first_of
length-first_of a bs = ground (arith, length-select (λ b. not (str_eq b a)) bs)

length-ordered : {W : Type 0} (s : Calling W) → length (ordered s) ≤ length s.client.addrs + 2
unfolding ordered candidates
length-ordered s = ground (
  arith,
  length-first_of s.client.leader s.client.addrs,
  length-first_of s.preferred (first_of s.client.leader s.client.addrs),
)

-- A count of the requests: a request adds one at most, and a wait nothing.
pub record Counts {W A : Type 0} (net : Network W) (rpc : Rpc W A) (n : W → ℕ) : Type 0 where
  pub request : (a : Str) (w : W) → n (rpc a w).0 ≤ n w + 1
  pub wait : (w : W) → n (net.wait w).0 ≤ n w

module _ {W A : Type 0} (net : Network W) (rpc : Rpc W A) (n : W → ℕ)
    (counts : Counts net rpc n) where
  -- No more than `b` requests when the rest of the candidates is through, with `k` known nodes.
  record Allowed (k : ℕ) (b : ℕ) (bs : List Str) (s : Calling W) : Type 0 where
    below : n s.world + length bs ≤ b
    known : length s.client.addrs ≡ k

  Allowed-Asked :
      {k b : ℕ} (a : Str) (bs : List Str) (s : Calling W) (c : Client) (w : W)
      {o : Option (Reply A)}
      → Allowed k b (a ∷ bs) s
      → Asked net rpc a s c w o
      → {p : Str} {e : CallError}
      → Allowed k b bs (record { client = c; world = w; preferred = p; last_err = e })
  Allowed-Asked a bs s c w h q = record {
    below = grind (arith, h.below, q.replied, counts.request a s.world);
    known = grind (arith, h.known, q.connected, client_for-addrs net a s.world s.client);
  }

  Allowed-end :
      {k b : ℕ} {bs : List Str} {s t : Calling W}
      → Allowed k b bs s
      → t.world ≡ s.world
      → t.client.addrs ≡ s.client.addrs
      → Allowed k b [] t
  Allowed-end h e f = record { below = grind (arith, h.below); known = grind (arith, h.known) }

  Rule-Allowed : (k b : ℕ) → Rule net rpc (Allowed k b) (λ q. Allowed k b [] q.0)
  unfolding set_leader
  Rule-Allowed k b = record {
    done = λ s h. h;
    skip = λ a bs s c h e. record { below = grind (arith, h.below); known = h.known };
    fail = λ a bs s c w h q. Allowed-Asked a bs s c w h q;
    pass = λ a bs s c w r h q m e. Allowed-Asked a bs s c w h q;
    hint = λ a bs s c w r h q m e.
        Allowed-end (Allowed-Asked a bs s c w h q {p = s.preferred} {e = s.last_err}) refl refl;
    answer = λ a bs s c w r h q m.
        Allowed-end (Allowed-Asked a bs s c w h q {p = s.preferred} {e = s.last_err}) refl refl;
  }

  -- `b` requests so far, and `m` more in the attempts to come.
  module _ (k b m : ℕ) (next : Calling W → Calling W × Result CallError A)
      (more : (t : Calling W) → Allowed k b [] t → n (next t).0.world ≤ b + m) where
    waited-bounded :
        (d : W × Bool) (s : Calling W)
        → n d.0 ≤ n s.world
        → Allowed k b [] s
        → n (waited net rpc d next s).0.world ≤ b + m
    waited-bounded (w, true) s e h = omega (arith, h.below)
    waited-bounded (w, false) s e h =
        more _ (record { below = omega (arith, h.below); known = h.known })

    after_round-bounded :
        (s : Calling W) (r : Round A)
        → Allowed k b [] s
        → n (after_round net rpc r next s).0.world ≤ b + m
    unfolding after_round
    after_round-bounded s (answered a) h = omega (arith, h.below)
    after_round-bounded s hinted h = more s h
    after_round-bounded s exhausted h = waited-bounded (net.wait s.world) s (counts.wait s.world) h

  attempts-bounded :
      (k b m : ℕ) (s : Calling W)
      → Allowed k b [] s
      → n (attempts net rpc m s).0.world ≤ b + m * (k + 2)
  unfolding attempts
  attempts-bounded k b zero s h = omega (arith, h.below)
  attempts-bounded k b (suc m) s h =
      let (t, r) = try_candidates net rpc (ordered s) s in
      let c = b + (k + 2) in
      let round =
        Rule-try_candidates net rpc (Rule-Allowed k c) (ordered s) s
          (record { below = grind (arith, h.below, h.known, length-ordered s); known = h.known }) in
      let rest =
        after_round-bounded k c (m * (k + 2)) (attempts net rpc m)
          (λ t g. attempts-bounded k c m t g) t r round in
      grind (arith, rest)

  -- A call ends, and whatever the network does, it sends each of the known nodes, the last leader and
  -- the last hint one request in each of ten attempts at most.
  pub call-bounded :
      (c : Client) (w : W) → n (call net rpc c w).0.world ≤ n w + 10 * (length c.addrs + 2)
  unfolding call
  call-bounded c w =
      attempts-bounded (length c.addrs) (n w) 10 (calling c w)
        (record { below = omega arith; known = refl })
