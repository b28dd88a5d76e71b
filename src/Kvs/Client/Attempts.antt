-- ===== src/Kvs/Client/Attempts.antt =====
-- internal/kvs/client.go: a rule for the loop of `call` over the attempts, with an invariant of the
-- states between them.
use link_raft.Prelude.{tt, ℕ, zero, suc, Bool, true, false}
use link_raft.Prelude.Results.{Result, ok, err}
use link_raft.Kvs.Client.{
  Client, CallError, Network, Rpc, Calling, ordered, Round, answered, hinted, exhausted,
  try_candidates, waited, after_round, attempts, call, calling,
}
use link_raft.Kvs.Client.Rounds.{Rule, Rule-try_candidates}

module _ {W A : Type 0} (J : Calling W → Type 0) (K : A → Calling W → Type 0) where
  -- What a round leaves behind: `K` of its answer, or `J`.
  abbrev pub Ends : Calling W × Round A → Type 0
  Ends (s, answered a) = K a s
  Ends (s, hinted) = J s
  Ends (s, exhausted) = J s

  abbrev pub Returns : Calling W × Result CallError A → Type 0
  Returns (s, ok a) = K a s
  Returns (s, err e) = Unit

module _ {W A : Type 0} (net : Network W) (rpc : Rpc W A) (J : Calling W → Type 0)
    (K : A → Calling W → Type 0) (rule : Rule net rpc (λ bs s. J s) (Ends J K))
    (wait : (s : Calling W) → J s → J (record s { world = (net.wait s.world).0 })) where
  module _ (next : Calling W → Calling W × Result CallError A)
      (more : (t : Calling W) → J t → Returns J K (next t)) where
    waited-Returns :
        (d : W × Bool) (s : Calling W)
        → J (record s { world = d.0 })
        → Returns J K (waited net rpc d next s)
    waited-Returns (w, true) s h = tt
    waited-Returns (w, false) s h = more _ h

    after_round-Returns :
        (s : Calling W) (r : Round A) → Ends J K (s, r) → Returns J K (after_round net rpc r next s)
    unfolding after_round
    after_round-Returns s (answered a) h = h
    after_round-Returns s hinted h = more s h
    after_round-Returns s exhausted h = waited-Returns (net.wait s.world) s (wait s h)

  attempts-Returns : (n : ℕ) (s : Calling W) → J s → Returns J K (attempts net rpc n s)
  unfolding attempts
  attempts-Returns zero s h = tt
  attempts-Returns (suc n) s h =
      let (t, r) = try_candidates net rpc (ordered s) s in
      after_round-Returns (attempts net rpc n) (attempts-Returns n) t r
        (Rule-try_candidates net rpc rule (ordered s) s h)

  pub call-Returns : (c : Client) (w : W) → J (calling c w) → Returns J K (call net rpc c w)
  unfolding call
  call-Returns c w = attempts-Returns 10 (calling c w)
