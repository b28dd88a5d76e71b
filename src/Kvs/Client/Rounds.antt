-- ===== src/Kvs/Client/Rounds.antt =====
-- internal/kvs/client.go: a rule for the loop of `call` over the candidates, with an invariant of the
-- addresses that are left.
use link_raft.Prelude.{
  ◌≡◌, refl, Str, str_eq, is_empty, Bool, true, false, not, ◌&&◌, Option, none, some, List, [], ◌∷◌,
}
use link_raft.Kvs.Server.{Reply}
use link_raft.Kvs.Client.{
  Client, no_leader, dial_failed, node_failed, Network, Rpc, client_for, set_leader, Calling, Round,
  answered, hinted, exhausted, redirect, after_request, request, try_candidates,
}

-- The hint of `addr` that ends an attempt.
abbrev pub is_hint : Str → Str → Bool
is_hint addr hint = not (is_empty hint) && not (str_eq hint addr)

module _ {W A : Type 0} (net : Network W) (rpc : Rpc W A) where
  -- The connection was there, and the request was answered so.
  pub record Asked (a : Str) (s : Calling W) (c : Client) (w : W) (o : Option (Reply A))
      : Type 0 where
    pub connected : client_for net a s.world s.client ≡ (c, true)
    pub replied : rpc a s.world ≡ (w, o)

  -- `I` is kept from candidate to candidate, and `Q` holds of what the loop returns.
  pub record Rule (I : List Str → Calling W → Type 0) (Q : Calling W × Round A → Type 0)
      : Type 0 where
    pub done : (s : Calling W) → I [] s → Q (s, exhausted)
    pub skip :
        (a : Str) (bs : List Str) (s : Calling W) (c : Client)
        → I (a ∷ bs) s
        → client_for net a s.world s.client ≡ (c, false)
        → I bs (record s { last_err = dial_failed a })
    pub fail :
        (a : Str) (bs : List Str) (s : Calling W) (c : Client) (w : W)
        → I (a ∷ bs) s
        → Asked a s c w none
        → I bs (record s { client = c; world = w; last_err = node_failed a })
    pub pass :
        (a : Str) (bs : List Str) (s : Calling W) (c : Client) (w : W) (r : Reply A)
        → I (a ∷ bs) s
        → Asked a s c w (some r)
        → r.not_leader ≡ true
        → is_hint a r.leader_addr ≡ false
        → I bs (record s { client = c; world = w; last_err = no_leader })
    pub hint :
        (a : Str) (bs : List Str) (s : Calling W) (c : Client) (w : W) (r : Reply A)
        → I (a ∷ bs) s
        → Asked a s c w (some r)
        → r.not_leader ≡ true
        → is_hint a r.leader_addr ≡ true
        → Q (
          record s { client = c; world = w; preferred = r.leader_addr; last_err = no_leader },
          hinted,
        )
    pub answer :
        (a : Str) (bs : List Str) (s : Calling W) (c : Client) (w : W) (r : Reply A)
        → I (a ∷ bs) s
        → Asked a s c w (some r)
        → r.not_leader ≡ false
        → Q (record s { client = set_leader a c; world = w }, answered r.content)

module _ {W A : Type 0} (net : Network W) (rpc : Rpc W A) where
  module _ {I : List Str → Calling W → Type 0} {Q : Calling W × Round A → Type 0} where
    module _ (rule : Rule net rpc I Q) (a : Str) (bs : List Str) (s : Calling W) (h : I (a ∷ bs) s)
        (next : Calling W → Calling W × Round A)
        (more : (t : Calling W) → I bs t → Q (next t)) where
      Rule-redirect :
          (c : Client) (w : W) (r : Reply A)
          → Asked net rpc a s c w (some r)
          → r.not_leader ≡ true
          → (b : Bool) → is_hint a r.leader_addr ≡ b
          → Q (redirect b r.leader_addr next (record s { client = c; world = w }))
      Rule-redirect c w r q n true e = rule.hint a bs s c w r h q n e
      Rule-redirect c w r q n false e = more _ (rule.pass a bs s c w r h q n e)

      Rule-replied :
          (c : Client) (w : W) (r : Reply A)
          → Asked net rpc a s c w (some r)
          → (b : Bool) → r.not_leader ≡ b
          → Q (after_request a (some r) next (record s { client = c; world = w }))
      unfolding after_request
      Rule-replied c w r q true e = rw e (Rule-redirect c w r q e (is_hint a r.leader_addr) refl)
      Rule-replied c w r q false e = rw e (rule.answer a bs s c w r h q e)

      Rule-after_request :
          (c : Client) (w : W) (reply : Option (Reply A))
          → Asked net rpc a s c w reply
          → Q (after_request a reply next (record s { client = c; world = w }))
      unfolding after_request
      Rule-after_request c w none q = more _ (rule.fail a bs s c w h q)
      Rule-after_request c w (some r) q = Rule-replied c w r q r.not_leader refl

      Rule-request :
          (d : Client × Bool)
          → client_for net a s.world s.client ≡ d
          → Q (request net rpc a d next s)
      Rule-request (c, false) e = more _ (rule.skip a bs s c h e)
      Rule-request (c, true) e =
          let (w, reply) = rpc a s.world in
          Rule-after_request c w reply (record { connected = e; replied = refl })

    pub Rule-try_candidates :
        Rule net rpc I Q
        → (bs : List Str) (s : Calling W) → I bs s
        → Q (try_candidates net rpc bs s)
    unfolding try_candidates
    Rule-try_candidates rule [] s h = rule.done s h
    Rule-try_candidates rule (a ∷ bs) s h =
        Rule-request rule a bs s h (try_candidates net rpc bs) (Rule-try_candidates rule bs)
          (client_for net a s.world s.client) refl
