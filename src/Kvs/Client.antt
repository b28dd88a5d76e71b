-- ===== src/Kvs/Client.antt =====
-- internal/kvs/client.go: the client that follows the leader of the cluster. What the network
-- answers is a parameter; the state of the nodes is passed along as the world `W`.
pub mod Rounds
pub mod Attempts
pub mod Calls
pub mod Requests
pub mod Following
pub mod Services
pub mod Discovery
pub mod Discovered
use link_raft.Prelude.{
  tt, ℕ, zero, suc, Str, str_eq, is_empty, Bool, true, false, not, ◌&&◌, Option, none, some, List,
  [], ◌∷◌, select, if◌then◌else◌,
}
use link_raft.Prelude.Int.{ℤ, pos}
use link_raft.Prelude.Results.{Result, ok, err}
use link_raft.Kvs.Server.{Reply}

-- `Client`; of a connection, only that there is one is kept.
pub record Client : Type 0 where
  pub addrs : List Str
  pub leader : Str
  pub conns : List Str

-- `NewClient`
unfoldable pub new_client : List Str → Client
new_client addrs = record { addrs = addrs; leader = []; conns = [] }

-- What the calls return besides a value: `ErrNoLeader`, an error of the connection, an error of the
-- call, or the context's.
pub data CallError : Type 0 where
  no_leader : CallError
  dial_failed : Str → CallError
  node_failed : Str → CallError
  context_done : CallError

-- The network: whether `grpc.NewClient` returns a connection, and a wait of 100 milliseconds, with
-- whether the context was done before it ended.
pub record Network (W : Type 0) : Type 0 where
  pub dial : Str → W → Bool
  pub wait : W → W × Bool

-- The request to one node: an error of the call, or the node's reply.
abbrev pub Rpc : Type 0 → Type 0 → Type 0
Rpc W A = Str → W → W × Option (Reply A)

-- set[a]
unfoldable pub contains : Str → List Str → Bool
contains a [] = false
contains a (b ∷ bs) = if str_eq b a then true else contains a bs

-- `clientFor`. The Boolean says that no error was returned.
unfoldable pub client_for : {W : Type 0} → Network W → Str → W → Client → Client × Bool
unfolding contains
client_for net a w c =
    if contains a c.conns
    then (c, true)
    else if net.dial a w
    then (record c { conns = a ∷ c.conns }, true)
    else (c, false)

-- `addr` in front of the others, and nowhere else.
unfoldable pub first_of : Str → List Str → List Str
first_of a bs =
    let rest = select (λ b. not (str_eq b a)) bs in if is_empty a then rest else a ∷ rest

-- `candidates`
unfoldable pub candidates : Client → List Str
candidates c = first_of c.leader c.addrs

-- `setLeader`
unfoldable pub set_leader : Str → Client → Client
set_leader a c = record c { leader = a }

-- The variables of `call`, with the world.
pub record Calling (W : Type 0) : Type 0 where
  pub client : Client
  pub world : W
  pub preferred : Str
  pub last_err : CallError

abbrev pub calling : {W : Type 0} → Client → W → Calling W
calling c w = record { client = c; world = w; preferred = []; last_err = no_leader }

-- The order of one attempt: the candidates, behind the last hint.
unfoldable pub ordered : {W : Type 0} → Calling W → List Str
ordered s =
    if is_empty s.preferred then candidates s.client else first_of s.preferred (candidates s.client)

-- How the loop over the candidates ends.
pub data Round (A : Type 0) : Type 0 where
  answered : A → Round A
  hinted : Round A
  exhausted : Round A

module _ {W A : Type 0} where
  -- The cases after a node that is not the leader: the next attempt starts with the hint, or the
  -- next candidate is asked.
  abbrev pub redirect :
      Bool → Str → (Calling W → Calling W × Round A) → Calling W → Calling W × Round A
  redirect true hint next s = (record s { preferred = hint; last_err = no_leader }, hinted)
  redirect false hint next s = next (record s { last_err = no_leader })

  -- The cases after the request to `addr`.
  unfoldable pub after_request :
      Str → Option (Reply A) → (Calling W → Calling W × Round A) → Calling W → Calling W × Round A
  after_request a none next s = next (record s { last_err = node_failed a })
  after_request a (some r) next s = elim r.not_leader [
    | true ↦
        redirect (not (is_empty r.leader_addr) && not (str_eq r.leader_addr a)) r.leader_addr next s
    | false ↦ (record s { client = set_leader a s.client }, answered r.content)
  ]

module _ {W A : Type 0} (net : Network W) (rpc : Rpc W A) where
  abbrev pub request :
      Str → Client × Bool → (Calling W → Calling W × Round A) → Calling W → Calling W × Round A
  request a (c, false) next s = next (record s { last_err = dial_failed a })
  request a (c, true) next s =
      let (w, reply) = rpc a s.world in
      after_request a reply next (record s { client = c; world = w })

  -- The loop over the candidates.
  unfoldable pub try_candidates : List Str → Calling W → Calling W × Round A
  try_candidates [] s = (s, exhausted)
  try_candidates (a ∷ bs) s = request a (client_for net a s.world s.client) (try_candidates bs) s

  abbrev pub waited :
      W × Bool
      → (Calling W → Calling W × Result CallError A)
      → Calling W
      → Calling W × Result CallError A
  waited (w, true) next s = (record s { world = w }, err context_done)
  waited (w, false) next s = next (record s { world = w })

  unfoldable pub after_round :
      Round A
      → (Calling W → Calling W × Result CallError A)
      → Calling W
      → Calling W × Result CallError A
  after_round (answered a) next s = (s, ok a)
  after_round hinted next s = next s
  after_round exhausted next s = waited (net.wait s.world) next s

  -- The loop over the attempts.
  unfoldable pub attempts : ℕ → Calling W → Calling W × Result CallError A
  attempts zero s = (s, err s.last_err)
  attempts (suc n) s = let (s', r) = try_candidates (ordered s) s in after_round r (attempts n) s'

  -- `call`
  unfoldable pub call : Client → W → Calling W × Result CallError A
  call c w = attempts 10 (calling c w)

-- The methods: `call` with the request of their name.
unfoldable pub client_get :
    {W : Type 0}
    → Network W
    → (Str → Rpc W (Str × Bool))
    → Str
    → Client
    → W
    → Calling W × Result CallError (Str × Bool)
client_get net rpc key = call net (rpc key)

unfoldable pub client_set :
    {W : Type 0}
    → Network W
    → (Str → Str → Rpc W (Unit {0}))
    → Str
    → Str
    → Client
    → W
    → Calling W × Result CallError (Unit {0})
client_set net rpc key value = call net (rpc key value)

unfoldable pub client_delete :
    {W : Type 0}
    → Network W
    → (Str → Rpc W (Unit {0}))
    → Str
    → Client
    → W
    → Calling W × Result CallError (Unit {0})
client_delete net rpc key = call net (rpc key)

unfoldable pub client_incr :
    {W : Type 0} → Network W → (Str → Rpc W ℤ) → Str → Client → W → Calling W × Result CallError ℤ
client_incr net rpc key = call net (rpc key)

unfoldable pub client_keys :
    {W : Type 0}
    → Network W
    → (Str → Rpc W (List Str))
    → Str
    → Client
    → W
    → Calling W × Result CallError (List Str)
client_keys net rpc prefix = call net (rpc prefix)

-- What a membership change returns: nil, an error of the call, or the error in the response.
pub data ChangeOutcome (E : Type 0) : Type 0 where
  changed : ChangeOutcome E
  call_failed : CallError → ChangeOutcome E
  refused : E → ChangeOutcome E

change_result : {E : Type 0} → Result CallError (Option E) → ChangeOutcome E
change_result (err e) = call_failed e
change_result (ok none) = changed
change_result (ok (some e)) = refused e

-- `memberChange`. A response with the empty error text is `none`.
unfoldable pub member_change :
    {W E : Type 0} → Network W → Rpc W (Option E) → Client → W → Calling W × ChangeOutcome E
unfolding change_result
member_change net rpc c w = let (s, r) = call net rpc c w in (s, change_result r)

-- `AddMember` and `RemoveMember`
unfoldable pub client_add_member :
    {W E : Type 0}
    → Network W
    → (Str → Str → Rpc W (Option E))
    → Str
    → Str
    → Client
    → W
    → Calling W × ChangeOutcome E
client_add_member net rpc id addr = member_change net (rpc id addr)

unfoldable pub client_remove_member :
    {W E : Type 0}
    → Network W
    → (Str → Rpc W (Option E))
    → Str
    → Client
    → W
    → Calling W × ChangeOutcome E
client_remove_member net rpc id = member_change net (rpc id)
