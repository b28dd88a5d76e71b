-- ===== src/Kvs/Client/Services.antt =====
-- internal/kvs/client.go and server.go: a read of the client at a cluster of the servers.
use link_raft.Prelude.{tt, ◌≡◌, refl, Str, Bool, false, Option, none, some, ap, sym, ◌∙◌}
use link_raft.Prelude.Results.{ok}
use link_raft.Kvs.Store.{Store, get}
use link_raft.Kvs.Server.{
  Outcome, result, not_leader, failed, Reply, redirected, answer, found_value, serve_get,
}
use link_raft.Kvs.Client.{Client, Network, Rpc, Calling, client_get}
use link_raft.Kvs.Client.Calls.{call-Answered}

-- A node that is asked for a key: what its `ReadIndex` returns, and its store at that time.
abbrev pub Nodes : Type 0 → Type 0
Nodes W = Str → W → W × Option (Outcome (Unit {0}) × Store)

abbrev get_reply : Str → Option (Outcome (Unit {0}) × Store) → Option (Reply (Str × Bool))
get_reply key none = none
get_reply key (some (read, s)) = serve_get key read s

abbrev pub get_rpc : {W : Type 0} → Nodes W → Str → Rpc W (Str × Bool)
get_rpc nodes key a w = let (v, o) = nodes a w in (v, get_reply key o)

-- The answer `a` is what a node's store holds under the key when its `ReadIndex` returned without an
-- error.
pub record ReadAt {W : Type 0} (nodes : Nodes W) (key : Str) (a : Str × Bool) (w : W) : Type 0 where
  pub addr : Str
  pub before : W
  pub store : Store
  pub asked : nodes addr before ≡ (w, some (result tt, store))
  pub holds : a ≡ found_value (get key store)

get_reply-result :
    (key : Str) (o : Option (Outcome (Unit {0}) × Store)) (r : Reply (Str × Bool))
    → get_reply key o ≡ some r
    → r.not_leader ≡ false
    → (s : Store) × (o ≡ some (result tt, s)) × (r.content ≡ found_value (get key s))
unfolding serve_get answer redirected
get_reply-result key none r e f = absurd cc
get_reply-result key (some (result u, s)) r e f = (s, refl, cc)
get_reply-result key (some (not_leader n, s)) r e f = absurd cc
get_reply-result key (some (failed, s)) r e f = absurd cc

-- When `Get` of the client returns a value at a cluster of the servers, it is what the store of the
-- node that was asked last holds under the key, and that node's `ReadIndex` returned without an error.
pub client_get-ReadAt :
    {W : Type 0} (net : Network W) (nodes : Nodes W) (key : Str) (c : Client) (w : W)
    {s : Calling W} {a : Str × Bool}
    → client_get net (get_rpc nodes) key c w ≡ (s, ok a)
    → ReadAt nodes key a s.world
unfolding client_get
client_get-ReadAt net nodes key c w {s} {a} h =
    let t = call-Answered net (get_rpc nodes key) c w h in
    let (st, e, f) =
      get_reply-result key (nodes t.addr t.before).1 t.reply (ap (λ p. p.1) t.replied) t.leads in
    record { addr = t.addr; before = t.before; store = st; asked = cc; holds = sym t.content ∙ f }
