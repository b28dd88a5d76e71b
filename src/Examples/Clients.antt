-- ===== src/Examples/Clients.antt =====
-- The client's theorems at a cluster whose node `b` is the leader.
use link_raft.Prelude.{
  suc, zero, ap, sym, subst, tt, ℕ, ◌+◌, ◌*◌, ◌≤◌, ◌≡◌, refl, Str, codes, str_eq, Bool, true, false,
  Option, none, some, [], ◌∷◌, count, length, All, if◌then◌else◌, arith,
}
use link_raft.Prelude.Int.{ℤ, pos}
use link_raft.Prelude.Dict.{Dict, lookup}
use link_raft.Prelude.Results.{Result, ok, err}
use link_raft.Raft.Status.{MemberInfo}
use link_raft.Kvs.Store.{Store, get}
use link_raft.Kvs.Server.{
  Outcome, result, not_leader, Reply, StatusResponse, redirected, answer, serve_get, found_value,
}
use link_raft.Kvs.Client.{
  Client, Network, Rpc, new_client, Calling, contains, call, candidates, first_of, client_get,
  client_for, ordered, try_candidates, attempts, after_round, after_request, set_leader,
}
use link_raft.Kvs.Client.Requests.{Counts, call-bounded}
use link_raft.Kvs.Client.Following.{IsLed, call-led}
use link_raft.Kvs.Client.Services.{Nodes, get_rpc, ReadAt, client_get-ReadAt}
use link_raft.Kvs.Client.Discovery.{cluster_status, status_of_all}
use link_raft.Kvs.Client.Discovered.{IsQueried, cluster_status-discovers}
use link_raft.Api.Act.{Act, Failure}
use link_raft.Api.Kv.{plain}
use link_raft.Api.Remote.{
  Service, client_kv, found_option, Repeats, never, again, Performs, IsFaithful, IsRefined,
  client_kv-IsRefined,
}
use link_raft.Examples.Fixtures.{name_a, name_b}

-- The world counts the requests.
abbrev network : Network ℕ
network = record { dial = λ a w. true; wait = λ w. (w, false) }

abbrev network_of : Network (Dict Str × ℕ)
network_of = record { dial = λ a w. true; wait = λ w. (w, false) }

abbrev content_of : Dict Str × ℕ → Dict Str
content_of w = w.0

abbrev reply : Bool → Reply ℤ
reply true = record { content = pos 7; not_leader = false; leader_addr = [] }
reply false = record { content = pos 0; not_leader = true; leader_addr = name_b }

abbrev counting : Rpc ℕ ℤ
counting a w = (w + 1, some (reply (str_eq a name_b)))

abbrev client : Client
client = new_client (name_a ∷ name_b ∷ [])

counted : Counts network counting (λ w. w)
counted = record { request = λ a w. omega arith; wait = λ w. omega arith }

call-bounded_example : (call network counting client 0).0.world ≤ 0 + 10 * (length client.addrs + 2)
call-bounded_example = call-bounded network counting (λ w. w) counted client 0

reply-leads : (b : Bool) → b ≡ true → (reply b).not_leader ≡ false
reply-leads true e = refl
reply-leads false e = absurd cc

reply-hints :
    (b : Bool) (r : Reply ℤ)
    → some (reply b) ≡ some r
    → r.not_leader ≡ true
    → r.leader_addr ≡ name_b
reply-hints true r e f = absurd cc
reply-hints false r e f = cc

led : IsLed network counting name_b
led = record {
  dials = λ w. refl;
  answers = λ w. (reply (str_eq name_b name_b), refl, reply-leads _ (unfold str_eq in refl));
  hints = λ a w r e f g. reply-hints (str_eq a name_b) r e f;
}

call-led_example : (z : ℤ) × ((call network counting client 0).1 ≡ ok z)
call-led_example =
    call-led network counting name_b led client 0
      (unfold count candidates first_of new_client str_eq in omega arith)

-- Two servers, of which `b` is the leader.
abbrev shelf : Store
shelf = record { content = (codes "k", codes "v") ∷ []; wal = none; applied_index = 0 }

abbrev server : Bool → Outcome (Unit {0}) × Store
server true = (result tt, shelf)
server false = (not_leader (record { leader_id = name_b; leader_addr = name_b }), shelf)

abbrev servers : Nodes ℕ
servers a w = (w + 1, some (server (str_eq a name_b)))

abbrev followed : Calling ℕ
followed = (client_get network (get_rpc servers) (codes "k") client 0).0

got : client_get network (get_rpc servers) (codes "k") client 0 ≡ (followed, ok (codes "v", true))
unfolding client_get call attempts try_candidates ordered candidates first_of client_for
    after_request after_round serve_get answer redirected get lookup str_eq new_client contains
    set_leader
got = refl

client_get-ReadAt_example : ReadAt servers (codes "k") (codes "v", true) followed.world
client_get-ReadAt_example = client_get-ReadAt network servers (codes "k") client 0 got

-- `a` names the member at `d`, which the client does not know.
abbrev member_d : MemberInfo
member_d = record { id = codes "d"; addr = codes "d:1"; match_index = 0 }

abbrev status : StatusResponse
status = record {
  node_id = name_a;
  state = codes "leader";
  term = 2;
  leader_id = name_a;
  commit_index = 5;
  applied_index = 5;
  snapshot_index = 2;
  last_log_index = 5;
  keys_total = 1;
  members = member_d ∷ [];
}

abbrev ask : Str → ℕ → ℕ × Option StatusResponse
ask a w = (w + 1, if str_eq a name_a then some status else none)

cluster_status-discovers_example :
    All
      (λ st. All (IsQueried (cluster_status network ask (client, 0)).0.0.addrs) st.members)
      (status_of_all network ask client.addrs (client, 0)).1
    × (((a : Str) → count a client.addrs ≤ 1)
        → (a : Str) → count a (cluster_status network ask (client, 0)).0.0.addrs ≤ 1)
cluster_status-discovers_example = cluster_status-discovers network ask (client, 0)

-- A cluster whose world is its content and a number of answers that get lost: `b` performs a request, the other nodes name `b`.
module _ {A B : Type 0} (n : Act (Dict Str) B) (g : B → A) (empty : A) where
  abbrev performed : Dict Str → Dict Str × Result Failure B → Dict Str × Option (Reply A)
  performed d (e, ok b) = (e, some (record { content = g b; not_leader = false; leader_addr = [] }))
  performed d (e, err x) = (d, none)

  abbrev served_by : Bool → Dict Str → Dict Str × Option (Reply A)
  served_by true d = performed d (n d)
  served_by false d =
      (d, some (record { content = empty; not_leader = true; leader_addr = name_b }))

  -- The first requests are performed, but their answers are lost.
  abbrev lossy : Rpc (Dict Str × ℕ) A
  lossy a (d, zero) = let (e, r) = served_by (str_eq a name_b) d in ((e, 0), r)
  lossy a (d, suc k) = (((n d).0, k), none)

  module _ (f : A → B) (same : (b : B) → f (g b) ≡ b) where
    performed-hits :
        (d : Dict Str) (q : Dict Str × Result Failure B) (w : Dict Str) (r : Reply A)
        → performed d q ≡ (w, some r)
        → q ≡ (w, ok (f r.content))
    performed-hits d (e, ok b) w r h =
        let c : r.content ≡ g b = cc in let t : e ≡ w = cc in rw (c, same b, t) refl
    performed-hits d (e, err x) w r h = absurd cc

    performed-passes :
        (d : Dict Str) (q : Dict Str × Result Failure B) (w : Dict Str) (r : Reply A)
        → performed d q ≡ (w, some r)
        → r.not_leader ≡ true
        → w ≡ d
    performed-passes d (e, ok b) w r h m = absurd cc
    performed-passes d (e, err x) w r h m = absurd cc

    performed-misses :
        (d : Dict Str) (q : Dict Str × Result Failure B) (w : Dict Str)
        → performed d q ≡ (w, none)
        → w ≡ d
    performed-misses d (e, ok b) w h = absurd cc
    performed-misses d (e, err x) w h = cc

    served-hits :
        (t : Bool) (d w : Dict Str) (r : Reply A)
        → served_by t d ≡ (w, some r)
        → r.not_leader ≡ false
        → n d ≡ (w, ok (f r.content))
    served-hits true d w r h m = performed-hits d (n d) w r h
    served-hits false d w r h m = absurd cc

    served-passes :
        (t : Bool) (d w : Dict Str) (r : Reply A)
        → served_by t d ≡ (w, some r)
        → r.not_leader ≡ true
        → w ≡ d
    served-passes true d w r h m = performed-passes d (n d) w r h m
    served-passes false d w r h m = cc

    served-misses : (t : Bool) (d w : Dict Str) → served_by t d ≡ (w, none) → w ≡ d
    served-misses true d w h = performed-misses d (n d) w h
    served-misses false d w h = absurd cc

    lossy-hits :
        (a : Str) (v w : Dict Str × ℕ) (r : Reply A)
        → lossy a v ≡ (w, some r)
        → r.not_leader ≡ false
        → (e : Dict Str) × Repeats n v.0 e × (n e ≡ (w.0, ok (f r.content)))
    lossy-hits a (d, zero) w r h m =
        (d, never, served-hits (str_eq a name_b) d w.0 r (ap (λ p. (p.0.0, p.1)) h) m)
    lossy-hits a (d, suc k) w r h m = absurd cc

    lossy-passes :
        (a : Str) (v w : Dict Str × ℕ) (r : Reply A)
        → lossy a v ≡ (w, some r)
        → r.not_leader ≡ true
        → Repeats n v.0 w.0
    lossy-passes a (d, zero) w r h m =
        subst (Repeats n d)
          (sym (served-passes (str_eq a name_b) d w.0 r (ap (λ p. (p.0.0, p.1)) h) m)) never
    lossy-passes a (d, suc k) w r h m = absurd cc

    lossy-misses : (a : Str) (v w : Dict Str × ℕ) → lossy a v ≡ (w, none) → Repeats n v.0 w.0
    lossy-misses a (d, zero) w h =
        subst (Repeats n d) (sym (served-misses (str_eq a name_b) d w.0 (ap (λ p. (p.0.0, p.1)) h)))
          never
    lossy-misses a (d, suc k) w h = subst (Repeats n d) (ap (λ p. p.0.0) h) (again never)

    lossy-Performs : Performs network_of content_of lossy f n
    lossy-Performs = record {
      quiet = λ v. Unit;
      stays = λ a v q. tt;
      hits = λ a v w r q h m. lossy-hits a v w r h m;
      passes = λ a v w r q h m. lossy-passes a v w r h m;
      misses = λ a v w q h. lossy-misses a v w h;
      waits = λ w q. (tt, never);
    }

abbrev service : Service (Dict Str × ℕ)
service = record {
  get = λ k. lossy (plain.get k) found_value ([], false);
  set = λ k v. lossy (plain.set k v) (λ u. u) tt;
  delete = λ k. lossy (plain.delete k) (λ u. u) tt;
  incr = λ k. lossy (plain.incr k) (λ z. z) (pos 0);
  keys = λ p. lossy (plain.keys p) (λ ks. ks) [];
}

found_value-option : (o : Option Str) → found_option (found_value o) ≡ o
found_value-option none = refl
found_value-option (some v) = refl

service-IsFaithful : IsFaithful network_of content_of service
service-IsFaithful = record {
  get = λ k. lossy-Performs (plain.get k) found_value ([], false) found_option found_value-option;
  set = λ k v. lossy-Performs (plain.set k v) (λ u. u) tt (λ u. u) (λ u. refl);
  delete = λ k. lossy-Performs (plain.delete k) (λ u. u) tt (λ u. u) (λ u. refl);
  incr = λ k. lossy-Performs (plain.incr k) (λ z. z) (pos 0) (λ z. z) (λ z. refl);
  keys = λ p. lossy-Performs (plain.keys p) (λ ks. ks) [] (λ ks. ks) (λ ks. refl);
}

client_kv-IsRefined_example :
    IsRefined network_of content_of service service-IsFaithful (client_kv network_of service)
client_kv-IsRefined_example = client_kv-IsRefined network_of content_of service service-IsFaithful
