-- ===== src/Kvs/Client/Calls.antt =====
-- internal/kvs/client.go: where the result of `call` comes from.
use link_raft.Prelude.{tt, ◌≡◌, refl, subst, Str, false, some}
use link_raft.Prelude.Results.{ok}
use link_raft.Kvs.Server.{Reply}
use link_raft.Kvs.Client.{Client, Network, Rpc, set_leader, Calling, call}
use link_raft.Kvs.Client.Attempts.{Ends, Returns, call-Returns}
use link_raft.Kvs.Client.Rounds.{Rule}

-- A node answered `a` as the leader, as the last thing that was asked.
pub record Answered {W A : Type 0} (rpc : Rpc W A) (a : A) (s : Calling W) : Type 0 where
  pub addr : Str
  pub before : W
  pub reply : Reply A
  pub replied : rpc addr before ≡ (s.world, some reply)
  pub leads : reply.not_leader ≡ false
  pub content : reply.content ≡ a
  pub followed : s.client.leader ≡ addr

module _ {W A : Type 0} (net : Network W) (rpc : Rpc W A) where
  abbrev Any : Calling W → Type 0
  Any s = Unit {0}

  Rule-Answered : Rule net rpc (λ bs s. Any s) (Ends Any (Answered rpc))
  unfolding set_leader
  Rule-Answered = record {
    done = λ s h. tt;
    skip = λ a bs s c h e. tt;
    fail = λ a bs s c w h q. tt;
    pass = λ a bs s c w r h q n e. tt;
    hint = λ a bs s c w r h q n e. tt;
    answer = λ a bs s c w r h q n. record {
      addr = a;
      before = s.world;
      reply = r;
      replied = q.replied;
      leads = n;
      content = refl;
      followed = refl;
    };
  }

  -- When a call returns a value, it is the content of the reply of a node that answered as the leader,
  -- this was the last request, and the client takes this node for the leader from then on.
  pub call-Answered :
      (c : Client) (w : W) {s : Calling W} {a : A} → call net rpc c w ≡ (s, ok a) → Answered rpc a s
  call-Answered c w h =
      subst (Returns Any (Answered rpc)) h
        (call-Returns net rpc Any (Answered rpc) Rule-Answered (λ s j. tt) c w tt)
