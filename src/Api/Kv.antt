-- ===== src/Api/Kv.antt =====
-- internal/api/handler/repo.go: the interface `KV` to the key-value store, less the calls about the
-- cluster, and its abstract view: the content of the store, where no call fails.
pub mod Simulation
pub mod Prefixes
use link_raft.Prelude.{tt, Str, Option, none, some, List, sort_strs}
use link_raft.Prelude.Int.{ℤ, pos}
use link_raft.Prelude.Dict.{Dict, lookup, keys}
use link_raft.Prelude.Results.{Result, ok, err}
use link_raft.Kvs.Store.{apply_locked, with_prefix}
use link_raft.Kvs.Server.{set_command, delete_command, incr_command}
use link_raft.Api.Act.{Act, Failure, unavailable, internal}

-- `KV`
pub record Kv (S : Type 0) : Type 0 where
  pub get : Str → Act S (Option Str)
  pub set : Str → Str → Act S (Unit {0})
  pub delete : Str → Act S (Unit {0})
  pub incr : Str → Act S ℤ
  pub keys : Str → Act S (List Str)

incremented : Option ℤ → Result Failure ℤ
incremented none = err internal
incremented (some z) = ok z

-- A store that applies each command as the state machine does.
unfoldable pub plain : Kv (Dict Str)
unfolding incremented
plain = record {
  get = λ k d. (d, ok (lookup k d));
  set = λ k v d. ((apply_locked (set_command k v) d).0, ok tt);
  delete = λ k d. ((apply_locked (delete_command k) d).0, ok tt);
  incr = λ k d. let (e, r) = apply_locked (incr_command k) d in (e, incremented r);
  keys = λ p d. (d, ok (sort_strs (with_prefix p (keys d))));
}
