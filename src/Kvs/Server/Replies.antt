-- ===== src/Kvs/Server/Replies.antt =====
-- internal/kvs/server.go: the replies to reads and increments after a command was applied.
use link_raft.Prelude.{
  ℕ, ◌≡◌, refl, Str, str_eq_refl, true, false, Option, none, some, [], arith, tt,
}
use link_raft.Prelude.Int.{ℤ, inc_int64}
use link_raft.Journal.{Io}
use link_raft.Kvs.Store.{Store, current_int, apply, done, get}
use link_raft.Kvs.Store.Counters.{is_fresh, get-apply, incr-apply}
use link_raft.Kvs.Server.{
  result, Reply, redirected, answer, set_command, delete_command, incr_command, serve_get,
  serve_incr,
}

-- The answer of the leader.
abbrev pub served {ℓ} : {A : Type ℓ} → A → Option (Reply A)
served a = some (record { content = a; not_leader = false; leader_addr = [] })

module _ (io : Io) (index : ℕ) (key : Str) (s : Store) (fresh : is_fresh index s ≡ true) where
  get-set : (v : Str) → get key (apply io index (set_command key v) s).0 ≡ some v
  get-set v = grind (arith, get-apply io index (set_command key v) key s, str_eq_refl key)

  get-delete : get key (apply io index (delete_command key) s).0 ≡ none
  get-delete = grind (arith, get-apply io index (delete_command key) key s, str_eq_refl key)

  -- Once the state machine has applied a `Set` for the first time, a `Get` that the raft node
  -- lets through answers its value; once it has so applied a `Delete`, the key is not found.
  pub serve_get-write :
      (v : Str)
      → (serve_get key (result tt) (apply io index (set_command key v) s).0 ≡ served (v, true))
        × (serve_get key (result tt) (apply io index (delete_command key) s).0 ≡ served ([], false))
  unfolding serve_get answer redirected
  serve_get-write v = (rw (get-set v) refl, rw get-delete refl)

  -- The reply to an `Incr` that is applied for the first time is the number that the key holds from
  -- then on, and it follows the number that the key held before.
  serve_incr-apply :
      (r : Option ℤ)
      → (apply io index (incr_command key) s).1 ≡ done r
      → (serve_incr (result r)
          ≡ served (current_int key (apply io index (incr_command key) s).0.content))
        × (current_int key (apply io index (incr_command key) s).0.content
            ≡ inc_int64 (current_int key s.content))
  unfolding serve_incr answer redirected
  serve_incr-apply r ok =
      let (told, held) = incr-apply io index key [] s r fresh ok in (rw (told, held) refl, held)
