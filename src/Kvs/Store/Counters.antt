-- ===== src/Kvs/Store/Counters.antt =====
-- internal/kvs/store.go: `Apply`, `Get` and the counters, key by key.
use link_raft.Prelude.{
  ℕ, ◌≡◌, refl, ◌∙◌, Str, str_eq, str_eq_iff, str_eq_refl, Bool, true, ◌||◌, Option, none, some,
  ltb, ◌==◌, if◌then◌else◌, arith, Option-cases, inl, inr,
}
use link_raft.Prelude.Int.{ℤ, inc_int64, IsInt64, inc_int64-IsInt64}
use link_raft.Prelude.Dict.{Dict, lookup, lookup-insert, lookup-erase}
use link_raft.Journal.{Io}
use link_raft.Kvs.Number.{format_int, parse_int, parse_int-format_int, IsInt64-parse_int}
use link_raft.Kvs.Store.{
  Op, set, delete, incr, other, Command, Store, current_int, int_or_zero, apply_op, apply_locked,
  done, apply, get,
}

-- The state that a command asks for, key by key.
abbrev pub value_after : Command → Str → Dict Str → Option Str
value_after cmd key d =
    if str_eq cmd.key key
    then elim cmd.op [
      | set ↦ some cmd.value
      | delete ↦ none
      | incr ↦ some (format_int (inc_int64 (current_int key d)))
      | other o ↦ lookup key d
    ]
    else lookup key d

module _ (key : Str) (d : Dict Str) where
  lookup-apply_op :
      (op : Op) (k v : Str)
      → lookup key (apply_op op k v d).0
        ≡ value_after (record { op = op; key = k; value = v }) key d
  unfolding apply_op
  lookup-apply_op set k v = ground (arith, lookup-insert k key v d)
  lookup-apply_op delete k v = ground (arith, lookup-erase k key d)
  lookup-apply_op incr k v =
      ground
        (arith, str_eq_iff k key, lookup-insert k key (format_int (inc_int64 (current_int k d))) d)
  lookup-apply_op (other o) k v = ground arith

  pub lookup-apply_locked :
      (cmd : Command) → lookup key (apply_locked cmd d).0 ≡ value_after cmd key d
  unfolding apply_locked
  lookup-apply_locked cmd = lookup-apply_op cmd.op cmd.key cmd.value

int_or_zero-IsInt64 : (v : Str) → IsInt64 (int_or_zero (parse_int v))
unfolding int_or_zero
int_or_zero-IsInt64 v = elim (Option-cases (parse_int v)) [
  | inl none_ ↦ rw none_ (omega arith)
  | inr (z, some_) ↦ rw some_ (IsInt64-parse_int v z some_)
]

pub current_int-IsInt64 : (key : Str) (d : Dict Str) → IsInt64 (current_int key d)
unfolding current_int
current_int-IsInt64 key d = elim (Option-cases (lookup key d)) [
  | inl none_ ↦ rw none_ (omega arith)
  | inr (v, some_) ↦ rw some_ (int_or_zero-IsInt64 v)
]

-- The command is applied: it is no replay of what the store has already seen.
abbrev pub is_fresh : ℕ → Store → Bool
is_fresh index s = index == 0 || ltb s.applied_index index

-- A fresh command changes the value of each key as the command says and of no other key, also where
-- the write-ahead log then fails; a command whose index was applied before changes nothing at all.
pub get-apply :
    (io : Io) (index : ℕ) (cmd : Command) (key : Str) (s : Store)
    → get key (apply io index cmd s).0
      ≡ (if is_fresh index s then value_after cmd key s.content else get key s)
unfolding get apply
get-apply io index cmd key s = ground (arith, lookup-apply_locked key s.content cmd)

current_int-of_lookup :
    (key v : Str) (z : ℤ) (d : Dict Str)
    → lookup key d ≡ some v
    → parse_int v ≡ some z
    → current_int key d ≡ z
unfolding current_int
current_int-of_lookup key v z d found parsed = rw (found, parsed)

returned-apply :
    (io : Io) (index : ℕ) (cmd : Command) (s : Store) (r : Option ℤ)
    → is_fresh index s ≡ true
    → (apply io index cmd s).1 ≡ done r
    → r ≡ (apply_locked cmd s.content).1
unfolding apply
returned-apply io index cmd s r fresh ok = ground arith

-- An increment that is applied for the first time and reported as done reports the int64 after
-- the old value of the key, or after 0 where the key has no number, and the key holds that number
-- afterwards.
pub incr-apply :
    (io : Io) (index : ℕ) (key value : Str) (s : Store) (r : Option ℤ)
    → is_fresh index s ≡ true
    → let cmd : Command = record { op = incr; key = key; value = value } in
      (apply io index cmd s).1 ≡ done r
      → (r ≡ some (inc_int64 (current_int key s.content)))
        × (current_int key (apply io index cmd s).0.content ≡ inc_int64 (current_int key s.content))
incr-apply io index key value s r fresh ok =
    let z = inc_int64 (current_int key s.content) in
    let cmd : Command = record { op = incr; key = key; value = value } in
    (
      returned-apply io index cmd s r fresh ok ∙ unfold apply_locked in refl,
      current_int-of_lookup key (format_int z) z (apply io index cmd s).0.content
          (unfold get in ground (arith, get-apply io index cmd key s, str_eq_refl key))
          (parse_int-format_int z (inc_int64-IsInt64 _ (current_int-IsInt64 key s.content))),
    )
