-- ===== src/Api/Kv/Prefixes.antt =====
-- internal/kvs/store.go: how many keys have a prefix.
use link_raft.Prelude.{
  ℕ, ◌+◌, ◌≡◌, refl, Str, str_eq_iff, starts_with, Bool, true, false, ◌&&◌, not, Option, none, some,
  List, [], ◌∷◌, length, if◌then◌else◌, arith, sort_strs, count-sort_strs,
}
use link_raft.Prelude.Dict.{Dict, lookup, insert, erase, keys, Distinct}
use link_raft.Kvs.Store.{with_prefix}
use link_raft.Kvs.Client.{contains}
use link_raft.Kvs.Client.Discovered.{contains-count}

abbrev pub is_some : {A : Type 0} → Option A → Bool
is_some none = false
is_some (some a) = true

pub is_some-none : {A : Type 0} (o : Option A) → is_some o ≡ false → o ≡ none
is_some-none none e = refl
is_some-none (some a) e = absurd cc

abbrev pub one_if : Bool → ℕ
one_if true = 1
one_if false = 0

-- The number of keys with the prefix `p`.
unfoldable pub count_keys : {V : Type 0} → Str → Dict V → ℕ
count_keys p [] = 0
count_keys p ((k, v) ∷ d) = count_keys p d + one_if (starts_with k p)

length-with_prefix :
    {V : Type 0} (p : Str) (d : Dict V) → length (with_prefix p (keys d)) ≡ count_keys p d
unfolding with_prefix count_keys
length-with_prefix p [] = refl
length-with_prefix p ((k, v) ∷ d) = ground (arith, length-with_prefix p d)

module _ {V : Type 0} where
  pub count_keys-insert :
      (p k : Str) (v : V) (d : Dict V)
      → count_keys p (insert k v d)
        ≡ count_keys p d + one_if (not (is_some (lookup k d)) && starts_with k p)
  unfolding count_keys lookup insert
  count_keys-insert p k v [] = ground arith
  count_keys-insert p k v ((j, w) ∷ d) = ground (arith, str_eq_iff j k, count_keys-insert p k v d)

  pub count_keys-erase :
      (p k : Str) (d : Dict V)
      → Distinct d
      → count_keys p (erase k d) + one_if (is_some (lookup k d) && starts_with k p) ≡ count_keys p d
  unfolding count_keys lookup erase
  count_keys-erase p k [] h = ground arith
  count_keys-erase p k ((j, w) ∷ d) h =
      ground (arith, str_eq_iff j k, h.0, count_keys-erase p k d h.1)

module _ {V : Type 0} where
  contains-keys : (k : Str) (d : Dict V) → contains k (keys d) ≡ is_some (lookup k d)
  unfolding contains lookup
  contains-keys k [] = refl
  contains-keys k ((j, v) ∷ d) = ground (arith, contains-keys k d)

contains-with_prefix :
    (k p : Str) (ks : List Str) → contains k (with_prefix p ks) ≡ (starts_with k p && contains k ks)
unfolding with_prefix contains
contains-with_prefix k p [] = ground arith
contains-with_prefix k p (j ∷ js) = ground (arith, contains-with_prefix k p js, str_eq_iff j k)

contains-sort_strs : (k : Str) (ks : List Str) → contains k (sort_strs ks) ≡ contains k ks
contains-sort_strs k ks =
    grind (arith, contains-count k ks, contains-count k (sort_strs ks), count-sort_strs k ks)

-- The keys that `Keys` lists.
pub contains-listed :
    {V : Type 0} (k p : Str) (d : Dict V)
    → contains k (sort_strs (with_prefix p (keys d))) ≡ (starts_with k p && is_some (lookup k d))
contains-listed k p d = grind (
  arith,
  contains-sort_strs k (with_prefix p (keys d)),
  contains-with_prefix k p (keys d),
  contains-keys k d,
)

without-listed :
    {V : Type 0} (s : Bool) (o : Option V)
    → (if s && is_some o then none else o) ≡ (if s then none else o)
without-listed true none = refl
without-listed true (some v) = refl
without-listed false o = refl

-- The content without the keys that `Keys` lists.
pub lookup-listed :
    {V : Type 0} (k p : Str) (d : Dict V)
    → (if contains k (sort_strs (with_prefix p (keys d))) then none else lookup k d)
      ≡ (if starts_with k p then none else lookup k d)
lookup-listed k p d = rw (contains-listed k p d) (without-listed (starts_with k p) (lookup k d))
