-- ===== src/Kvs/Store/Listing.antt =====
-- internal/kvs/store.go: the list that `Keys` returns.
use link_raft.Prelude.{
  ◌≡◌, ◌∙◌, Str, str_eq_iff, starts_with, IsSorted, sort_strs-IsSorted, count, count-sort_strs,
  Bool, true, false, ◌&&◌, Option, none, some, List, [], ◌∷◌, if◌then◌else◌, arith,
}
use link_raft.Prelude.Dict.{Dict, Distinct, lookup, keys}
use link_raft.Kvs.Store.{Store, get, keys_with, with_prefix}

abbrev pub is_found {ℓ} : {V : Type ℓ} → Option V → Bool
is_found none = false
is_found (some v) = true

count-keys :
    (k : Str) (d : Dict Str)
    → Distinct d
    → count k (keys d) ≡ (if is_found (lookup k d) then 1 else 0)
unfolding count lookup
count-keys k [] h = ground arith
count-keys k ((j, v) ∷ d) (fresh, h) = ground (arith, count-keys k d, str_eq_iff j k)

count-with_prefix :
    (k prefix : Str) (ks : List Str)
    → count k (with_prefix prefix ks) ≡ (if starts_with k prefix then count k ks else 0)
unfolding with_prefix count
count-with_prefix k prefix [] = ground arith
count-with_prefix k prefix (j ∷ js) = ground (arith, count-with_prefix k prefix js, str_eq_iff j k)

-- For a content without repeated keys, the list is sorted, and a key occurs in it once if it has
-- the prefix and `get` finds it, and not at all otherwise.
pub keys_with-IsSorted :
    (prefix : Str) (s : Store)
    → Distinct s.content
    → IsSorted (keys_with prefix s)
      × ((k : Str)
          → count k (keys_with prefix s)
            ≡ (if starts_with k prefix && is_found (get k s) then 1 else 0))
unfolding keys_with get
keys_with-IsSorted prefix s h = (
  sort_strs-IsSorted (with_prefix prefix (keys s.content)),
  λ k.
      count-sort_strs k (with_prefix prefix (keys s.content))
      ∙ count-with_prefix k prefix (keys s.content)
      ∙ ground (arith, count-keys k s.content h),
)
