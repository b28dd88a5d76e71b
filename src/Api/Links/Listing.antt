-- ===== src/Api/Links/Listing.antt =====
-- internal/api/handler/link.go: `ListLinks`.
use link_raft.Prelude.{
  ℕ, ◌-◌, ◌*◌, ◌%◌, Str, codes, str_eq, is_empty, Bool, true, false, not, ◌&&◌, ◌||◌, Option, none,
  some, List, ◌++◌, take, drop, select, length, ltb, leb, u64_mod, if◌then◌else◌,
}
use link_raft.Prelude.Int.{ℤ, pos, negsuc, of_bits, add_int64}
use link_raft.Prelude.Ordering.{sort_stable}
use link_raft.Prelude.Results.{Result, ok, err}
use link_raft.Api.Act.{Act, Failure, panicked, bad_request, pure, returning, reject, ◌>>=◌, ◌>>◌}
use link_raft.Api.Models.{Link}
use link_raft.Api.Kv.{Kv}
use link_raft.Api.Keys.{index_recent, index_tag}
use link_raft.Api.Repo.{Json, id_eq, index}
use link_raft.Api.Auth.{Context, user_id}
use link_raft.Api.Text.{Texts, has_substring}
use link_raft.Api.Links.{LinkView, fetch_links, with_voted}

-- The query parameters; `page` and `per_page` are read by the binder, which `bound` says was without
-- an error, and are absent or an int.
pub record Query : Type 0 where
  pub sort : Str
  pub bound : Bool
  pub page : Option ℤ
  pub per_page : Option ℤ
  pub tag : Str
  pub q : Str

-- `linkListResponse`
pub record LinkList : Type 0 where
  pub links : List LinkView
  pub total : ℕ
  pub page : ℕ
  pub per_page : ℕ

-- `page`, at least 1
unfoldable pub page_number : Option ℤ → ℕ
page_number none = 1
page_number (some (negsuc n)) = 1
page_number (some (pos n)) = if ltb n 1 then 1 else n

-- `perPage`, from 1 to 100
unfoldable pub page_size : Option ℤ → ℕ
page_size none = 20
page_size (some (negsuc n)) = 20
page_size (some (pos n)) = if ltb n 1 || ltb 100 n then 20 else n

-- a < b on int64
abbrev pub int_ltb : ℤ → ℤ → Bool
int_ltb (pos m) (pos n) = ltb m n
int_ltb (negsuc m) (pos n) = true
int_ltb (pos m) (negsuc n) = false
int_ltb (negsuc m) (negsuc n) = ltb n m

-- The order of `popular`: more votes first, then the younger.
unfoldable pub is_more_popular : Link → Link → Bool
is_more_popular l m =
    if id_eq l.vote_count m.vote_count
    then ltb m.created_at l.created_at
    else int_ltb m.vote_count l.vote_count

-- The filter by `q`
unfoldable pub matches : Texts → Str → Link → Bool
matches texts q l =
    has_substring (texts.to_lower (l.title ++ codes " " ++ l.description ++ codes " " ++ l.url)) q

unfoldable pub filtered : Texts → Str → List Link → List Link
filtered texts q links = if is_empty q then links else select (matches texts q) links

unfoldable pub arranged : Str → List Link → List Link
arranged sort links =
    if str_eq sort (codes "popular") then sort_stable is_more_popular links else links

-- links[low:high] on int64: the slice panics unless 0 ≤ low ≤ high and `high` is at most the length.
-- (Go compares with the capacity; a bound between the two would show what is behind the list.)
unfoldable pub slice : {A : Type 0} → ℤ → ℤ → List A → Result Failure (List A)
slice (pos i) (pos j) xs =
    if leb i j && leb j (length xs) then ok (take (j - i) (drop i xs)) else err panicked
slice (pos i) (negsuc j) xs = err panicked
slice (negsuc i) high xs = err panicked

-- The slice between two bounds that are cut down to the length.
unfoldable pub cut : {A : Type 0} → ℤ → ℕ → List A → Result Failure (List A)
cut start per_page links =
    let total = pos (length links) in
    let first = if int_ltb total start then total else start in
    let end = add_int64 first (pos per_page) in
    let last = if int_ltb total end then total else end in slice first last links

-- The page; the product for `start` is one on int64.
unfoldable pub page_of : {A : Type 0} → ℕ → ℕ → List A → Result Failure (List A)
page_of page per_page links = cut (of_bits (((page - 1) * per_page) % u64_mod)) per_page links

abbrev sort_key : Str → Str
sort_key sort = if is_empty sort then codes "recent" else sort

module _ {S : Type 0} (kv : Kv S) (links : Json Link) (ids : Json (List ℤ)) (texts : Texts) where
  -- The links of a query, before they are cut into pages.
  unfoldable pub listing : Query → Act S (List Link)
  listing query = do
    found ← index kv ids (if is_empty query.tag then index_recent else index_tag query.tag)
    ls ← fetch_links kv links found
    pure (
        arranged (sort_key query.sort)
          (filtered texts (texts.to_lower (texts.trim_space query.q)) ls))

  -- `ListLinks`
  unfoldable pub list_links : Query → Context → Act S LinkList
  list_links query ctx = do
    let sort = sort_key query.sort
    reject (not (str_eq sort (codes "recent")) && not (str_eq sort (codes "popular")))
        (bad_request (codes "sort must be recent or popular"))
    reject (not query.bound) (bad_request (codes "invalid pagination params"))
    let page = page_number query.page
    let per_page = page_size query.per_page
    ls ← listing query
    shown ← returning (page_of page per_page ls)
    views ← with_voted kv links shown (user_id ctx)
    pure (record { links = views; total = length ls; page = page; per_page = per_page })
