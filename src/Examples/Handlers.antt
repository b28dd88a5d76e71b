-- ===== src/Examples/Handlers.antt =====
-- The theorems on the web API's handlers, at a store with one link.
use link_raft.Prelude.{
  tt, ◌^◌, sort_strs, zero, suc, sym, ◌∙◌, ◌+◌, ◌*◌, ◌≡◌, refl, ap, Str, codes, str_eq, starts_with,
  length, take, Bool, true, false, Option, none, some, List, [], ◌∷◌, ◌++◌, if◌then◌else◌, arith,
}
use link_raft.Prelude.Int.{ℤ, pos, negsuc, inc_int64}
use link_raft.Prelude.Dict.{Dict, lookup, insert, erase}
use link_raft.Prelude.Results.{Result, ok, err}
use link_raft.Kvs.Number.{format_int, format_digits}
use link_raft.Api.Act.{Act, Failure, http, internal, panicked, unavailable, ◌>>=◌}
use link_raft.Api.Models.{Link, Comment, Vote}
use link_raft.Api.Kv.{plain}
use link_raft.Api.Kv.Simulation.{Agrees, Sim, Simulates}
use link_raft.Api.Kv.Prefixes.{count_keys}
use link_raft.Api.Keys.{
  link_key, comment_key, vote_key, vote_prefix, index_tag, index_user_links, index_link_comments,
}
use link_raft.Kvs.Store.{apply_locked, current_int, with_prefix}
use link_raft.Api.Repo.{Json, get_json, set_json, index, append_index, remove_index}
use link_raft.Api.Auth.{Context, user_id, user_name}
use link_raft.Api.Text.{Texts, path_id}
use link_raft.Api.Yields.Records.{IsRoundTrip, stored, read_as}
use link_raft.Api.Links.{erase_link, delete_traces, delete_link}
use link_raft.Api.Links.Deleted.{IsDeleted, delete_link-IsDeleted}
use link_raft.Api.Links.Listing.{page_of}
use link_raft.Api.Links.Pages.{pages, pages-take, page_of-slice}
use link_raft.Api.Comments.{CreateCommentRequest, check_parent, store_comment, create_comment}
use link_raft.Api.Comments.Commented.{IsCommented, create_comment-IsCommented}
use link_raft.Api.Votes.{toggle_vote}
use link_raft.Api.Votes.Toggled.{IsToggled, toggle_vote-IsToggled}
use link_raft.Api.Votes.Tally.{IsTallied, IsReadBack, toggle_vote-IsTallied}

Agrees-refl : {A : Type 0} (q : Dict Str × Result Failure A) → Agrees (λ d. d) q q
Agrees-refl (d, ok a) = refl
Agrees-refl (d, err (http c m)) = refl
Agrees-refl (d, err internal) = refl
Agrees-refl (d, err panicked) = refl
Agrees-refl (d, err unavailable) = tt

Sim-refl : {A : Type 0} (m : Act (Dict Str) A) → Sim (λ d. d) m m
Sim-refl m = record { at = λ d. Agrees-refl (m d) }

pub plain-Simulates : Simulates (λ d. d) plain
plain-Simulates = record {
  get = λ k. Sim-refl _;
  set = λ k v. Sim-refl _;
  delete = λ k. Sim-refl _;
  incr = λ k. Sim-refl _;
  keys = λ p. Sim-refl _;
}

-- A link by its vote count, which is all that its text has.
abbrev pub link : ℤ → Link
link n = record {
  id = pos 1;
  url = codes "http://a";
  title = codes "A";
  description = [];
  image_url = [];
  user_id = pos 7;
  user_name = codes "u";
  tags = codes "go" ∷ [];
  vote_count = n;
  comment_count = pos 0;
  created_at = 3;
}

abbrev pub write_int : ℤ → Str
write_int (pos n) = 0 ∷ n ∷ []
write_int (negsuc n) = 1 ∷ n ∷ []

abbrev read_link : Str → Option Link
read_link (zero ∷ n ∷ []) = some (link (pos n))
read_link (suc k ∷ n ∷ []) = some (link (negsuc n))
read_link _ = none

abbrev pub links : Json Link
links = record { marshal = λ l. some (write_int l.vote_count); unmarshal = read_link }

read-write : (n : ℤ) → read_link (write_int n) ≡ some (link n)
read-write (pos n) = refl
read-write (negsuc n) = refl

reads-only : (b : Str) (l : Link) → read_link b ≡ some l → (n : ℤ) × (l ≡ link n)
reads-only [] l e = absurd cc
reads-only (zero ∷ []) l e = absurd cc
reads-only (suc k ∷ []) l e = absurd cc
reads-only (zero ∷ n ∷ []) l e = (pos n, cc)
reads-only (suc k ∷ n ∷ []) l e = (negsuc n, cc)
reads-only (zero ∷ n ∷ m ∷ b) l e = absurd cc
reads-only (suc k ∷ n ∷ m ∷ b) l e = absurd cc

links-IsReadBack : IsReadBack links
links-IsReadBack = record {
  again = λ l n b c e w.
      let (m, is) = reads-only b l e in
      let kept : link n ≡ record l { vote_count = n } =
        ap (λ (x : Link). record x { vote_count = n }) (sym is) in
      let text : write_int n ≡ c = cc in ap read_link (sym text) ∙ read-write n ∙ ap some kept;
}

abbrev votes : Json Vote
votes = record { marshal = λ v. some (v.created_at ∷ []); unmarshal = λ b. none }

abbrev pub caller : Context
caller = record { auth_user_id = some (pos 7); auth_user_name = some (codes "u") }

-- The link with no votes.
abbrev content : Dict Str
content = (codes "link:1", 0 ∷ 0 ∷ []) ∷ []

abbrev voted : Dict Str
voted = (codes "link:1", 0 ∷ 1 ∷ []) ∷ (codes "vote:1:7", 5 ∷ []) ∷ []

toggled :
    toggle_vote plain links votes 5 (some (pos 1)) caller content
    ≡ (voted, ok (record { voted = true; vote_count = pos 1 }))
unfolding toggle_vote path_id ◌>>=◌ get_json plain apply_locked lookup insert str_eq link_key
    vote_key format_int format_digits set_json user_id inc_int64
toggled = refl

toggle_vote-IsToggled_example :
    (id : ℤ) × (some (pos 1) ≡ some id)
    × IsToggled links content id
        (user_id caller)
        (record { voted = true; vote_count = pos 1 })
        voted
toggle_vote-IsToggled_example =
    toggle_vote-IsToggled links votes 5 plain-Simulates (some (pos 1)) caller content voted
      (record { voted = true; vote_count = pos 1 }) toggled

-- The store holds one link only.
held-only :
    (id : ℤ) (l : Link) (b : Bool)
    → read_as links (if b then some (0 ∷ 0 ∷ []) else none) ≡ some l
    → l.vote_count ≡ pos 0
unfolding read_as
held-only id l true e = cc
held-only id l false e = absurd cc

content-IsTallied : IsTallied links content
content-IsTallied = record {
  distinct = unfold lookup in (refl, tt);
  counts = λ id l i e.
      unfold stored lookup count_keys vote_prefix starts_with in
      held-only id l (str_eq (codes "link:1") (link_key id)) e;
}

toggle_vote-IsTallied_example : IsTallied links voted
toggle_vote-IsTallied_example =
    toggle_vote-IsTallied plain-Simulates links links-IsReadBack votes 5 (pos 1) caller content
      voted (record { voted = true; vote_count = pos 1 }) (omega arith)
      (unfold count_keys vote_prefix starts_with in omega arith) content-IsTallied toggled

abbrev pub write_ints : List ℤ → Str
write_ints [] = []
write_ints (z ∷ zs) = write_int z ++ write_ints zs

abbrev read_ints : Str → Option (List ℤ)
read_ints (zero ∷ n ∷ b) = elim (read_ints b) [ none ↦ none | some zs ↦ some (pos n ∷ zs) ]
read_ints (suc k ∷ n ∷ b) = elim (read_ints b) [ none ↦ none | some zs ↦ some (negsuc n ∷ zs) ]
read_ints (b ∷ []) = none
read_ints [] = some []

abbrev pub ids : Json (List ℤ)
ids = record { marshal = λ zs. some (write_ints zs); unmarshal = read_ints }

abbrev emptied : Dict Str
emptied =
    (codes "index:links:recent", [])
    ∷ (codes "index:user:7:links", [])
    ∷ (codes "index:links:tag:go", [])
    ∷ []

read-write_ints : (zs : List ℤ) → read_ints (write_ints zs) ≡ some zs
read-write_ints [] = refl
read-write_ints (pos n ∷ zs) = rw (read-write_ints zs) refl
read-write_ints (negsuc n ∷ zs) = rw (read-write_ints zs) refl

pub ids-IsRoundTrip : IsRoundTrip ids
ids-IsRoundTrip = record {
  reads = λ zs b w. let text : write_ints zs ≡ b = cc in rw (sym text) (read-write_ints zs);
}

deleted : delete_link plain links ids (some (pos 1)) caller voted ≡ (emptied, ok tt)
unfolding delete_link delete_traces erase_link remove_index index path_id ◌>>=◌ get_json plain
    apply_locked lookup insert erase str_eq link_key vote_prefix comment_key index_tag
    index_user_links index_link_comments format_int format_digits set_json user_id with_prefix
    sort_strs starts_with
deleted = refl

delete_link-IsDeleted_example :
    (id : ℤ) × (some (pos 1) ≡ some id) × IsDeleted links ids voted id (user_id caller) emptied
delete_link-IsDeleted_example =
    delete_link-IsDeleted plain-Simulates links ids ids-IsRoundTrip (some (pos 1)) caller voted
      emptied deleted

abbrev pub texts : Texts
texts = record {
  trim_space = λ s. s;
  to_lower = λ s. s;
  rune_count = length;
  parse_url = λ s. none;
  is_address = λ s. true;
}

abbrev comments : Json Comment
comments = record { marshal = λ c. some c.body; unmarshal = λ b. none }

abbrev comment_request : CreateCommentRequest
comment_request = record { body = codes "hi"; parent_id = none }

abbrev pub comment : Comment
comment = record {
  id = pos 1;
  link_id = pos 1;
  user_id = pos 7;
  user_name = codes "u";
  body = codes "hi";
  parent_id = none;
  vote_count = pos 0;
  created_at = 5;
}

abbrev commented : Dict Str
commented =
    (codes "link:1", 0 ∷ 0 ∷ [])
    ∷ (codes "seq:comment", codes "1")
    ∷ (codes "comment:1", codes "hi")
    ∷ (codes "index:link:1:comments", 0 ∷ 1 ∷ [])
    ∷ []

created :
    create_comment plain links comments ids texts
      (some (pos 1))
      (some comment_request)
      caller
      5
      content
    ≡ (commented, ok comment)
unfolding create_comment store_comment check_parent append_index index path_id ◌>>=◌ get_json plain
    apply_locked lookup insert str_eq link_key comment_key index_link_comments format_int
    format_digits set_json user_id user_name inc_int64 current_int
created = refl

create_comment-IsCommented_example :
    (id : ℤ) × (some (pos 1) ≡ some id)
    × IsCommented links comments ids content id (user_id caller) comment commented
create_comment-IsCommented_example =
    create_comment-IsCommented plain-Simulates links comments ids texts (some (pos 1))
      (some comment_request) caller 5 content commented comment created

pages-take_example : pages 2 2 (codes "abcde") ≡ some (take (2 * 2) (codes "abcde"))
pages-take_example = pages-take 2 2 (codes "abcde") (omega arith) (omega arith)

-- The page whose first index is 2^63 panics.
page_of-slice_example : page_of (2 ^ 63 + 1) 1 (codes "abcde") ≡ err panicked
page_of-slice_example = page_of-slice (2 ^ 63 + 1) 1 (codes "abcde") (omega arith) (omega arith)
