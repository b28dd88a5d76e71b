-- ===== src/Examples/Removals.antt =====
-- The theorem on `DeleteComment`, at a link with one comment.
use link_raft.Prelude.{◌≡◌, tt, refl, Str, str_eq, codes, Option, zero, some, none, [], ◌∷◌}
use link_raft.Prelude.Dict.{Dict, insert, lookup, erase}
use link_raft.Prelude.Int.{ℤ, pos}
use link_raft.Prelude.Results.{ok}
use link_raft.Kvs.Number.{format_int, format_digits}
use link_raft.Kvs.Store.{apply_locked}
use link_raft.Api.Act.{◌>>=◌}
use link_raft.Api.Models.{Link, Comment}
use link_raft.Api.Kv.{plain}
use link_raft.Api.Keys.{link_key, comment_key, index_link_comments}
use link_raft.Api.Repo.{Json, get_json, set_json, index, remove_index}
use link_raft.Api.Auth.{user_id}
use link_raft.Api.Text.{path_id}
use link_raft.Api.Votes.{dec_positive}
use link_raft.Api.Comments.{is_positive, uncount_comment, delete_comment}
use link_raft.Api.Comments.Removed.{IsRemoved, delete_comment-IsRemoved}
use link_raft.Examples.Handlers.{plain-Simulates, link, comment, ids, write_int, caller}

-- A link by the number of its comments, which is all that its text has.
abbrev read_counted : Str → Option Link
read_counted (zero ∷ n ∷ []) = some (record (link (pos 0)) { comment_count = pos n })
read_counted _ = none

abbrev links : Json Link
links = record { marshal = λ l. some (write_int l.comment_count); unmarshal = read_counted }

abbrev comments : Json Comment
comments = record {
  marshal = λ c. some c.body;
  unmarshal = λ b. some (record comment { body = b });
}

abbrev content : Dict Str
content =
    (codes "link:1", 0 ∷ 1 ∷ [])
    ∷ (codes "comment:1", codes "hi")
    ∷ (codes "index:link:1:comments", 0 ∷ 1 ∷ [])
    ∷ []

abbrev rest : Dict Str
rest = (codes "link:1", 0 ∷ 0 ∷ []) ∷ (codes "index:link:1:comments", []) ∷ []

deleted : delete_comment plain links comments ids (some (pos 1)) caller content ≡ (rest, ok tt)
unfolding delete_comment uncount_comment is_positive remove_index index get_json set_json path_id
    ◌>>=◌ plain apply_locked lookup insert erase link_key comment_key index_link_comments format_int
    format_digits user_id str_eq dec_positive
deleted = refl

delete_comment-IsRemoved_example :
    (id : ℤ) × (some (pos 1) ≡ some id)
    × IsRemoved links comments ids content id (user_id caller) rest
delete_comment-IsRemoved_example =
    delete_comment-IsRemoved plain-Simulates links comments ids (some (pos 1)) caller content rest
      deleted
