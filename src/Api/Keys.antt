-- ===== src/Api/Keys.antt =====
-- internal/api/handler/repo.go: the keys under which the API stores its records.
pub mod Apart
use link_raft.Prelude.{Str, codes, ◌++◌, ◌∷◌}
use link_raft.Prelude.Int.{ℤ}
use link_raft.Kvs.Number.{format_int}

abbrev pub seq_user : Str
seq_user = codes "seq:user"

abbrev pub seq_link : Str
seq_link = codes "seq:link"

abbrev pub seq_comment : Str
seq_comment = codes "seq:comment"

abbrev pub index_recent : Str
index_recent = codes "index:links:recent"

unfoldable pub user_key : ℤ → Str
user_key id = codes "user:" ++ format_int id

unfoldable pub link_key : ℤ → Str
link_key id = codes "link:" ++ format_int id

unfoldable pub comment_key : ℤ → Str
comment_key id = codes "comment:" ++ format_int id

unfoldable pub email_key : Str → Str
email_key email = codes "user:email:" ++ email

unfoldable pub vote_prefix : ℤ → Str
vote_prefix link_id = codes "vote:" ++ format_int link_id ++ codes ":"

-- "vote:%d:%d"
unfoldable pub vote_key : ℤ → ℤ → Str
vote_key link_id user_id = codes "vote:" ++ format_int link_id ++ codes ":" ++ format_int user_id

unfoldable pub index_tag : Str → Str
index_tag tag = codes "index:links:tag:" ++ tag

unfoldable pub index_user_links : ℤ → Str
index_user_links user_id = codes "index:user:" ++ format_int user_id ++ codes ":links"

unfoldable pub index_link_comments : ℤ → Str
index_link_comments link_id = codes "index:link:" ++ format_int link_id ++ codes ":comments"
