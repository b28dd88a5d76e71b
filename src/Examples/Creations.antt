-- ===== src/Examples/Creations.antt =====
-- The theorem on `CreateLink`, at an empty store.
use link_raft.Prelude.{◌≡◌, refl, Str, str_eq, codes, length, some, [], ◌∷◌, true, false}
use link_raft.Prelude.Dict.{Dict, insert, lookup}
use link_raft.Prelude.Int.{pos, inc_int64}
use link_raft.Prelude.Results.{ok}
use link_raft.Kvs.Number.{format_int, format_digits}
use link_raft.Kvs.Store.{apply_locked, current_int}
use link_raft.Kvs.Client.{contains}
use link_raft.Api.Act.{◌>>=◌}
use link_raft.Api.Kv.{plain}
use link_raft.Api.Keys.{link_key, index_tag, index_user_links}
use link_raft.Api.Repo.{get_json, set_json, index, prepend_index}
use link_raft.Api.Auth.{user_id, user_name}
use link_raft.Api.Text.{Texts}
use link_raft.Api.Links.{LinkView}
use link_raft.Api.Links.Creation.{
  CreateLinkRequest, matches_tag, is_http, add_tag, clean_tags, checked_link, store_link,
  create_link,
}
use link_raft.Api.Links.Created.{IsCreated, create_link-IsCreated}
use link_raft.Examples.Handlers.{plain-Simulates, ids-IsRoundTrip, link, links, ids, caller}

abbrev texts : Texts
texts = record {
  trim_space = λ s. s;
  to_lower = λ s. s;
  rune_count = length;
  parse_url = λ s. some (record { scheme = codes "http"; host = codes "a"; text = s });
  is_address = λ s. true;
}

-- The second of the two tags is dropped.
abbrev request : CreateLinkRequest
request = record {
  url = codes "http://a";
  title = codes "A";
  description = [];
  image_url = [];
  tags = codes "go" ∷ codes "go" ∷ [];
}

abbrev view : LinkView
view = record { link = link (pos 0); voted = false }

abbrev content : Dict Str
content =
    (codes "seq:link", codes "1")
    ∷ (codes "link:1", 0 ∷ 0 ∷ [])
    ∷ (codes "index:links:recent", 0 ∷ 1 ∷ [])
    ∷ (codes "index:user:7:links", 0 ∷ 1 ∷ [])
    ∷ (codes "index:links:tag:go", 0 ∷ 1 ∷ [])
    ∷ []

created : create_link plain links ids texts (some request) caller 3 [] ≡ (content, ok view)
unfolding create_link checked_link clean_tags add_tag matches_tag is_http store_link prepend_index
    index get_json set_json ◌>>=◌ plain apply_locked lookup insert link_key index_tag
    index_user_links format_int format_digits user_id user_name inc_int64 current_int contains
    str_eq
created = refl

create_link-IsCreated_example : IsCreated links ids texts (some request) caller 3 [] view content
create_link-IsCreated_example =
    create_link-IsCreated plain-Simulates links ids ids-IsRoundTrip texts (some request) caller 3 []
      content view created
