-- ===== src/Api/Links/Created.antt =====
-- internal/api/handler/link.go: what `CreateLink` leaves behind.
use link_raft.Prelude.{◌≡◌, refl, sym, ◌∙◌, Str, str_eq_refl, false, Option, some, List, All}
use link_raft.Prelude.Dict.{Dict, lookup, insert, lookup-insert}
use link_raft.Prelude.Int.{ℤ, inc_int64}
use link_raft.Prelude.Results.{ok}
use link_raft.Kvs.Number.{format_int}
use link_raft.Kvs.Store.{current_int}
use link_raft.Api.Models.{Instant, Link}
use link_raft.Api.Kv.{Kv, plain}
use link_raft.Api.Kv.Simulation.{Simulates}
use link_raft.Api.Keys.{seq_link, index_recent, link_key, index_tag, index_user_links}
use link_raft.Api.Keys.Apart.{
  IsIndex, recent, user_links, tagged, link_key-apart, seq_link-apart, recent-user_links,
  recent-tag, tag-user_links, swapped,
}
use link_raft.Api.Repo.{Json}
use link_raft.Api.Auth.{Context}
use link_raft.Api.Text.{Texts}
use link_raft.Api.Simulated.{Sim-create_link}
use link_raft.Api.Yields.{
  Yields, Yields-Sim, Yields-pure, Yields-bind, Yields-require, Yields-incr, Yields-weaken,
}
use link_raft.Api.Yields.Records.{IsRoundTrip, Yields-set_json}
use link_raft.Api.Links.{LinkView}
use link_raft.Api.Links.Creation.{CreateLinkRequest, store_link, create_link}
use link_raft.Api.Links.First.{
  Once, IsFirst, IsFirst-lookup, All-IsFirst, Yields-IsFirst, Yields-each-IsFirst,
}
use link_raft.Api.Links.Checked.{IsChecked, Yields-checked_link}

-- From the content `d` to `e`, a link of the request has been stored under the next id, and put in
-- front on every list it belongs to.
pub record IsCreated (links : Json Link) (ids : Json (List ℤ)) (texts : Texts)
    (body : Option CreateLinkRequest) (ctx : Context) (now : Instant) (d : Dict Str) (r : LinkView)
    (e : Dict Str) : Type 0 where
  pub req : CreateLinkRequest
  pub bound : body ≡ some req
  pub checked : IsChecked texts req ctx now r.link
  pub next : r.link.id ≡ inc_int64 (current_int seq_link d)
  pub unvoted : r.voted ≡ false
  pub bytes : Str
  pub written : links.marshal r.link ≡ some bytes
  pub stays : lookup (link_key r.link.id) e ≡ some bytes
  pub on_recent : IsFirst ids r.link.id d index_recent e
  pub on_user : IsFirst ids r.link.id d (index_user_links r.link.user_id) e
  pub on_tags : All (λ t. IsFirst ids r.link.id d (index_tag t) e) r.link.tags

module _ (links : Json Link) (ids : Json (List ℤ)) where
  -- The link is stored, and stands in front on its lists.
  record IsStored (link : Link) (d e : Dict Str) : Type 0 where
    bytes : Str
    written : links.marshal link ≡ some bytes
    stays : lookup (link_key link.id) e ≡ some bytes
    on_recent : IsFirst ids link.id d index_recent e
    on_user : IsFirst ids link.id d (index_user_links link.user_id) e
    on_tags : All (λ t. IsFirst ids link.id d (index_tag t) e) link.tags

  link-index :
      (id : ℤ) (b k : Str) (d : Dict Str)
      → IsIndex k
      → lookup k (insert (link_key id) b d) ≡ lookup k d
  link-index id b k d i = rw (lookup-insert (link_key id) k b d, link_key-apart k id i) refl

  Yields-store_link :
      (law : IsRoundTrip ids) (texts : Texts) (link : Link) (d : Dict Str)
      → Once link.tags
      → Yields (store_link plain links ids texts link) d (λ u e. IsStored link d e)
  unfolding store_link
  Yields-store_link law texts link d once = Yields-set_json links _ (link_key link.id) link λ b w.
      let key = link_key link.id in
      let user = index_user_links link.user_id in
      let c = insert key b d in
      let there : lookup key c ≡ some b = rw (lookup-insert key key b d, str_eq_refl key) refl in
      Yields-bind (Yields-IsFirst ids link.id law index_recent c) λ u f (first_r, frame_r).
        Yields-bind (Yields-IsFirst ids link.id law user f) λ v g (first_u, frame_u).
          Yields-weaken (Yields-each-IsFirst ids link.id law link.tags g once) λ x e (firsts, only).
            let on_index : (k : Str) → IsIndex k → lookup k c ≡ lookup k d =
              λ k i. link-index link.id b k d i in
            record {
              bytes = b;
              written = w;
              stays =
                  only key (λ t h. swapped key (index_tag t) (link_key-apart _ link.id (tagged t)))
                  ∙ frame_u key
                      (swapped key user (link_key-apart _ link.id (user_links link.user_id)))
                  ∙ frame_r key (swapped key index_recent (link_key-apart _ link.id recent))
                  ∙ there;
              on_recent =
                  IsFirst-lookup ids link.id index_recent c d f e (on_index _ recent)
                    (only index_recent (λ t h. recent-tag t)
                      ∙ frame_u index_recent
                          (swapped index_recent user (recent-user_links link.user_id)))
                    first_r;
              on_user =
                  IsFirst-lookup ids link.id user f d g e
                    (frame_r user (recent-user_links link.user_id)
                      ∙ on_index _ (user_links link.user_id))
                    (only user (λ t h. tag-user_links t link.user_id)) first_u;
              on_tags =
                  All-IsFirst ids link.id link.tags g d e
                    (λ t h.
                      frame_u (index_tag t)
                        (swapped (index_tag t) user (tag-user_links t link.user_id))
                      ∙ frame_r (index_tag t) (swapped (index_tag t) index_recent (recent-tag t))
                      ∙ on_index _ (tagged t))
                    firsts;
            }

  Yields-create_link :
      (law : IsRoundTrip ids) (texts : Texts) (body : Option CreateLinkRequest) (ctx : Context)
      (now : Instant) (d : Dict Str)
      → Yields
          (create_link plain links ids texts body ctx now)
          d
          (λ r e. IsCreated links ids texts body ctx now d r e)
  unfolding create_link
  Yields-create_link law texts body ctx now d = Yields-require _ body λ req p.
      Yields-bind (Yields-checked_link texts req ctx now d) λ make c (same, draft). rw (sym same) (
        Yields-incr _ seq_link (
          let id = inc_int64 (current_int seq_link d) in
          let f = insert seq_link (format_int id) d in
          let checked = draft.checked id in
          let before : (k : Str) → IsIndex k → lookup k f ≡ lookup k d =
            λ k i. rw (lookup-insert seq_link k (format_int id) d, seq_link-apart k i) refl in
          Yields-bind (Yields-store_link law texts (make id) f checked.tags.once) λ u e h.
            Yields-pure (record {
              req = req;
              bound = p;
              checked = checked;
              next = draft.named id;
              unvoted = refl;
              bytes = h.bytes;
              written = h.written;
              stays = h.stays;
              on_recent =
                  IsFirst-lookup ids (make id).id index_recent f d e e (before _ recent) refl
                    h.on_recent;
              on_user =
                  IsFirst-lookup ids (make id).id (index_user_links (make id).user_id) f d e e
                    (before _ (user_links (make id).user_id)) refl h.on_user;
              on_tags =
                  All-IsFirst ids (make id).id (make id).tags f d e (λ t g. before _ (tagged t))
                    h.on_tags;
            })))

-- With lists of ids that are read back as they were written: when `CreateLink` returns without an error,
-- the link has the next id of the sequence, is the caller's, has no votes and no comments, and has passed
-- the checks of its request: a URL and, unless it is empty, an image URL with the scheme http or https and
-- a host, the lengths of the texts, at most five tags, which are valid, none twice, and those of the request in
-- lower case. It is stored under its key, and it has been put in front of the ids that were on the recent
-- links, the caller's links and the list of each of its tags.
pub create_link-IsCreated :
    {S : Type 0} {view : S → Dict Str} {kv : Kv S}
    → Simulates view kv
    → (links : Json Link) (ids : Json (List ℤ)) → IsRoundTrip ids
    → (texts : Texts) (body : Option CreateLinkRequest) (ctx : Context) (now : Instant) (s t : S)
      (r : LinkView)
    → create_link kv links ids texts body ctx now s ≡ (t, ok r)
    → IsCreated links ids texts body ctx now (view s) r (view t)
create_link-IsCreated {view = view} sim links ids law texts body ctx now s t r =
    (Yields-Sim (Sim-create_link sim links ids texts body ctx now)
        (Yields-create_link links ids law texts body ctx now (view s))).at
      t r
