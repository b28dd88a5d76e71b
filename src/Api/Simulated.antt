-- ===== src/Api/Simulated.antt =====
-- internal/api/handler: the handlers over a key-value store that does not fail, as handlers over its
-- content.
use link_raft.Prelude.{tt, zero, suc, Str, Bool, true, false, Option, none, some, List, [], ◌∷◌}
use link_raft.Prelude.Dict.{Dict}
use link_raft.Prelude.Int.{ℤ, pos, negsuc}
use link_raft.Api.Models.{Instant, Link, Vote, Comment, User}
use link_raft.Api.Kv.{Kv, plain}
use link_raft.Api.Kv.Simulation.{
  Sim, Simulates, Sim-pure, Sim-raise, Sim-require, Sim-returning, Sim-reject, Sim-if, Sim-when,
  Sim-bind, Sim-each, Sim-get, Sim-set, Sim-delete, Sim-incr, Sim-keys,
}
use link_raft.Api.Repo.{
  Json, id_eq, decoded, get_json, set_json, index, prepend_index, append_index, remove_index,
}
use link_raft.Api.Auth.{Context}
use link_raft.Api.Text.{path_id, Texts}
use link_raft.Api.Links.Creation.{CreateLinkRequest, checked_link, store_link, create_link}
use link_raft.Api.Comments.{
  CreateCommentRequest, check_parent, store_comment, create_comment, uncount_comment,
  delete_comment,
}
use link_raft.Api.Accounts.{
  SignupRequest, LoginRequest, Crypto, check_signup, store_user, signup, login,
}
use link_raft.Api.Votes.{change_vote, toggle_vote}
use link_raft.Api.Links.{erase_link, delete_traces, delete_link, fetch_links, has_voted, with_voted}

module _ {S : Type 0} {view : S → Dict Str} {kv : Kv S} (h : Simulates view kv) where
  Sim-decoded :
      {A : Type 0} (json : Json A) (o : Option Str)
      → Sim view (decoded kv json o) (decoded plain json o)
  Sim-decoded json none = Sim-pure none
  Sim-decoded json (some b) = search (Sim-bind, Sim-require, Sim-pure)

  pub Sim-get_json :
      {A : Type 0} (json : Json A) (k : Str) → Sim view (get_json kv json k) (get_json plain json k)
  unfolding get_json
  Sim-get_json json k = Sim-bind (Sim-get h k) (Sim-decoded json)

  pub Sim-set_json :
      {A : Type 0} (json : Json A) (k : Str) (a : A)
      → Sim view (set_json kv json k a) (set_json plain json k a)
  unfolding set_json
  Sim-set_json json k a = Sim-bind (Sim-require _ (json.marshal a)) (Sim-set h k)

  pub Sim-index : (json : Json (List ℤ)) (k : Str) → Sim view (index kv json k) (index plain json k)
  unfolding index
  Sim-index json k = search (Sim-bind, Sim-get_json, Sim-pure)

  pub Sim-remove_index :
      (json : Json (List ℤ)) (k : Str) (id : ℤ)
      → Sim view (remove_index kv json k id) (remove_index plain json k id)
  unfolding remove_index
  Sim-remove_index json k id = search (Sim-bind, Sim-index, Sim-set_json)

  pub Sim-prepend_index :
      (json : Json (List ℤ)) (k : Str) (id : ℤ)
      → Sim view (prepend_index kv json k id) (prepend_index plain json k id)
  unfolding prepend_index
  Sim-prepend_index json k id = search (Sim-bind, Sim-index, Sim-set_json)

  pub Sim-append_index :
      (json : Json (List ℤ)) (k : Str) (id : ℤ)
      → Sim view (append_index kv json k id) (append_index plain json k id)
  unfolding append_index
  Sim-append_index json k id = search (Sim-bind, Sim-index, Sim-set_json)

  pub Sim-path_id : (o : Option ℤ) → Sim view (path_id o) (path_id o)
  unfolding path_id
  Sim-path_id none = Sim-raise _
  Sim-path_id (some (negsuc n)) = Sim-raise _
  Sim-path_id (some (pos zero)) = Sim-raise _
  Sim-path_id (some (pos (suc n))) = Sim-pure _

  Sim-change_vote :
      (links : Json Link) (votes : Json Vote) (now : Instant) (b : Bool) (k : Str) (n : ℤ)
      → Sim view (change_vote kv links votes now b k n) (change_vote plain links votes now b k n)
  Sim-change_vote links votes now true k n = search (Sim-bind, Sim-delete, Sim-pure)
  Sim-change_vote links votes now false k n = search (Sim-bind, Sim-set_json, Sim-pure)

  pub Sim-toggle_vote :
      (links : Json Link) (votes : Json Vote) (now : Instant) (path : Option ℤ) (ctx : Context)
      → Sim view
          (toggle_vote kv links votes now path ctx)
          (toggle_vote plain links votes now path ctx)
  unfolding toggle_vote
  Sim-toggle_vote links votes now path ctx =
      search
        (
          Sim-bind, Sim-path_id, Sim-get_json, Sim-require, Sim-get, Sim-change_vote, Sim-set_json,
          Sim-pure,
        )
        depth 20

  module _ (links : Json Link) where
    pub Sim-fetch_links :
        (ids : List ℤ) → Sim view (fetch_links kv links ids) (fetch_links plain links ids)
    unfolding fetch_links
    Sim-fetch_links [] = Sim-pure []
    Sim-fetch_links (id ∷ ids) =
        Sim-bind (Sim-get_json links _)
          (λ found. Sim-bind (Sim-fetch_links ids) (λ rest. Sim-pure _))

    Sim-has_voted :
        (caller id : ℤ) → Sim view (has_voted kv links caller id) (has_voted plain links caller id)
    unfolding has_voted
    Sim-has_voted caller id =
        Sim-if (id_eq caller (pos 0)) (Sim-pure false) (Sim-bind (Sim-get h _) (λ v. Sim-pure _))

    pub Sim-with_voted :
        (ls : List Link) (caller : ℤ)
        → Sim view (with_voted kv links ls caller) (with_voted plain links ls caller)
    unfolding with_voted
    Sim-with_voted [] caller = Sim-pure []
    Sim-with_voted (l ∷ ls) caller =
        Sim-bind (Sim-has_voted caller l.id)
          (λ voted. Sim-bind (Sim-with_voted ls caller) (λ rest. Sim-pure _))

    pub Sim-delete_link :
        (ids : Json (List ℤ)) (path : Option ℤ) (ctx : Context)
        → Sim view (delete_link kv links ids path ctx) (delete_link plain links ids path ctx)
    unfolding delete_link delete_traces erase_link
    Sim-delete_link ids path ctx =
        search
          (
            Sim-bind, Sim-path_id, Sim-get_json, Sim-require, Sim-reject, Sim-remove_index,
            Sim-each, Sim-index, Sim-delete, Sim-keys,
          )
          depth 40

  module _ (users : Json User) (texts : Texts) (crypto : Crypto) where
    pub Sim-signup :
        (body : Option SignupRequest) (now : Instant)
        → Sim view
            (signup kv users texts crypto body now)
            (signup plain users texts crypto body now)
    unfolding signup check_signup store_user
    Sim-signup body now =
        search
          (Sim-bind, Sim-require, Sim-reject, Sim-get, Sim-incr, Sim-set, Sim-set_json, Sim-pure)
          depth 40

    pub Sim-login :
        (body : Option LoginRequest) (now : Instant)
        → Sim view (login kv users texts crypto body now) (login plain users texts crypto body now)
    unfolding login
    Sim-login body now =
        search (Sim-bind, Sim-require, Sim-reject, Sim-get, Sim-get_json, Sim-pure) depth 40

  module _ (links : Json Link) (comments : Json Comment) (ids : Json (List ℤ)) where
    Sim-check_parent :
        (id : ℤ) (p : Option ℤ)
        → Sim view
            (check_parent kv links comments ids id p)
            (check_parent plain links comments ids id p)
    unfolding check_parent
    Sim-check_parent id none = Sim-pure tt
    Sim-check_parent id (some p) = search (Sim-bind, Sim-get_json, Sim-require, Sim-reject)

    pub Sim-create_comment :
        (texts : Texts) (path : Option ℤ) (body : Option CreateCommentRequest) (ctx : Context)
        (now : Instant)
        → Sim view
            (create_comment kv links comments ids texts path body ctx now)
            (create_comment plain links comments ids texts path body ctx now)
    unfolding create_comment store_comment
    Sim-create_comment texts path body ctx now =
        search
          (
            Sim-bind, Sim-path_id, Sim-require, Sim-reject, Sim-get_json, Sim-check_parent,
            Sim-incr, Sim-set_json, Sim-append_index, Sim-pure,
          )
          depth 40

    Sim-uncount_comment :
        (id : ℤ) (found : Option Link)
        → Sim view
            (uncount_comment kv links comments ids id found)
            (uncount_comment plain links comments ids id found)
    unfolding uncount_comment
    Sim-uncount_comment id none = Sim-pure tt
    Sim-uncount_comment id (some link) = Sim-when _ (Sim-set_json links _ _)

    pub Sim-delete_comment :
        (path : Option ℤ) (ctx : Context)
        → Sim view
            (delete_comment kv links comments ids path ctx)
            (delete_comment plain links comments ids path ctx)
    unfolding delete_comment
    Sim-delete_comment path ctx =
        search
          (
            Sim-bind, Sim-path_id, Sim-require, Sim-reject, Sim-get_json, Sim-remove_index,
            Sim-delete, Sim-uncount_comment,
          )
          depth 30

  module _ (links : Json Link) (ids : Json (List ℤ)) where
    Sim-checked_link :
        (texts : Texts) (req : CreateLinkRequest) (ctx : Context) (now : Instant)
        → Sim view (checked_link texts req ctx now) (checked_link texts req ctx now)
    unfolding checked_link
    Sim-checked_link texts req ctx now =
        search (Sim-bind, Sim-require, Sim-reject, Sim-returning, Sim-pure) depth 20

    pub Sim-create_link :
        (texts : Texts) (body : Option CreateLinkRequest) (ctx : Context) (now : Instant)
        → Sim view
            (create_link kv links ids texts body ctx now)
            (create_link plain links ids texts body ctx now)
    unfolding create_link store_link
    Sim-create_link texts body ctx now =
        search
          (
            Sim-bind, Sim-require, Sim-checked_link, Sim-incr, Sim-set_json, Sim-prepend_index,
            Sim-each, Sim-pure,
          )
          depth 40
