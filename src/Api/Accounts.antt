-- ===== src/Api/Accounts.antt =====
-- internal/api/handler/auth.go and user.go: signup, login and the profile of a user.
pub mod Registered
use link_raft.Prelude.{
  tt, ℕ, ◌+◌, ◌%◌, Str, codes, is_empty, Bool, true, false, not, ◌&&◌, ◌||◌, Option, none, some,
  List, [], ◌∷◌, length, ltb, if◌then◌else◌,
}
use link_raft.Prelude.Int.{ℤ, pos, add_int64}
use link_raft.Kvs.Number.{format_int, parse_int}
use link_raft.Api.Act.{
  Act, Failure, internal, bad_request, unauthorized, not_found, conflict, pure, require, reject,
  ◌>>=◌, ◌>>◌,
}
use link_raft.Api.Models.{Instant, User, PublicUser, public, Link}
use link_raft.Api.Kv.{Kv}
use link_raft.Api.Keys.{seq_user, user_key, email_key, index_user_links}
use link_raft.Api.Repo.{Json, get_json, set_json, index}
use link_raft.Api.Auth.{Context, Jwt, new_token, user_id}
use link_raft.Api.Text.{Texts, Bcrypt, path_id}
use link_raft.Api.Links.{LinkView, fetch_links, with_voted}
use link_raft.Api.Votes.{is_some}

-- `signupRequest`
pub record SignupRequest : Type 0 where
  pub name : Str
  pub email : Str
  pub password : Str

-- `loginRequest`
pub record LoginRequest : Type 0 where
  pub email : Str
  pub password : Str

-- `authResponse`
pub record AuthResponse : Type 0 where
  pub user : PublicUser
  pub token : Str

-- `normalizeEmail`
unfoldable pub normalize_email : Texts → Str → Str
normalize_email texts email = texts.to_lower (texts.trim_space email)

-- The libraries and the secret that `Signup` and `Login` use.
pub record Crypto : Type 0 where
  pub bcrypt : Bcrypt
  pub lib : Jwt
  pub secret : Str

abbrev invalid_login : Failure
invalid_login = unauthorized (codes "invalid email or password")

module _ {S : Type 0} (kv : Kv S) (users : Json User) (texts : Texts) (crypto : Crypto) where
  -- The checks of `Signup`
  unfoldable pub check_signup : SignupRequest → Act S (Unit {0})
  check_signup req = do
    let name = texts.trim_space req.name
    reject (is_empty name || ltb 50 (texts.rune_count name))
        (bad_request (codes "name must be 1-50 characters"))
    reject (not (texts.is_address (normalize_email texts req.email)))
        (bad_request (codes "invalid email address"))
    reject (ltb (length req.password) 8 || ltb 72 (length req.password))
        (bad_request (codes "password must be 8-72 characters"))

  -- The part of `Signup` that stores the user, and its answer.
  unfoldable pub store_user : User → Instant → Act S AuthResponse
  store_user user now = do
    set_json kv users (user_key user.id) user
    kv.set (email_key user.email) (format_int user.id)
    token ← require internal (new_token crypto.lib crypto.secret user now)
    pure (record { user = public user; token = token })

  -- `Signup`; a body that cannot be bound is `none`
  unfoldable pub signup : Option SignupRequest → Instant → Act S AuthResponse
  signup body now = do
    req ← require (bad_request (codes "invalid request body")) body
    check_signup req
    let email = normalize_email texts req.email
    hash ← require internal (crypto.bcrypt.generate req.password)
    taken ← kv.get (email_key email)
    reject (is_some taken) (conflict (codes "email already registered"))
    id ← kv.incr seq_user
    store_user
        (record {
          id = id;
          name = texts.trim_space req.name;
          email = email;
          password_hash = hash;
          created_at = now;
        })
        now

  -- `Login`; a body that cannot be bound is `none`
  unfoldable pub login : Option LoginRequest → Instant → Act S AuthResponse
  login body now = do
    req ← require (bad_request (codes "invalid request body")) body
    found ← kv.get (email_key (normalize_email texts req.email))
    text ← require invalid_login found
    id ← require internal (parse_int text)
    record_of ← get_json kv users (user_key id)
    user ← require invalid_login record_of
    reject (not (crypto.bcrypt.compare user.password_hash req.password)) invalid_login
    token ← require internal (new_token crypto.lib crypto.secret user now)
    pure (record { user = public user; token = token })

-- The response of `GetUser`.
pub record Profile : Type 0 where
  pub user : PublicUser
  pub links : List LinkView
  pub total_votes : ℤ

-- The loop that adds up the votes.
unfoldable pub sum_votes : ℤ → List Link → ℤ
sum_votes total [] = total
sum_votes total (l ∷ ls) = sum_votes (add_int64 total l.vote_count) ls

module _ {S : Type 0} (kv : Kv S) (users : Json User) (links : Json Link)
    (ids : Json (List ℤ)) where
  -- `GetUser`
  unfoldable pub get_user : Option ℤ → Context → Act S Profile
  get_user path ctx = do
    id ← path_id path
    found ← get_json kv users (user_key id)
    user ← require (not_found (codes "user not found")) found
    link_ids ← index kv ids (index_user_links id)
    ls ← fetch_links kv links link_ids
    views ← with_voted kv links ls (user_id ctx)
    pure (record { user = public user; links = views; total_votes = sum_votes (pos 0) ls })
