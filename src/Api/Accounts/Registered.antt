-- ===== src/Api/Accounts/Registered.antt =====
-- internal/api/handler/auth.go: a signup, and the logins of the user it has stored.
use link_raft.Prelude.{◌≡◌, refl, sym, ◌∙◌, Str, str_eq_refl, true, none, some, arith}
use link_raft.Prelude.Dict.{Dict, lookup, insert, lookup-insert}
use link_raft.Prelude.Int.{ℤ, inc_int64, inc_int64-IsInt64, IsInt64}
use link_raft.Prelude.Results.{ok}
use link_raft.Kvs.Number.{format_int, parse_int, parse_int-format_int}
use link_raft.Kvs.Store.{current_int}
use link_raft.Kvs.Store.Counters.{current_int-IsInt64}
use link_raft.Api.Act.{◌>>=◌}
use link_raft.Api.Models.{Instant, User, public}
use link_raft.Api.Kv.{Kv, plain}
use link_raft.Api.Kv.Simulation.{Simulates}
use link_raft.Api.Kv.Prefixes.{is_some, is_some-none}
use link_raft.Api.Keys.{seq_user, user_key, email_key}
use link_raft.Api.Keys.Apart.{email_key-user_key}
use link_raft.Api.Repo.{Json, get_json}
use link_raft.Api.Auth.{new_token}
use link_raft.Api.Text.{Texts}
use link_raft.Api.Simulated.{Sim-signup, Sim-login}
use link_raft.Api.Yields.{
  Yields, Yields-Sim, Yields-pure, Yields-pure_bind, Yields-reject_last, Yields-bind,
  Yields-require, Yields-reject, Yields-get, Yields-set, Yields-incr,
}
use link_raft.Api.Yields.Records.{
  stored, stored-read, stored-bytes, stored-lookup, Yields-get_json, Yields-set_json,
}
use link_raft.Api.Accounts.{
  SignupRequest, LoginRequest, AuthResponse, Crypto, normalize_email, check_signup, store_user,
  signup, login,
}

-- The user that a signup stores.
abbrev pub user_of : Texts → SignupRequest → ℤ → Str → Instant → User
user_of texts req id hash now = record {
  id = id;
  name = texts.trim_space req.name;
  email = normalize_email texts req.email;
  password_hash = hash;
  created_at = now;
}

module _ (users : Json User) (texts : Texts) (crypto : Crypto) where
  -- The user is stored under its id, its address leads to it, and the password is the one it has.
  pub record IsRegistered (d : Dict Str) (password : Str) (user : User) : Type 0 where
    pub number : IsInt64 user.id
    pub known : lookup (email_key user.email) d ≡ some (format_int user.id)
    pub kept : stored users (user_key user.id) d ≡ some user
    pub opens : crypto.bcrypt.compare user.password_hash password ≡ true

  -- What a signup is to find of the libraries: the user is read back after it is written, and bcrypt
  -- accepts the password that it has hashed.
  pub record IsSound (req : SignupRequest) (now : Instant) : Type 0 where
    pub reads :
        (id : ℤ) (hash b : Str)
        → crypto.bcrypt.generate req.password ≡ some hash
        → users.marshal (user_of texts req id hash now) ≡ some b
        → users.unmarshal b ≡ some (user_of texts req id hash now)
    pub accepts :
        (hash : Str)
        → crypto.bcrypt.generate req.password ≡ some hash
        → crypto.bcrypt.compare hash req.password ≡ true

  -- A login with the address and the password of a registered user returns that user and a token for it,
  -- whatever else the store holds, and changes nothing.
  login-IsRegistered :
      (d : Dict Str) (user : User) (req : LoginRequest) (now : Instant) (token : Str)
      → IsRegistered d req.password user
      → normalize_email texts req.email ≡ user.email
      → new_token crypto.lib crypto.secret user now ≡ some token
      → login plain users texts crypto (some req) now d
        ≡ (d, ok (record { user = public user; token = token }))
  unfolding login ◌>>=◌ get_json plain
  login-IsRegistered d user req now token h same signed =
      let (b, there, read) = stored-bytes users (user_key user.id) d h.kept in
      rw (same, h.known, parse_int-format_int user.id h.number, there, read, h.opens, signed) refl

  -- The two keys are all that a registration depends on.
  IsRegistered-kept :
      (d f : Dict Str) (password : Str) (user : User)
      → lookup (email_key user.email) f ≡ lookup (email_key user.email) d
      → lookup (user_key user.id) f ≡ lookup (user_key user.id) d
      → IsRegistered d password user
      → IsRegistered f password user
  IsRegistered-kept d f password user address key h = record {
    number = h.number;
    known = address ∙ h.known;
    kept = stored-lookup users (user_key user.id) (user_key user.id) f d key ∙ h.kept;
    opens = h.opens;
  }

  Yields-check_signup :
      (req : SignupRequest) (d : Dict Str)
      → Yields (check_signup plain users texts crypto req) d (λ u e. d ≡ e)
  unfolding check_signup
  Yields-check_signup req d =
      Yields-reject _ _ _ λ a. Yields-reject _ _ _ λ b. Yields-reject_last _ _ λ c. refl

  -- What `Signup` leaves behind, at the content `e`, of a request at the content `d`.
  pub record IsSignedUp (req : SignupRequest) (now : Instant) (d : Dict Str) (r : AuthResponse)
      (e : Dict Str) : Type 0 where
    pub user : User
    pub registered : IsRegistered e req.password user
    pub email : user.email ≡ normalize_email texts req.email
    pub free : lookup (email_key user.email) d ≡ none
    pub shown : r.user ≡ public user
    pub signed : new_token crypto.lib crypto.secret user now ≡ some r.token
    pub logs_in :
        (f : Dict Str) (address : Str) (later : Instant) (token : Str)
        → lookup (email_key user.email) f ≡ lookup (email_key user.email) e
        → lookup (user_key user.id) f ≡ lookup (user_key user.id) e
        → normalize_email texts address ≡ user.email
        → new_token crypto.lib crypto.secret user later ≡ some token
        → login plain users texts crypto
            (some (record { email = address; password = req.password }))
            later
            f
          ≡ (f, ok (record { user = r.user; token = token }))

  signed_up :
      (req : SignupRequest) (now : Instant) (d : Dict Str) (hash b : Str)
      → IsSound req now
      → crypto.bcrypt.generate req.password ≡ some hash
      → users.marshal (user_of texts req (inc_int64 (current_int seq_user d)) hash now) ≡ some b
      → let id = inc_int64 (current_int seq_user d) in
        let email = normalize_email texts req.email in
        IsRegistered
          (insert
            (email_key email)
            (format_int id)
            (insert (user_key id) b (insert seq_user (format_int id) d)))
          req.password
          (user_of texts req id hash now)
  signed_up req now d hash b sound hashed w =
      let id = inc_int64 (current_int seq_user d) in
      let email = normalize_email texts req.email in
      let c = insert seq_user (format_int id) d in
      let f = insert (user_key id) b c in
      record {
        number = inc_int64-IsInt64 _ (current_int-IsInt64 seq_user d);
        known =
            rw
              (
                lookup-insert (email_key email) (email_key email) (format_int id) f,
                str_eq_refl (email_key email),
              )
              refl;
        kept =
            stored-read users (user_key id) b _ (
              rw
                (
                  lookup-insert (email_key email) (user_key id) (format_int id) f,
                  email_key-user_key email id,
                  lookup-insert (user_key id) (user_key id) b c,
                  str_eq_refl (user_key id),
                )
                refl)
            ∙ sound.reads id hash b hashed w;
        opens = sound.accepts hash hashed;
      }

  Yields-signup :
      (req : SignupRequest) (now : Instant) (d : Dict Str)
      → IsSound req now
      → Yields (signup plain users texts crypto (some req) now) d (IsSignedUp req now d)
  unfolding signup store_user
  Yields-signup req now d sound =
      let email = normalize_email texts req.email in
      let id = inc_int64 (current_int seq_user d) in
      Yields-pure_bind _ req (
        Yields-bind (Yields-check_signup req d) λ u d' same. rw (sym same) (
          Yields-require _ (crypto.bcrypt.generate req.password) λ hash hashed.
            Yields-get _ (email_key email) (
              Yields-reject _ _ (is_some (lookup (email_key email) d)) λ free.
                Yields-incr _ seq_user (
                  Yields-set_json users _ (user_key id) _ λ b w.
                    Yields-set _ (email_key email) (format_int id) (
                      Yields-require _ _ λ token signed. Yields-pure (record {
                        user = user_of texts req id hash now;
                        registered = signed_up req now d hash b sound hashed w;
                        email = refl;
                        free = is_some-none _ free;
                        shown = refl;
                        signed = signed;
                        logs_in = λ f address later token known kept same fresh.
                            login-IsRegistered f (user_of texts req id hash now) _ later token
                              (IsRegistered-kept _ f req.password _ known kept
                                (signed_up req now d hash b sound hashed w))
                              same fresh;
                      }))))))

-- When `Signup` returns a response, the address had not been taken, and the token of the response is
-- one for the new user. From then on, at any content that has kept the two keys of the user, a login with
-- the address and the password of the request returns that user and a token for it, if the library
-- signs one, and changes nothing.
pub signup-login :
    {S : Type 0} {view : S → Dict Str} {kv : Kv S}
    → Simulates view kv
    → (users : Json User) (texts : Texts) (crypto : Crypto) (req : SignupRequest) (now : Instant)
    → IsSound users texts crypto req now
    → (s t : S) (r : AuthResponse) → signup kv users texts crypto (some req) now s ≡ (t, ok r)
    → IsSignedUp users texts crypto req now (view s) r (view t)
signup-login {view = view} sim users texts crypto req now sound s t r =
    (Yields-Sim (Sim-signup sim users texts crypto (some req) now)
        (Yields-signup users texts crypto req now (view s) sound)).at
      t r

module _ (users : Json User) (texts : Texts) (crypto : Crypto) where
  -- A login was let in: the address leads to a user, the password is the one whose hash is stored with
  -- the user, and the response has that user and a token that was signed for it.
  pub record IsLoggedIn (req : LoginRequest) (now : Instant) (d : Dict Str) (r : AuthResponse)
      (e : Dict Str) : Type 0 where
    pub text : Str
    pub id : ℤ
    pub user : User
    pub known : lookup (email_key (normalize_email texts req.email)) d ≡ some text
    pub number : parse_int text ≡ some id
    pub kept : stored users (user_key id) d ≡ some user
    pub opens : crypto.bcrypt.compare user.password_hash req.password ≡ true
    pub shown : r.user ≡ public user
    pub signed : new_token crypto.lib crypto.secret user now ≡ some r.token
    pub unchanged : e ≡ d

  Yields-login :
      (req : LoginRequest) (now : Instant) (d : Dict Str)
      → Yields (login plain users texts crypto (some req) now) d (IsLoggedIn req now d)
  unfolding login
  Yields-login req now d =
      let key = email_key (normalize_email texts req.email) in
      Yields-pure_bind _ req (
        Yields-get _ key (
          Yields-require _ (lookup key d) λ text known.
            Yields-require _ (parse_int text) λ id number. Yields-get_json users _ (user_key id) (
              Yields-require _ (stored users (user_key id) d) λ user kept.
                Yields-reject _ _ _ λ opens. Yields-require _ _ λ token signed.
                  Yields-pure (record {
                    text = text;
                    id = id;
                    user = user;
                    known = known;
                    number = number;
                    kept = kept;
                    opens = ground arith;
                    shown = refl;
                    signed = signed;
                    unchanged = refl;
                  }))))

-- `Login` lets in only who knows the password: when it returns a response, the address of the request
-- leads to a stored user, bcrypt accepts the password of the request for the hash that is stored with that
-- user, the response is that user, without the hash, with a token for it, and the store is unchanged.
pub login-IsLoggedIn :
    {S : Type 0} {view : S → Dict Str} {kv : Kv S}
    → Simulates view kv
    → (users : Json User) (texts : Texts) (crypto : Crypto) (req : LoginRequest) (now : Instant)
      (s t : S) (r : AuthResponse)
    → login kv users texts crypto (some req) now s ≡ (t, ok r)
    → IsLoggedIn users texts crypto req now (view s) r (view t)
login-IsLoggedIn {view = view} sim users texts crypto req now s t r =
    (Yields-Sim (Sim-login sim users texts crypto (some req) now)
        (Yields-login users texts crypto req now (view s))).at
      t r
