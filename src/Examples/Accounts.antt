-- ===== src/Examples/Accounts.antt =====
-- The theorems on signups, logins and tokens, with tokens that are the claims as numbers.
use link_raft.Prelude.{
  ◌/◌, ◌*◌, ℕ, zero, suc, sym, ◌∙◌, ◌<◌, ◌≡◌, ◌⊎◌, refl, ap, Str, codes, str_eq, str_eq_refl,
  is_empty, length, take, drop, ltb, Bool, true, false, Option, none, some, [], ◌∷◌, ◌++◌, arith,
}
use link_raft.Prelude.Int.{ℤ, pos, negsuc, inc_int64}
use link_raft.Prelude.Dict.{Dict, lookup, insert}
use link_raft.Prelude.Results.{ok}
use link_raft.Kvs.Number.{format_int, format_digits, parse_int}
use link_raft.Kvs.Store.{apply_locked, current_int}
use link_raft.Api.Act.{Act, pure, ◌>>=◌}
use link_raft.Api.Models.{Instant, User, public}
use link_raft.Api.Kv.{plain}
use link_raft.Api.Keys.{email_key, user_key}
use link_raft.Api.Repo.{Json, set_json, get_json}
use link_raft.Api.Auth.{Context, Claims, hmac, Jwt, anonymous, new_token, jwt, seven_days}
use link_raft.Api.Auth.Bearer.{IsAdmitted, IsRefused, jwt-cases, IsJwt, new_token-jwt}
use link_raft.Api.Accounts.{
  SignupRequest, LoginRequest, AuthResponse, Crypto, normalize_email, check_signup, store_user,
  signup, login,
}
use link_raft.Api.Accounts.Registered.{
  IsSound, IsSignedUp, signup-login, IsLoggedIn, login-IsLoggedIn,
}
use link_raft.Examples.Handlers.{plain-Simulates, texts}

-- A token holds the numbers of the claims, the length of the name, the name and the subject.
abbrev write_id : ℤ → Str → Str
write_id (pos n) rest = 0 ∷ n ∷ rest
write_id (negsuc n) rest = 1 ∷ n ∷ rest

abbrev write_claims : Claims → Str
write_claims c =
    write_id c.user_id (c.issued_at ∷ c.expires_at ∷ length c.user_name ∷ c.user_name ++ c.subject)

abbrev read_id : ℕ → ℕ → ℤ
read_id zero n = pos n
read_id (suc k) n = negsuc n

abbrev read_claims : Str → Option Claims
read_claims (t ∷ n ∷ i ∷ e ∷ k ∷ rest) = some (record {
  user_id = read_id t n;
  user_name = take k rest;
  subject = drop k rest;
  issued_at = i;
  expires_at = e;
})
read_claims _ = none

abbrev checked : Instant → Option Claims → Option (Claims × Bool)
checked now none = none
checked now (some c) = some (c, ltb now c.expires_at)

abbrev parsed : Option Str → Str → Instant → Option (Claims × Bool)
parsed none token now = none
parsed (some key) token now = checked now (read_claims token)

abbrev plain_jwt : Jwt
plain_jwt = record {
  numeric_date = λ t. t / 1000000000 * 1000000000;
  sign = λ c key. some (write_claims c);
  parse = λ key_for token now. parsed (key_for (hmac (codes "HS256"))) token now;
}

take-append : (s t : Str) → take (length s) (s ++ t) ≡ s
take-append [] t = refl
take-append (a ∷ s) t = ap (λ r. a ∷ r) (take-append s t)

drop-append : (s t : Str) → drop (length s) (s ++ t) ≡ t
drop-append [] t = refl
drop-append (a ∷ s) t = drop-append s t

read-write_id :
    (z : ℤ) (i e : Instant) (u t : Str)
    → read_claims (write_id z (i ∷ e ∷ length u ∷ u ++ t))
      ≡ some (record { user_id = z; user_name = u; subject = t; issued_at = i; expires_at = e })
read-write_id (pos n) i e u t = rw (take-append u t, drop-append u t) refl
read-write_id (negsuc n) i e u t = rw (take-append u t, drop-append u t) refl

read-write : (c : Claims) → read_claims (write_claims c) ≡ some c
read-write c = read-write_id c.user_id c.issued_at c.expires_at c.user_name c.subject

filled : (z : ℤ) (rest : Str) → is_empty (write_id z rest) ≡ false
filled (pos n) rest = refl
filled (negsuc n) rest = refl

lt-ltb : (a b : ℕ) → a < b → ltb a b ≡ true
lt-ltb a b h = ground arith

-- A date is cut down to the second.
rounded :
    (t : Instant)
    → t / 1000000000 * 1000000000 / 1000000000 * 1000000000 ≡ t / 1000000000 * 1000000000
rounded t = omega arith

plain_jwt-IsJwt : IsJwt plain_jwt
plain_jwt-IsJwt = record {
  alg = codes "HS256";
  filled = λ c key token h.
      let same : write_claims c ≡ token = cc in ap is_empty (sym same) ∙ filled c.user_id _;
  rounds = rounded;
  valid = λ c key token key_for now h i e k below.
      let same : write_claims c ≡ token = cc in
      let read : read_claims token ≡ some c = ap read_claims (sym same) ∙ read-write c in
      rw (k, read, lt-ltb now c.expires_at below) refl;
}

abbrev user : User
user = record {
  id = pos 1;
  name = codes "u";
  email = codes "u@x";
  password_hash = codes "password";
  created_at = 5;
}

abbrev claims : Claims
claims = record {
  user_id = pos 1;
  user_name = codes "u";
  subject = codes "1";
  issued_at = 0;
  expires_at = seven_days;
}

abbrev token : Str
token = write_claims claims

issued : new_token plain_jwt (codes "key") user 5 ≡ some token
unfolding new_token format_int format_digits
issued = refl

-- A handler that answers with its caller.
abbrev whoami : Context → Act ℕ Context
whoami c = pure c

new_token-jwt_example :
    jwt plain_jwt (codes "key") 6 (codes "Bearer " ++ token) whoami anonymous 0
    ≡ (0, ok (record { auth_user_id = some (pos 1); auth_user_name = some (codes "u") }))
new_token-jwt_example =
    new_token-jwt plain_jwt plain_jwt-IsJwt (codes "key") token user 5 6 issued (omega arith) whoami
      anonymous 0

jwt-cases_example :
    IsAdmitted plain_jwt
      (codes "key")
      6
      whoami
      anonymous
      0
      (codes "Bearer " ++ token)
      (jwt plain_jwt (codes "key") 6 (codes "Bearer " ++ token) whoami anonymous 0)
    ⊎ IsRefused plain_jwt
        (codes "key")
        6
        whoami
        anonymous
        0
        (codes "Bearer " ++ token)
        (jwt plain_jwt (codes "key") 6 (codes "Bearer " ++ token) whoami anonymous 0)
jwt-cases_example =
    jwt-cases plain_jwt (codes "key") 6 whoami anonymous 0 (codes "Bearer " ++ token)

-- The password's hash is the password.
abbrev crypto : Crypto
crypto = record {
  bcrypt = record { generate = λ p. some p; compare = str_eq };
  lib = plain_jwt;
  secret = codes "key";
}

abbrev signup_request : SignupRequest
signup_request = record { name = codes "u"; email = codes "u@x"; password = codes "password" }

abbrev read_user : Str → Option User
read_user (zero ∷ n ∷ []) = some (record user { id = pos n })
read_user (suc k ∷ n ∷ []) = some (record user { id = negsuc n })
read_user _ = none

abbrev users : Json User
users = record { marshal = λ u. some (write_id u.id []); unmarshal = read_user }

read-write_user : (z : ℤ) → read_user (write_id z []) ≡ some (record user { id = z })
read-write_user (pos n) = refl
read-write_user (negsuc n) = refl

users-IsSound : IsSound users texts crypto signup_request 5
unfolding normalize_email
users-IsSound = record {
  reads = λ id hash b h w.
      let same : write_id id [] ≡ b = cc in
      let plain_hash : codes "password" ≡ hash = cc in
      ap read_user (sym same)
      ∙ read-write_user id
      ∙ ap (λ x. some (record user { id = id; password_hash = x })) plain_hash;
  accepts = λ hash h. let same : codes "password" ≡ hash = cc in rw (sym same) (str_eq_refl _);
}

abbrev registered : Dict Str
registered =
    (codes "seq:user", codes "1")
    ∷ (codes "user:1", 0 ∷ 1 ∷ [])
    ∷ (codes "user:email:u@x", codes "1")
    ∷ []

abbrev signed_answer : AuthResponse
signed_answer = record { user = public user; token = token }

signed_up :
    signup plain users texts crypto (some signup_request) 5 [] ≡ (registered, ok signed_answer)
unfolding signup check_signup store_user normalize_email ◌>>=◌ plain apply_locked lookup insert
    str_eq email_key user_key format_int format_digits set_json inc_int64 current_int new_token
    public
signed_up = refl

signup-login_example : IsSignedUp users texts crypto signup_request 5 [] signed_answer registered
signup-login_example =
    signup-login plain-Simulates users texts crypto signup_request 5 users-IsSound [] registered
      signed_answer signed_up

abbrev login_request : LoginRequest
login_request = record { email = codes "u@x"; password = codes "password" }

logged_in :
    login plain users texts crypto (some login_request) 5 registered
    ≡ (registered, ok signed_answer)
unfolding login normalize_email ◌>>=◌ get_json plain lookup str_eq email_key user_key parse_int
    format_int format_digits new_token public
logged_in = refl

login-IsLoggedIn_example :
    IsLoggedIn users texts crypto login_request 5 registered signed_answer registered
login-IsLoggedIn_example =
    login-IsLoggedIn plain-Simulates users texts crypto login_request 5 registered registered
      signed_answer logged_in
