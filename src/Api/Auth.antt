-- ===== src/Api/Auth.antt =====
-- internal/api/middleware/auth.go: who the caller is. The JWT library is a parameter.
pub mod Bearer
use link_raft.Prelude.{
  ℕ, ◌+◌, ◌*◌, Str, codes, is_empty, ◌==◌, Bool, true, false, not, ◌&&◌, Option, none, some, List,
  [], ◌∷◌, if◌then◌else◌,
}
use link_raft.Prelude.Int.{ℤ, pos}
use link_raft.Kvs.Number.{format_int}
use link_raft.Api.Act.{Act, raise, unauthorized}
use link_raft.Api.Models.{Instant, User}

-- What `c.Set` has left under `auth_user_id` and `auth_user_name`.
pub record Context : Type 0 where
  pub auth_user_id : Option ℤ
  pub auth_user_name : Option Str

abbrev pub anonymous : Context
anonymous = record { auth_user_id = none; auth_user_name = none }

id_or_zero : Option ℤ → ℤ
id_or_zero none = pos 0
id_or_zero (some z) = z

-- `UserID`
unfoldable pub user_id : Context → ℤ
unfolding id_or_zero
user_id c = id_or_zero c.auth_user_id

name_or_empty : Option Str → Str
name_or_empty none = []
name_or_empty (some s) = s

-- `UserName`
unfoldable pub user_name : Context → Str
unfolding name_or_empty
user_name c = name_or_empty c.auth_user_name

-- `Claims`
pub record Claims : Type 0 where
  pub user_id : ℤ
  pub user_name : Str
  pub subject : Str
  pub issued_at : Instant
  pub expires_at : Instant

-- The `alg` of a token's header.
pub data Method : Type 0 where
  hmac : Str → Method
  other : Str → Method

-- Package jwt: `NewNumericDate`, `SignedString` with HS256, and `ParseWithClaims` at an instant. The latter asks a
-- function for the key of the token's method; its result is `nil` with an error, or the claims
-- and `Valid`.
pub record Jwt : Type 0 where
  pub numeric_date : Instant → Instant
  pub sign : Claims → Str → Option Str
  pub parse : (Method → Option Str) → Str → Instant → Option (Claims × Bool)

abbrev pub seven_days : ℕ
seven_days = 7 * 24 * 3600 * 1000000000

-- `NewToken`
unfoldable pub new_token : Jwt → Str → User → Instant → Option Str
new_token lib secret u now =
    lib.sign
      (record {
        user_id = u.id;
        user_name = u.name;
        subject = format_int u.id;
        issued_at = lib.numeric_date now;
        expires_at = lib.numeric_date (now + seven_days);
      })
      secret

-- The function that `parseToken` passes: the secret, for the HMAC methods only.
abbrev pub key_of : Str → Method → Option Str
key_of secret (hmac alg) = some secret
key_of secret (other alg) = none

abbrev valid_claims : Option (Claims × Bool) → Option Claims
valid_claims none = none
valid_claims (some (c, false)) = none
valid_claims (some (c, true)) = some c

-- `parseToken`
unfoldable pub parse_token : Jwt → Str → Str → Instant → Option Claims
parse_token lib secret token now = valid_claims (lib.parse (key_of secret) token now)

-- strings.CutPrefix(s, prefix)
unfoldable pub cut_prefix : Str → Str → Option Str
cut_prefix s [] = some s
cut_prefix [] (b ∷ p) = none
cut_prefix (a ∷ s) (b ∷ p) = let rest = cut_prefix s p in if a == b then rest else none

present : Option Str → Option Str
present none = none
present (some t) = if is_empty t then none else some t

-- The token of an Authorization header, if it has one.
unfoldable pub bearer : Str → Option Str
unfolding present
bearer auth = present (cut_prefix auth (codes "Bearer "))

abbrev pub with_claims : Claims → Context → Context
with_claims c ctx = record { auth_user_id = some c.user_id; auth_user_name = some c.user_name }

optional_claims : Option Claims → Context → Context
optional_claims none ctx = ctx
optional_claims (some c) ctx = with_claims c ctx

optional_token : Jwt → Str → Instant → Option Str → Context → Context
unfolding optional_claims
optional_token lib secret now none ctx = ctx
optional_token lib secret now (some t) ctx = optional_claims (parse_token lib secret t now) ctx

module _ {S A : Type 0} (lib : Jwt) (secret : Str) (now : Instant) where
  admit_claims : Option Claims → (Context → Act S A) → Context → Act S A
  admit_claims none next ctx = raise (unauthorized (codes "invalid token"))
  admit_claims (some c) next ctx = next (with_claims c ctx)

  admit_token : Option Str → (Context → Act S A) → Context → Act S A
  unfolding admit_claims
  admit_token none next ctx = raise (unauthorized (codes "missing bearer token"))
  admit_token (some t) next ctx = admit_claims (parse_token lib secret t now) next ctx

  -- `JWT`, at a request with this Authorization header
  unfoldable pub jwt : Str → (Context → Act S A) → Context → Act S A
  unfolding admit_token
  jwt auth next ctx = admit_token (bearer auth) next ctx

  -- `JWTOptional`
  unfoldable pub jwt_optional : Str → (Context → Act S A) → Context → Act S A
  unfolding optional_token
  jwt_optional auth next ctx = next (optional_token lib secret now (bearer auth) ctx)
