-- ===== src/Api/Auth/Bearer.antt =====
-- internal/api/middleware/auth.go: which requests reach the handler behind `JWT`.
use link_raft.Prelude.{
  ◌+◌, ◌<◌, ◌≡◌, refl, sym, ap, ◌∙◌, Str, codes, is_empty, Bool, true, false, Option, none, some,
  [], ◌∷◌, ◌++◌, ◌⊎◌, inl, inr, arith,
}
use link_raft.Prelude.Results.{Result, err}
use link_raft.Api.Act.{Act, Failure, unauthorized}
use link_raft.Api.Models.{Instant, User}
use link_raft.Api.Auth.{
  Context, Claims, Method, hmac, Jwt, new_token, key_of, parse_token, cut_prefix, present, bearer,
  admit_claims, admit_token, jwt, seven_days, valid_claims, other,
}

cut_prefix-some : (s p t : Str) → cut_prefix s p ≡ some t → s ≡ p ++ t
unfolding cut_prefix
cut_prefix-some s [] t e = cc
cut_prefix-some [] (b ∷ p) t e = absurd cc
cut_prefix-some (a ∷ s) (b ∷ p) t e = ground (arith, cut_prefix-some s p t)

present-some : (o : Option Str) (t : Str) → present o ≡ some t → (o ≡ some t) × (is_empty t ≡ false)
unfolding present
present-some none t e = absurd cc
present-some (some u) t e = ground arith

-- A header `Bearer ` with a token that is not empty.
record IsBearer (auth token : Str) : Type 0 where
  prefixed : auth ≡ codes "Bearer " ++ token
  filled : is_empty token ≡ false

bearer-IsBearer : (auth t : Str) → bearer auth ≡ some t → IsBearer auth t
unfolding bearer
bearer-IsBearer auth t e =
    let (cut, filled) = present-some (cut_prefix auth (codes "Bearer ")) t e in
    record { prefixed = cut_prefix-some auth (codes "Bearer ") t cut; filled = filled }

cut_prefix-append : (p s : Str) → cut_prefix (p ++ s) p ≡ some s
unfolding cut_prefix
cut_prefix-append [] s = refl
cut_prefix-append (a ∷ p) s = ground (arith, cut_prefix-append p s)

IsBearer-bearer : (auth t : Str) → IsBearer auth t → bearer auth ≡ some t
unfolding bearer present
IsBearer-bearer auth t h = rw (h.prefixed, cut_prefix-append (codes "Bearer ") t, h.filled) refl

none-some : (c : Claims) → none ≡ some c → ⊥
none-some c e = cc

valid_claims-some :
    (o : Option (Claims × Bool)) (c : Claims) → valid_claims o ≡ some c → o ≡ some (c, true)
valid_claims-some none c e = absurd cc
valid_claims-some (some (b, false)) c e = absurd cc
valid_claims-some (some (b, true)) c e = cc

-- The keys that a token may be signed with: the secret, for the HMAC methods only.
record IsKeyed (secret : Str) (keys : Method → Option Str) : Type 0 where
  symmetric : (alg : Str) → keys (hmac alg) ≡ some secret
  only : (alg : Str) → keys (other alg) ≡ none

module _ {S A : Type 0} (lib : Jwt) (secret : Str) (now : Instant) (next : Context → Act S A)
    (ctx : Context) (s : S) where
  -- The header has a token that the library says is valid, with the secret as the key of the HMAC
  -- methods and no key for another, and the handler runs as the user of its claims.
  pub record IsAdmitted (auth : Str) (r : S × Result Failure A) : Type 0 where
    token : Str
    c : Claims
    keys : Method → Option Str
    bears : IsBearer auth token
    keyed : IsKeyed secret keys
    valid : lib.parse keys token now ≡ some (c, true)
    runs : r ≡ next (record { auth_user_id = some c.user_id; auth_user_name = some c.user_name }) s

  -- Without a change, the answer is 401, and the header has no token that is valid in that way.
  pub record IsRefused (auth : Str) (r : S × Result Failure A) : Type 0 where
    why : Str
    unless :
        (token : Str) (c : Claims)
        → IsBearer auth token
        → lib.parse (key_of secret) token now ≡ some (c, true)
        → ⊥
    answers : r ≡ (s, err (unauthorized why))

  admit_claims-cases :
      (auth token : Str) (o : Option Claims)
      → bearer auth ≡ some token
      → parse_token lib secret token now ≡ o
      → IsAdmitted auth (admit_claims lib secret now o next ctx s)
        ⊎ IsRefused auth (admit_claims lib secret now o next ctx s)
  unfolding admit_claims parse_token
  admit_claims-cases auth token none b e = inr (record {
    why = _;
    unless = λ t c h v.
        let there = IsBearer-bearer auth t h in
        let same : token ≡ t = cc in
        absurd (
          none-some c (
            sym e
            ∙ ap (λ x. valid_claims (lib.parse (key_of secret) x now)) same
            ∙ ap valid_claims v));
    answers = refl;
  })
  admit_claims-cases auth token (some c) b e = inl (record {
    token = token;
    c = c;
    keys = key_of secret;
    bears = bearer-IsBearer auth token b;
    keyed = record { symmetric = λ alg. refl; only = λ alg. refl };
    valid = valid_claims-some (lib.parse (key_of secret) token now) c e;
    runs = refl;
  })

  admit_token-cases :
      (auth : Str) (o : Option Str)
      → bearer auth ≡ o
      → IsAdmitted auth (admit_token lib secret now o next ctx s)
        ⊎ IsRefused auth (admit_token lib secret now o next ctx s)
  unfolding admit_token
  admit_token-cases auth none b = inr (record {
    why = _;
    unless = λ t c h v. let there = IsBearer-bearer auth t h in absurd cc;
    answers = refl;
  })
  admit_token-cases auth (some token) b =
      admit_claims-cases auth token (parse_token lib secret token now) b refl

  -- Behind `JWT`, a request either reaches the handler, and then its header is `Bearer ` and a token
  -- that the library parses without an error and says is valid, where it has been given the secret for
  -- the HMAC methods and no key for any other, and the handler runs as the user of that token's claims;
  -- or the header has no such token, the request is answered with 401 and nothing is changed.
  pub jwt-cases :
      (auth : Str)
      → IsAdmitted auth (jwt lib secret now auth next ctx s)
        ⊎ IsRefused auth (jwt lib secret now auth next ctx s)
  unfolding jwt
  jwt-cases auth = admit_token-cases auth (bearer auth) refl

-- What the library documents: a token that was signed with a key is valid with that key, as long as
-- it has not expired; it is not empty, HS256 is one of the HMAC methods, and a date is read back if it
-- is a `NewNumericDate`, of which there is one for each second.
pub record IsJwt (lib : Jwt) : Type 0 where
  pub alg : Str
  pub rounds : (t : Instant) → lib.numeric_date (lib.numeric_date t) ≡ lib.numeric_date t
  pub filled : (c : Claims) (key token : Str) → lib.sign c key ≡ some token → is_empty token ≡ false
  pub valid :
      (c : Claims) (key token : Str) (key_for : Method → Option Str) (now : Instant)
      → lib.sign c key ≡ some token
      → lib.numeric_date c.issued_at ≡ c.issued_at
      → lib.numeric_date c.expires_at ≡ c.expires_at
      → key_for (hmac alg) ≡ some key
      → now < c.expires_at
      → lib.parse key_for token now ≡ some (c, true)

-- A token that `NewToken` has issued lets a request in, as the user it was issued to, until the date in
-- it, seven days after the issue, is reached.
pub new_token-jwt :
    {S A : Type 0} (lib : Jwt)
    → IsJwt lib
    → (secret token : Str) (u : User) (issued now : Instant)
    → new_token lib secret u issued ≡ some token
    → now < lib.numeric_date (issued + seven_days)
    → (next : Context → Act S A) (ctx : Context) (s : S)
    → jwt lib secret now (codes "Bearer " ++ token) next ctx s
      ≡ next (record { auth_user_id = some u.id; auth_user_name = some u.name }) s
unfolding new_token jwt bearer present parse_token admit_token admit_claims
new_token-jwt lib law secret token u issued now h below next ctx s =
    rw
      (
        cut_prefix-append (codes "Bearer ") token,
        law.filled _ secret token h,
        law.valid _ secret token (key_of secret) now h (law.rounds _) (law.rounds _) refl below,
      )
      refl
