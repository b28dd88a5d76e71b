-- ===== src/Api/Text.antt =====
-- internal/api/handler: what the handlers use of packages strings, unicode/utf8, net/url, net/mail
-- and golang.org/x/crypto/bcrypt, and of Echo's binding of the path.
use link_raft.Prelude.{
  ℕ, zero, suc, Str, codes, starts_with, ◌||◌, Bool, Option, none, some, [], ◌∷◌,
}
use link_raft.Prelude.Int.{ℤ, pos, negsuc}
use link_raft.Api.Act.{Act, pure, raise, bad_request}

-- `url.URL`, with its text by `String`.
pub record Url : Type 0 where
  pub scheme : Str
  pub host : Str
  pub text : Str

-- Texts: `TrimSpace`, `ToLower`, `RuneCountInString`, `url.Parse`, and whether `mail.ParseAddress`
-- returns no error.
pub record Texts : Type 0 where
  pub trim_space : Str → Str
  pub to_lower : Str → Str
  pub rune_count : Str → ℕ
  pub parse_url : Str → Option Url
  pub is_address : Str → Bool

-- Package bcrypt: `GenerateFromPassword`, and whether `CompareHashAndPassword` returns nil.
pub record Bcrypt : Type 0 where
  pub generate : Str → Option Str
  pub compare : Str → Str → Bool

-- strings.Contains(s, sub)
unfoldable pub has_substring : Str → Str → Bool
has_substring [] sub = starts_with [] sub
has_substring (a ∷ s) sub = starts_with (a ∷ s) sub || has_substring s sub

-- `pathID`, from the number that the binder has read
unfoldable pub path_id : {S : Type 0} → Option ℤ → Act S ℤ
path_id none = raise (bad_request (codes "invalid id"))
path_id (some (negsuc n)) = raise (bad_request (codes "invalid id"))
path_id (some (pos zero)) = raise (bad_request (codes "invalid id"))
path_id (some (pos (suc n))) = pure (pos (suc n))
