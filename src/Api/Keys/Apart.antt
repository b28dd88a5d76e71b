-- ===== src/Api/Keys/Apart.antt =====
-- internal/api/handler/repo.go: which keys differ.
use link_raft.Prelude.{
  ℕ, zero, suc, ◌+◌, ◌/◌, ◌%◌, ◌≡◌, str_eq_iff, refl, Str, codes, str_eq, starts_with, Bool, true,
  false, not, ◌&&◌, ◌||◌, [], ◌∷◌, ◌++◌, ltb, ◌==◌, arith, All, tt, Bool-cases, inl, inr,
  append_assoc, subst,
}
use link_raft.Prelude.Int.{ℤ, pos, negsuc, IsInt64}
use link_raft.Kvs.Number.{format_digits, format_int, parse_int-format_int}
use link_raft.Api.Keys.{
  user_key, link_key, comment_key, email_key, vote_prefix, vote_key, index_tag, index_user_links,
  index_link_comments, index_recent, seq_comment, seq_link,
}

pub link_key-vote_key : (a b c : ℤ) → str_eq (link_key a) (vote_key b c) ≡ false
unfolding link_key vote_key str_eq
link_key-vote_key a b c = refl

pub vote_key-link_key : (a b c : ℤ) → str_eq (vote_key b c) (link_key a) ≡ false
unfolding link_key vote_key str_eq
vote_key-link_key a b c = refl

-- No byte is `x`.
abbrev pub Lacks : ℕ → Str → Type 0
Lacks x = All (λ c. (c == x) ≡ false)

-- Neither a digit nor a minus sign.
abbrev is_foreign : ℕ → Bool
is_foreign x = (ltb x b'0' || ltb b'9' x) && not (x == b'-')

module _ (x : ℕ) (foreign : is_foreign x ≡ true) where
  format_digits-Lacks : (fuel n : ℕ) (acc : Str) → Lacks x acc → Lacks x (format_digits fuel n acc)
  unfolding format_digits
  format_digits-Lacks zero n acc h = h
  format_digits-Lacks (suc fuel) n acc h =
      let d = b'0' + n % 10 in
      let more = format_digits-Lacks fuel (n / 10) (d ∷ acc) (ground arith, h) in
      elim (Bool-cases (ltb n 10)) [ inl e ↦ rw e (ground arith, h) | inr e ↦ rw e more ]

  pub format_int-Lacks : (z : ℤ) → Lacks x (format_int z)
  unfolding format_int
  format_int-Lacks (pos n) = format_digits-Lacks (suc n) n [] tt
  format_int-Lacks (negsuc n) = (ground arith, format_digits-Lacks (suc (suc n)) (suc n) [] tt)

format_int-plain : (z : ℤ) → Lacks b':' (format_int z)
format_int-plain z = format_int-Lacks b':' refl z

other_start : (x : ℕ) (s t : Str) → Lacks x t → str_eq (x ∷ s) t ≡ false
unfolding str_eq
other_start x s [] h = refl
other_start x s (c ∷ t) h = ground (arith, h.0)

pub email_key-user_key : (email : Str) (id : ℤ) → str_eq (email_key email) (user_key id) ≡ false
unfolding email_key user_key str_eq
email_key-user_key email id =
    other_start b'e' (codes "mail:" ++ email) (format_int id) (format_int-Lacks b'e' refl id)

-- Two texts without a colon, each followed by one.
plain-prefix :
    (s t u : Str)
    → Lacks b':' s
    → Lacks b':' t
    → starts_with (s ++ b':' ∷ u) (t ++ b':' ∷ []) ≡ true
    → s ≡ t
unfolding starts_with
plain-prefix [] [] u h g e = refl
plain-prefix [] (b ∷ t) u h g e = ground (arith, g.0)
plain-prefix (a ∷ s) [] u h g e = ground (arith, h.0)
plain-prefix (a ∷ s) (b ∷ t) u h g e = ground (arith, plain-prefix s t u h.1 g.1)

-- The keys of the votes on two links.
pub starts_with-vote_prefix :
    (a b u : ℤ) → IsInt64 a → IsInt64 b → starts_with (vote_key a u) (vote_prefix b) ≡ true → a ≡ b
unfolding vote_key vote_prefix starts_with
starts_with-vote_prefix a b u h g e =
    let same =
      plain-prefix (format_int a) (format_int b) (format_int u) (format_int-plain a)
        (format_int-plain b)
        (subst (λ x. starts_with x (format_int b ++ codes ":") ≡ true)
          (append_assoc (format_int a) (codes ":") (format_int u)) e) in
    let read_a = parse_int-format_int a h in let read_b = parse_int-format_int b g in cc

starts_with-append : (s u : Str) → starts_with (s ++ b':' ∷ u) (s ++ b':' ∷ []) ≡ true
unfolding starts_with
starts_with-append [] u = ground arith
starts_with-append (a ∷ s) u = ground (arith, starts_with-append s u)

pub starts_with-vote_key : (a u : ℤ) → starts_with (vote_key a u) (vote_prefix a) ≡ true
unfolding vote_key vote_prefix starts_with
starts_with-vote_key a u =
    rw (append_assoc (format_int a) (codes ":") (format_int u))
      (starts_with-append (format_int a) (format_int u))

pub link_key-inj :
    (a b : ℤ) → IsInt64 a → IsInt64 b → str_eq (link_key a) (link_key b) ≡ true → a ≡ b
unfolding link_key str_eq
link_key-inj a b h g e =
    let read_a = parse_int-format_int a h in
    let read_b = parse_int-format_int b g in grind (arith, str_eq_iff (format_int a) (format_int b))

-- The keys of the indexes that hold a link, the key of its comments, and its own key, by their heads.
pub data IsIndex : Str → Type 0 where
  recent : IsIndex index_recent
  user_links : (u : ℤ) → IsIndex (index_user_links u)
  tagged : (t : Str) → IsIndex (index_tag t)

pub link_comments-apart : (k : Str) (id : ℤ) → IsIndex k → str_eq (index_link_comments id) k ≡ false
unfolding index_link_comments index_user_links index_tag str_eq
link_comments-apart _ id recent = refl
link_comments-apart _ id (user_links u) = refl
link_comments-apart _ id (tagged t) = refl

pub comment_key-apart : (k : Str) (id : ℤ) → IsIndex k → str_eq (comment_key id) k ≡ false
unfolding comment_key index_user_links index_tag str_eq
comment_key-apart _ id recent = refl
comment_key-apart _ id (user_links u) = refl
comment_key-apart _ id (tagged t) = refl

pub link_key-apart : (k : Str) (id : ℤ) → IsIndex k → str_eq (link_key id) k ≡ false
unfolding link_key index_user_links index_tag str_eq
link_key-apart _ id recent = refl
link_key-apart _ id (user_links u) = refl
link_key-apart _ id (tagged t) = refl

pub vote_key-apart : (k : Str) (a u : ℤ) → IsIndex k → str_eq k (vote_key a u) ≡ false
unfolding vote_key index_user_links index_tag str_eq
vote_key-apart _ a u recent = refl
vote_key-apart _ a u (user_links o) = refl
vote_key-apart _ a u (tagged t) = refl

pub seq_link-apart : (k : Str) → IsIndex k → str_eq seq_link k ≡ false
unfolding index_user_links index_tag str_eq
seq_link-apart _ recent = refl
seq_link-apart _ (user_links o) = refl
seq_link-apart _ (tagged t) = refl

pub vote_prefix-apart : (k : Str) (id : ℤ) → IsIndex k → starts_with k (vote_prefix id) ≡ false
unfolding vote_prefix index_user_links index_tag starts_with
vote_prefix-apart _ id recent = refl
vote_prefix-apart _ id (user_links u) = refl
vote_prefix-apart _ id (tagged t) = refl

-- The keys that `CreateComment` writes.
pub link_key-comment_key : (a b : ℤ) → str_eq (link_key a) (comment_key b) ≡ false
unfolding link_key comment_key str_eq
link_key-comment_key a b = refl

pub link_key-link_comments : (a b : ℤ) → str_eq (link_key a) (index_link_comments b) ≡ false
unfolding link_key index_link_comments str_eq
link_key-link_comments a b = refl

pub link_comments-comment_key : (a b : ℤ) → str_eq (index_link_comments a) (comment_key b) ≡ false
unfolding index_link_comments comment_key str_eq
link_comments-comment_key a b = refl

pub comment_key-link_comments : (a b : ℤ) → str_eq (comment_key b) (index_link_comments a) ≡ false
unfolding index_link_comments comment_key str_eq
comment_key-link_comments a b = refl

pub seq_comment-link_comments : (a : ℤ) → str_eq seq_comment (index_link_comments a) ≡ false
unfolding index_link_comments str_eq
seq_comment-link_comments a = refl

pub swapped : (a b : Str) → str_eq a b ≡ false → str_eq b a ≡ false
swapped a b h = grind (arith, str_eq_iff a b, str_eq_iff b a, Bool-cases (str_eq b a))

pub recent-user_links : (u : ℤ) → str_eq index_recent (index_user_links u) ≡ false
unfolding index_user_links str_eq
recent-user_links u = refl

pub recent-tag : (t : Str) → str_eq (index_tag t) index_recent ≡ false
unfolding index_tag str_eq
recent-tag t = refl

pub tag-user_links : (t : Str) (u : ℤ) → str_eq (index_tag t) (index_user_links u) ≡ false
unfolding index_tag index_user_links str_eq
tag-user_links t u = refl

pub tag-tag : (t u : Str) → str_eq (index_tag t) (index_tag u) ≡ str_eq t u
unfolding index_tag str_eq
tag-tag t u = refl
