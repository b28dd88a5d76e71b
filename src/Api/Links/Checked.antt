-- ===== src/Api/Links/Checked.antt =====
-- internal/api/handler/link.go: the link that `CreateLink` has checked.
use link_raft.Prelude.{
  tt, ◌≡◌, ◌≤◌, ◌⊎◌, refl, sym, ap, subst, Str, str_eq, str_eq_refl, str_eq_iff, is_empty, codes,
  ◌++◌, Bool, true, false, not, ◌&&◌, ◌||◌, Option, none, some, List, [], ◌∷◌, All, arith,
  Bool-cases, inl, inr, if◌then◌else◌, map, length, ltb,
}
use link_raft.Prelude.Int.{ℤ, pos}
use link_raft.Prelude.Results.{Result, ok, err}
use link_raft.Kvs.Client.{contains}
use link_raft.Api.Act.{Failure, bad_request}
use link_raft.Api.Models.{Instant, Link}
use link_raft.Api.Auth.{Context, user_id, user_name}
use link_raft.Api.Text.{Url, Texts}
use link_raft.Api.Yields.{Yields, Yields-pure, Yields-require, Yields-reject, Yields-returning}
use link_raft.Api.Links.Creation.{
  CreateLinkRequest, matches_tag, is_http, http_url, is_http_url, add_tag, clean_tags, checked_link,
}
use link_raft.Api.Links.First.{Once}

-- The text is a URL with the scheme http or https, and a host.
pub record IsHttp (texts : Texts) (text : Str) : Type 0 where
  pub url : Url
  pub parsed : texts.parse_url text ≡ some url
  pub scheme : (url.scheme ≡ codes "http") ⊎ (url.scheme ≡ codes "https")
  pub host : is_empty url.host ≡ false

scheme-cases : (u : Url) → is_http u ≡ true → (u.scheme ≡ codes "http") ⊎ (u.scheme ≡ codes "https")
unfolding is_http
scheme-cases u h = elim (Bool-cases (str_eq u.scheme (codes "http"))) [
  | inl e ↦ inl ((str_eq_iff u.scheme (codes "http")).0 e)
  | inr e ↦ inr ((str_eq_iff u.scheme (codes "https")).0 (ground arith))
]

is_http-host : (u : Url) → is_http u ≡ true → is_empty u.host ≡ false
unfolding is_http
is_http-host u h = ground arith

http_url-some : (o : Option Url) (u : Url) → http_url o ≡ some u → (o ≡ some u) × (is_http u ≡ true)
unfolding http_url
http_url-some none u e = absurd cc
http_url-some (some v) u e = ground arith

http_url-IsHttp :
    (texts : Texts) (text : Str) (u : Url)
    → http_url (texts.parse_url text) ≡ some u
    → (h : IsHttp texts text) × (h.url ≡ u)
http_url-IsHttp texts text u e =
    let (parsed, fine) = http_url-some (texts.parse_url text) u e in
    (
      record { url = u; parsed = parsed; scheme = scheme-cases u fine; host = is_http-host u fine },
      refl,
    )

is_http_url-some :
    (o : Option Url) → is_http_url o ≡ true → (u : Url) × (o ≡ some u) × (is_http u ≡ true)
unfolding is_http_url
is_http_url-some none e = absurd cc
is_http_url-some (some u) e = (u, refl, e)

is_http_url-IsHttp :
    (texts : Texts) (text : Str) → is_http_url (texts.parse_url text) ≡ true → IsHttp texts text
is_http_url-IsHttp texts text e =
    let (u, parsed, fine) = is_http_url-some (texts.parse_url text) e in
    record { url = u; parsed = parsed; scheme = scheme-cases u fine; host = is_http-host u fine }

-- The tag as it is stored.
abbrev pub clean : Texts → Str → Str
clean texts raw = texts.to_lower (texts.trim_space raw)

-- The tags are valid, stand there once each, and are those of the request that were not seen.
pub record IsClean (texts : Texts) (seen raws ts : List Str) : Type 0 where
  pub valid : All (λ t. matches_tag t ≡ true) ts
  pub once : Once ts
  pub exact :
      (u : Str) → contains u ts ≡ (contains u (map (clean texts) raws) && not (contains u seen))

nil_cover :
    (texts : Texts) (seen : List Str) (u : Str)
    → contains u [] ≡ (contains u (map (clean texts) []) && not (contains u seen))
unfolding contains
nil_cover texts seen u = refl

add_cover :
    (t u : Str) (seen us ms : List Str)
    → contains t seen ≡ false
    → contains u us ≡ (contains u ms && not (contains u (t ∷ seen)))
    → contains u (t ∷ us) ≡ (contains u (t ∷ ms) && not (contains u seen))
unfolding contains
add_cover t u seen us ms new h = elim (Bool-cases (str_eq t u)) [
  | inl e ↦
      let same : contains u seen ≡ false =
        subst (λ x. contains x seen ≡ false) ((str_eq_iff t u).0 e) new in
      ground arith
  | inr e ↦ ground arith
]

skip_cover :
    (t u : Str) (seen us ms : List Str)
    → contains t seen ≡ true
    → contains u us ≡ (contains u ms && not (contains u (t ∷ seen)))
    → contains u us ≡ (contains u (t ∷ ms) && not (contains u seen))
unfolding contains
skip_cover t u seen us ms old h = elim (Bool-cases (str_eq t u)) [
  | inl e ↦
      let same : contains u seen ≡ true =
        subst (λ x. contains x seen ≡ true) ((str_eq_iff t u).0 e) old in
      ground arith
  | inr e ↦ ground arith
]

not_again :
    (t : Str) (seen us ms : List Str)
    → contains t us ≡ (contains t ms && not (contains t (t ∷ seen)))
    → contains t us ≡ false
unfolding contains
not_again t seen us ms h = ground (arith, str_eq_refl t)

module _ (texts : Texts) where
  add_tag-IsClean :
      (b : Bool) (raw : Str) (seen raws : List Str) (q : Result Failure (List Str)) (ts : List Str)
      → contains (clean texts raw) seen ≡ b
      → matches_tag (clean texts raw) ≡ true
      → ((us : List Str) → q ≡ ok us → IsClean texts (clean texts raw ∷ seen) raws us)
      → add_tag texts b (clean texts raw) q ≡ ok ts
      → IsClean texts seen (raw ∷ raws) ts
  unfolding add_tag
  add_tag-IsClean b raw seen raws (err e) ts c m h g = absurd cc
  add_tag-IsClean true raw seen raws (ok us) ts c m h g =
      let r = h ts g in
      record {
        valid = r.valid;
        once = r.once;
        exact = λ u. skip_cover (clean texts raw) u seen ts (map (clean texts) raws) c (r.exact u);
      }
  add_tag-IsClean false raw seen raws (ok us) ts c m h g =
      let r = h us refl in
      let same : (clean texts raw ∷ us) ≡ ts = cc in
      subst (IsClean texts seen (raw ∷ raws)) same (record {
        valid = (m, r.valid);
        once = (
          not_again (clean texts raw) seen us (map (clean texts) raws) (r.exact (clean texts raw)),
          r.once,
        );
        exact = λ u. add_cover (clean texts raw) u seen us (map (clean texts) raws) c (r.exact u);
      })

  clean_tags-IsClean :
      (seen raws ts : List Str) → clean_tags texts seen raws ≡ ok ts → IsClean texts seen raws ts
  unfolding clean_tags
  clean_tags-IsClean seen [] ts h =
      let same : [] ≡ ts = cc in
      subst (IsClean texts seen []) same
        (record { valid = tt; once = tt; exact = nil_cover texts seen })
  clean_tags-IsClean seen (raw ∷ raws) ts h =
      let t = clean texts raw in
      let rest = clean_tags texts (t ∷ seen) raws in
      let chosen : Bool → Result Failure (List Str) = λ b.
        if b
        then add_tag texts (contains t seen) t rest
        else err (bad_request (codes "invalid tag: " ++ t)) in
      elim (Bool-cases (matches_tag t)) [
        | inl m ↦
            add_tag-IsClean (contains t seen) raw seen raws rest ts refl m
              (λ us. clean_tags-IsClean (t ∷ seen) raws us) (subst (λ b. chosen b ≡ ok ts) m h)
        | inr m ↦
            let refused : err (bad_request (codes "invalid tag: " ++ t)) ≡ ok ts =
              subst (λ b. chosen b ≡ ok ts) m h in
            absurd cc
      ]

  -- The link is the one of the request, with its texts trimmed, and has passed every check.
  pub record IsChecked (req : CreateLinkRequest) (ctx : Context) (now : Instant) (l : Link)
      : Type 0 where
    pub address : IsHttp texts (texts.trim_space req.url)
    pub url : l.url ≡ address.url.text
    pub title : l.title ≡ texts.trim_space req.title
    pub titled : is_empty l.title ≡ false
    pub title_fits : texts.rune_count l.title ≤ 200
    pub description : l.description ≡ texts.trim_space req.description
    pub description_fits : texts.rune_count l.description ≤ 1000
    pub image : l.image_url ≡ texts.trim_space req.image_url
    pub image_fits :
        (is_empty l.image_url ≡ true) ⊎ (IsHttp texts l.image_url × (length l.image_url ≤ 2000))
    pub few : length req.tags ≤ 5
    pub tags : IsClean texts [] req.tags l.tags
    pub of_caller : l.user_id ≡ user_id ctx
    pub by_name : l.user_name ≡ user_name ctx
    pub unvoted : l.vote_count ≡ pos 0
    pub uncommented : l.comment_count ≡ pos 0
    pub created : l.created_at ≡ now

  image-cases :
      (text : Str)
      → (not (is_empty text)
          && (not (is_http_url (texts.parse_url text)) || ltb 2000 (length text)))
        ≡ false
      → (is_empty text ≡ true) ⊎ (IsHttp texts text × (length text ≤ 2000))
  image-cases text h = elim (Bool-cases (is_empty text)) [
    | inl e ↦ inl e
    | inr e ↦ inr (is_http_url-IsHttp texts text (ground arith), ground arith)
  ]

  -- A link but for its id.
  pub record IsDraft (req : CreateLinkRequest) (ctx : Context) (now : Instant) (make : ℤ → Link)
      : Type 0 where
    pub named : (id : ℤ) → (make id).id ≡ id
    pub checked : (id : ℤ) → IsChecked req ctx now (make id)

  pub Yields-checked_link :
      {S : Type 0} (req : CreateLinkRequest) (ctx : Context) (now : Instant) (s : S)
      → Yields (checked_link texts req ctx now) s (λ make t. (s ≡ t) × IsDraft req ctx now make)
  unfolding checked_link
  Yields-checked_link req ctx now s = Yields-require _ _ λ u p. Yields-reject _ _ _ λ a.
      Yields-reject _ _ _ λ b. Yields-reject _ _ _ λ c. Yields-reject _ _ _ λ e.
        Yields-returning _ λ tags ok_tags.
          let (http, same) = http_url-IsHttp texts (texts.trim_space req.url) u p in
          Yields-pure (
            refl,
            record {
              named = λ id. refl;
              checked = λ id. record {
                address = http;
                url = ap (λ (x : Url). x.text) (sym same);
                title = refl;
                titled = ground arith;
                title_fits = ground arith;
                description = refl;
                description_fits = ground arith;
                image = refl;
                image_fits = image-cases (texts.trim_space req.image_url) a;
                few = ground arith;
                tags = clean_tags-IsClean [] req.tags tags ok_tags;
                of_caller = refl;
                by_name = refl;
                unvoted = refl;
                uncommented = refl;
                created = refl;
              };
            },
          )
