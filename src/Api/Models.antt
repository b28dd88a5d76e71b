-- ===== src/Api/Models.antt =====
-- internal/model: what the API stores. Instants are numbers of nanoseconds.
use link_raft.Prelude.{ℕ, Str, Option, List}
use link_raft.Prelude.Int.{ℤ}

abbrev pub Instant : Type 0
Instant = ℕ

pub record User : Type 0 where
  pub id : ℤ
  pub name : Str
  pub email : Str
  pub password_hash : Str
  pub created_at : Instant

pub record PublicUser : Type 0 where
  pub id : ℤ
  pub name : Str
  pub created_at : Instant

-- `User.Public`
unfoldable pub public : User → PublicUser
public u = record { id = u.id; name = u.name; created_at = u.created_at }

pub record Link : Type 0 where
  pub id : ℤ
  pub url : Str
  pub title : Str
  pub description : Str
  pub image_url : Str
  pub user_id : ℤ
  pub user_name : Str
  pub tags : List Str
  pub vote_count : ℤ
  pub comment_count : ℤ
  pub created_at : Instant

pub record Comment : Type 0 where
  pub id : ℤ
  pub link_id : ℤ
  pub user_id : ℤ
  pub user_name : Str
  pub body : Str
  pub parent_id : Option ℤ
  pub vote_count : ℤ
  pub created_at : Instant

pub record Vote : Type 0 where
  pub created_at : Instant
