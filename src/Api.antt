-- ===== src/Api.antt =====
-- internal/api and internal/model: the handlers of the web API over a key-value store.
pub mod Act
pub mod Models
pub mod Kv
pub mod Keys
pub mod Repo
pub mod Auth
pub mod Text
pub mod Yields
pub mod Votes
pub mod Links
pub mod Comments
pub mod Accounts
pub mod Cluster
pub mod Simulated
pub mod Remote
