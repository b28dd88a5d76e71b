-- ===== src/Kvs.antt =====
-- internal/kvs: the key-value state machine, its server, and the client of a cluster.
pub mod Number
pub mod Store
pub mod Server
pub mod Client
