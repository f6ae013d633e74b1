-- ===== src/Lww.antt =====
-- 3/server: the replicated map whose replicas keep the write with the largest timestamp.
pub mod Clock
pub mod Db
pub mod Server
pub mod Receive
pub mod Cluster
pub mod Config
pub mod Launch
mod Tests
mod Starting
