-- ===== src/Tests.antt =====
-- Concrete runs of the program: the data they share, and the theorems applied to them.
pub mod Data
pub mod Engine
pub mod Storage
pub mod Cluster
pub mod Daemon
pub mod Life
pub mod Command
pub mod System
pub mod Durable
pub mod Launch
