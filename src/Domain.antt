-- ===== src/Domain.antt =====
-- UserService/domain and the error and repository types that it shares with the infrastructure.
pub mod User
pub mod Json
pub mod Repositories
pub mod Stores
