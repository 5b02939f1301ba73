-- ===== src/Postgres.antt =====
-- UserService/infrastructure/persistence: the connection pool, the connection and the
-- DAO.
pub mod Pool
pub mod Dao
pub mod Connection
