-- ===== src/Repository.antt =====
-- UserService/infrastructure/domain_implement: the repositories over a cache and the user DAO.
pub mod Cache
pub mod Codes
pub mod Users
