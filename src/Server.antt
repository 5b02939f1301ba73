-- ===== src/Server.antt =====
-- How the program starts, serves and stops: UserService/server, UserService/main.cc,
-- UserService/infrastructure/asio_thread_pool, and the managers of UserService/adapter/v2.
pub mod ThreadPool
pub mod Seeding
pub mod Objects
pub mod Lifecycle
pub mod Application
