-- ===== src/Service.antt =====
-- UserService/service: the request and response models, the utilities that the services are
-- given, and the two services.
pub mod Model
pub mod Utilities
pub mod Auth
pub mod BasicUser
