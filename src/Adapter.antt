-- ===== src/Adapter.antt =====
-- UserService/adapter: the gRPC side of the service, v2 and the older v1.
pub mod Authentication
pub mod CallData
pub mod Version1
pub mod Handlers
pub mod Rpcs
pub mod Manager
