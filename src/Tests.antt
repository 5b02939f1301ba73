-- ===== src/Tests.antt =====
-- Concrete libraries, repositories and services, and the theorems at them.
mod Toy
mod Services
mod Domain
mod Stores
mod Pools
mod Adapters
mod Tables
mod Queries
mod Tokens
mod Utilities
mod Settings
mod Objects
mod Calls
mod Stack
mod Sessions
mod Program
mod Agent
mod StartUp
