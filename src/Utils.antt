-- ===== src/Utils.antt =====
-- UserService/utils: identifiers, verification codes, passwords and tokens.
pub mod Uuid
pub mod CodeGenerator
pub mod Security
pub mod Jwt
