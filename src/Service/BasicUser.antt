-- ===== src/Service/BasicUser.antt =====
-- UserService/service/src/basic_user_service.cc.
pub mod Register
pub mod FirstLogin
use photon_commerce.Base.{
  ℕ, String, Option, none, some, if◌then◌else◌, value_or, Expected, value, unexpected, Await, pure,
  ◌>>=◌, ◌>>◌,
}
use photon_commerce.Domain.User.{User, create, update_profile}
use photon_commerce.Domain.Repositories.{DbError, UserRepository, VerificationCodeRepository}
use photon_commerce.Service.Model.{
  ErrorCode, internal_error, user_not_found, user_already_exists, verification_code_mismatch, fail,
  succeeded, user_register, RegisterRequest, RegisterResponse, GetUserInfoRequest,
  GetUserInfoResponse, UpdateUserInfoRequest, UpdateUserInfoResponse,
}
use photon_commerce.Service.Utilities.{SecurityUtil, IdGenerator}
use photon_commerce.Service.Auth.{code_matches}

pub record BasicUserService (S : Type 0) : Type 0 where
  pub user_repository : UserRepository S
  pub code_repository : VerificationCodeRepository S
  pub id_generator : IdGenerator S
  pub security_util : SecurityUtil S

abbrev pub rejected : ErrorCode → String → RegisterResponse
rejected code message = record { status = fail code message; user_id = "" }

abbrev pub no_info : ErrorCode → String → GetUserInfoResponse
no_info code message = record {
  status = fail code message;
  user_id = "";
  username = "";
  email = "";
  avatar_url = "";
  phone_number = "";
}

-- The user object that `Register` builds.
unfoldable pub new_user : RegisterRequest → String → String → String → User
unfolding create update_profile
new_user req user_id salt pwd_hash =
    update_profile (some req.username) none none (create user_id req.phone_number pwd_hash salt)

abbrev created : String → Expected (Unit {0}) DbError → RegisterResponse
created user_id (unexpected e) = rejected internal_error "注册失败"
created user_id (value _) = record { status = succeeded; user_id = user_id }

-- What `GetUserInfo` answers for the outcome of the look-up.
unfoldable pub info_of : Expected (Option User) DbError → GetUserInfoResponse
info_of (unexpected e) = no_info internal_error "查询失败"
info_of (value none) = no_info user_not_found "用户不存在"
info_of (value (some user)) = record {
  status = succeeded;
  user_id = user.id;
  username = value_or user.username "";
  email = value_or user.email "";
  avatar_url = value_or user.avatar_url "";
  phone_number = user.phone_number;
}

module _ {S : Type 0} (basic : BasicUserService S) where
  open basic use {user_repository, code_repository, id_generator, security_util}

  -- The end of `Register`, once the phone number is known to be free.
  register_new : RegisterRequest → Await S RegisterResponse
  unfolding new_user
  register_new req = do
    user_id ← id_generator.generate_uuid
    salt ← security_util.generate_salt
    let pwd_hash = security_util.hash_password req.password salt
    result ← user_repository.create_user (new_user req user_id salt pwd_hash)
    pure (created user_id result)

  register_checked : RegisterRequest → Expected (Option User) DbError → Await S RegisterResponse
  unfolding register_new
  register_checked req (unexpected e) = pure (rejected internal_error "Database Error")
  register_checked req (value (some user)) = pure (rejected user_already_exists "该手机号已注册")
  register_checked req (value none) = register_new req

  unfoldable pub register : RegisterRequest → Await S RegisterResponse
  unfolding register_checked
  register req = do
    code ← code_repository.get_code user_register req.phone_number
    if code_matches code req.code
        then user_repository.get_user_by_phone_number req.phone_number >>= register_checked req
        else pure (rejected verification_code_mismatch "验证码错误")

  unfoldable pub get_user_info : GetUserInfoRequest → Await S GetUserInfoResponse
  unfolding info_of
  get_user_info req = do pure (info_of (← user_repository.get_user_by_id req.user_id))

  unfoldable pub update_user_info : UpdateUserInfoRequest → Await S UpdateUserInfoResponse
  update_user_info _ = pure (record { status = fail internal_error "Not Implemented Yet" })
