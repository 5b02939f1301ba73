-- ===== src/Adapter/Rpcs/FirstSession.antt =====
-- The first session of a new user, over the wire: Register, LoginByPassword, GetUserInfo.
use photon_commerce.Base.{String, Expected}
use photon_commerce.Domain.User.{User}
use photon_commerce.Domain.Repositories.{UserRepository}
use photon_commerce.Service.Auth.{AuthService}
use photon_commerce.Service.BasicUser.{BasicUserService}
use photon_commerce.Service.BasicUser.FirstLogin.{shared_auth, shared_basic}
use photon_commerce.Service.Utilities.{JwtError, SecurityUtil}
use photon_commerce.Adapter.Rpcs.{
  SpecificCallData, get_user_info_call_data, login_by_password_call_data, register_call_data,
}
use photon_commerce.Utils.Jwt.{verify_token as jwt_verify}

module _ {S : Type 0} (auth : AuthService S) (basic : BasicUserService S) (users : UserRepository S)
    (security : SecurityUtil S) (verify_token : String → Expected String JwtError) where
  abbrev registration : SpecificCallData S
  registration = register_call_data (shared_basic auth basic users security)

  abbrev login : SpecificCallData S
  login = login_by_password_call_data (shared_auth auth basic users security)

  abbrev info : SpecificCallData S
  info = get_user_info_call_data (shared_basic auth basic users security)
