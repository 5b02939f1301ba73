-- ===== src/Server/Seeding.antt =====
-- `SeedCallData` of UserService/server/user_service_server.cc.
pub mod Blocks
pub mod Limits
use mathlib.Core.List.{◌++◌}
use photon_commerce.Base.{List, [], ◌∷◌, Outcome, ret, thrown, Await, ◌>>◌}
use photon_commerce.Adapter.Manager.{
  register_call_data_manager, send_code_call_data_manager, login_by_password_call_data_manager,
  login_by_code_call_data_manager, get_user_info_call_data_manager, Queue, CallDataManager, Pointer,
  to_size, make_manager, start,
}
use photon_commerce.Config.Settings.{RpcLimitsConfig}

-- What the server hands to its managers.
pub record Dependencies : Type 0 where
  pub auth_grpc_service : Pointer
  pub basic_user_grpc_service : Pointer
  pub auth_business_service : Pointer
  pub basic_user_business_service : Pointer
  pub jwt_util : Pointer
  pub cq : Pointer

-- The managers that are members already, and the queue.
abbrev pub Seeds : Type 0
Seeds = List CallDataManager × Queue

unfoldable pub keep : CallDataManager × Queue → List CallDataManager → Seeds
keep started managers = (managers ++ started.0 ∷ [], started.1)

-- A manager is made, kept as a member, and started.
unfoldable pub start_made : Outcome CallDataManager → Await Seeds (Unit {0})
unfolding start keep
start_made (thrown e) s = (thrown e, s)
start_made (ret m) s = (ret tt, keep (start m s.1) s.0)

unfoldable pub seed_call_data : RpcLimitsConfig → Dependencies → Await Seeds (Unit {0})
unfolding make_manager start_made
seed_call_data limits d =
    start_made (
      register_call_data_manager (to_size limits.register_num) d.basic_user_grpc_service
        d.basic_user_business_service d.jwt_util d.cq)
    >> (start_made (
          send_code_call_data_manager (to_size limits.send_code_num) d.auth_grpc_service
            d.auth_business_service d.jwt_util d.cq)
        >> (start_made (
              login_by_password_call_data_manager (to_size limits.login_pw_num) d.auth_grpc_service
                d.auth_business_service d.jwt_util d.cq)
            >> (start_made (
                  login_by_code_call_data_manager (to_size limits.login_code_num)
                    d.auth_grpc_service d.auth_business_service d.jwt_util d.cq)
                >> start_made (
                    get_user_info_call_data_manager (to_size limits.get_user_info_num)
                      d.basic_user_grpc_service d.basic_user_business_service d.jwt_util d.cq))))
