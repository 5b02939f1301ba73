-- ===== src/Lib.antt =====
-- The user service of Photon-Commerce, UserService/, a gRPC server in C++ over Redis and
-- PostgreSQL.
--
-- A request enters through the completion queue of gRPC into a slot, a CallData, which
-- authenticates it, runs the logic of its RPC as a coroutine and sends the reply. The logic calls a
-- business service, which works on the user entity through two repositories and four utilities. The
-- repositories stand on a Redis client and on a DAO, which takes its connections from a pool. The
-- program itself, Application, loads the configuration, makes these parts, brings Redis and the
-- pool up on a thread pool, and only then starts the server, which seeds the slots of its RPCs
-- through their managers and lets its workers take the events of the queue.
--
-- Which file models which part:
--   Service/Model, Service/Utilities   UserService/service/model, UserService/utils/interface
--   Service/Auth          UserService/service/src/auth_service.cc: send_code, login_by_code and
--                         login_by_password are SendCode, LoginByCode and LoginByPassword
--   Service/BasicUser     UserService/service/src/basic_user_service.cc: register, get_user_info
--                         and update_user_info
--   Domain/User           UserService/domain/user.h and user.cc; Domain/User/Serial holds ToJson
--                         and FromJson, over Domain/Json, the JSON library, and
--                         Domain/User/Text holds ToString
--   Domain/Repositories   UserService/domain/interface; Domain/Stores says what the services
--                         expect of the repositories behind it
--   Redis                 UserService/infrastructure/state_storage/redis_dao
--   Repository/Codes, Repository/Users   UserService/infrastructure/domain_implement/src;
--                         Repository/Users/Concurrent has the calls of GetUserById side by side
--   Postgres/Pool         UserService/infrastructure/persistence/postgresql/src/
--                         async_connection_pool.cc; Postgres/Pool/Clients has the coroutines
--                         around it, Postgres/Pool/Version2 the pool of old_version/v2
--   Postgres/Connection   UserService/infrastructure/persistence/postgresql/src/pq_connection.cc
--   Postgres/Dao          UserService/infrastructure/persistence/dao/user_dao.cc; Postgres/Dao/Table
--                         is the table of UserService/init_sql/init_users.sql
--   Adapter/Authentication, Adapter/CallData   UserService/adapter/v2/call_data/interface/
--                         call_data.hpp; Adapter/CallData/Protocol has the environment of a slot,
--                         and Adapter/CallData/Calls a call from its delivery to its reply
--   Adapter/Rpcs          UserService/adapter/v2/call_data/include, the five classes derived from
--                         CallData, each with its service behind it
--   Adapter/Manager       UserService/adapter/v2/call_data_manager
--   Adapter/Version1      UserService/adapter/v1, the objects on a heap
--   Adapter/Handlers      UserService/adapter/v2/call_data/src, the five RunSpecificLogic
--   Utils                 UserService/utils/src
--   Config                UserService/config/app_config.cc
--   Registry              UserService/service_registry/src/consul_registry.cc
--   Server/ThreadPool     UserService/infrastructure/asio_thread_pool
--   Server/Seeding, Server/Lifecycle   UserService/server/user_service_server.cc: seed_call_data,
--                         run and shutdown are SeedCallData, Run and Shutdown
--   Server/Objects        all objects that SeedCallData registers, in whatever order gRPC, the
--                         workers of HandleRpc and the coroutines act on them
--   Server/Application    UserService/server/application.cc and UserService/main.cc
--   Base                  what these share; Tests the concrete inputs
--
-- How the code is modelled. A coroutine that acts on a state S and may throw is a function Await S
-- A, from a state to an outcome and the next state; `co_await` is its bind, and what was done
-- before an exception is kept. std::expected is Expected, an exception is a std::exception with its
-- text or an unknown one. A private method or a stretch of a function between two awaits is a
-- helper beside the function. What runs on one strand runs one at a time, so there an operation is
-- a step, and the orders of steps are the relations Step and Reach of the pools, of the slot and of
-- the server's objects; what runs under a mutex is one step as well. What the server asks of gRPC
-- and of its threads is a list of effects in the order in which they happen. In Server, Registry
-- and Adapter/Version1 a result of none is undefined behaviour, or a call that never returns. `Run`
-- stays in `Wait` unless it throws, since only the destructor after it would shut the server down:
-- its result in_wait is no return, and main stays there with it.
--
-- Code outside the repository is a parameter: boost::redis (RedisLib), nlohmann::json (JsonLib),
-- jwt-cpp (JwtLib), Crypto++ (CryptoLib), yaml-cpp (YamlLib), the channel of boost::asio
-- (WaiterChannel), io_context with its threads (IoContext), ppconsul (ConsulLib), libpq (PqLib), clocks and random sources. What the
-- code relies on there is a record of laws beside the parameter or in it (IsJsonLib, IsJwtLib,
-- IsCryptoLib, IsRedisServer, and UserTable with IsKeyed for the table of users), which the concrete
-- libraries of Tests satisfy. What AsyncExecParams does to the database behind UserDao is a parameter
-- (DaoLib); UserTable says what the database does for an INSERT and a SELECT that are rendered from
-- lists of column names, which the statements of UserDao are proved to equal. The column of ids takes
-- only some texts for ids, and may take two for the same. The DAO behind UserRepository is a
-- parameter, whose laws (Database, HasPrimaryKey) Repository/Users/OverDao fills for UserDao.
--
-- Bounds and fuel. The counter of the Redis client wraps at 2^64, the status of a user at 16 bits,
-- the bytes of an identifier at 8; times are nanoseconds or milliseconds as in the code and do not
-- overflow. std::to_string runs on fuel n + 1 for n, more than its digits. The loops of
-- PQConnection run on fuel: for a query, more than the rounds in which its response arrives and
-- more than the number of its results is enough. `Proceed` of the first adapter, which calls itself
-- through `Init` of a new object, runs on fuel 2, and no call goes deeper. Every other loop is
-- structural recursion, on the number of its rounds or on a list.
--
-- Not modelled: the pool of old_version/v01, whose channel is used from several threads without a
-- strand; logging; threads that cannot be created; the injector of Application, whose
-- constructors are called directly, with the services as pointers; the generated code of gRPC and
-- the IDL, the k8s registry, which is empty, and the build files; entries of the cache that run
-- out, but for Repository/Users/Concurrent, where that is a step. An address that was deleted is
-- not given again by `new`. In the adapter the check of a token returns: an exception in it that is
-- no std::exception would leave `Proceed` and end the worker thread.
pub mod Base
pub mod Domain
pub mod Service
pub mod Redis
pub mod Repository
pub mod Postgres
pub mod Adapter
pub mod Utils
pub mod Config
pub mod Registry
pub mod Server
pub mod Tests
