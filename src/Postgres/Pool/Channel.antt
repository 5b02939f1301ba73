-- ===== src/Postgres/Pool/Channel.antt =====
-- boost::asio::experimental::channel with no buffer, as the pool uses it: coroutines wait in
-- `async_receive`, and `try_send` hands a connection to the first of them, or fails.
use mathlib.Core.List.{◌++◌}
use photon_commerce.Base.{ℕ, Option, none, some, List, [], ◌∷◌, ◌≡◌}

pub record WaiterChannel : Type 1 where
  pub Chan : Type 0
  pub pending : Chan → List ℕ
  pub async_receive : ℕ → Chan → Chan
  pub try_send : Chan → Option ℕ × Chan
  pub pending-async_receive : (w : ℕ) (c : Chan) → pending (async_receive w c) ≡ pending c ++ w ∷ []
  pub try_send-nil :
      (c : Chan) → pending c ≡ [] → ((try_send c).0 ≡ none) × (pending (try_send c).1 ≡ [])
  pub try_send-cons :
      (c : Chan) (w : ℕ) (ws : List ℕ)
      → pending c ≡ w ∷ ws
      → ((try_send c).0 ≡ some w) × (pending (try_send c).1 ≡ ws)
