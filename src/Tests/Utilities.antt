-- ===== src/Tests/Utilities.antt =====
-- Identifiers, codes, passwords and tokens at concrete inputs.
use Prim.Native.String.{count}
use photon_commerce.Base.{
  ℕ, String, some, true, ◌≡◌, ◌↔◌, ◌≤◌, ◌*◌, ◌/◌, ◌%◌, arith, length, get_elem?, value, unexpected,
  ret,
}
use photon_commerce.Service.Utilities.{token_expired}
use photon_commerce.Utils.Uuid.{generate_bytes}
use photon_commerce.Utils.Uuid.Layout.{read_timestamp, generate_bytes_layout}
use photon_commerce.Utils.Uuid.Order.{Precedes, generate_bytes-Precedes}
use photon_commerce.Utils.CodeGenerator.{generate, IsDigits, generate-IsDigits}
use photon_commerce.Utils.Security.{verify_password, hash_password, verify_password_iff}
use photon_commerce.Utils.Jwt.{
  JwtConfig, ticks, generate_token, verify_token, verify_token-generate_token, verify_token-expired,
}
use photon_commerce.Tests.Tokens.{toy_tokens, toy_tokens-laws}
use photon_commerce.Tests.Toy.{toy_crypto, toy_crypto-laws}

generate_bytes_layout_test :
    let id = generate_bytes 1700000000000 0xFFFFFFFF 7 9 in
    (length id ≡ 16)
    × (read_timestamp id ≡ 1700000000000)
    × ((v : ℕ) × (get_elem? id 6 ≡ some v) × (v / 16 ≡ 7))
    × ((v : ℕ) × (get_elem? id 8 ≡ some v) × (v / 64 ≡ 2))
generate_bytes_layout_test = generate_bytes_layout 1700000000000 0xFFFFFFFF 7 9

generate_bytes-Precedes_example :
    Precedes (generate_bytes 1700000000000 99 98 97) (generate_bytes 1700000000001 1 2 3)
generate_bytes-Precedes_example =
    generate_bytes-Precedes 1700000000000 1700000000001 99 98 97 1 2 3 (omega arith) (omega arith)

abbrev draw : ℕ → ℕ × ℕ
draw e = (e % 10, e / 10)

draw_in_range : (e : ℕ) → (draw e).0 ≤ 9
draw_in_range e = omega arith

generate-IsDigits_test :
    (text : String) × ((generate draw 6 314159).0 ≡ ret text) × (count text ≡ 6) × IsDigits text
generate-IsDigits_test = generate-IsDigits draw draw_in_range 6 314159

verify_password_iff_test :
    (verify_password toy_crypto "pw" "salt" "#pwsalt" ≡ true)
    ↔ (hash_password toy_crypto "pw" "salt" ≡ "#pwsalt")
verify_password_iff_test = verify_password_iff toy_crypto "pw" "salt" "#pwsalt" toy_crypto-laws

abbrev pub settings : JwtConfig
settings = record { secret_key = "secret"; issuer = "photon"; expiration_seconds = 3600 }

abbrev pub second : ℕ → ℕ
second n = n * ticks

verify_token-generate_token_test :
    verify_token toy_tokens settings
      (second 1059)
      (generate_token toy_tokens settings (second 1000) "a")
    ≡ ret (value "a")
verify_token-generate_token_test =
    verify_token-generate_token toy_tokens settings toy_tokens-laws (second 1000) (second 1059) "a"
      (omega arith) (omega arith)

verify_token-expired_test :
    verify_token toy_tokens settings
      (second 4601)
      (generate_token toy_tokens settings (second 1000) "a")
    ≡ ret (unexpected token_expired)
verify_token-expired_test =
    verify_token-expired toy_tokens settings toy_tokens-laws (second 1000) (second 4601) "a"
      (omega arith)
