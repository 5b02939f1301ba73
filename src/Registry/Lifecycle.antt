-- ===== src/Registry/Lifecycle.antt =====
-- Register and Deregister.
use Prim.Native.String.{◌++◌}
use photon_commerce.Base.{
  String, Bool, true, false, ◌≡◌, ◌≢◌, refl, ap, arith, if◌then◌else◌, Outcome, ret, thrown,
  Outcome-cases, inl, inr,
}
use photon_commerce.Base.Decimal.{to_string}
use photon_commerce.Config.Settings.{RegisterConfig}
use photon_commerce.Domain.Json.{JsonLib}
use photon_commerce.Registry.{Registry, service_id, payload, register, deregister}
use photon_commerce.Registry.Agent.{JsonArrays, ConsulLib, IsConsulLib}
use photon_commerce.Registry.Identity.{dashes, dashes-append, one_dash}
use text.Mathlib.Text.{◌==◌ as str_eq}
use text.Mathlib.TextEquality.{eq_iff}

service_id-ne-nil : (c : RegisterConfig) → service_id c ≢ ""
unfolding service_id dashes
service_id-ne-nil c e = omega (
  arith,
  ap dashes e,
  dashes-append c.service_name ("-" ++ c.ip ++ "-" ++ to_string c.port),
  one_dash (c.ip ++ "-" ++ to_string c.port),
)

service_id-test : (c : RegisterConfig) → str_eq (service_id c) "" ≡ false
service_id-test c = ground (arith, eq_iff (service_id c) "", service_id-ne-nil c)

-- Whether it returned.
abbrev pub returned : {A : Type 0} → Outcome A → Bool
returned (ret a) = true
returned (thrown e) = false

module _ {W : Type 0} (J : JsonLib) (A : JsonArrays J) (C : ConsulLib W) where
  abbrev pub register_path : String
  register_path = "/v1/agent/service/register"

  abbrev pub deregister_path : RegisterConfig → String
  deregister_path config = "/v1/agent/service/deregister/" ++ service_id config

  -- The agent after the request of Register.
  abbrev pub after_register : String → W → W
  after_register body w = (C.put register_path body w).1

  -- After a Register, whether the agent accepted it or not, Deregister returns, and asks the agent
  -- once, for the id of the registered service; it forgets the id exactly if that request returns.
  pub deregister-register :
      (config : RegisterConfig) (body : String) (s : Registry W)
      → IsConsulLib C
      → A.dump (payload J A C config) ≡ ret body
      → deregister J A C (register J A C config s).1 ≡ (
        ret tt,
        record {
          current_service_id =
              if returned (C.put (deregister_path config) "" (after_register body s.agent)).0
              then ""
              else service_id config;
          agent = (C.put (deregister_path config) "" (after_register body s.agent)).1;
        },
      )
  unfolding register deregister
  deregister-register config body s laws dumped =
      elim (Outcome-cases (C.put (deregister_path config) "" (after_register body s.agent)).0) [
        | inl (u, ok) ↦ rw (dumped, service_id-test config, ok) refl
        | inr (e, failed) ↦
            let (what, std) =
              laws.put-thrown (deregister_path config) "" (after_register body s.agent) e failed in
            rw (dumped, service_id-test config, failed, std) refl
      ]
