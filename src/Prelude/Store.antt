-- ===== src/Prelude/Store.antt =====
-- A keyed store (Redis, MongoDB, Cassandra, a `Map`) as a function from its keys.
use Prim.Native.String.{String}
use mathlib.Core.Path.{◌≡◌}
use mathlib.Core.Logic.{◌≢◌}
use ecomerce_microservices_o.Prelude.Tests.{if◌then◌else◌}
use ecomerce_microservices_o.Prelude.Text.{str_eq, str_eq_self, str_eq_ne}

module _ {ℓ} {V : Type ℓ} where
  -- The store `m` with `v` under `k`.
  abbrev pub update : (String → V) → String → V → String → V
  update m k v j = if str_eq j k then v else m j

  pub update_self : (m : String → V) (k : String) (v : V) → update m k v k ≡ v
  update_self m k v = rw (str_eq_self k)

  pub update_ne : (m : String → V) (j k : String) (v : V) → j ≢ k → update m k v j ≡ m j
  update_ne m j k v h = rw (str_eq_ne j k h)
