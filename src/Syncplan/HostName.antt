-- ===== src/Syncplan/HostName.antt =====
-- `HostName` and `fnv32` of internal/syncplan/plan.go.
pub mod Bounds
pub mod Injective
use Prim.Native.Nat.{bit_xor}
use tenantplane.Base.{
  ℕ, zero, suc, ◌+◌, ◌-◌, ◌*◌, ◌/◌, ◌%◌, ◌^◌, [], ◌∷◌, ◌++◌, length, take, ltb, leb, if◌then◌else◌,
}
use tenantplane.Base.Text.{Text, text, trim_right, is_dash}
use tenantplane.Base.Go.{Unicode}
use tenantplane.Syncplan.Sanitize.{sanitize_name}

abbrev pub max_dns_label_length : ℕ
max_dns_label_length = 63

abbrev offset32 : ℕ
offset32 = 2166136261

abbrev prime32 : ℕ
prime32 = 16777619

-- hash ^= uint32(b); hash *= prime32, in uint32
unfoldable pub fnv_step : ℕ → ℕ → ℕ
fnv_step hash b = bit_xor hash b * prime32 % 2 ^ 32

unfoldable pub fnv_loop : ℕ → Text → ℕ
fnv_loop hash [] = hash
fnv_loop hash (b ∷ value) = fnv_loop (fnv_step hash b) value

abbrev hex_digit : ℕ → ℕ
hex_digit d = if ltb d 10 then b'0' + d else b'a' + (d - 10)

-- fmt.Sprintf("%0<width>x", n) of a number below 16 ^ width
unfoldable pub hex : ℕ → ℕ → Text
hex zero n = []
hex (suc width) n = hex width (n / 16) ++ hex_digit (n % 16) ∷ []

unfoldable pub fnv32 : Text → Text
unfolding fnv_loop fnv_step hex
fnv32 value = hex 8 (fnv_loop offset32 value)

-- fmt.Sprintf("%s-x-%s-x-%s", …)
abbrev pub base_name : Text → Text → Text → Text
base_name resource_name virtual_namespace tenant_cluster =
    resource_name ++ text "-x-" ++ virtual_namespace ++ text "-x-" ++ tenant_cluster

module _ ⦃u : Unicode⦄ where
  -- The last lines of `HostName`: a name that fits stays, a longer one is cut and ends in its hash.
  unfoldable pub bounded_name : Text → Text
  bounded_name safe =
      let hash = fnv32 safe in
      let prefix_limit = max_dns_label_length - length hash - 1 in
      if leb (length safe) max_dns_label_length
      then safe
      else trim_right is_dash (take prefix_limit safe) ++ text "-" ++ hash

  unfoldable pub host_name : Text → Text → Text → Text
  unfolding bounded_name
  host_name resource_name virtual_namespace tenant_cluster =
      bounded_name (sanitize_name (base_name resource_name virtual_namespace tenant_cluster))
