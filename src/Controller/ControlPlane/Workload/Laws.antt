-- ===== src/Controller/ControlPlane/Workload/Laws.antt =====
-- The StatefulSet of a control plane: its number of replicas, and which specs are refused.
use Prim.Native.Nat.{zero, suc}
use Prim.Derive.{subst}
use tenantplane.Base.{
  ℕ, ◌&&◌, ◌≤◌, ◌<◌, sym, ◌≡◌, Bool, true, false, ltb, ltb→lt, arith, if◌then◌else◌, inl, inr,
  Bool-cases,
}
use tenantplane.Base.Text.{Text, is_empty}
use tenantplane.Base.Go.{Unicode}
use tenantplane.Base.Result.{Result, ok, err}
use tenantplane.Object.{ℤ, pos}
use tenantplane.Api.{TenantCluster}
use tenantplane.Isolation.{Quantities}
use tenantplane.Controller.ControlPlane.Workload.{
  low_bits, to_int32, at_least_one, parse_or, StatefulSet, build_stateful_set,
}

at_least_one-pos :
    (m : ℕ) → m < 2147483648 → 1 ≤ at_least_one (pos m) × at_least_one (pos m) < 2147483648
at_least_one-pos zero h = (omega arith, omega arith)
at_least_one-pos (suc m) h = (omega arith, h)

at_least_one-bounds :
    (n : ℤ) → 1 ≤ at_least_one (to_int32 n) × at_least_one (to_int32 n) < 2147483648
unfolding to_int32
at_least_one-bounds n = elim (Bool-cases (ltb (low_bits n) 2147483648)) [
  | inl low ↦ rw low (at_least_one-pos (low_bits n) (ltb→lt (low_bits n) 2147483648 low))
  | inr high ↦ rw high (omega arith, omega arith)
]

abbrev pub is_ok {ℓ} : {A : Type ℓ} → Result A → Bool
is_ok (ok a) = true
is_ok (err e) = false

-- An amount is usable where it is empty, or parses.
abbrev pub is_amount : (q : Quantities) → Text → Bool
is_amount q amount = if is_empty amount then true else is_ok (q.parse amount)

module _ (q : Quantities) ⦃u : Unicode⦄ (tc : TenantCluster) where
  -- The StatefulSet that is built has at least one replica and a number that an int32 holds, whatever
  -- number the spec has.
  pub build_stateful_set-replicas :
      (sts : StatefulSet q)
      → build_stateful_set q tc ≡ ok sts
      → 1 ≤ sts.replicas × sts.replicas < 2147483648
  unfolding build_stateful_set
  build_stateful_set-replicas sts built =
      let bounds = at_least_one-bounds tc.spec.control_plane.replicas in
      let same : sts.replicas ≡ at_least_one (to_int32 tc.spec.control_plane.replicas) =
        ground arith in
      subst (λ n. 1 ≤ n × n < 2147483648) (sym same) bounds

  -- The StatefulSet is built exactly where the sizes of the storage, the processor and the memory are
  -- each empty or parse; otherwise there is an error.
  pub build_stateful_set-ok : is_ok (build_stateful_set q tc) ≡ (
      is_amount q tc.spec.control_plane.storage.size
      && is_amount q tc.spec.resources.cpu
      && is_amount q tc.spec.resources.memory)
  unfolding build_stateful_set parse_or
  build_stateful_set-ok = ground arith
