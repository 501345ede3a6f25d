-- ===== src/Controller/ControlPlane/Workload.antt =====
-- `buildStatefulSet` of internal/controller/controlplane.go.
pub mod Laws
use Prim.Native.Nat.{zero, suc}
use tenantplane.Base.{
  ℕ, ◌-◌, ◌%◌, String, Bool, true, false, List, [], ◌∷◌, ◌++◌, Option, none, some, map,
  if◌then◌else◌, Dict, insert, string_eq, ltb,
}
use tenantplane.Base.Text.{Text, text, is_empty}
use tenantplane.Base.Go.{Unicode}
use tenantplane.Base.Result.{Result, ok, err, Error, wrap, ◌>>=◌}
use tenantplane.Object.{ℤ, pos, negsuc}
use tenantplane.Api.{TenantCluster}
use tenantplane.Isolation.{Quantities}
use tenantplane.Controller.Namespace.{control_plane_namespace}
use tenantplane.Controller.ControlPlane.{
  api_port, control_plane_name, control_plane_object_labels, control_plane_service_fqdn,
}
use tenantplane.Controller.ControlPlane.K3s.{k3s_image}

-- int32(n), which keeps the low 32 bits, in two's complement
unfoldable pub low_bits : ℤ → ℕ
low_bits (pos n) = n % 4294967296
low_bits (negsuc n) = 4294967295 - n % 4294967296

unfoldable pub to_int32 : ℤ → ℤ
unfolding low_bits
to_int32 n =
    if ltb (low_bits n) 2147483648 then pos (low_bits n) else negsuc (4294967295 - low_bits n)

-- if replicas < 1 { replicas = 1 }
abbrev pub at_least_one : ℤ → ℕ
at_least_one (pos zero) = 1
at_least_one (pos (suc n)) = suc n
at_least_one (negsuc n) = 1

-- A probe by a TCP connection.
pub record Probe : Type 0 where
  pub port : ℕ
  pub initial_delay_seconds : ℕ
  pub period_seconds : ℕ

pub record Container (q : Quantities) : Type 0 where
  pub name : Text
  pub image : Text
  pub command : List Text
  pub args : List Text
  pub container_port : ℕ
  pub requests : Dict String q.Quantity
  pub limits : Dict String q.Quantity
  pub mount : Text × Text
  pub seccomp_profile : Text
  pub readiness : Probe
  pub liveness : Probe

-- The pod template has the labels of the selector, and one container.
pub record Template (q : Quantities) : Type 0 where
  pub labels : Dict String Text
  pub container : Container q

pub record VolumeClaim (q : Quantities) : Type 0 where
  pub name : Text
  pub access_modes : List Text
  pub storage_class_name : Option Text
  pub storage : q.Quantity

pub record StatefulSet (q : Quantities) : Type 0 where
  pub name : Text
  pub namespace : Text
  pub labels : Dict String Text
  pub service_name : Text
  pub replicas : ℕ
  pub selector : Dict String Text
  pub template : Template q
  pub volume_claim : VolumeClaim q
  -- status.readyReplicas
  pub ready_replicas : ℤ

-- An amount of the spec, or the default where it is empty.
unfoldable pub parse_or : (q : Quantities) → Text → Text → q.Quantity → Result q.Quantity
parse_or q context amount default =
    if is_empty amount
    then ok default
    else elim (q.parse amount) [ ok quantity ↦ ok quantity | err e ↦ err (wrap context e) ]

abbrev pub storage_class_name_of : Text → Option Text
storage_class_name_of class_name = if is_empty class_name then none else some class_name

abbrev pub tls_san : Text → Text
tls_san san = text "--tls-san=" ++ san

module _ ⦃u : Unicode⦄ where
  unfoldable pub server_args : TenantCluster → List Text
  server_args tc =
      let fqdn = control_plane_service_fqdn tc in
      (text "server"
        ∷ text "--data-dir=/data"
        ∷ text "--disable-agent"
        ∷ text "--disable=traefik,servicelb,metrics-server,local-storage,coredns"
        ∷ text "--write-kubeconfig-mode=644"
        ∷ tls_san fqdn
        ∷ tls_san (fqdn ++ text ".cluster.local")
        ∷ [])
      ++ map tls_san tc.spec.control_plane.extra_tls_sans

module _ (q : Quantities) ⦃u : Unicode⦄ where
  abbrev k3s_container : TenantCluster → q.Quantity → q.Quantity → Container q
  k3s_container tc cpu memory = record {
    name = text "k3s";
    image = k3s_image tc.spec.kubernetes_version;
    command = text "k3s" ∷ [];
    args = server_args tc;
    container_port = api_port;
    requests = ("cpu", q.must_parse (text "250m")) ∷ ("memory", q.must_parse (text "256Mi")) ∷ [];
    limits = ("cpu", cpu) ∷ ("memory", memory) ∷ [];
    mount = (text "data", text "/data");
    seccomp_profile = text "RuntimeDefault";
    readiness = record { port = api_port; initial_delay_seconds = 5; period_seconds = 5 };
    liveness = record { port = api_port; initial_delay_seconds = 15; period_seconds = 15 };
  }

  abbrev pub stateful_set_of : TenantCluster → q.Quantity → q.Quantity → q.Quantity → StatefulSet q
  stateful_set_of tc storage cpu memory = record {
    name = control_plane_name tc;
    namespace = control_plane_namespace tc;
    labels = control_plane_object_labels tc;
    service_name = control_plane_name tc;
    replicas = at_least_one (to_int32 tc.spec.control_plane.replicas);
    selector = control_plane_object_labels tc;
    template = record {
      labels = control_plane_object_labels tc;
      container = k3s_container tc cpu memory;
    };
    volume_claim = record {
      name = text "data";
      access_modes = text "ReadWriteOnce" ∷ [];
      storage_class_name = storage_class_name_of tc.spec.control_plane.storage.class_name;
      storage = storage;
    };
    ready_replicas = pos 0;
  }

  unfoldable pub build_stateful_set : TenantCluster → Result (StatefulSet q)
  unfolding parse_or
  build_stateful_set tc = do
    storage ←
        parse_or q (text "invalid controlPlane.storage.size %q") tc.spec.control_plane.storage.size
          (q.must_parse (text "1Gi"))
    cpu ←
        parse_or q (text "invalid resources.cpu %q") tc.spec.resources.cpu (q.must_parse (text "1"))
    memory ←
        parse_or q (text "invalid resources.memory %q") tc.spec.resources.memory
          (q.must_parse (text "1Gi"))
    ok (stateful_set_of tc storage cpu memory)
