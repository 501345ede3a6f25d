-- ===== src/Controller/Reconcile/Credentials/Laws.antt =====
-- The secret that `ensureKubeconfigSecret` gives holds a kubeconfig for the control plane's Service.
use Prim.Derive.{subst}
use tenantplane.Base.{◌≡◌, sym, ◌∙◌, true, List, [], ◌∷◌, string_eq, text_at, arith}
use tenantplane.Base.Text.{Text, text, contains, split_lines}
use tenantplane.Base.Go.{Unicode}
use tenantplane.Base.Result.{ok, is_not_found}
use tenantplane.Base.Action.{next, ◌>>=◌, read, pure}
use tenantplane.Base.Action.Triple.{
  Triple, Holds, Anything, pure-Triple, return-Triple, read-Triple, bind-Triple, bind_any-Triple,
  if-Triple, test-Triple, result-Triple, call-Triple, lift-Triple, wrapping-Triple,
}
use tenantplane.Api.{TenantCluster}
use tenantplane.Isolation.{Quantities}
use tenantplane.Controller.Namespace.{control_plane_namespace}
use tenantplane.Controller.ControlPlane.{control_plane_service_fqdn, control_plane_pod_name}
use tenantplane.Controller.ControlPlane.Kubeconfig.Laws.{has_server_line, rewrite-contains}
use tenantplane.Controller.Apis.{Apis, Secret, kubeconfig_of}
use tenantplane.Controller.Reconcile.Credentials.{
  read_command, extract_kubeconfig, refresh_secret, create_secret, new_secret,
  ensure_kubeconfig_secret,
}

-- What the clients and the pod do: a write gives back the data that it was given, an owner changes
-- none, and k3s writes a kubeconfig with a server line.
pub record FaithfulSecrets (q : Quantities) (apis : Apis q) : Type 0 where
  pub create_gives :
      (s : apis.host.State) (secret written : Secret)
      → (apis.secrets.create s secret).0 ≡ ok written
      → written.payload ≡ secret.payload
  pub update_gives :
      (s : apis.host.State) (secret written : Secret)
      → (apis.secrets.update s secret).0 ≡ ok written
      → written.payload ≡ secret.payload
  pub owner_keeps :
      (tc : TenantCluster) (secret owned : Secret)
      → apis.secret_owner tc secret ≡ ok owned
      → owned.payload ≡ secret.payload
  pub exec_gives :
      (s : apis.host.State) (namespace pod container : Text) (command : List Text) (raw : Text)
      → (apis.exec_in_pod s namespace pod container command).0 ≡ ok raw
      → has_server_line (split_lines raw) ≡ true

module _ (q : Quantities) (apis : Apis q) ⦃u : Unicode⦄ (faithful : FaithfulSecrets q apis)
    (tc : TenantCluster) where
  -- The kubeconfig of the secret names the Service.
  abbrev IsFresh : Secret → Type 0
  IsFresh secret = contains (kubeconfig_of secret) (control_plane_service_fqdn tc) ≡ true

  abbrev IsFreshText : Text → Type 0
  IsFreshText kubeconfig = contains kubeconfig (control_plane_service_fqdn tc) ≡ true

  extract_kubeconfig-IsFresh : Triple Anything Anything IsFreshText (extract_kubeconfig q apis tc)
  unfolding extract_kubeconfig
  extract_kubeconfig-IsFresh =
      bind-Triple {Q = λ raw. has_server_line (split_lines raw) ≡ true}
        (wrapping-Triple _ _ (
          call-Triple _ (λ s raw.
            faithful.exec_gives s (control_plane_namespace tc) (control_plane_pod_name tc)
              (text "k3s") read_command raw)))
        λ raw h. pure-Triple _ (rewrite-contains raw (control_plane_service_fqdn tc) h)

  -- A secret with the data of a fresh one.
  IsFresh-payload :
      (kubeconfig : Text) (secret : Secret)
      → IsFreshText kubeconfig
      → secret.payload ≡ ("kubeconfig", kubeconfig) ∷ []
      → IsFresh secret
  IsFresh-payload kubeconfig secret h same =
      subst (λ payload. IsFreshText (text_at "kubeconfig" payload)) (sym same) h

  refresh_secret-IsFresh :
      (existing : Secret) → Triple Anything Anything IsFresh (refresh_secret q apis tc existing)
  unfolding refresh_secret
  refresh_secret-IsFresh existing = bind-Triple extract_kubeconfig-IsFresh λ kubeconfig h.
      call-Triple _ λ s written same.
        IsFresh-payload kubeconfig written h (faithful.update_gives s _ written same)

  create_secret-IsFresh :
      (name : Text) → Triple Anything Anything IsFresh (create_secret q apis tc name)
  unfolding create_secret
  create_secret-IsFresh name = bind-Triple extract_kubeconfig-IsFresh λ kubeconfig h.
      bind-Triple {Q = λ secret. secret.payload ≡ ("kubeconfig", kubeconfig) ∷ []}
        (lift-Triple _
          (λ owned same. faithful.owner_keeps tc (new_secret q apis tc name kubeconfig) owned same))
        λ owned kept. call-Triple _ λ s written same.
          IsFresh-payload kubeconfig written h (faithful.create_gives s owned written same ∙ kept)

  -- A fresh secret is left as it is.
  ensure-settled :
      (name : Text) (s : apis.host.State) (secret : Secret)
      → IsFresh secret
      → apis.secrets.get s (tc.namespace, name) ≡ ok secret
      → ensure_kubeconfig_secret q apis tc name s ≡ (next secret, s)
  unfolding ensure_kubeconfig_secret ◌>>=◌ read pure
  ensure-settled name s secret fresh there = ground arith

  ensure_kubeconfig_secret-Triple :
      (name : Text) → Triple Anything Anything IsFresh (ensure_kubeconfig_secret q apis tc name)
  unfolding ensure_kubeconfig_secret
  ensure_kubeconfig_secret-Triple name = bind_any-Triple (read-Triple _) λ found.
      result-Triple found
        (λ existing.
          test-Triple (contains (kubeconfig_of existing) (control_plane_service_fqdn tc))
            (λ h. pure-Triple existing h) (refresh_secret-IsFresh existing))
        (λ failure.
          if-Triple (is_not_found failure) (create_secret-IsFresh name) (return-Triple failure tt))

  -- When the clients are faithful and the pod's kubeconfig has a server line, a secret that
  -- ensureKubeconfigSecret gives names the control plane's Service; where reading it back gives that
  -- secret, the next call changes nothing.
  pub ensure_kubeconfig_secret-settles :
      (name : Text) (s : apis.host.State) (secret : Secret)
      → (ensure_kubeconfig_secret q apis tc name s).0 ≡ next secret
      → apis.secrets.get (ensure_kubeconfig_secret q apis tc name s).1 (tc.namespace, name)
        ≡ ok secret
      → (contains (kubeconfig_of secret) (control_plane_service_fqdn tc) ≡ true)
        × (ensure_kubeconfig_secret q apis tc name (ensure_kubeconfig_secret q apis tc name s).1
            ≡ (next secret, (ensure_kubeconfig_secret q apis tc name s).1))
  ensure_kubeconfig_secret-settles name s secret gives there =
      let fresh : IsFresh secret =
        subst (Holds Anything IsFresh) gives ((ensure_kubeconfig_secret-Triple name).run s tt).1 in
      (fresh, ensure-settled name (ensure_kubeconfig_secret q apis tc name s).1 secret fresh there)
