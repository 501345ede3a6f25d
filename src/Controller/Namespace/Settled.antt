-- ===== src/Controller/Namespace/Settled.antt =====
-- The namespace of a control plane, in internal/controller/namespace.go, from call to call.
use Prim.Derive.{subst}
use tenantplane.Base.{
  ◌≡◌, refl, ap, ◌∙◌, ◌⊎◌, sym, String, true, false, [], ◌∷◌, Option, none, some, Dict, insert,
  string_eq, bytes_eq, inl, inr, Bool-cases, arith, beq_refl,
}
use tenantplane.Base.Text.{Text, is_empty}
use tenantplane.Base.Go.{Unicode}
use tenantplane.Base.Result.{ok, err, Error, Result-cases}
use tenantplane.Syncplan.Transform.Build.{entries}
use tenantplane.Api.{TenantCluster}
use tenantplane.Controller.Namespace.{
  Namespace, Host, owned_by_tenant, converge_labels, control_plane_labels, control_plane_namespace,
  build_control_plane_namespace, ensure_control_plane_namespace,
}
use tenantplane.Controller.Namespace.Labels.{
  label_of, value_over, Has, Has-unchanged, converge_labels-Has, label_of-converge_labels,
}

-- What is stored for a namespace: its labels are read as they were given, and there may be more.
abbrev pub IsStoredAs : Namespace → Namespace → Type 0
IsStoredAs stored ns =
    (k : String) (v : Text) → is_empty v ≡ false → label_of k ns ≡ v → label_of k stored ≡ v

-- A client without concurrent writers, that finds a namespace by its name.
pub record StoresNamespaces (host : Host) : Type 0 where
  pub named :
      (s : host.State) (name : Text) (ns : Namespace)
      → host.get_namespace s name ≡ ok ns
      → ns.name ≡ name
  pub creates :
      (s : host.State) (ns : Namespace)
      → (host.create_namespace s ns).0 ≡ none
      → (stored : Namespace) × (host.get_namespace (host.create_namespace s ns).1 ns.name
          ≡ ok stored)
        × IsStoredAs stored ns
  pub updates :
      (s : host.State) (ns : Namespace)
      → (host.update_namespace s ns).0 ≡ none
      → (stored : Namespace) × (host.get_namespace (host.update_namespace s ns).1 ns.name
          ≡ ok stored)
        × IsStoredAs stored ns

name-converge_labels :
    (desired : Dict String Text) (ns : Namespace) → (converge_labels desired ns).0.name ≡ ns.name
unfolding converge_labels
name-converge_labels [] ns = refl
name-converge_labels ((k, v) ∷ desired) ns = ground (
  arith,
  name-converge_labels desired ns,
  name-converge_labels desired (record ns { labels = some (insert k v (entries ns.labels)) }),
)

module _ (host : Host) ⦃u : Unicode⦄ (tc : TenantCluster) where
  abbrev ensured : host.State → Option Error × host.State
  ensured s = ensure_control_plane_namespace host tc s

  owned-Has : (ns : Namespace) → Has (control_plane_labels tc) ns → owned_by_tenant ns tc ≡ true
  unfolding owned_by_tenant
  owned-Has ns (managed, (named, (placed, rest))) =
      rw (managed, named, placed, beq_refl tc.name, beq_refl tc.namespace) refl

  stored-Has :
      (stored ns : Namespace)
      → is_empty tc.name ≡ false
      → is_empty tc.namespace ≡ false
      → IsStoredAs stored ns
      → Has (control_plane_labels tc) ns
      → Has (control_plane_labels tc) stored
  stored-Has stored ns full full' kept
        (managed, (named, (placed, (enforce, (audit, (warn, rest)))))) =
      (
        kept _ _ refl managed,
        (
          kept _ _ full named,
          (
            kept _ _ full' placed,
            (kept _ _ refl enforce, (kept _ _ refl audit, (kept _ _ refl warn, tt))),
          ),
        ),
      )

  built-Has : Has (control_plane_labels tc) (build_control_plane_namespace tc)
  unfolding build_control_plane_namespace
  built-Has = (refl, (refl, (refl, (refl, (refl, (refl, tt))))))

  converged-Has :
      (ns : Namespace)
      → Has (control_plane_labels tc) (converge_labels (control_plane_labels tc) ns).0
  converged-Has ns =
      let reads : (k : String)
          → label_of k (converge_labels (control_plane_labels tc) ns).0
            ≡ value_over k (control_plane_labels tc) (label_of k ns) =
        λ k. label_of-converge_labels (control_plane_labels tc) ns k refl in
      (reads _, (reads _, (reads _, (reads _, (reads _, (reads _, tt))))))

  -- A namespace with the labels is left as it is.
  ensured-Has :
      (s : host.State) (ns : Namespace)
      → host.get_namespace s (control_plane_namespace tc) ≡ ok ns
      → Has (control_plane_labels tc) ns
      → ensured s ≡ (none, s)
  unfolding ensure_control_plane_namespace build_control_plane_namespace
  ensured-Has s ns there has = ground (
    arith,
    owned-Has ns has,
    ap (λ r. r.1) (converge_labels-Has (control_plane_labels tc) ns has),
  )

  -- Where a call without an error has made or changed the namespace.
  ensured-missing :
      (s : host.State) (e : Error)
      → host.get_namespace s (control_plane_namespace tc) ≡ err e
      → (ensured s).0 ≡ none
      → ensured s ≡ host.create_namespace s (build_control_plane_namespace tc)
  unfolding ensure_control_plane_namespace build_control_plane_namespace
  ensured-missing s e missing done = ground arith

  ensured-found :
      (s : host.State) (ns : Namespace)
      → host.get_namespace s (control_plane_namespace tc) ≡ ok ns
      → (ensured s).0 ≡ none
      → ((ensured s ≡ (none, s)) × Has (control_plane_labels tc) ns)
        ⊎ (ensured s ≡ host.update_namespace s (converge_labels (control_plane_labels tc) ns).0)
  unfolding ensure_control_plane_namespace build_control_plane_namespace
  ensured-found s ns there done =
      elim (Bool-cases (converge_labels (control_plane_labels tc) ns).1) [
        | inl changed ↦ inr (ground arith)
        | inr same ↦ inl (ground arith, Has-unchanged (control_plane_labels tc) ns same)
      ]

  -- The namespace is there with its labels, and a call changes nothing.
  abbrev pub IsSettled : host.State → Type 0
  IsSettled s =
      (ns : Namespace) × (host.get_namespace s (control_plane_namespace tc) ≡ ok ns)
      × Has (control_plane_labels tc) ns
      × (ensure_control_plane_namespace host tc s ≡ (none, s))

  settled :
      (s : host.State) (after : Option Error × host.State) (ns : Namespace)
      → ensured s ≡ after
      → host.get_namespace after.1 (control_plane_namespace tc) ≡ ok ns
      → Has (control_plane_labels tc) ns
      → IsSettled (ensured s).1
  settled s after ns same there has =
      subst (λ r. IsSettled r.1) (sym same) (ns, there, has, ensured-Has after.1 ns there has)

  -- Take a client without concurrent writers, that finds a namespace by its name and keeps the labels
  -- that it is given, and a tenant whose name and namespace are not empty. After a call that has
  -- ensured the control plane's namespace without an error, the namespace is there with all of its
  -- labels, and a second call changes nothing and has no error either.
  pub ensure-settles :
      StoresNamespaces host
      → (s : host.State) → is_empty tc.name ≡ false
      → is_empty tc.namespace ≡ false
      → (ensure_control_plane_namespace host tc s).0 ≡ none
      → IsSettled (ensure_control_plane_namespace host tc s).1
  unfolding build_control_plane_namespace
  ensure-settles stores s full full' done =
      elim (Result-cases (host.get_namespace s (control_plane_namespace tc))) [
        | inr (e, missing) ↦
            let made = ensured-missing s e missing done in
            let built = build_control_plane_namespace tc in
            let (stored, there, kept) = stores.creates s built (ap (λ r. r.0) (sym made) ∙ done) in
            settled s (host.create_namespace s built) stored made there
              (stored-Has stored built full full' kept built-Has)
        | inl (ns, found) ↦ elim (ensured-found s ns found done) [
          | inl (idle, has) ↦ settled s (none, s) ns idle found has
          | inr changed ↦
              let converged = (converge_labels (control_plane_labels tc) ns).0 in
              let (stored, there, kept) =
                stores.updates s converged (ap (λ r. r.0) (sym changed) ∙ done) in
              let same_name =
                name-converge_labels (control_plane_labels tc) ns
                ∙ stores.named s (control_plane_namespace tc) ns found in
              settled s (host.update_namespace s converged) stored changed
                (subst
                  (λ name.
                    host.get_namespace (host.update_namespace s converged).1 name ≡ ok stored)
                  same_name there)
                (stored-Has stored converged full full' kept (converged-Has ns))
        ]
      ]
