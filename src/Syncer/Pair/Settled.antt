-- ===== src/Syncer/Pair/Settled.antt =====
-- A bidirectional pair of internal/syncer/engine.go comes to rest: once a pass has written one of its
-- sides, the passes after it write neither.
pub mod Server
pub mod Steps
pub mod Written
use tenantplane.Base.{
  ℕ, zero, suc, ◌≡◌, ◌≢◌, refl, sym, ap, ◌∙◌, Bool, true, false, not, ◌&&◌, Option, none, some,
  ◌==◌, bytes_eq, if◌then◌else◌, arith, Bool-cases, Option-cases, inl, inr, ◌⊎◌, beq_refl, lookup,
  insert, lookup-insert, [],
}
use Prim.Derive.{subst}
use tenantplane.Base.Text.{Text, text}
use tenantplane.Base.Result.{Result, ok, err, Error, is_not_found, Result-cases}
use tenantplane.Object.{Object, Gvk, Unstructured}
use tenantplane.Object.Frame.{IsFramed, Standing, standing}
use tenantplane.Syncplan.Plan.{ResourceRef, HostTarget}
use tenantplane.Syncplan.Transform.Build.{reverse_lookup}
use tenantplane.Syncplan.Transform.Content.{content_equal}
use tenantplane.Syncplan.Transform.Adopt.Frame.{adopt-standing}
use tenantplane.Syncer.{
  Direction, bidirectional, skip, update, create, Decision, ConvergedVersions, Cluster, Clients,
  Engine, World,
}
use tenantplane.Syncer.Pair.{
  last_converged, set_converged, converge_existing, reconcile_bidirectional_conflict, push_to_host,
  pull_to_tenant, create_missing, reconcile_existing, reconcile_pair, target_of, comparable, decide,
  reason_manual, reason_agree, Step, rate_limited, pushed,
}
use tenantplane.Syncer.Pair.Conflict.{IsManual}
use tenantplane.Syncer.Pair.Safety.{is_ours, found, pair-found, pair-failed, existing-ours}

-- The decision is one that leaves both sides as they are.
abbrev pub Skips : Result Decision → Type 0
Skips (ok d) = d.action ≡ skip
Skips (err e) = ⊥

module _ (env : Clients) ⦃k : Unstructured⦄ where
  abbrev pub versions : Object → Object → ConvergedVersions
  versions tenant_obj host_obj = record {
    tenant_resource_version = k.get_resource_version tenant_obj;
    host_resource_version = k.get_resource_version host_obj;
  }

  -- The host has the object `existing` of the pair, and the history has the versions of both sides.
  pub record Settled (ref : ResourceRef) (tenant_obj host : Object) (w : World env) : Type 0 where
    pub existing : Object
    pub there :
        env.host.get w.host (k.group_version_kind host) (k.get_namespace host) (k.get_name host)
        ≡ ok existing
    pub ours : is_ours existing ref ≡ true
    pub agreed : last_converged env (k.get_name host) w ≡ some (versions tenant_obj existing)

  pub last_converged-set_converged :
      (name tenant_rv host_rv : Text) (w : World env)
      → last_converged env name (set_converged env name tenant_rv host_rv w)
        ≡ some (record { tenant_resource_version = tenant_rv; host_resource_version = host_rv })
  unfolding last_converged set_converged
  last_converged-set_converged name tenant_rv host_rv w = rw (lookup-insert, beq_refl name) refl

  pub set_converged-host :
      (name tenant_rv host_rv : Text) (w : World env)
      → (set_converged env name tenant_rv host_rv w).host ≡ w.host
  unfolding set_converged
  set_converged-host name tenant_rv host_rv w = refl

  pub set_converged-tenant :
      (name tenant_rv host_rv : Text) (w : World env)
      → (set_converged env name tenant_rv host_rv w).tenant ≡ w.tenant
  unfolding set_converged
  set_converged-tenant name tenant_rv host_rv w = refl

  pub Settled-moved :
      (ref : ResourceRef) (tenant_obj host desired : Object) (w : World env)
      → standing k desired ≡ standing k host
      → Settled ref tenant_obj host w
      → Settled ref tenant_obj desired w
  Settled-moved ref tenant_obj host desired w place h = record {
    existing = h.existing;
    there =
        subst
          (λ st. env.host.get w.host st.gvk st.identity.namespace st.identity.name ≡ ok h.existing)
          (sym place) h.there;
    ours = h.ours;
    agreed =
        subst (λ st. last_converged env st.identity.name w ≡ some (versions tenant_obj h.existing))
          (sym place) h.agreed;
  }

  module _ (e : Engine) (policy : Text) (manual : IsManual policy) (ref : ResourceRef)
      (tenant_obj host : Object) where
    abbrev pub pass : World env → Step env
    pass = reconcile_pair env e bidirectional policy ref tenant_obj host

    conflict-agreed :
        (existing comparable_host : Object) (w : World env)
        → last_converged env (k.get_name host) w ≡ some (versions tenant_obj existing)
        → reconcile_bidirectional_conflict env policy ref
            (target_of env host)
            tenant_obj
            existing
            comparable_host
            host
            w
          ≡ (ok (decide skip ref (target_of env host) reason_manual), w)
    unfolding reconcile_bidirectional_conflict
    conflict-agreed existing comparable_host w agreed =
        rw
          (
            manual.0,
            manual.1,
            agreed,
            beq_refl (k.get_resource_version tenant_obj),
            beq_refl (k.get_resource_version existing),
          )
          refl

    abbrev Rests : World env → Step env → Type 0
    Rests w step =
        Skips step.0
        × (step.1.host ≡ w.host)
        × (step.1.tenant ≡ w.tenant)
        × Settled ref tenant_obj host step.1

    -- At rest, a pass skips, writes nothing, and leaves the pair at rest.
    converge-Rests :
        (w : World env) (h : Settled ref tenant_obj host w)
        → Rests w (
            converge_existing env e bidirectional policy ref
              (target_of env host)
              tenant_obj
              h.existing
              host
              w)
    unfolding converge_existing
    converge-Rests w h =
        elim (Bool-cases (content_equal tenant_obj (comparable env e ref h.existing))) [
          | inl agree ↦ rw agree (
            refl,
            set_converged-host _ _ _ w,
            set_converged-tenant _ _ _ w,
            record {
              existing = h.existing;
              there =
                  rw
                    (set_converged-host (k.get_name host) (k.get_resource_version tenant_obj)
                      (k.get_resource_version h.existing) w)
                    h.there;
              ours = h.ours;
              agreed = last_converged-set_converged _ _ _ w;
            },
          )
          | inr differ ↦ rw differ (
              rw (conflict-agreed h.existing (comparable env e ref h.existing) w h.agreed)
                (refl, refl, refl, h))
        ]

    pass-Rests : (w : World env) (h : Settled ref tenant_obj host w) → Rests w (pass w)
    pass-Rests w h =
        rw
          (pair-found env e policy ref tenant_obj host w bidirectional h.existing h.there
            ∙ existing-ours env e policy ref tenant_obj host w bidirectional h.existing h.ours)
          (converge-Rests w h)

  -- The world after n more passes of the pair.
  pub later : Engine → Text → ResourceRef → Object → Object → ℕ → World env → World env
  later e policy ref tenant_obj host zero w = w
  later e policy ref tenant_obj host (suc n) w =
      later e policy ref tenant_obj host n
        (reconcile_pair env e bidirectional policy ref tenant_obj host w).1

  pub later-rests :
      (e : Engine) (policy : Text) (manual : IsManual policy) (ref : ResourceRef)
      (tenant_obj host : Object) (n : ℕ) (w : World env)
      → Settled ref tenant_obj host w
      → ((later e policy ref tenant_obj host n w).host ≡ w.host)
        × ((later e policy ref tenant_obj host n w).tenant ≡ w.tenant)
  unfolding later
  later-rests e policy manual ref tenant_obj host zero w h = (refl, refl)
  later-rests e policy manual ref tenant_obj host (suc n) w h =
      let (skips, host_kept, tenant_kept, again) =
        pass-Rests e policy manual ref tenant_obj host w h in
      let (later_host, later_tenant) = later-rests e policy manual ref tenant_obj host n _ again in
      (later_host ∙ host_kept, later_tenant ∙ tenant_kept)
