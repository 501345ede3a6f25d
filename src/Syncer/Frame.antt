-- ===== src/Syncer/Frame.antt =====
-- What the writes of the engine in internal/syncer/engine.go keep: predicates of its world, and of the
-- host's cluster.
use tenantplane.Base.{Option}
use tenantplane.Object.{Object}
use tenantplane.Syncer.{ConvergenceHistory, Cluster, Clients, World}

-- The steps of a pair.
pub record StepsKeep (env : Clients) (I : World env → Type 0) : Type 0 where
  pub limiter : (w : World env) (l : Option env.limiter.State) → I w → I (record w { limiter = l })
  pub history : (w : World env) (h : Option ConvergenceHistory) → I w → I (record w { history = h })
  pub create_host :
      (w : World env) (o : Object)
      → I w
      → I (record w { host = (env.host.create_object w.host o).1 })
  pub update_host :
      (w : World env) (o : Object)
      → I w
      → I (record w { host = (env.host.update_object w.host o).1 })
  pub update_tenant :
      (w : World env) (o : Object)
      → I w
      → I (record w { tenant = (env.tenant.update_object w.tenant o).1 })

-- A predicate of a cluster that its writes keep.
pub record ClusterKeeps (c : Cluster) (J : c.State → Type 0) : Type 0 where
  pub create_object : (s : c.State) (o : Object) → J s → J (c.create_object s o).1
  pub update_object : (s : c.State) (o : Object) → J s → J (c.update_object s o).1
  pub delete_object : (s : c.State) (o : Object) → J s → J (c.delete_object s o).1

-- As a predicate of the world it is kept by the steps of a pair.
pub host-StepsKeep :
    (env : Clients) (J : env.host.State → Type 0)
    → ClusterKeeps env.host J
    → StepsKeep env (λ w. J w.host)
host-StepsKeep env J keeps = record {
  limiter = λ w l j. j;
  history = λ w h j. j;
  create_host = λ w o j. keeps.create_object w.host o j;
  update_host = λ w o j. keeps.update_object w.host o j;
  update_tenant = λ w o j. j;
}
