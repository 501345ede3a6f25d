-- ===== src/Syncer/Pass/Spared.antt =====
-- What a whole pass of internal/syncer/engine.go never deletes: the loop over the virtual objects and
-- the collection of orphans together.
use tenantplane.Base.{
  arith, Bool, ◌≡◌, ◌≢◌, sym, ap, ◌∙◌, true, false, List, ◌∷◌, [], ◌++◌, bytes_eq,
}
use tenantplane.Base.Text.{Text}
use tenantplane.Base.Go.{Unicode}
use tenantplane.Base.Result.{ok}
use tenantplane.Object.{Object, Unstructured}
use tenantplane.Syncer.{Resource, Clients, Engine, World}
use tenantplane.Syncer.Frame.{StepsKeep}
use tenantplane.Syncer.Orphans.{is_member}
use tenantplane.Syncer.Pass.{desired_host, sync_pass}
use tenantplane.Syncer.Pass.Loop.{is_eligible, sync_all-desired}
use tenantplane.Syncer.Pass.Laws.{listed, looped}
use tenantplane.Syncer.Pass.Frame.{pass-survives}

true_ne_false : ¬ (◌≡◌ {A = Bool} true false)
true_ne_false same = ground (arith, same)

module _ (env : Clients) ⦃u : Unicode⦄ ⦃k : Unstructured⦄ where
  -- Take a predicate of the host that the creations and updates of the pass keep, and that the
  -- deletion of any object with another name than the one wanted for a virtual object survives. When
  -- the pass lists that object, does not leave it out, and can build what it wants for it, the
  -- predicate holds after the pass, also where the object's own pair fails: nothing of that name is
  -- collected.
  pub sync_pass-spares :
      (e : Engine) (res : Resource) (policy : Text) (w : World env) (J : env.host.State → Type 0)
      (before after : List Object) (obj host : Object)
      → StepsKeep env (λ v. J v.host)
      → ((s : env.host.State) (o : Object)
          → k.get_name o ≢ k.get_name host
          → J s
          → J (env.host.delete_object s o).1)
      → listed env e policy res w ≡ ok (before ++ obj ∷ after)
      → is_eligible env e res.direction policy res.gvk obj ≡ true
      → desired_host env e res.gvk obj ≡ ok host
      → J w.host
      → J (sync_pass env e res policy w).1.host
  sync_pass-spares e res policy w J before after obj host steps others there wanted built j =
      let wanted_name =
        sync_all-desired env e res.direction policy res.gvk before after obj host
          (record { decisions = []; errs = []; desired = []; world = w }) wanted built in
      pass-survives env J steps e res policy w j (before ++ obj ∷ after) there (λ o s stray i.
        others s o
          (λ same. true_ne_false (
            sym wanted_name
            ∙ ap (λ n. is_member n (looped env e policy res w (before ++ obj ∷ after)).desired)
                (sym same)
            ∙ stray))
          i)
