-- ===== src/Syncer/Pass/Loop.antt =====
-- The loop of `syncPass` over the virtual objects: what it answers for, and which names it wants.
use tenantplane.Base.{
  ℕ, ◌+◌, ◌≡◌, Bool, true, false, ◌||◌, List, [], ◌∷◌, ◌++◌, arith, Bool-cases, inl, inr, length,
  length-append, if◌then◌else◌, lookup-insert, insert, beq_refl, bytes_eq,
}
use tenantplane.Base.Text.{Text}
use tenantplane.Base.Go.{Unicode}
use tenantplane.Base.Result.{ok, err, Error, Result-cases}
use tenantplane.Object.{Object, Gvk, Unstructured}
use tenantplane.Syncer.{Direction, Clients, Engine}
use tenantplane.Syncer.Orphans.{Names, is_member}
use tenantplane.Syncer.Pass.{
  skips, is_virtual_infrastructure, Progress, desired_host, project, sync_object, sync_all,
}

module _ (env : Clients) ⦃u : Unicode⦄ ⦃k : Unstructured⦄ (e : Engine) (direction : Direction)
    (policy : Text) (gvk : Gvk) where
  abbrev pub is_eligible : Object → Bool
  is_eligible obj =
      if skips e (k.get_namespace obj) || is_virtual_infrastructure gvk.kind obj
      then false
      else true

  project-desired :
      (obj host : Object) (p : Progress env)
      → (project env e direction policy gvk obj host p).desired
        ≡ insert (k.get_name host) true p.desired
  unfolding project
  project-desired obj host p = ground arith

  member-insert :
      (n m : Text) (names : Names)
      → is_member n names ≡ true
      → is_member n (insert m true names) ≡ true
  member-insert n m names h = ground (arith, lookup-insert m n true names)

  object-skipped :
      (obj : Object) (p : Progress env)
      → is_eligible obj ≡ false
      → sync_object env e direction policy gvk obj p ≡ p
  unfolding sync_object
  object-skipped obj p h = ground arith

  object-failed :
      (obj : Object) (p : Progress env) (failure : Error)
      → is_eligible obj ≡ true
      → desired_host env e gvk obj ≡ err failure
      → sync_object env e direction policy gvk obj p ≡ record p { errs = p.errs ++ failure ∷ [] }
  unfolding sync_object
  object-failed obj p failure h failed = ground arith

  object-projected :
      (obj host : Object) (p : Progress env)
      → is_eligible obj ≡ true
      → desired_host env e gvk obj ≡ ok host
      → sync_object env e direction policy gvk obj p ≡ project env e direction policy gvk obj host p
  unfolding sync_object
  object-projected obj host p h built = ground arith

  -- The loop's body is one of three steps: what holds after each holds after it.
  pub object-by :
      (P : Progress env → Type 0) (obj : Object) (p : Progress env)
      → (is_eligible obj ≡ false → P p)
      → ((failure : Error)
          → is_eligible obj ≡ true
          → P (record p { errs = p.errs ++ failure ∷ [] }))
      → ((host : Object)
          → is_eligible obj ≡ true
          → P (project env e direction policy gvk obj host p))
      → P (sync_object env e direction policy gvk obj p)
  object-by P obj p skipped failed projected = elim (Bool-cases (is_eligible obj)) [
    | inr h ↦ rw (object-skipped obj p h) (skipped h)
    | inl h ↦ elim (Result-cases (desired_host env e gvk obj)) [
      | inl (host, built) ↦ rw (object-projected obj host p h built) (projected host h)
      | inr (failure, unbuilt) ↦ rw (object-failed obj p failure h unbuilt) (failed failure h)
    ]
  ]

  object-desired :
      (obj : Object) (p : Progress env) (n : Text)
      → is_member n p.desired ≡ true
      → is_member n (sync_object env e direction policy gvk obj p).desired ≡ true
  object-desired obj p n h =
      object-by (λ q. is_member n q.desired ≡ true) obj p (λ _. h) (λ _ _. h)
        (λ host _. rw (project-desired obj host p) (member-insert n (k.get_name host) p.desired h))

  member-inserted : (n : Text) (names : Names) → is_member n (insert n true names) ≡ true
  member-inserted n names = ground (arith, lookup-insert n n true names, beq_refl n)

  eligible-desired :
      (obj host : Object) (p : Progress env)
      → is_eligible obj ≡ true
      → desired_host env e gvk obj ≡ ok host
      → is_member (k.get_name host) (sync_object env e direction policy gvk obj p).desired ≡ true
  eligible-desired obj host p wanted built =
      rw (object-projected obj host p wanted built, project-desired obj host p)
        (member-inserted (k.get_name host) p.desired)

  all-desired :
      (items : List Object) (p : Progress env) (n : Text)
      → is_member n p.desired ≡ true
      → is_member n (sync_all env e direction policy gvk items p).desired ≡ true
  unfolding sync_all
  all-desired [] p n h = h
  all-desired (obj ∷ items) p n h =
      all-desired items (sync_object env e direction policy gvk obj p) n (object-desired obj p n h)

  -- The name of the host object that is built for an eligible object is desired after the loop,
  -- wherever the object stands in the list and also where its pair failed: the collection that
  -- follows cannot delete it.
  pub sync_all-desired :
      (before after : List Object) (obj host : Object) (p : Progress env)
      → is_eligible obj ≡ true
      → desired_host env e gvk obj ≡ ok host
      → is_member
          (k.get_name host)
          (sync_all env e direction policy gvk (before ++ obj ∷ after) p).desired
        ≡ true
  unfolding sync_all
  sync_all-desired [] after obj host p wanted built =
      all-desired after (sync_object env e direction policy gvk obj p) (k.get_name host)
        (eligible-desired obj host p wanted built)
  sync_all-desired (b ∷ before) after obj host p wanted built =
      sync_all-desired before after obj host (sync_object env e direction policy gvk b p) wanted
        built

  abbrev pub answers : Progress env → ℕ
  answers p = length p.decisions + length p.errs

  abbrev pub eligible : List Object → ℕ
  eligible [] = 0
  eligible (obj ∷ items) = (if is_eligible obj then 1 else 0) + eligible items

  project-answers :
      (obj host : Object) (p : Progress env)
      → answers (project env e direction policy gvk obj host p) ≡ answers p + 1
  unfolding project
  project-answers obj host p = grind (arith, length-append)

  object-answers :
      (obj : Object) (p : Progress env)
      → answers (sync_object env e direction policy gvk obj p)
        ≡ answers p + (if is_eligible obj then 1 else 0)
  object-answers obj p =
      object-by (λ q. answers q ≡ answers p + (if is_eligible obj then 1 else 0)) obj p
        (λ h. ground arith) (λ failure h. ground (arith, length-append p.errs (failure ∷ [])))
        (λ host h. ground (arith, project-answers obj host p))

  -- The loop answers for every object that it does not pass over, with one decision or one error.
  pub sync_all-answers :
      (items : List Object) (p : Progress env)
      → answers (sync_all env e direction policy gvk items p) ≡ answers p + eligible items
  unfolding sync_all
  sync_all-answers [] p = ground arith
  sync_all-answers (obj ∷ items) p = ground (
    arith,
    sync_all-answers items (sync_object env e direction policy gvk obj p),
    object-answers obj p,
  )
