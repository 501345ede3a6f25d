-- ===== src/Syncer/Orphans/Safety.antt =====
-- What the collection of orphans in internal/syncer/engine.go can do, and what it answers.
use tenantplane.Base.{
  ℕ, ◌+◌, ◌≡◌, refl, ◌∙◌, ◌⊎◌, false, some, List, [], ◌∷◌, arith, Bool-cases, inl, inr, length,
  length-append, if◌then◌else◌,
}
use tenantplane.Base.Text.{text}
use tenantplane.Base.Go.{Unicode}
use tenantplane.Base.Result.{Result, ok, err, Error, Result-cases, wrap}
use tenantplane.Object.{Object, Gvk, Unstructured}
use tenantplane.Syncer.{Clients, Engine, World}
use tenantplane.Syncer.Orphans.{
  Names, Sweep, aggregate, is_member, list_gvk, collect, collect_all, collect_orphans, selector,
}

-- The tenant's cluster and the recorder are as they were.
abbrev pub IsApart : (env : Clients) → World env → World env → Type 0
IsApart env w w' = (w'.tenant ≡ w.tenant) × (w'.recorded ≡ w.recorded)

module _ (env : Clients) ⦃k : Unstructured⦄ (gvk : Gvk) (desired : Names) where
  -- What holds of the host, and survives the deletion of an object whose name is not desired.
  abbrev pub Survives : (env.host.State → Type 0) → Type 0
  Survives P =
      (obj : Object) (h : env.host.State)
      → is_member (k.get_name obj) desired ≡ false
      → P h
      → P (env.host.delete_object h obj).1

  collect-host :
      (obj : Object) (s : Sweep env)
      → ((collect env gvk obj s).world.host ≡ s.world.host)
        ⊎ ((collect env gvk obj s).world.host ≡ (env.host.delete_object s.world.host obj).1)
  unfolding collect
  collect-host obj s = ground arith

  collect-survives :
      (P : env.host.State → Type 0) (obj : Object) (s : Sweep env)
      → Survives P
      → is_member (k.get_name obj) desired ≡ false
      → P s.world.host
      → P (collect env gvk obj s).world.host
  collect-survives P obj s safe stray holds = elim (collect-host obj s) [
    | inl kept ↦ rw kept holds
    | inr deleted ↦ rw deleted (safe obj s.world.host stray holds)
  ]

  collect_all-survives :
      (P : env.host.State → Type 0) (items : List Object) (s : Sweep env)
      → Survives P
      → P s.world.host
      → P (collect_all env gvk desired items s).world.host
  unfolding collect_all
  collect_all-survives P [] s safe holds = holds
  collect_all-survives P (obj ∷ items) s safe holds =
      elim (Bool-cases (is_member (k.get_name obj) desired)) [
        | inl wanted ↦ rw (wanted, collect_all) (collect_all-survives P items s safe holds)
        | inr stray ↦
            rw (stray, collect_all)
              (collect_all-survives P items (collect env gvk obj s) safe
                (collect-survives P obj s safe stray holds))
      ]

  collect-IsApart :
      (obj : Object) (s : Sweep env) → IsApart env s.world (collect env gvk obj s).world
  unfolding collect
  collect-IsApart obj s = ground arith

  collect_all-IsApart :
      (items : List Object) (s : Sweep env)
      → IsApart env s.world (collect_all env gvk desired items s).world
  unfolding collect_all
  collect_all-IsApart [] s = (refl, refl)
  collect_all-IsApart (obj ∷ items) s = elim (Bool-cases (is_member (k.get_name obj) desired)) [
    | inl wanted ↦ rw (wanted, collect_all) (collect_all-IsApart items s)
    | inr stray ↦
        let (t, r) = collect-IsApart obj s in
        let (t', r') = collect_all-IsApart items (collect env gvk obj s) in
        rw (stray, collect_all) (t' ∙ t, r' ∙ r)
  ]

  -- How many of the objects are not desired.
  abbrev pub strays : List Object → ℕ
  strays [] = 0
  strays (obj ∷ items) = (if is_member (k.get_name obj) desired then 0 else 1) + strays items

  abbrev pub outcomes : Sweep env → ℕ
  outcomes s = length s.decisions + length s.errs

  collect-outcomes :
      (obj : Object) (s : Sweep env) → outcomes (collect env gvk obj s) ≡ outcomes s + 1
  unfolding collect
  collect-outcomes obj s = grind (arith, length-append)

  -- The collection answers for every listed object that is not desired, with one decision or one
  -- error.
  pub collect_all-outcomes :
      (items : List Object) (s : Sweep env)
      → outcomes (collect_all env gvk desired items s) ≡ outcomes s + strays items
  unfolding collect_all
  collect_all-outcomes [] s = ground arith
  collect_all-outcomes (obj ∷ items) s = ground (
    arith,
    collect-outcomes obj s,
    collect_all-outcomes items s,
    collect_all-outcomes items (collect env gvk obj s),
  )

module _ (env : Clients) ⦃u : Unicode⦄ ⦃k : Unstructured⦄ (e : Engine) (gvk : Gvk) (desired : Names)
    (w : World env) where
  abbrev found : Result (List Object)
  found = env.host.list w.host (list_gvk gvk) (some e.host_namespace) (selector env e gvk)

  abbrev swept : List Object → Sweep env
  swept items = collect_all env gvk desired items (record { decisions = []; errs = []; world = w })

  collect-listed :
      (items : List Object)
      → found ≡ ok items
      → collect_orphans env e gvk desired w ≡ (
        record { decisions = (swept items).decisions; error = aggregate (swept items).errs },
        (swept items).world,
      )
  unfolding collect_orphans
  collect-listed items listed = ground arith

  collect-unlisted :
      (failure : Error)
      → found ≡ err failure
      → collect_orphans env e gvk desired w
        ≡ (record { decisions = []; error = some (wrap (text "list host %s for GC") failure) }, w)
  unfolding collect_orphans
  collect-unlisted failure unlisted = ground arith

  -- The collection deletes nothing whose name is desired: what holds of the host, and survives the
  -- deletion of every object whose name is not desired, holds after it.
  pub collect_orphans-survives :
      (P : env.host.State → Type 0)
      → Survives env gvk desired P
      → P w.host
      → P (collect_orphans env e gvk desired w).1.host
  collect_orphans-survives P safe holds = elim (Result-cases found) [
    | inl (items, listed) ↦ rw (collect-listed items listed) (
        collect_all-survives env gvk desired P items
          (record { decisions = []; errs = []; world = w }) safe holds)
    | inr (failure, unlisted) ↦ rw (collect-unlisted failure unlisted) holds
  ]

  -- The collection leaves the tenant's cluster alone, and gives the recorder nothing.
  pub collect_orphans-IsApart : IsApart env w (collect_orphans env e gvk desired w).1
  collect_orphans-IsApart = elim (Result-cases found) [
    | inl (items, listed) ↦ rw (collect-listed items listed) (
        collect_all-IsApart env gvk desired items (record { decisions = []; errs = []; world = w }))
    | inr (failure, unlisted) ↦ rw (collect-unlisted failure unlisted) (refl, refl)
  ]
