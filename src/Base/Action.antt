-- ===== src/Base/Action.antt =====
-- A Go function that changes a state and may return early: it stops with what it returns, or goes
-- on with a value. A function with an error result stops with the error.
pub mod Triple
use mathlib.Core.Bool.{Bool, true, false}
use mathlib.Core.Option.{Option, none, some}
use tenantplane.Base.Result.{Result, ok, err, Error, not_found, wrap}
use tenantplane.Base.Text.{Text}

pub data Flow (R : Type 0) (A : Type 0) : Type 0 where
  stop : R → Flow R A
  next : A → Flow R A

abbrev pub Action : Type 0 → Type 0 → Type 0 → Type 0
Action S R A = S → Flow R A × S

module _ {S : Type 0} {R : Type 0} where
  abbrev pub continue : {A : Type 0} {B : Type 0} → Flow R A × S → (A → Action S R B) → Flow R B × S
  continue (stop r, s) f = (stop r, s)
  continue (next a, s) f = f a s

  infixl 5 ◌>>=◌
  unfoldable pub ◌>>=◌ :
      {A : Type 0} {B : Type 0} → Action S R A → (A → Action S R B) → Action S R B
  (act >>= f) s = continue (act s) f

  infixl 5 ◌>>◌
  unfoldable pub ◌>>◌ : {B : Type 0} → Action S R Unit → Action S R B → Action S R B
  (act >> rest) s = continue (act s) (λ done. rest)

  unfoldable pub pure : {A : Type 0} → A → Action S R A
  pure a s = (next a, s)

  -- return r
  unfoldable pub return : {A : Type 0} → R → Action S R A
  return r s = (stop r, s)

  -- A call that only reads, and gives both of its results.
  unfoldable pub read : {A : Type 0} → (S → A) → Action S R A
  read f s = (next (f s), s)

module _ {S : Type 0} where
  abbrev pub flow_of : {A : Type 0} → Result A × S → Flow Error A × S
  flow_of (ok a, s) = (next a, s)
  flow_of (err e, s) = (stop e, s)

  abbrev pub flow_of_error : Option Error × S → Flow Error Unit × S
  flow_of_error (none, s) = (next tt, s)
  flow_of_error (some e, s) = (stop e, s)

  -- The two forms of the operations of a client: with the object as the client leaves it, or with
  -- the error only.
  unfoldable pub call : {A : Type 0} → (S → Result A × S) → Action S Error A
  call f s = flow_of (f s)

  unfoldable pub perform : (S → Option Error × S) → Action S Error Unit
  perform f s = flow_of_error (f s)

  unfoldable pub lift : {A : Type 0} → Result A → Action S Error A
  lift r s = flow_of (r, s)

  -- err != nil && !apierrors.IsNotFound(err)
  abbrev pub spare : Flow Error Unit × S → Flow Error Unit × S
  spare (next done, s) = (next done, s)
  spare (stop (not_found t), s) = (next tt, s)
  spare (stop e, s) = (stop e, s)

  unfoldable pub unless_not_found : Action S Error Unit → Action S Error Unit
  unless_not_found act s = spare (act s)

  -- fmt.Errorf("…: %w", err)
  abbrev pub wrap_flow : {A : Type 0} → Text → Flow Error A × S → Flow Error A × S
  wrap_flow context (next a, s) = (next a, s)
  wrap_flow context (stop e, s) = (stop (wrap context e), s)

  unfoldable pub wrapping : {A : Type 0} → Text → Action S Error A → Action S Error A
  wrapping context act s = wrap_flow context (act s)

  abbrev pub both : {R : Type 0} {A : Type 0} → Flow Error A × S → Flow R (Result A) × S
  both (next a, s) = (next (ok a), s)
  both (stop e, s) = (next (err e), s)

  -- A call whose error is looked at: gives both of its results.
  unfoldable pub attempt : {R : Type 0} {A : Type 0} → Action S Error A → Action S R (Result A)
  attempt act s = both (act s)
