-- ===== src/Base/Action/Triple.antt =====
-- What an action does from every state that satisfies an invariant: it ends in such a state, and what
-- it stops with, or goes on with, satisfies a predicate.
use tenantplane.Base.{◌≡◌, refl, Bool, true, false, Option, none, some, if◌then◌else◌}
use tenantplane.Base.Result.{Result, ok, err, Error, not_found, no_match, failed, message, wrap}
use tenantplane.Base.Text.{Text}
use tenantplane.Base.Action.{
  wrap_flow, both, wrapping, attempt, continue, flow_of, flow_of_error, spare, Flow, stop, next,
  Action, ◌>>=◌, ◌>>◌, pure, return, read, call, perform, lift, unless_not_found,
}

abbrev pub Holds : {R A : Type 0} → (R → Type 0) → (A → Type 0) → Flow R A → Type 0
Holds P Q (stop r) = P r
Holds P Q (next a) = Q a

abbrev pub Anything : {A : Type 0} → A → Type 0
Anything a = Unit

-- P is about what the action stops with, Q about what it goes on with.
pub record Triple {S R A : Type 0} (I : S → Type 0) (P : R → Type 0) (Q : A → Type 0)
    (act : Action S R A) : Type 0 where
  pub run : (s : S) → I s → I (act s).1 × Holds P Q (act s).0

-- An action with an error result that keeps the invariant.
abbrev pub Keeps : {S A : Type 0} → (S → Type 0) → Action S Error A → Type 0
Keeps I act = Triple I Anything Anything act

module _ {S : Type 0} (I : S → Type 0) where
  flow_of_lem :
      {A : Type 0} (r : Result A × S)
      → I r.1
      → I (flow_of r).1 × Holds Anything Anything (flow_of r).0
  flow_of_lem (ok a, s) i = (i, tt)
  flow_of_lem (err e, s) i = (i, tt)

  flow_of_error_lem :
      (r : Option Error × S)
      → I r.1
      → I (flow_of_error r).1 × Holds Anything Anything (flow_of_error r).0
  flow_of_error_lem (none, s) i = (i, tt)
  flow_of_error_lem (some e, s) i = (i, tt)

  spare_lem :
      (r : Flow Error Unit × S) → I r.1 → I (spare r).1 × Holds Anything Anything (spare r).0
  spare_lem (next done, s) i = (i, tt)
  spare_lem (stop (not_found t), s) i = (i, tt)
  spare_lem (stop (no_match t), s) i = (i, tt)
  spare_lem (stop (failed t), s) i = (i, tt)
  spare_lem (stop (message t), s) i = (i, tt)
  spare_lem (stop (wrap t e), s) i = (i, tt)

  wrap_flow_lem :
      {A : Type 0} (context : Text) (r : Flow Error A × S)
      → I r.1
      → I (wrap_flow context r).1 × Holds Anything Anything (wrap_flow context r).0
  wrap_flow_lem context (next a, s) i = (i, tt)
  wrap_flow_lem context (stop e, s) i = (i, tt)

  both_lem :
      {R : Type 0} {A : Type 0} (P : R → Type 0) (r : Flow Error A × S)
      → I r.1
      → I (both {R = R} r).1 × Holds P Anything (both {R = R} r).0
  both_lem P (next a, s) i = (i, tt)
  both_lem P (stop e, s) i = (i, tt)

module _ {S : Type 0} {I : S → Type 0} where
  module _ {R : Type 0} {P : R → Type 0} where
    pub pure-Triple : {A : Type 0} {Q : A → Type 0} (a : A) → Q a → Triple I P Q (pure a)
    unfolding pure
    pure-Triple a q = record { run = λ s i. (i, q) }

    pub return-Triple :
        {A : Type 0} {Q : A → Type 0} (r : R) → P r → Triple I P Q (return {A = A} r)
    unfolding return
    return-Triple r p = record { run = λ s i. (i, p) }

    pub read-Triple : {A : Type 0} (f : S → A) → Triple I P Anything (read f)
    unfolding read
    read-Triple f = record { run = λ s i. (i, tt) }

    -- What is so after the first of two actions carries over to both.
    continue_lem :
        {A B : Type 0} {Q : A → Type 0} {T : B → Type 0} {f : A → Action S R B}
        → (r : Flow R A × S) → I r.1 × Holds P Q r.0
        → ((a : A) → Q a → Triple I P T (f a))
        → I (continue r f).1 × Holds P T (continue r f).0
    continue_lem (stop r, s) h rest = h
    continue_lem (next a, s) h rest = (rest a h.1).run s h.0

    pub bind-Triple :
        {A B : Type 0} {Q : A → Type 0} {T : B → Type 0} {act : Action S R A} {f : A → Action S R B}
        → Triple I P Q act
        → ((a : A) → Q a → Triple I P T (f a))
        → Triple I P T (act >>= f)
    unfolding ◌>>=◌
    bind-Triple {act} first rest = record { run = λ s i. continue_lem (act s) (first.run s i) rest }

    -- The same where nothing is known of the first action's value.
    pub bind_any-Triple :
        {A B : Type 0} {T : B → Type 0} {act : Action S R A} {f : A → Action S R B}
        → Triple I P Anything act
        → ((a : A) → Triple I P T (f a))
        → Triple I P T (act >>= f)
    bind_any-Triple first rest = bind-Triple first (λ a h. rest a)

    pub then-Triple :
        {B : Type 0} {T : B → Type 0} {act : Action S R Unit} {after : Action S R B}
        → Triple I P Anything act
        → Triple I P T after
        → Triple I P T (act >> after)
    unfolding ◌>>◌
    then-Triple {act} first rest = record {
      run = λ s i. continue_lem (act s) (first.run s i) (λ u q. rest);
    }

    -- Two branches.
    pub if-Triple :
        {A : Type 0} {Q : A → Type 0} (b : Bool) {yes_act no_act : Action S R A}
        → Triple I P Q yes_act
        → Triple I P Q no_act
        → Triple I P Q (if b then yes_act else no_act)
    if-Triple true h k = h
    if-Triple false h k = k

    -- The same where the first branch needs the outcome of the test.
    pub test-Triple :
        {A : Type 0} {Q : A → Type 0} (b : Bool) {yes_act no_act : Action S R A}
        → (b ≡ true → Triple I P Q yes_act)
        → Triple I P Q no_act
        → Triple I P Q (if b then yes_act else no_act)
    test-Triple true h k = h refl
    test-Triple false h k = k

    pub result-Triple :
        {A B : Type 0} {Q : B → Type 0} (r : Result A) {y : A → Action S R B}
        {x : Error → Action S R B}
        → ((a : A) → Triple I P Q (y a))
        → ((e : Error) → Triple I P Q (x e))
        → Triple I P Q (elim r [ ok a ↦ y a | err e ↦ x e ])
    result-Triple (ok a) h k = h a
    result-Triple (err e) h k = k e

    pub option-Triple :
        {A B : Type 0} {Q : B → Type 0} (o : Option A) {y : A → Action S R B} {x : Action S R B}
        → ((a : A) → Triple I P Q (y a))
        → Triple I P Q x
        → Triple I P Q (elim o [ some a ↦ y a | none ↦ x ])
    option-Triple (some a) h k = h a
    option-Triple none h k = k

  -- The operations of a client.
  pub call-Keeps :
      {A : Type 0} (f : S → Result A × S) → ((s : S) → I s → I (f s).1) → Keeps I (call f)
  unfolding call
  call-Keeps f keeps = record { run = λ s i. flow_of_lem I (f s) (keeps s i) }

  pub perform-Keeps : (f : S → Option Error × S) → ((s : S) → I s → I (f s).1) → Keeps I (perform f)
  unfolding perform
  perform-Keeps f keeps = record { run = λ s i. flow_of_error_lem I (f s) (keeps s i) }

  pub lift-Keeps : {A : Type 0} (r : Result A) → Keeps I (lift {S = S} r)
  unfolding lift
  lift-Keeps r = record { run = λ s i. flow_of_lem I (r, s) i }

  pub unless_not_found-Keeps :
      (act : Action S Error Unit) → Keeps I act → Keeps I (unless_not_found act)
  unfolding unless_not_found
  unless_not_found-Keeps act keeps = record { run = λ s i. spare_lem I (act s) (keeps.run s i).0 }

  pub wrapping-Keeps :
      {A : Type 0} (context : Text) (act : Action S Error A)
      → Keeps I act
      → Keeps I (wrapping context act)
  unfolding wrapping
  wrapping-Keeps context act keeps = record {
    run = λ s i. wrap_flow_lem I context (act s) (keeps.run s i).0;
  }

  pub attempt-Triple :
      {R : Type 0} {P : R → Type 0} {A : Type 0} (act : Action S Error A)
      → Keeps I act
      → Triple I P Anything (attempt {R = R} act)
  unfolding attempt
  attempt-Triple {P} act keeps = record { run = λ s i. both_lem I P (act s) (keeps.run s i).0 }

wrap_flow-gives :
    {S A : Type 0} (Q : A → Type 0) (context : Text) (r : Flow Error A × S)
    → Holds Anything Q r.0
    → Holds Anything Q (wrap_flow context r).0
wrap_flow-gives Q context (next a, s) h = h
wrap_flow-gives Q context (stop e, s) h = tt

-- The rules where something is known of the value.
module _ {S A : Type 0} {Q : A → Type 0} where
  flow_of-gives : (r : Result A × S) → ((a : A) → r.0 ≡ ok a → Q a) → Holds Anything Q (flow_of r).0
  flow_of-gives (ok a, s) gives = gives a refl
  flow_of-gives (err e, s) gives = tt

  pub call-Triple :
      (f : S → Result A × S)
      → ((s : S) (a : A) → (f s).0 ≡ ok a → Q a)
      → Triple Anything Anything Q (call f)
  unfolding call
  call-Triple f gives = record { run = λ s i. (tt, flow_of-gives (f s) (gives s)) }

  pub lift-Triple :
      (r : Result A) → ((a : A) → r ≡ ok a → Q a) → Triple {S = S} Anything Anything Q (lift r)
  unfolding lift
  lift-Triple r gives = record { run = λ s i. (tt, flow_of-gives (r, s) gives) }

  pub wrapping-Triple :
      (context : Text) (act : Action S Error A)
      → Triple Anything Anything Q act
      → Triple Anything Anything Q (wrapping context act)
  unfolding wrapping
  wrapping-Triple context act h = record {
    run = λ s i. (tt, wrap_flow-gives Q context (act s) (h.run s tt).1);
  }

pub Holds-Anything : {R A : Type 0} (flow : Flow R A) → Holds Anything Anything flow
Holds-Anything (stop r) = tt
Holds-Anything (next a) = tt

pub weaken-Triple :
    {S R A : Type 0} {I : S → Type 0} {P : R → Type 0} {Q : A → Type 0} {act : Action S R A}
    → Triple I P Q act
    → Triple I Anything Anything act
weaken-Triple {act} h = record { run = λ s i. ((h.run s i).0, Holds-Anything (act s).0) }

-- No action breaks the invariant that is no condition.
pub any-Keeps : {S A : Type 0} (act : Action S Error A) → Keeps Anything act
any-Keeps act = record { run = λ s i. (tt, Holds-Anything (act s).0) }

pub ruleset triples = (
  pure-Triple, return-Triple, read-Triple, then-Triple, if-Triple, result-Triple, option-Triple,
  call-Keeps, perform-Keeps, lift-Keeps, unless_not_found-Keeps, wrapping-Keeps, attempt-Triple,
  bind_any-Triple,
)
