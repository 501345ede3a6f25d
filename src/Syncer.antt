-- ===== src/Syncer.antt =====
-- internal/syncer/engine.go: the sync engine of one tenant. This file has its records and what it
-- reaches outside: the clients of the two clusters, and the rate limiter.
pub mod Frame
pub mod Pair
pub mod Orphans
pub mod Pass
use tenantplane.Base.{String, Bool, Option, List, Dict}
use tenantplane.Base.Text.{Text}
use tenantplane.Base.Result.{Result}
use tenantplane.Object.{Object, Gvk}
use tenantplane.Syncplan.Plan.{ResourceRef, HostTarget}

-- `type Direction string`; `other` is a string that is none of the three.
pub data Direction : Type 0 where
  to_host from_host bidirectional : Direction
  other : Text → Direction

pub record Resource : Type 0 where
  pub gvk : Gvk
  pub direction : Direction

pub data Action : Type 0 where
  create update delete skip : Action

pub record Decision : Type 0 where
  pub action : Action
  pub kind : Text
  pub ref : ResourceRef
  pub host : HostTarget
  pub reason : Text

pub record ConvergedVersions : Type 0 where
  pub tenant_resource_version : Text
  pub host_resource_version : Text

abbrev pub ConvergenceHistory : Type 0
ConvergenceHistory = Dict Text ConvergedVersions

-- A controller-runtime client and the cluster behind it. A write gives back the object as the
-- client leaves it, with the resource version of the server's answer, and may change the cluster
-- also where it fails.
pub record Cluster : Type 1 where
  pub State : Type 0
  pub get : State → Gvk → (namespace name : Text) → Result Object
  -- the namespace and the labels that the items must have
  pub list : State → Gvk → Option Text → Dict String Text → Result (List Object)
  pub create_object : State → Object → Result Object × State
  pub update_object : State → Object → Result Object × State
  pub delete_object : State → Object → Result Object × State

-- golang.org/x/time/rate: `Allow` takes a token, if there is one.
pub record Limiter : Type 1 where
  pub State : Type 0
  pub allow : State → Bool × State

pub record Clients : Type 1 where
  pub host : Cluster
  pub tenant : Cluster
  pub limiter : Limiter

-- The fields of the Go struct that do not change. `has_recorder` says that Recorder is not nil.
pub record Engine : Type 0 where
  pub tenant : Text
  pub host_namespace : Text
  pub has_recorder : Bool
  pub skip_namespaces : Option (Dict Text Bool)
  pub required_runtime_class_name : Text

-- What an engine changes: both clusters, the limiter (if any), the history (or nil), and what the
-- recorder has been given.
pub record World (env : Clients) : Type 0 where
  pub host : env.host.State
  pub tenant : env.tenant.State
  pub limiter : Option env.limiter.State
  pub history : Option ConvergenceHistory
  pub recorded : List Decision
