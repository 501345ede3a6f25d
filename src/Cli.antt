-- ===== src/Cli.antt =====
-- cmd/tenantplane/main.go: the command line, which renders manifests and explains a projection. A
-- command gives what it prints, or the error; none prints before it fails.
pub mod Checks
pub mod Render
pub mod Explain
pub mod Laws
pub mod Tenants
use tenantplane.Base.{List, [], ◌∷◌, ◌++◌, ◌||◌, ◌==◌, bytes_eq, if◌then◌else◌}
use tenantplane.Base.Text.{Text, text}
use tenantplane.Base.Go.{Unicode}
use tenantplane.Base.Result.{Result, ok, err, message}
use tenantplane.Cli.Checks.{Flags, print_lines}
use tenantplane.Cli.Render.{render_tenant_cluster, render_isolation_profile, render_sync_policy}
use tenantplane.Cli.Explain.{explain_sync}

abbrev version : Text
version = text "0.2.0-dev"

unfoldable pub usage : Text
usage = print_lines (
    text "tenantplane creates inspectable virtual Kubernetes tenant clusters."
    ∷ []
    ∷ text "Usage:"
    ∷ text "  tenantplane version"
    ∷ text "  tenantplane render tenantcluster NAME [--namespace ns] [--mode shared]"
    ∷ text "  tenantplane render isolationprofile NAME [--level baseline|restricted|sandboxed]"
    ∷ text "  tenantplane render syncpolicy NAME [--conflict-policy manual|tenant-wins|host-wins]"
    ∷ text
        "  tenantplane explain-sync --tenant NAME --tenant-namespace NS --name RESOURCE_NAME [--kind Pod]"
    ∷ [])

module _ ⦃u : Unicode⦄ ⦃flags : Flags⦄ where
  unfoldable pub render : List Text → Result Text
  render [] =
      err (message (text "render requires one of: tenantcluster, isolationprofile, syncpolicy"))
  render (target ∷ args) =
      if target == text "tenantcluster"
      then render_tenant_cluster args
      else if target == text "isolationprofile"
      then render_isolation_profile args
      else if target == text "syncpolicy"
      then render_sync_policy args
      else err (message (text "unknown render target %q"))

  unfoldable pub run : List Text → Result Text
  unfolding render usage
  run [] = ok usage
  run (command ∷ args) =
      if command == text "version"
      then ok (print_lines ((text "tenantplane " ++ version) ∷ []))
      else if command == text "render"
      then render args
      else if command == text "explain-sync"
      then explain_sync args
      else if command == text "help" || command == text "-h" || command == text "--help"
      then ok usage
      else err (message (text "unknown command %q"))
