-- ===== src/Tests/Names.antt =====
-- Runs of `sanitize_name`, `host_name` and its hash, and the theorems on names at concrete inputs.
use tenantplane.Base.{◌≡◌, ◌++◌, refl, arith}
use tenantplane.Base.Text.{text, contains}
use tenantplane.Syncplan.Sanitize.{sanitize_name}
use tenantplane.Syncplan.HostName.{host_name, fnv32}
use tenantplane.Syncplan.HostName.Bounds.{IsTidyLabel, host_name-IsTidyLabel}
use tenantplane.Syncplan.HostName.Injective.{host_name_collision, host_name-injective}
use tenantplane.Tests.Setting.{ascii}

sanitize_runs : sanitize_name (text "  Team_A..dev--1- ") ≡ text "team-a-dev-1"
unfolding sanitize_name
sanitize_runs = refl

sanitize_empty : sanitize_name (text " --_ ") ≡ text "x"
unfolding sanitize_name
sanitize_empty = refl

fnv32_runs : fnv32 (text "a") ≡ text "e40c292c"
unfolding fnv32
fnv32_runs = refl

host_name_runs :
    host_name (text "app-config") (text "default") (text "dev") ≡ text "app-config-x-default-x-dev"
unfolding host_name sanitize_name
host_name_runs = refl

-- Dashes in a row become one.
host_name_doubled :
    host_name (text "a--b") (text "c") (text "t") ≡ host_name (text "a-b") (text "c") (text "t")
unfolding host_name sanitize_name
host_name_doubled = refl

abbrev label_a : IsTidyLabel (text "a")
label_a = record {
  short = ground arith;
  chars = (refl, tt);
  tidy = record { inhabited = refl; separated = (refl, tt); ends = refl };
}

abbrev label_b : IsTidyLabel (text "b")
label_b = record {
  short = ground arith;
  chars = (refl, tt);
  tidy = record { inhabited = refl; separated = (refl, tt); ends = refl };
}

host_name-IsTidyLabel_example : IsTidyLabel (host_name (text "A.") (text "b") (text "c"))
host_name-IsTidyLabel_example =
    host_name-IsTidyLabel (text "A.") (text "b") (text "c") (ground arith, (ground arith, tt))
      (ground arith, tt) (ground arith, tt)

host_name_collision_example :
    host_name (text "a" ++ text "-x-" ++ text "b") (text "c") (text "t")
    ≡ host_name (text "a") (text "b" ++ text "-x-" ++ text "c") (text "t")
host_name_collision_example = host_name_collision (text "a") (text "b") (text "c") (text "t")

host_name-injective_example : (text "a" ≡ text "a") × (text "b" ≡ text "b") × (text "a" ≡ text "a")
unfolding contains
host_name-injective_example =
    host_name-injective (text "a") (text "b") (text "a") (text "a") (text "b") (text "a") label_a
      label_b label_a label_a label_b label_a refl refl refl refl (ground arith) (ground arith) refl
