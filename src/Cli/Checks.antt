-- ===== src/Cli/Checks.antt =====
-- The checks of cmd/tenantplane/main.go on what a command is given, and the pieces of its output.
use tenantplane.Base.{
  String, Bool, true, false, not, ◌&&◌, List, [], ◌∷◌, ◌++◌, none, some, ◌==◌, bytes_eq, string_eq,
  if◌then◌else◌, Dict, drop,
}
use tenantplane.Base.Text.{Text, text, is_empty, starts_with}
use tenantplane.Base.Go.{Unicode}
use tenantplane.Base.Result.{Result, ok, err, message}
use tenantplane.Syncplan.Sanitize.{sanitize_name}
use tenantplane.Controller.ControlPlane.K3s.{match_minor}

-- Package flag: from the defaults of a set of text flags and the arguments, the value of every flag
-- and the arguments that are left, or an error.
pub record Flags : Type 0 where
  pub parse : Dict String Text → List Text → Result (Dict String Text × List Text)

-- Each text with a line's end.
abbrev pub print_lines : List Text → Text
print_lines [] = []
print_lines (line ∷ lines) = line ++ b'\n' ∷ print_lines lines

-- A line of YAML: the key with its indent, and the value.
abbrev pub entry : String → Text → Text
entry key value = text key ++ text ": " ++ value

-- %t
abbrev pub bool_text : Bool → Text
bool_text true = text "true"
bool_text false = text "false"

unfoldable pub yaml_string : Text → Text
yaml_string value = if is_empty value then text "\"\"" else value

unfoldable pub require_dns_name : ⦃u : Unicode⦄ → Text → Result {0} Unit
require_dns_name value =
    if is_empty value
    then err (message (text "%s cannot be empty"))
    else if not (sanitize_name value == value)
    then err (message (text "%s %q must already be a DNS-safe name"))
    else ok tt

unfoldable pub require_one_of : Text → List Text → Result {0} Unit
require_one_of value [] = err (message (text "%s must be one of: %s"))
require_one_of value (item ∷ allowed) =
    let rest = require_one_of value allowed in if value == item then ok tt else rest

abbrev supported : List Text
supported = text "28" ∷ text "29" ∷ text "30" ∷ text "31" ∷ text "32" ∷ text "33" ∷ []

-- kubernetesVersionPattern.MatchString, for the pattern ^v1\.(28|29|30|31|32|33)(\.[0-9]+)?$
unfoldable pub is_kubernetes_version : Text → Bool
unfolding match_minor
is_kubernetes_version version =
    starts_with version (text "v1.")
    && elim (match_minor supported (drop 3 version)) [ none ↦ false | some minor ↦ true ]

-- The one argument that a render command takes.
abbrev pub only : Text → List Text → Result Text
only what (name ∷ []) = ok name
only what _ = err (message what)
