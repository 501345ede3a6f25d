-- ===== src/Controller/ControlPlane/Kubeconfig.antt =====
-- `rewriteKubeconfigServer` of internal/controller/kubeconfig.go.
pub mod Laws
pub mod Moved
use tenantplane.Base.{ℕ, ◌-◌, Bool, List, [], ◌∷◌, ◌++◌, map, if◌then◌else◌, length, take, eqb}
use tenantplane.Base.Text.{Text, text, runes, trim, trim_left, starts_with, split_lines, join_lines}
use tenantplane.Base.Go.{is_space}
use tenantplane.Controller.ControlPlane.{api_port_text}

-- strings.HasPrefix(strings.TrimSpace(line), "server:"); the prefix is ASCII, so that it is looked
-- for among the runes.
unfoldable pub is_server_line : Text → Bool
is_server_line line = starts_with (trim is_space (runes line)) (text "server:")

abbrev pub is_blank : ℕ → Bool
is_blank c = eqb c 0x20

unfoldable pub indent_of : Text → Text
indent_of line = take (length line - length (trim_left is_blank line)) line

abbrev pub server_line : Text → Text
server_line fqdn = text "server: https://" ++ fqdn ++ b':' ∷ api_port_text

unfoldable pub rewrite_line : Text → Text → Text
rewrite_line fqdn line = if is_server_line line then indent_of line ++ server_line fqdn else line

unfoldable pub rewrite_kubeconfig_server : Text → Text → Text
rewrite_kubeconfig_server raw fqdn = join_lines (map (rewrite_line fqdn) (split_lines raw))
