-- ===== src/Controller/ControlPlane/Kubeconfig/Moved.antt =====
-- The rewrite of a kubeconfig in internal/controller/kubeconfig.go, told line by line.
use Prim.Derive.{subst}
use tenantplane.Base.{
  ℕ, zero, suc, ◌-◌, ◌≡◌, refl, sym, ap, ◌∙◌, Bool, true, false, ◌⊎◌, List, [], ◌∷◌, ◌++◌, map,
  take, length, length-append, arith, inl, inr, Bool-cases,
}
use tenantplane.Base.Text.{Text, text, split_lines, starts_with, trim, trim_left, runes}
use tenantplane.Base.Go.{is_space}
use tenantplane.Controller.ControlPlane.Kubeconfig.{
  is_server_line, is_blank, indent_of, rewrite_line, rewrite_kubeconfig_server,
}
use tenantplane.Controller.ControlPlane.Kubeconfig.Laws.{is_line, split-rewrite}

abbrev pub blanks : ℕ → Text
blanks zero = []
blanks (suc n) = 0x20 ∷ blanks n

-- Without the white space around it the line starts with server:
abbrev pub names_server : Text → Bool
names_server line = starts_with (trim is_space (runes line)) (text "server:")

-- The line names no server and stays, or it does and is, after its blanks, the new server's address.
abbrev pub IsMoved : Text → Text → Text → Type 0
IsMoved fqdn line after =
    ((names_server line ≡ false) × (after ≡ line))
    ⊎ ((names_server line ≡ true)
        × ((n : ℕ) × (rest : Text) × (line ≡ blanks n ++ rest)
            × (starts_with rest (text " ") ≡ false)
            × (after ≡ blanks n ++ (text "server: https://" ++ fqdn ++ text ":6443"))))

abbrev pub AreMoved : Text → List Text → List Text → Type 0
AreMoved fqdn [] [] = Unit
AreMoved fqdn (line ∷ lines) (after ∷ afters) = IsMoved fqdn line after × AreMoved fqdn lines afters
AreMoved fqdn _ _ = ⊥

-- The blanks at the start of a line, and what follows them.
indented :
    (line : Text)
    → (n : ℕ) × (line ≡ blanks n ++ trim_left is_blank line)
      × (starts_with (trim_left is_blank line) (text " ") ≡ false)
unfolding trim_left starts_with
indented [] = (0, refl, refl)
indented (c ∷ line) = elim (Bool-cases (is_blank c)) [
  | inl blank ↦
      let (n, whole, other) = indented line in
      let is_it : c ≡ 0x20 = ground arith in rw blank (suc n, (λ i. is_it i ∷ whole i), other)
  | inr other ↦ rw other (0, refl, ground arith)
]

take-prefix : (s t : Text) → take (length (s ++ t) - length t) (s ++ t) ≡ s
take-prefix [] [] = refl
take-prefix [] (c ∷ t) = ap (λ n. take n (c ∷ t)) (none_left (length t))
  where
    none_left : (n : ℕ) → suc n - suc n ≡ 0
    none_left n = omega arith
take-prefix (c ∷ s) t =
    ap (λ n. take n (c ∷ s ++ t)) (one_more s t) ∙ ap (λ r. c ∷ r) (take-prefix s t)
  where
    one_more : (s t : Text) → suc (length (s ++ t)) - length t ≡ suc (length (s ++ t) - length t)
    one_more s t = omega (arith, length-append s t)

indent_of_lem :
    (line : Text) (n : ℕ) → line ≡ blanks n ++ trim_left is_blank line → indent_of line ≡ blanks n
unfolding indent_of
indent_of_lem line n whole =
    ap (λ l. take (length l - length (trim_left is_blank line)) l) whole
    ∙ take-prefix (blanks n) (trim_left is_blank line)

rewrite_line-IsMoved : (fqdn line : Text) → IsMoved fqdn line (rewrite_line fqdn line)
unfolding rewrite_line is_server_line
rewrite_line-IsMoved fqdn line = elim (Bool-cases (names_server line)) [
  | inr other ↦ rw other (inl (refl, refl))
  | inl server ↦
      let (n, whole, stop) = indented line in
      let address = text "server: https://" ++ fqdn ++ text ":6443" in
      rw server (
        inr (
          refl,
          (
            n,
            trim_left is_blank line,
            whole,
            stop,
            ap (λ t. t ++ address) (indent_of_lem line n whole),
          ),
        ))
]

map-AreMoved :
    (fqdn : Text) (lines : List Text) → AreMoved fqdn lines (map (rewrite_line fqdn) lines)
map-AreMoved fqdn [] = tt
map-AreMoved fqdn (line ∷ lines) = (rewrite_line-IsMoved fqdn line, map-AreMoved fqdn lines)

-- For an address without line ends, the rewritten kubeconfig has the lines of the kubeconfig, in their
-- order. A line that, without the white space around it, starts with server: keeps its blanks at the
-- start, and after them is the line of a server at https, the address and the port 6443; every other
-- line stays.
pub rewrite-AreMoved :
    (raw fqdn : Text)
    → is_line fqdn ≡ true
    → AreMoved fqdn (split_lines raw) (split_lines (rewrite_kubeconfig_server raw fqdn))
rewrite-AreMoved raw fqdn hf =
    subst (AreMoved fqdn (split_lines raw)) (sym (split-rewrite raw fqdn hf))
      (map-AreMoved fqdn (split_lines raw))
