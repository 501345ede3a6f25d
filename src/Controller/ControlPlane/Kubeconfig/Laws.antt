-- ===== src/Controller/ControlPlane/Kubeconfig/Laws.antt =====
-- The lines of a kubeconfig that `rewriteKubeconfigServer` of internal/controller/kubeconfig.go rewrites.
use Prim.Derive.{subst}
use tenantplane.Base.{
  ℕ, zero, suc, ◌≡◌, refl, sym, ap, ◌∙◌, Bool, true, false, not, ◌&&◌, ◌||◌, List, [], ◌∷◌, ◌++◌,
  map, if◌then◌else◌, All, take, length, ◌-◌, eqb, arith, inl, inr, Bool-cases,
}
use tenantplane.Base.Text.{
  Text, text, cons_line, split_lines, join_lines, starts_with, contains, trim_left,
}
use tenantplane.Controller.ControlPlane.{api_port_text}
use tenantplane.Controller.ControlPlane.Kubeconfig.{
  is_server_line, is_blank, indent_of, server_line, rewrite_line, rewrite_kubeconfig_server,
}

starts_with_refl : (s t : Text) → starts_with (s ++ t) s ≡ true
unfolding starts_with
starts_with_refl [] t = refl
starts_with_refl (c ∷ s) t = ground (arith, starts_with_refl s t)

contains-prefix : (s t : Text) → contains (s ++ t) s ≡ true
unfolding contains starts_with
contains-prefix [] [] = refl
contains-prefix [] (c ∷ t) = refl
contains-prefix (c ∷ s) t = ground (arith, starts_with_refl (c ∷ s) t)

contains-after : (s t part : Text) → contains t part ≡ true → contains (s ++ t) part ≡ true
unfolding contains
contains-after [] t part h = h
contains-after (c ∷ s) t part h = ground (arith, contains-after s t part h)

starts_with-before :
    (s t part : Text) → starts_with s part ≡ true → starts_with (s ++ t) part ≡ true
unfolding starts_with
starts_with-before s t [] h = refl
starts_with-before [] t (p ∷ part) h = ground arith
starts_with-before (c ∷ s) t (p ∷ part) h = ground (arith, starts_with-before s t part)

contains-before : (s t part : Text) → contains s part ≡ true → contains (s ++ t) part ≡ true
unfolding contains
contains-before [] t [] h = contains-prefix [] t
contains-before [] t (p ∷ part) h = ground arith
contains-before (c ∷ s) t part h =
    ground (arith, starts_with-before (c ∷ s) t part, contains-before s t part)

abbrev pub has_server_line : List Text → Bool
has_server_line [] = false
has_server_line (line ∷ lines) = is_server_line line || has_server_line lines

rewrite_line-contains :
    (fqdn line : Text) → is_server_line line ≡ true → contains (rewrite_line fqdn line) fqdn ≡ true
unfolding rewrite_line
rewrite_line-contains fqdn line h =
    subst (λ b. contains (if b then indent_of line ++ server_line fqdn else line) fqdn ≡ true)
      (sym h)
      (contains-after (indent_of line) (server_line fqdn) fqdn (
        contains-after (text "server: https://") (fqdn ++ b':' ∷ api_port_text) fqdn
          (contains-prefix fqdn (b':' ∷ api_port_text))))

join-contains :
    (fqdn : Text) (lines : List Text)
    → has_server_line lines ≡ true
    → contains (join_lines (map (rewrite_line fqdn) lines)) fqdn ≡ true
unfolding join_lines
join-contains fqdn [] h = ground arith
join-contains fqdn (line ∷ []) h = rewrite_line-contains fqdn line (ground arith)
join-contains fqdn (line ∷ next ∷ lines) h =
    let rest = join_lines (map (rewrite_line fqdn) (next ∷ lines)) in
    elim (Bool-cases (is_server_line line)) [
      | inl here ↦
          contains-before (rewrite_line fqdn line) (b'\n' ∷ rest) fqdn
            (rewrite_line-contains fqdn line here)
      | inr elsewhere ↦
          contains-after (rewrite_line fqdn line) (b'\n' ∷ rest) fqdn (
            contains-after (b'\n' ∷ []) rest fqdn
              (join-contains fqdn (next ∷ lines) (ground arith)))
    ]

-- No line's end in a text.
abbrev pub is_line : Text → Bool
is_line [] = true
is_line (c ∷ s) = not (eqb c b'\n') && is_line s

split_lines-line : (line : Text) → is_line line ≡ true → split_lines line ≡ line ∷ []
unfolding split_lines
split_lines-line [] h = refl
split_lines-line (c ∷ s) h = ground (arith, split_lines-line s)

split_lines-append :
    (line rest : Text)
    → is_line line ≡ true
    → split_lines (line ++ b'\n' ∷ rest) ≡ line ∷ split_lines rest
unfolding split_lines
split_lines-append [] rest h = refl
split_lines-append (c ∷ s) rest h = ground (arith, split_lines-append s rest)

split-join :
    (line : Text) (lines : List Text)
    → All (λ l. is_line l ≡ true) (line ∷ lines)
    → split_lines (join_lines (line ∷ lines)) ≡ line ∷ lines
unfolding join_lines
split-join line [] h = split_lines-line line h.0
split-join line (next ∷ lines) h =
    split_lines-append line (join_lines (next ∷ lines)) h.0
    ∙ ap (λ r. line ∷ r) (split-join next lines h.1)

cons_line-are_lines :
    (c : ℕ) (lines : List Text)
    → eqb c b'\n' ≡ false
    → All (λ l. is_line l ≡ true) lines
    → All (λ l. is_line l ≡ true) (cons_line c lines)
cons_line-are_lines c [] differs h = (ground arith, tt)
cons_line-are_lines c (line ∷ lines) differs h = (ground (arith, h.0), h.1)

is_line-append : (s t : Text) → is_line s ≡ true → is_line t ≡ true → is_line (s ++ t) ≡ true
is_line-append [] t hs ht = ht
is_line-append (c ∷ s) t hs ht = ground (arith, is_line-append s t)

is_line-take : (n : ℕ) (s : Text) → is_line s ≡ true → is_line (take n s) ≡ true
is_line-take zero s h = refl
is_line-take (suc n) [] h = refl
is_line-take (suc n) (c ∷ s) h = ground (arith, is_line-take n s)

rewrite_line-is_line :
    (fqdn line : Text)
    → is_line fqdn ≡ true
    → is_line line ≡ true
    → is_line (rewrite_line fqdn line) ≡ true
unfolding rewrite_line indent_of
rewrite_line-is_line fqdn line hf hl =
    let server : is_line (server_line fqdn) ≡ true =
      is_line-append (text "server: https://") (fqdn ++ b':' ∷ api_port_text) refl
        (is_line-append fqdn (b':' ∷ api_port_text) hf refl) in
    ground (
      arith,
      is_line-append (take (length line - length (trim_left is_blank line)) line) (server_line fqdn)
          (is_line-take (length line - length (trim_left is_blank line)) line hl) server,
    )

map-are_lines :
    (fqdn : Text) (lines : List Text)
    → is_line fqdn ≡ true
    → All (λ l. is_line l ≡ true) lines
    → All (λ l. is_line l ≡ true) (map (rewrite_line fqdn) lines)
map-are_lines fqdn [] hf h = tt
map-are_lines fqdn (line ∷ lines) hf h =
    (rewrite_line-is_line fqdn line hf h.0, map-are_lines fqdn lines hf h.1)

split_lines-cases :
    (s : Text) → (line : Text) × (lines : List Text) × (split_lines s ≡ line ∷ lines)
unfolding split_lines
split_lines-cases [] = ([], [], refl)
split_lines-cases (c ∷ s) =
    let (line, lines, h) = split_lines-cases s in
    elim (Bool-cases (eqb c b'\n')) [
      | inl ends ↦ rw ends ([], split_lines s, refl)
      | inr differs ↦ rw (differs, h) (c ∷ line, lines, refl)
    ]

split_lines-are_lines : (s : Text) → All (λ l. is_line l ≡ true) (split_lines s)
unfolding split_lines
split_lines-are_lines [] = (refl, tt)
split_lines-are_lines (c ∷ s) = elim (Bool-cases (eqb c b'\n')) [
  | inl ends ↦ rw ends (refl, split_lines-are_lines s)
  | inr differs ↦
      rw differs (cons_line-are_lines c (split_lines s) differs (split_lines-are_lines s))
]

-- The lines of the rewritten kubeconfig are those of the kubeconfig, each rewritten on its own.
pub split-rewrite :
    (raw fqdn : Text)
    → is_line fqdn ≡ true
    → split_lines (rewrite_kubeconfig_server raw fqdn) ≡ map (rewrite_line fqdn) (split_lines raw)
unfolding rewrite_kubeconfig_server
split-rewrite raw fqdn hf =
    let (line, lines, h) = split_lines-cases raw in
    let free = map-are_lines fqdn (split_lines raw) hf (split_lines-are_lines raw) in
    rw h (
      split-join (rewrite_line fqdn line) (map (rewrite_line fqdn) lines)
        (subst (λ ls. All (λ l. is_line l ≡ true) (map (rewrite_line fqdn) ls)) h free))

-- A kubeconfig with a server line names the new server after the rewrite.
pub rewrite-contains :
    (raw fqdn : Text)
    → has_server_line (split_lines raw) ≡ true
    → contains (rewrite_kubeconfig_server raw fqdn) fqdn ≡ true
unfolding rewrite_kubeconfig_server
rewrite-contains raw fqdn h = join-contains fqdn (split_lines raw) h
