-- ===== src/Controller/Namespace/Labels.antt =====
-- The convergence of a namespace's labels, in internal/controller/namespace.go.
use Prim.Derive.{subst}
use tenantplane.Base.{
  ◌≡◌, refl, ap, ◌∙◌, String, Bool, true, false, ◌&&◌, [], ◌∷◌, Option, none, some, if◌then◌else◌,
  Dict, lookup, insert, lookup-insert, text_at, or_empty, string_eq, bytes_eq, ◌==◌, inl, inr,
  Bool-cases, arith, eq_of_beq, beq_refl, All,
}
use tenantplane.Base.Text.{Text}
use tenantplane.Syncplan.Transform.Build.{entries}
use tenantplane.Controller.Namespace.{Namespace, converge_labels}

abbrev is_missing : Option Text → Bool
is_missing none = true
is_missing (some v) = false

-- A map has one entry for a key.
abbrev pub has_distinct_keys : Dict String Text → Bool
has_distinct_keys [] = true
has_distinct_keys ((k, v) ∷ m) = is_missing (lookup k m) && has_distinct_keys m

abbrev or_else : Option Text → Text → Text
or_else none otherwise = otherwise
or_else (some v) otherwise = v

-- The value of the first map, or of the second where it has none.
abbrev pub value_over : String → Dict String Text → Text → Text
value_over k desired otherwise = or_else (lookup k desired) otherwise

abbrev pub label_of : String → Namespace → Text
label_of k ns = text_at k (entries ns.labels)

abbrev with_label : String → Text → Namespace → Namespace
with_label k v ns = record ns { labels = some (insert k v (entries ns.labels)) }

or_empty_if :
    (b : Bool) (v : Text) (o : Option Text)
    → or_empty (if b then some v else o) ≡ (if b then v else or_empty o)
or_empty_if true v o = refl
or_empty_if false v o = refl

missing_over :
    (k : String) (desired : Dict String Text) (v : Text)
    → is_missing (lookup k desired) ≡ true
    → value_over k desired v ≡ v
missing_over k desired v h = ground arith

same_label :
    (j k : String) (v : Text) (ns : Namespace)
    → label_of j ns ≡ v
    → label_of k ns ≡ (if j == k then v else label_of k ns)
same_label j k v ns h = elim (Bool-cases (j == k)) [
  | inl same ↦ rw same (subst (λ x. label_of x ns ≡ v) (eq_of_beq j k same) h)
  | inr differs ↦ rw differs refl
]

value_over-cons :
    (j k : String) (v : Text) (desired : Dict String Text) (before after : Text)
    → is_missing (lookup j desired) ≡ true
    → after ≡ (if j == k then v else before)
    → value_over k desired after ≡ value_over k ((j, v) ∷ desired) before
value_over-cons j k v desired before after fresh h = elim (Bool-cases (j == k)) [
  | inl same ↦
      let missing : is_missing (lookup k desired) ≡ true =
        subst (λ x. is_missing (lookup x desired) ≡ true) (eq_of_beq j k same) fresh in
      rw (h, same) (missing_over k desired v missing)
  | inr differs ↦ rw (h, differs) refl
]

label_of-with_label :
    (k j : String) (v : Text) (ns : Namespace)
    → label_of j (with_label k v ns) ≡ (if k == j then v else label_of j ns)
label_of-with_label k j v ns =
    ap or_empty (lookup-insert k j v (entries ns.labels))
    ∙ or_empty_if (k == j) v (lookup j (entries ns.labels))

-- After a convergence the desired labels, of distinct keys, are read as desired, and every other label
-- as before.
pub label_of-converge_labels :
    (desired : Dict String Text) (ns : Namespace) (k : String)
    → has_distinct_keys desired ≡ true
    → label_of k (converge_labels desired ns).0 ≡ value_over k desired (label_of k ns)
unfolding converge_labels
label_of-converge_labels [] ns k h = refl
label_of-converge_labels ((j, v) ∷ desired) ns k h =
    let fresh : is_missing (lookup j desired) ≡ true = ground arith in
    let rest : has_distinct_keys desired ≡ true = ground arith in
    elim (Bool-cases (label_of j ns == v)) [
      | inl same ↦ rw same (
          label_of-converge_labels desired ns k rest
          ∙ value_over-cons j k v desired (label_of k ns) (label_of k ns) fresh
              (same_label j k v ns (eq_of_beq (label_of j ns) v same)))
      | inr differs ↦ rw differs (
          label_of-converge_labels desired (with_label j v ns) k rest
          ∙ value_over-cons j k v desired (label_of k ns) (label_of k (with_label j v ns)) fresh
              (label_of-with_label j k v ns))
    ]

-- The namespace has the labels.
abbrev pub Has : Dict String Text → Namespace → Type 0
Has desired ns = All (λ entry. label_of entry.0 ns ≡ entry.1) desired

-- Labels that are there are not touched.
pub converge_labels-Has :
    (desired : Dict String Text) (ns : Namespace)
    → Has desired ns
    → converge_labels desired ns ≡ (ns, false)
unfolding converge_labels
converge_labels-Has [] ns has = refl
converge_labels-Has ((k, v) ∷ desired) ns (here, has) =
    rw (here, beq_refl v) (converge_labels-Has desired ns has)

-- A convergence that reports no change has found the labels.
pub Has-unchanged :
    (desired : Dict String Text) (ns : Namespace)
    → (converge_labels desired ns).1 ≡ false
    → Has desired ns
unfolding converge_labels
Has-unchanged [] ns same = tt
Has-unchanged ((k, v) ∷ desired) ns same = elim (Bool-cases (label_of k ns == v)) [
  | inl there ↦ (eq_of_beq (label_of k ns) v there, Has-unchanged desired ns (ground arith))
  | inr differs ↦ absurd (ground arith)
]
