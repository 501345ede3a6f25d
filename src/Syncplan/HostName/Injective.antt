-- ===== src/Syncplan/HostName/Injective.antt =====
-- Which names share a host name, in `HostName` of internal/syncplan/plan.go, and which do not.
use tenantplane.Base.{
  ℕ, ◌≤◌, ◌≡◌, refl, sym, ap, ◌∙◌, true, false, [], ◌∷◌, ◌++◌, All-append, length, arith,
  append_assoc, leb,
}
use tenantplane.Base.Text.{Text, text, contains, starts_with}
use tenantplane.Base.Go.{Unicode}
use tenantplane.Syncplan.Sanitize.{sanitize_name}
use tenantplane.Syncplan.Sanitize.Shape.{
  IsSeparated-append, ends_in_dash, ends_in_dash-append, IsTidy,
}
use tenantplane.Syncplan.Sanitize.Ascii.{HasLabelChars, sanitize_name-tidy}
use tenantplane.Syncplan.HostName.{bounded_name, host_name, base_name}
use tenantplane.Syncplan.HostName.Bounds.{IsTidyLabel, inhabited-append}

-- No separator starts inside the name, also where the name is followed by one.
abbrev pub IsPlain : Text → Type 0
IsPlain s = contains (s ++ text "-") (text "-x-") ≡ false

IsPlain-tail : (c : ℕ) (s : Text) → IsPlain (c ∷ s) → IsPlain s
unfolding contains
IsPlain-tail c s h = ground arith

-- The separator after a plain name is the first one.
split-plain :
    (r s v w : Text)
    → IsPlain r
    → IsPlain s
    → r ++ text "-x-" ++ v ≡ s ++ text "-x-" ++ w
    → (r ≡ s) × (v ≡ w)
unfolding contains starts_with
split-plain [] [] v w hr hs e = ground arith
split-plain [] (c ∷ []) v w hr hs e = ground arith
split-plain [] (c ∷ d ∷ []) v w hr hs e = ground arith
split-plain [] (c ∷ d ∷ f ∷ s) v w hr hs e = ground arith
split-plain (c ∷ []) [] v w hr hs e = ground arith
split-plain (c ∷ d ∷ []) [] v w hr hs e = ground arith
split-plain (c ∷ d ∷ f ∷ r) [] v w hr hs e = ground arith
split-plain (c ∷ r) (d ∷ s) v w hr hs e =
    ground (arith, split-plain r s v w (IsPlain-tail c r hr) (IsPlain-tail d s hs))

IsTidy-joined : (s t : Text) → IsTidy s → IsTidy t → IsTidy (s ++ text "-x-" ++ t)
IsTidy-joined s t hs ht =
    let closed : ends_in_dash true (s ++ text "-x-") ≡ true =
      ends_in_dash-append true s (text "-x-") in
    record {
      inhabited =
          inhabited-append (s ++ text "-x-") t (inhabited-append s (text "-x-") hs.inhabited);
      separated =
          IsSeparated-append true (s ++ text "-x-") t
            (IsSeparated-append true s (text "-x-") hs.separated
              (rw hs.ends (refl, (refl, (refl, tt)))))
            (rw closed ht.separated);
      ends = ends_in_dash-append true (s ++ text "-x-") t ∙ rw closed ht.ends;
    }

HasLabelChars-joined :
    (s t : Text) → HasLabelChars s → HasLabelChars t → HasLabelChars (s ++ text "-x-" ++ t)
HasLabelChars-joined s t hs ht =
    All-append _ (s ++ text "-x-") t (All-append _ s (text "-x-") hs (refl, (refl, (refl, tt)))) ht

le→leb : (a b : ℕ) → a ≤ b → leb a b ≡ true
le→leb a b h = ground arith

base_name-grouped : (r v t : Text) → r ++ text "-x-" ++ (v ++ text "-x-" ++ t) ≡ base_name r v t
base_name-grouped r v t = simp append_assoc

module _ ⦃u : Unicode⦄ where
  -- A separator inside the resource name and one inside the virtual namespace can change places:
  -- the host name is the same for every a, b, c and t.
  pub host_name_collision :
      (a b c t : Text) → host_name (a ++ text "-x-" ++ b) c t ≡ host_name a (b ++ text "-x-" ++ c) t
  unfolding host_name
  host_name_collision a b c t =
      ap (λ n. bounded_name (sanitize_name (n ++ text "-x-" ++ t))) (regroup a b c)
    where
      regroup :
          (a b c : Text)
          → (a ++ text "-x-" ++ b) ++ text "-x-" ++ c ≡ a ++ text "-x-" ++ (b ++ text "-x-" ++ c)
      regroup a b c = simp append_assoc

  -- The host name of labels that have no two dashes in a row, and fit a label together, is the three
  -- names, joined by the separator.
  pub host_name-labels :
      (r v t : Text)
      → IsTidyLabel r
      → IsTidyLabel v
      → IsTidyLabel t
      → length (base_name r v t) ≤ 63
      → host_name r v t ≡ base_name r v t
  unfolding host_name
  host_name-labels r v t hr hv ht short =
      let tidy =
        IsTidy-joined (r ++ text "-x-" ++ v) t (IsTidy-joined r v hr.tidy hv.tidy) ht.tidy in
      let chars =
        HasLabelChars-joined (r ++ text "-x-" ++ v) t (HasLabelChars-joined r v hr.chars hv.chars)
          ht.chars in
      rw (
        sanitize_name-tidy (base_name r v t) chars tidy,
        le→leb (length (base_name r v t)) 63 short,
      )

  -- Take names that are DNS-1123 labels without two dashes in a row, of which the resource's and the
  -- virtual namespace's neither contain the separator -x- nor end in -x. They share a host name only
  -- if they are the same, as long as the unsanitized names fit a label.
  pub host_name-injective :
      (r v t r' v' t' : Text)
      → IsTidyLabel r
      → IsTidyLabel v
      → IsTidyLabel t
      → IsTidyLabel r'
      → IsTidyLabel v'
      → IsTidyLabel t'
      → IsPlain r
      → IsPlain v
      → IsPlain r'
      → IsPlain v'
      → length (base_name r v t) ≤ 63
      → length (base_name r' v' t') ≤ 63
      → host_name r v t ≡ host_name r' v' t'
      → (r ≡ r') × (v ≡ v') × (t ≡ t')
  host_name-injective r v t r' v' t' hr hv ht hr' hv' ht' pr pv pr' pv' short short' same =
      let joined =
        sym (host_name-labels r v t hr hv ht short)
        ∙ same
        ∙ host_name-labels r' v' t' hr' hv' ht' short' in
      let (er, rest) =
        split-plain r r' (v ++ text "-x-" ++ t) (v' ++ text "-x-" ++ t') pr pr'
          (base_name-grouped r v t ∙ joined ∙ sym (base_name-grouped r' v' t')) in
      let (ev, et) = split-plain v v' t t' pv pv' rest in (er, ev, et)
