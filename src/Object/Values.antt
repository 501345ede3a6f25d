-- ===== src/Object/Values.antt =====
-- The values behind `interface{}` in an unstructured object, and `reflect.DeepEqual` on them.
use Prim.Native.Nat.{ℕ, suc}
use tenantplane.Base.{
  String, ◌≡◌, refl, ap, Bool, true, false, ◌&&◌, Option, none, some, List, [], ◌∷◌, Dict, lookup,
  ◌==◌, string_eq, bytes_eq, eqb,
}
use tenantplane.Base.Text.{Text}

-- `negsuc n` is -(n + 1).
pub data ℤ : Type 0 where
  pos : ℕ → ℤ
  negsuc : ℕ → ℤ

mutual
  -- A float stands as the number of its bit pattern; JSON has no NaN and the API no negative zero.
  pub data Value : Type 0 where
    null : Value
    bool : Bool → Value
    int : ℤ → Value
    float : ℕ → Value
    string : Text → Value
    slice : Items → Value
    object : Fields → Value

  pub data Items : Type 0 where
    nil : Items
    cons : Value → Items → Items

  -- A map, as its entries; see Base/Maps.
  pub data Fields : Type 0 where
    end : Fields
    field : String → Value → Fields → Fields

-- map[string]interface{}
abbrev pub Object : Type 0
Object = Dict String Value

abbrev pub to_list : Items → List Value
to_list nil = []
to_list (cons v vs) = v ∷ to_list vs

abbrev pub of_list : List Value → Items
of_list [] = nil
of_list (v ∷ vs) = cons v (of_list vs)

abbrev pub to_object : Fields → Object
to_object end = []
to_object (field k v fs) = (k, v) ∷ to_object fs

abbrev pub of_object : Object → Fields
of_object [] = end
of_object ((k, v) ∷ o) = field k v (of_object o)

pub to_object-of_object : (o : Object) → to_object (of_object o) ≡ o
to_object-of_object [] = refl
to_object-of_object ((k, v) ∷ o) = ap (λ r. (k, v) ∷ r) (to_object-of_object o)

pub to_list-of_list : (vs : List Value) → to_list (of_list vs) ≡ vs
to_list-of_list [] = refl
to_list-of_list (v ∷ vs) = ap (λ r. v ∷ r) (to_list-of_list vs)

-- v.(map[string]interface{})
abbrev pub as_map : Value → Option Object
as_map (object fs) = some (to_object fs)
as_map _ = none

-- v, _ := m[k].(string)
abbrev pub as_text : Option Value → Text
as_text (some (string s)) = s
as_text _ = []

abbrev beq_int : ℤ → ℤ → Bool
beq_int (pos a) (pos b) = eqb a b
beq_int (negsuc a) (negsuc b) = eqb a b
beq_int _ _ = false

beq_bool : Bool → Bool → Bool
beq_bool true b = b
beq_bool false true = false
beq_bool false false = true

count : Fields → ℕ
count end = 0
count (field k v fs) = suc (count fs)

-- Two maps are equal if they have as many keys, and each key of the first has an equal value in
-- the second.
unfoldable mutual
  unfolding count beq_bool

  pub deep_equal : Value → Value → Bool
  deep_equal null null = true
  deep_equal (bool a) (bool b) = beq_bool a b
  deep_equal (int a) (int b) = beq_int a b
  deep_equal (float a) (float b) = eqb a b
  deep_equal (string s) (string t) = s == t
  deep_equal (slice vs) (slice ws) = deep_equal_items vs ws
  deep_equal (object fs) (object gs) = eqb (count fs) (count gs) && is_part fs gs
  deep_equal _ _ = false

  deep_equal_items : Items → Items → Bool
  deep_equal_items nil nil = true
  deep_equal_items (cons v vs) (cons w ws) = deep_equal v w && deep_equal_items vs ws
  deep_equal_items _ _ = false

  is_part : Fields → Fields → Bool
  is_part end gs = true
  is_part (field k v fs) gs =
      elim (lookup k (to_object gs)) [ none ↦ false | some w ↦ deep_equal v w ] && is_part fs gs
