-- ===== src/Api/Memory.antt =====
-- How the values of a Go type lie in memory, and the steps of a generated deep copy, for
-- api/v1alpha1/zz_generated.deepcopy.go. A pointer is an address with the object there; memory is
-- allocated at the next free address.
use automatic_db_upgrades.Common.{ℕ, suc, ℤ, String, Bool, Option, none, some, List, [], ◌∷◌, ◌++◌}
use automatic_db_upgrades.Api.Types.{
  DatabaseType, MetricSource, MetricTargetType, ThresholdOperator, ReduceFunction,
}

-- How a value of the type `V` is stored as an `A`: the value that is stored, and the addresses that
-- it holds.
pub record Layout (V A : Type 0) : Type 0 where
  pub plain : A → V
  pub addresses : A → List ℕ

-- What is stored for `*T` and for `[]T`, if an `A` is stored for `T`.
abbrev pub Pointer : Type 0 → Type 0
Pointer A = Option (ℕ × A)

abbrev pub Slice : Type 0 → Type 0
Slice A = Option (ℕ × List A)

-- The types without pointers that fields have: text, numbers, Booleans and the enumerations.
pub data IsScalar : Type 0 → Type 1 where
  text : IsScalar String
  number : IsScalar ℤ
  boolean : IsScalar Bool
  database_type : IsScalar DatabaseType
  metric_source : IsScalar MetricSource
  metric_target_type : IsScalar MetricTargetType
  threshold_operator : IsScalar ThresholdOperator
  reduce_function : IsScalar ReduceFunction

unfoldable pub scalar : {V : Type 0} → IsScalar V → Layout V V
scalar is_scalar = record { plain = λ v. v; addresses = λ v. [] }

module _ {V A : Type 0} (L : Layout V A) where
  abbrev target_plain : Pointer A → Option V
  target_plain none = none
  target_plain (some (a, c)) = some (L.plain c)

  abbrev target_addresses : Pointer A → List ℕ
  target_addresses none = []
  target_addresses (some (a, c)) = a ∷ L.addresses c

  abbrev pub pointer : Layout (Option V) (Pointer A)
  pointer = record { plain = target_plain; addresses = target_addresses }

  unfoldable pub all_plain : List A → List V
  all_plain [] = []
  all_plain (c ∷ cs) = L.plain c ∷ all_plain cs

  unfoldable pub all_addresses : List A → List ℕ
  all_addresses [] = []
  all_addresses (c ∷ cs) = L.addresses c ++ all_addresses cs

  abbrev elements_plain : Slice A → List V
  elements_plain none = []
  elements_plain (some (a, cs)) = all_plain cs

  abbrev elements_addresses : Slice A → List ℕ
  elements_addresses none = []
  elements_addresses (some (a, cs)) = a ∷ all_addresses cs

  abbrev pub slice : Layout (List V) (Slice A)
  slice = record { plain = elements_plain; addresses = elements_addresses }

-- Two fields.
infixr 20 ◌then◌
abbrev pub ◌then◌ : {V A W B : Type 0} → Layout V A → Layout W B → Layout (V × W) (A × B)
L then N = record {
  plain = λ c. (L.plain c.0, N.plain c.1);
  addresses = λ c. L.addresses c.0 ++ N.addresses c.1;
}

-- The fields of a struct.
unfoldable pub struct : {V W A : Type 0} → (V → W) → Layout V A → Layout W A
struct f L = record { plain = λ c. f (L.plain c); addresses = L.addresses }

-- A copy takes the next free address, and gives the one behind the copy. It starts with what
-- `*out = *in` has put there.
abbrev pub Copy : Type 0 → Type 0
Copy A = ℕ → A → A × ℕ

-- A field that is left as the assignment has put it.
abbrev pub assigned : {A : Type 0} → Copy A
assigned n c = (c, n)

module _ {A : Type 0} (copy : Copy A) where
  -- `if in.F != nil { in, out := &in.F, &out.F; *out = new(T); copy }`
  abbrev pub copy_target : Copy (Pointer A)
  copy_target n none = (none, n)
  copy_target n (some (a, c)) = let (c', next) = copy (suc n) c in (some (n, c'), next)

  -- `for i := range *in { (*in)[i].DeepCopyInto(&(*out)[i]) }`
  unfoldable pub copy_all : Copy (List A)
  copy_all n [] = ([], n)
  copy_all n (c ∷ cs) =
      let (c', next) = copy n c in let (cs', last) = copy_all next cs in (c' ∷ cs', last)

  -- `if in.F != nil { in, out := &in.F, &out.F; *out = make([]T, len(*in)); for ... }`
  abbrev pub copy_elements : Copy (Slice A)
  copy_elements n none = (none, n)
  copy_elements n (some (a, cs)) = let (cs', next) = copy_all (suc n) cs in (some (n, cs'), next)

-- The copies of two fields, one after the other.
infixr 20 ◌followed_by◌
abbrev pub ◌followed_by◌ : {A B : Type 0} → Copy A → Copy B → Copy (A × B)
(f followed_by g) n c = let (x, next) = f n c.0 in let (y, last) = g next c.1 in ((x, y), last)
