-- ===== src/Objects/Meta.antt =====
-- Object metadata, selectors and conditions, as the controllers of the repository use them.
use cluster_api_provider_tin.Prelude.{ℕ, String, Bool, true, false, Option, List, ltb}

-- An int32 that the code reads and compares, and never adds to: `negative n` is -(n + 1).
pub data Int32 : Type 0 where
  nonneg : ℕ → Int32
  negative : ℕ → Int32

-- `x < y`
unfoldable pub int32_lt : Int32 → Int32 → Bool
int32_lt (nonneg m) (nonneg n) = ltb m n
int32_lt (nonneg m) (negative n) = false
int32_lt (negative m) (nonneg n) = true
int32_lt (negative m) (negative n) = ltb n m

pub record NamespacedName : Type 0 where
  pub namespace : String
  pub name : String

pub record OwnerReference : Type 0 where
  pub kind : String
  pub name : String
  pub uid : String
  pub controller : Bool

-- `deletion_timestamp` is `none` where the source's `IsZero` holds.
pub record ObjectMeta : Type 0 where
  pub name : String
  pub namespace : String
  pub uid : String
  pub labels : List (String × String)
  pub annotations : List (String × String)
  pub finalizers : List String
  pub deletion_timestamp : Option ℕ
  pub owner_references : List OwnerReference

pub data SelectorOperator : Type 0 where
  in_set not_in_set exists does_not_exist : SelectorOperator

pub record LabelSelectorRequirement : Type 0 where
  pub key : String
  pub operator : SelectorOperator
  pub values : List String

pub record LabelSelector : Type 0 where
  pub match_labels : List (String × String)
  pub match_expressions : List LabelSelectorRequirement

pub data ConditionStatus : Type 0 where
  condition_true condition_false condition_unknown : ConditionStatus

pub record Condition : Type 0 where
  pub kind : String
  pub status : ConditionStatus
  pub reason : String
  pub last_transition : ℕ

abbrev pub object_key : ObjectMeta → NamespacedName
object_key m = record { namespace = m.namespace; name = m.name }
