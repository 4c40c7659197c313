-- ===== src/Condition/Util.antt =====
-- statsd/src/condition/condition_util.h and .cpp. A vector of states is read by `state_at`; an
-- index out of range, undefined in the source, reads as `not_evaluated`.
pub mod Logic
pub mod Tests
use packages_modules_stats_d.Common.{
  ℕ, Bool, true, false, not, ◌==◌, List, [], ◌∷◌, leb, get_or, if◌then◌else◌,
}

-- kNotEvaluated = -2, kUnknown = -1, kFalse = 0, kTrue = 1
pub data ConditionState : Type 0 where
  not_evaluated unknown is_false is_true : ConditionState

pub data LogicalOperation : Type 0 where
  op_unspecified op_and op_or op_not op_nand op_nor : LogicalOperation

pub data InitialValue : Type 0 where
  initial_unknown initial_false : InitialValue

abbrev pub rank : ConditionState → ℕ
rank not_evaluated = 0
rank unknown = 1
rank is_false = 2
rank is_true = 3

-- !=
abbrev pub differs : ConditionState → ConditionState → Bool
differs a b = not (rank a == rank b)

-- l | r: the greater one.
unfoldable pub join : ConditionState → ConditionState → ConditionState
join l r = if leb (rank r) (rank l) then l else r

unfoldable pub convert_initial_value : InitialValue → ConditionState
convert_initial_value initial_false = is_false
convert_initial_value initial_unknown = unknown

abbrev pub is_evaluated : ConditionState → Bool
is_evaluated not_evaluated = false
is_evaluated _ = true

abbrev pub state_at : List ConditionState → ℕ → ConditionState
state_at cache i = get_or cache i not_evaluated

-- The flags that the loop over the children leaves: has_unknown, has_false, has_true.
pub record Seen : Type 0 where
  pub has_unknown : Bool
  pub has_false : Bool
  pub has_true : Bool

-- The loop stops at the first unknown child.
unfoldable pub scan : List ConditionState → List ℕ → Seen → Seen
scan cache [] s = s
scan cache (child ∷ children) s = elim (state_at cache child) [
  | unknown ↦ record s { has_unknown = true }
  | is_false ↦ scan cache children (record s { has_false = true })
  | is_true ↦ scan cache children (record s { has_true = true })
  | not_evaluated ↦ scan cache children s
]

abbrev nothing_seen : Seen
nothing_seen = record { has_unknown = false; has_false = false; has_true = false }

abbrev of_bool : Bool → ConditionState
of_bool true = is_true
of_bool false = is_false

unfoldable pub negate_first : List ConditionState → List ℕ → ConditionState
negate_first cache [] = unknown
negate_first cache (child ∷ children) = elim (state_at cache child) [
  | is_false ↦ is_true
  | _ ↦ is_false
]

unfoldable pub combine : LogicalOperation → List ConditionState → List ℕ → Seen → ConditionState
unfolding negate_first
combine op_and cache children s = if s.has_false then is_false else is_true
combine op_or cache children s = if s.has_true then is_true else is_false
combine op_not cache children s = negate_first cache children
combine op_nand cache children s = if s.has_false then is_true else is_false
combine op_nor cache children s = if s.has_true then is_false else is_true
combine op_unspecified cache children s = is_false

unfoldable pub evaluate_combination_condition :
    List ℕ → LogicalOperation → List ConditionState → ConditionState
unfolding scan combine
evaluate_combination_condition children operation cache =
    let s = scan cache children nothing_seen in
    if s.has_unknown then unknown else combine operation cache children s
