-- ===== src/Condition/Combination.antt =====
-- CombinationConditionTracker.cpp: isTrackerValid, which looks for missing children and cycles among the
-- predicates of a config before they are initialised. The recursion has fuel.
pub mod Grounded
pub mod Evaluate
mod Trackers
mod Nested
pub mod Tests
use packages_modules_stats_d.Common.{
  ℕ, zero, suc, ◌==◌, ◌||◌, Option, none, some, Bool, true, false, List, [], ◌∷◌, ◌++◌,
  if◌then◌else◌, nat_eq,
}
use packages_modules_stats_d.Common.Dict.{Dict, get}

-- A tracker of allConditionsMap: simple, or a combination with the ids of its children.
pub data Predicate : Type 0 where
  simple : Predicate
  combination : List ℕ → Predicate

-- A null tracker is `none`.
abbrev pub ConditionsMap : Type 0
ConditionsMap = Dict ℕ (Option Predicate)

pub data InvalidConfigReason : Type 0 where
  condition_child_not_found condition_cycle : InvalidConfigReason

-- The stack after a check without a reason, a reason with its condition ids, or no result for want of
-- fuel or of the tracker's own entry.
pub data Validity : Type 0 where
  valid : List ℕ → Validity
  invalid : InvalidConfigReason → List ℕ → Validity
  stuck : Validity

-- allConditionsMap.find, where a null tracker counts as missing.
abbrev pub find_tracker : ConditionsMap → ℕ → Option Predicate
find_tracker m id = elim (get m id) [ none ↦ none | some found ↦ found ]

-- stack.contains and stack.erase; an insertion adds at the front.
abbrev pub contains : List ℕ → ℕ → Bool
contains [] id = false
contains (i ∷ stack) id = (i == id) || contains stack id

abbrev pub erase_id : List ℕ → ℕ → List ℕ
erase_id [] id = []
erase_id (i ∷ stack) id = let rest = erase_id stack id in if i == id then rest else i ∷ rest

-- The loop over the children of `id`; `check` is the call of a child's isTrackerValid.
unfoldable pub check_children :
    (ℕ → List ℕ → Validity) → ConditionsMap → ℕ → List ℕ → List ℕ → Validity
check_children check m id [] stack = valid (erase_id stack id)
check_children check m id (child ∷ children) stack = elim (find_tracker m child) [
  | none ↦ invalid condition_child_not_found (id ∷ child ∷ [])
  | some _ ↦
      if contains stack child then invalid condition_cycle (id ∷ []) else elim (check child stack) [
        | valid next ↦ check_children check m id children next
        | invalid reason ids ↦ invalid reason (ids ++ (id ∷ []))
        | stuck ↦ stuck
      ]
]

unfoldable pub is_tracker_valid : ℕ → ConditionsMap → ℕ → List ℕ → Validity
unfolding check_children
is_tracker_valid zero m id stack = stuck
is_tracker_valid (suc fuel) m id stack = elim (find_tracker m id) [
  | none ↦ stuck
  | some simple ↦ valid stack
  | some (combination children) ↦
      check_children (is_tracker_valid fuel m) m id children (id ∷ stack)
]
