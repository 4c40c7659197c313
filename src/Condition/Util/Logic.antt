-- ===== src/Condition/Util/Logic.antt =====
-- The combination of conditions against its meaning: strict three-valued logic.
use packages_modules_stats_d.Common.{
  ℕ, ◌≡◌, Option, none, some, Bool, true, false, not, ◌&&◌, ◌||◌, List, [], ◌∷◌, map, inl, inr,
  Option-cases, arith,
}
use packages_modules_stats_d.Condition.Util.{
  ConditionState, not_evaluated, unknown, is_false, is_true, LogicalOperation, op_unspecified,
  op_and, op_or, op_not, op_nand, op_nor, state_at, Seen, scan, nothing_seen, of_bool, combine,
  evaluate_combination_condition,
}

-- The children's values, if all of them are known.
pub values : List ConditionState → Option (List Bool)
values [] = some []
values (unknown ∷ rest) = none
values (not_evaluated ∷ rest) = none
values (is_false ∷ rest) = elim (values rest) [ none ↦ none | some bs ↦ some (false ∷ bs) ]
values (is_true ∷ rest) = elim (values rest) [ none ↦ none | some bs ↦ some (true ∷ bs) ]

pub all : List Bool → Bool
all [] = true
all (b ∷ bs) = b && all bs

pub any : List Bool → Bool
any [] = false
any (b ∷ bs) = b || any bs

-- What each operation means on known values. NOT of no child is unknown.
pub meaning : LogicalOperation → List Bool → ConditionState
unfolding all any
meaning op_and bs = of_bool (all bs)
meaning op_or bs = of_bool (any bs)
meaning op_nand bs = of_bool (not (all bs))
meaning op_nor bs = of_bool (not (any bs))
meaning op_not [] = unknown
meaning op_not (b ∷ bs) = of_bool (not b)
meaning op_unspecified bs = is_false

pub denote : LogicalOperation → List ConditionState → ConditionState
denote op states = elim (values states) [ none ↦ unknown | some bs ↦ meaning op bs ]

abbrev states_of : List ConditionState → List ℕ → List ConditionState
states_of cache children = map (state_at cache) children

-- Every child has been evaluated.
abbrev pub Evaluated : List ConditionState → List ℕ → Type 0
Evaluated cache [] = Unit {0}
Evaluated cache (child ∷ children) =
    (state_at cache child ≡ not_evaluated → ⊥) × Evaluated cache children

-- What the loop must leave behind for the children's values.
abbrev Finds : Seen → Option (List Bool) → Seen → Type 0
Finds s none r = r.has_unknown ≡ true
Finds s (some bs) r =
    (r.has_unknown ≡ s.has_unknown)
    × (r.has_false ≡ (s.has_false || not (all bs)))
    × (r.has_true ≡ (s.has_true || any bs))

scan-Finds :
    (cache : List ConditionState) (children : List ℕ) (s : Seen)
    → Evaluated cache children
    → Finds s (values (states_of cache children)) (scan cache children s)
unfolding scan values all any
scan-Finds cache [] s h = ground arith
scan-Finds cache (child ∷ children) s h = ground (
  arith,
  h.0,
  scan-Finds cache children (record s { has_false = true }) h.1,
  scan-Finds cache children (record s { has_true = true }) h.1,
)

unknown_wins :
    (op : LogicalOperation) (cache : List ConditionState) (children : List ℕ)
    → values (states_of cache children) ≡ none
    → Evaluated cache children
    → evaluate_combination_condition children op cache ≡ unknown
unfolding evaluate_combination_condition
unknown_wins op cache children e h = rw (rw e at (scan-Finds cache children nothing_seen h))

known_children :
    (op : LogicalOperation) (cache : List ConditionState) (children : List ℕ) (bs : List Bool)
    → values (states_of cache children) ≡ some bs
    → Evaluated cache children
    → combine op cache children (scan cache children nothing_seen) ≡ meaning op bs
unfolding combine meaning values
known_children op_not cache [] bs e h = ground arith
known_children op_not cache (child ∷ children) bs e h = ground arith
known_children _ cache children bs e h =
    ground (arith, rw e at (scan-Finds cache children nothing_seen h))

-- When every child has been evaluated, the combined state is the operation's meaning in strict
-- three-valued logic: unknown if some child is unknown, else the operation on the children's truth
-- values.
pub evaluate_combination_condition-denote :
    (op : LogicalOperation) (cache : List ConditionState) (children : List ℕ)
    → Evaluated cache children
    → evaluate_combination_condition children op cache ≡ denote op (states_of cache children)
unfolding evaluate_combination_condition denote
evaluate_combination_condition-denote op cache children h =
    elim (Option-cases (values (states_of cache children))) [
      | inl e ↦ rw (e, denote) (unknown_wins op cache children e h)
      | inr (bs, e) ↦
          rw (e, denote, (rw e at (scan-Finds cache children nothing_seen h)).0)
            (known_children op cache children bs e h)
    ]
