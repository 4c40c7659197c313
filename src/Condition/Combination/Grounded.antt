-- ===== src/Condition/Combination/Grounded.antt =====
-- A predicate that passes isTrackerValid stands on simple ones, and the check always ends.
use packages_modules_stats_d.Common.{
  ℕ, zero, suc, ◌==◌, ◌≤◌, ◌<◌, ◌≡◌, refl, sym, subst, ap, ◌∙◌, some, true, false, List, [], ◌∷◌,
  ◌++◌, length, if◌then◌else◌, nat_eq, arith, Bool-cases, Option-cases, inl, inr, if_both, ==_iff,
}
use packages_modules_stats_d.Common.Dict.{get}
use packages_modules_stats_d.Condition.Combination.{
  Predicate, simple, combination, ConditionsMap, Validity, valid, invalid, stuck, find_tracker,
  contains, erase_id, check_children, is_tracker_valid,
}

-- Found in the map, with every child found, down to simple predicates: so no cycle below it.
pub data IsGrounded (m : ConditionsMap) : ℕ → Type 0 where
  at_simple : {id : ℕ} → find_tracker m id ≡ some simple → IsGrounded m id
  at_combination :
      {id : ℕ} (children : List ℕ)
      → find_tracker m id ≡ some (combination children)
      → ((child : ℕ) → contains children child ≡ true → IsGrounded m child)
      → IsGrounded m id

-- What a check of one tracker ends with: a reason, or the same stack and a grounded tracker.
abbrev pub Ends : ConditionsMap → ℕ → List ℕ → Validity → Type 0
Ends m id stack (valid next) = (next ≡ stack) × IsGrounded m id
Ends m id stack (invalid reason ids) = Unit
Ends m id stack stuck = ⊥

abbrev EndsAll : ConditionsMap → ℕ → List ℕ → List ℕ → Validity → Type 0
EndsAll m id children stack (valid next) =
    (next ≡ erase_id stack id) × ((child : ℕ) → contains children child ≡ true → IsGrounded m child)
EndsAll m id children stack (invalid reason ids) = Unit
EndsAll m id children stack stuck = ⊥

-- The entries of the map that are not on the stack.
abbrev missing : ConditionsMap → List ℕ → ℕ
missing [] stack = 0
missing ((i, _) ∷ m) stack = if contains stack i then missing m stack else suc (missing m stack)

missing_le :
    (m : ConditionsMap) (id : ℕ) (stack : List ℕ) → missing m (id ∷ stack) ≤ missing m stack
missing_le [] id stack = omega arith
missing_le ((i, _) ∷ m) id stack = ground (arith, missing_le m id stack)

missing_lt :
    (m : ConditionsMap) (id : ℕ) (stack : List ℕ) {p : Predicate}
    → find_tracker m id ≡ some p
    → contains stack id ≡ false
    → missing m (id ∷ stack) < missing m stack
unfolding get
missing_lt [] id stack h f = ground arith
missing_lt ((i, o) ∷ m) id stack {p = p} h f = elim (Bool-cases (i == id)) [
  | inl same ↦ ground (
    arith,
    missing_le m id stack,
    subst (λ j. contains stack j ≡ false) (sym ((==_iff i id).0 same)) f,
  )
  | inr other ↦ ground (arith, missing_lt m id stack {p = p} (rw (find_tracker, get, other) at h) f)
]

erase_id-absent : (stack : List ℕ) (id : ℕ) → contains stack id ≡ false → erase_id stack id ≡ stack
erase_id-absent [] id h = refl
erase_id-absent (i ∷ stack) id h = ground (arith, erase_id-absent stack id)

cons-EndsAll :
    (m : ConditionsMap) (id child : ℕ) (children stack : List ℕ) (r : Validity)
    → IsGrounded m child
    → EndsAll m id children stack r
    → EndsAll m id (child ∷ children) stack r
cons-EndsAll m id child children stack (valid next) g (e, all) = (
  e,
  λ other h. elim (Bool-cases (child == other)) [
    | inl same ↦ subst (IsGrounded m) ((==_iff child other).0 same) g
    | inr ne ↦ all other (ground arith)
  ],
)
cons-EndsAll m id child children stack (invalid reason ids) g h = tt
cons-EndsAll m id child children stack stuck g h = absurd h

child-Ends :
    (check : ℕ → List ℕ → Validity) (m : ConditionsMap) (id child : ℕ) (children stack : List ℕ)
    (r : Validity)
    → Ends m child stack r
    → EndsAll m id children stack (check_children check m id children stack)
    → EndsAll m id (child ∷ children) stack (elim r [
      | valid next ↦ check_children check m id children next
      | invalid reason ids ↦ invalid reason (ids ++ (id ∷ []))
      | stuck ↦ stuck
    ])
child-Ends check m id child children stack (valid next) (e, g) rest =
    subst (λ s. EndsAll m id (child ∷ children) stack (check_children check m id children s))
      (sym e)
      (cons-EndsAll m id child children stack (check_children check m id children stack) g rest)
child-Ends check m id child children stack (invalid reason ids) h rest = tt
child-Ends check m id child children stack stuck h rest = absurd h

check_children-EndsAll :
    (check : ℕ → List ℕ → Validity) (m : ConditionsMap) (id : ℕ) (children stack : List ℕ)
    → ((child : ℕ) (p : Predicate)
        → find_tracker m child ≡ some p
        → contains stack child ≡ false
        → Ends m child stack (check child stack))
    → EndsAll m id children stack (check_children check m id children stack)
unfolding check_children
check_children-EndsAll check m id [] stack ok = (refl, λ child h. ground arith)
check_children-EndsAll check m id (child ∷ children) stack ok =
    elim (Option-cases (find_tracker m child)) [
      | inl none_found ↦ rw (check_children, none_found) tt
      | inr (p, found) ↦
          rw (check_children, found)
            (if_both (EndsAll m id (child ∷ children) stack) (contains stack child) _ _ (λ _. tt)
              λ new.
                child-Ends check m id child children stack (check child stack)
                  (ok child p found new) (check_children-EndsAll check m id children stack ok))
    ]

of_children :
    (m : ConditionsMap) (id : ℕ) (children stack : List ℕ) (r : Validity)
    → find_tracker m id ≡ some (combination children)
    → contains stack id ≡ false
    → EndsAll m id children (id ∷ stack) r
    → Ends m id stack r
of_children m id children stack (valid next) found new (e, all) =
    (e ∙ ground (arith, erase_id-absent stack id), at_combination children found all)
of_children m id children stack (invalid reason ids) found new h = tt
of_children m id children stack stuck found new h = absurd h

is_tracker_valid-Ends :
    (fuel : ℕ) (m : ConditionsMap) (id : ℕ) (stack : List ℕ) (p : Predicate)
    → find_tracker m id ≡ some p
    → contains stack id ≡ false
    → missing m stack < fuel
    → Ends m id stack (is_tracker_valid fuel m id stack)
unfolding is_tracker_valid
is_tracker_valid-Ends zero m id stack p found new enough = absurd (omega arith)
is_tracker_valid-Ends (suc fuel) m id stack simple found new enough =
    rw (is_tracker_valid, found) (refl, at_simple found)
is_tracker_valid-Ends (suc fuel) m id stack (combination children) found new enough =
    rw (is_tracker_valid, found)
      (of_children m id children stack _ found new (
        check_children-EndsAll (is_tracker_valid fuel m) m id children (id ∷ stack)
          λ child q at fresh.
            is_tracker_valid-Ends fuel m child (id ∷ stack) q at fresh
              (omega (arith, enough, missing_lt m id stack found new))))

missing_all : (m : ConditionsMap) → missing m [] ≡ length m
missing_all [] = refl
missing_all (entry ∷ m) = ap suc (missing_all m)

-- For a tracker of the map and fuel of one more than the entries of the map: the check ends with a
-- reason, or it leaves the empty stack that it began with and the tracker is grounded, which means
-- that it and all trackers below it are found, down to simple ones.
pub is_tracker_valid-IsGrounded :
    (m : ConditionsMap) (id : ℕ) (p : Predicate)
    → find_tracker m id ≡ some p
    → Ends m id [] (is_tracker_valid (suc (length m)) m id [])
is_tracker_valid-IsGrounded m id p found =
    is_tracker_valid-Ends (suc (length m)) m id [] p found refl (omega (arith, missing_all m))
