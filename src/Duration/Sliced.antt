-- ===== src/Duration/Sliced.antt =====
-- onSlicedConditionMayChange, onStateChanged and updateCurrentStateKey. A state key is a list of atom
-- ids with their values.
use packages_modules_stats_d.Common.{
  ℕ, Option, none, some, Bool, true, false, ◌&&◌, not, List, [], ◌∷◌, ◌==◌, if◌then◌else◌, Eq,
}
use packages_modules_stats_d.Common.Int.{ℤ}
use packages_modules_stats_d.Common.Dict.{Dict, get}
use packages_modules_stats_d.Duration.{
  OringDurationTracker, is_empty, insert_all, charge, stop_clock, start_alarms, stop_if_empty,
}

unfoldable pub is_moving : Option Bool → Bool → Bool
is_moving none to = false
is_moving (some b) to = if to then b else not b

module _ {K C : Type 0} ⦃e : Eq K⦄ where
  -- Whether the wizard's answer for the key's condition key is kTrue; a key without one is `none`.
  abbrev pub answer : (C → Bool) → Dict K C → K → Option Bool
  answer query keys key = elim (get keys key) [ none ↦ none | some c ↦ some (query c) ]

  -- The entries of a map that stay, and those whose condition is known to be `to`.
  unfoldable pub split : (C → Bool) → Dict K C → Bool → Dict K ℕ → Dict K ℕ × Dict K ℕ
  split query keys to [] = ([], [])
  split query keys to ((k, n) ∷ m) =
      let (stay, move) = split query keys to m in
      if is_moving (answer query keys k) to then (stay, (k, n) ∷ move) else ((k, n) ∷ stay, move)

module _ {K C SK : Type 0} ⦃e : Eq K⦄ ⦃s : Eq SK⦄ where
  -- Started keys whose condition is no longer true, and the time when they were the last ones.
  unfoldable pub pause_keys :
      (C → Bool) → ℤ → OringDurationTracker K C SK → OringDurationTracker K C SK
  pause_keys query timestamp t =
      let (stay, move) = split query t.condition_key_map false t.started in
      if is_empty t.started then t else stop_clock timestamp (record t { started = stay })

  -- Paused keys whose condition is true now, and the time when they are the first ones.
  unfoldable pub resume_keys :
      (C → Bool) → ℤ → Dict K ℕ → OringDurationTracker K C SK → OringDurationTracker K C SK
  resume_keys query timestamp to_paused t =
      let (stay, move) = split query t.condition_key_map true t.paused in
      let first = start_alarms timestamp (record t { last_start_time = timestamp }) in
      let u = if is_empty t.started && not (is_empty move) then first else t in
      record u { started = insert_all move t.started; paused = insert_all to_paused stay }

  unfoldable pub on_sliced_condition_may_change :
      (C → Bool) → ℤ → OringDurationTracker K C SK → OringDurationTracker K C SK
  on_sliced_condition_may_change query timestamp t =
      let (stay, to_paused) = split query t.condition_key_map false t.started in
      stop_if_empty timestamp (resume_keys query timestamp to_paused (pause_keys query timestamp t))

unfoldable pub update_values : {V : Type 0} → ℕ → V → List (ℕ × V) → List (ℕ × V)
update_values atom_id value [] = []
update_values atom_id value ((tag, v) ∷ rest) =
    (tag, if tag == atom_id then value else v) ∷ update_values atom_id value rest

module _ {K C V : Type 0} ⦃s : Eq (List (ℕ × V))⦄ where
  abbrev pub update_current_state_key :
      ℕ → V → OringDurationTracker K C (List (ℕ × V)) → OringDurationTracker K C (List (ℕ × V))
  update_current_state_key atom_id value t = record t {
    state_values_key = update_values atom_id value t.state_values_key;
  }

  unfoldable pub on_state_changed :
      ℤ → ℕ → V → OringDurationTracker K C (List (ℕ × V)) → OringDurationTracker K C (List (ℕ × V))
  on_state_changed timestamp atom_id value t =
      let charged = record (charge timestamp t) { last_start_time = timestamp } in
      if is_empty t.started
      then update_current_state_key atom_id value t
      else update_current_state_key atom_id value charged
