-- ===== src/State/Tracker/Entries.antt =====
-- The entries that the map keeps.
use packages_modules_stats_d.Common.{
  ◌≡◌, ◌⊎◌, refl, Option, none, some, Bool, true, false, List, [], ◌∷◌, map, arith, Eq, if_both,
  Option-cases, inl, inr,
}
use packages_modules_stats_d.Common.Int.{ℤ, pos, negsuc, eqb_ℤ, eqb_ℤ_iff, ◌≤ℤ◌, +ℤ_parts, -ℤ_parts}
use packages_modules_stats_d.Common.Dict.{get, put, erase, get-put, get-erase}
use packages_modules_stats_d.State.Tracker.{
  state_unknown, LogEvent, StateValueInfo, StateMap, Outcome, info_or_blank, update_info,
  update_state_for_primary_key, reset_keys, handle_reset, clear_state_for_primary_key, on_log_event,
  int_value, other_value,
}
use packages_modules_stats_d.State.Tracker.Changes.{run}

-- A known state with a positive count.
abbrev pub IsKnown : StateValueInfo → Type 0
IsKnown info = (eqb_ℤ info.state state_unknown ≡ false) × (pos 1 ≤ℤ info.count)

abbrev pub IsEntry : Option StateValueInfo → Type 0
IsEntry none = Unit
IsEntry (some info) = IsKnown info

unknown_or_IsKnown :
    (o : Option StateValueInfo)
    → IsEntry o
    → (eqb_ℤ (info_or_blank o).state state_unknown ≡ true) ⊎ IsKnown (info_or_blank o)
unknown_or_IsKnown none h = inl refl
unknown_or_IsKnown (some info) h = inr h

update_info-IsKnown :
    (new_state : ℤ) (nested : Bool) (info : StateValueInfo)
    → eqb_ℤ new_state state_unknown ≡ false
    → (eqb_ℤ info.state state_unknown ≡ true) ⊎ IsKnown info
    → IsKnown (update_info new_state nested info).0
unfolding update_info
update_info-IsKnown new_state false info f h = ground (arith, eqb_ℤ_iff new_state info.state)
update_info-IsKnown new_state true info f h = ground (
  arith,
  eqb_ℤ_iff info.state new_state,
  +ℤ_parts info.count (pos 1),
  -ℤ_parts info.count (pos 1),
)

module _ {K : Type 0} ⦃e : Eq K⦄ where
  -- Only known states are stored, with a positive count.
  unfoldable pub IsValid : StateMap K → Type 0
  IsValid m = (key : K) → IsEntry (get m key)

  stored :
      (key j : K) (info : StateValueInfo) (m : StateMap K)
      → IsValid m
      → IsKnown info
      → IsEntry (get (put m key info) j)
  unfolding IsValid
  stored key j info m valid known =
      rw (get-put m key j info) (if_both IsEntry (e.beq key j) _ _ (λ _. known) (λ _. valid j))

  erased : (key j : K) (m : StateMap K) → IsValid m → IsEntry (get (erase m key) j)
  unfolding IsValid
  erased key j m valid =
      rw (get-erase m key j) (if_both IsEntry (e.beq key j) _ _ (λ _. tt) (λ _. valid j))

  update_state_for_primary_key-IsValid :
      (key : K) (new_state : ℤ) (nested : Bool) (m : StateMap K)
      → IsValid m
      → IsValid (update_state_for_primary_key key new_state nested m).states
  unfolding IsValid update_state_for_primary_key
  update_state_for_primary_key-IsValid key new_state nested m valid j =
      if_both (λ n. IsEntry (get n j)) (eqb_ℤ new_state state_unknown) _ _
        (λ _. erased key j m valid)
        λ f. stored key j _ m valid (
          update_info-IsKnown new_state nested (info_or_blank (get m key)) f
            (unknown_or_IsKnown (get m key) (valid key)))

  reset_keys-IsValid :
      (keys : List K) (new_state : ℤ) (m : StateMap K)
      → IsValid m
      → IsValid (reset_keys keys new_state m).states
  unfolding reset_keys
  reset_keys-IsValid [] new_state m valid = valid
  reset_keys-IsValid (key ∷ keys) new_state m valid =
      reset_keys-IsValid keys new_state (update_state_for_primary_key key new_state false m).states
        (update_state_for_primary_key-IsValid key new_state false m valid)

  clear_state_for_primary_key-IsValid :
      (key : K) (m : StateMap K) → IsValid m → IsValid (clear_state_for_primary_key key m).states
  unfolding clear_state_for_primary_key
  clear_state_for_primary_key-IsValid key m valid = elim (Option-cases (get m key)) [
    | inl missing ↦ rw (clear_state_for_primary_key, missing) valid
    | inr (info, found) ↦
        rw (clear_state_for_primary_key, found)
          (update_state_for_primary_key-IsValid key state_unknown false m valid)
  ]

  on_log_event-IsValid :
      (event : LogEvent K) (m : StateMap K) → IsValid m → IsValid (on_log_event event m).states
  unfolding on_log_event handle_reset
  on_log_event-IsValid event m valid = elim (Option-cases event.exclusive_state) [
    | inl missing ↦ rw missing (clear_state_for_primary_key-IsValid event.primary_key m valid)
    | inr (other_value, found) ↦
        rw found (clear_state_for_primary_key-IsValid event.primary_key m valid)
    | inr (int_value s, found) ↦ rw found (
        if_both (λ (out : Outcome K). IsValid out.states) (eqb_ℤ event.reset_state (negsuc 0)) _ _
          (λ _. update_state_for_primary_key-IsValid event.primary_key s event.is_nested m valid)
          (λ _. reset_keys-IsValid (map (λ entry. entry.0) m) event.reset_state m valid))
  ]

  -- From a map in which every entry has a known state and a positive count, any events lead to such a
  -- map: a key whose state became unknown has no entry left, and no count sinks to zero.
  pub run-IsValid :
      (events : List (LogEvent K)) (m : StateMap K) → IsValid m → IsValid (run events m).states
  unfolding run
  run-IsValid [] m valid = valid
  run-IsValid (event ∷ events) m valid =
      run-IsValid events (on_log_event event m).states (on_log_event-IsValid event m valid)
