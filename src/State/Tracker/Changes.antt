-- ===== src/State/Tracker/Changes.antt =====
-- The calls of notifyListeners tell a listener every state.
use packages_modules_stats_d.Common.{
  ◌≡◌, refl, Option, none, some, Bool, true, false, List, [], ◌∷◌, ◌++◌, map, arith, if◌then◌else◌,
  Eq, if_both, Option-cases, inl, inr,
}
use packages_modules_stats_d.Common.Int.{ℤ, negsuc, eqb_ℤ, eqb_ℤ_iff}
use packages_modules_stats_d.Common.Dict.{get, get-put, get-erase}
use packages_modules_stats_d.State.Tracker.{
  state_unknown, LogEvent, StateValueInfo, StateMap, Change, Outcome, info_or_blank, update_info,
  update_state_for_primary_key, reset_keys, handle_reset, clear_state_for_primary_key, on_log_event,
  get_state_value, int_value, other_value,
}

-- The new entry has the state it had, unless listeners are told another one; an unknown state is told
-- if the old one was known.
update_info-Told :
    (new_state : ℤ) (nested : Bool) (info : StateValueInfo)
    → if (update_info new_state nested info).1
      then ((eqb_ℤ new_state info.state ≡ false)
          × (if eqb_ℤ new_state state_unknown
              then Unit
              else ((update_info new_state nested info).0.state ≡ new_state)))
      else ((update_info new_state nested info).0.state ≡ info.state)
        × (eqb_ℤ new_state state_unknown ≡ true → eqb_ℤ info.state state_unknown ≡ true)
unfolding update_info
update_info-Told new_state false info = ground (arith, eqb_ℤ_iff new_state info.state)
update_info-Told new_state true info =
    ground (arith, eqb_ℤ_iff new_state info.state, eqb_ℤ_iff info.state new_state)

module _ {K : Type 0} ⦃e : Eq K⦄ where
  -- A listener that keeps the state of one key. It fails on a change that does not start from the
  -- state it has, or does not leave it.
  unfoldable pub follow : K → ℤ → List (Change K) → Option ℤ
  follow key s [] = some s
  follow key s (c ∷ cs) =
      if e.beq c.primary_key key
      then if eqb_ℤ c.new_state s
        then none
        else if eqb_ℤ c.old_state s
        then follow key c.new_state cs
        else none
      else follow key s cs

  follow-append :
      (key : K) (s : ℤ) (xs ys : List (Change K)) {u v : ℤ}
      → follow key s xs ≡ some u
      → follow key u ys ≡ some v
      → follow key s (xs ++ ys) ≡ some v
  unfolding follow
  follow-append key s [] ys h g = ground arith
  follow-append key s (c ∷ cs) ys {u = u} {v = v} h g = ground (
    arith,
    follow-append key c.new_state cs ys {u = u} {v = v},
    follow-append key s cs ys {u = u} {v = v},
  )

  -- A listener with the state of a key before an operation has the state after it.
  unfoldable pub IsTold : StateMap K → Outcome K → Type 0
  IsTold m out =
      (key : K)
      → follow key (get_state_value m key) out.changes ≡ some (get_state_value out.states key)

  update_state_for_primary_key-IsTold :
      (key : K) (new_state : ℤ) (nested : Bool) (m : StateMap K)
      → IsTold m (update_state_for_primary_key key new_state nested m)
  unfolding IsTold update_state_for_primary_key get_state_value follow
  update_state_for_primary_key-IsTold key new_state nested m j =
      let old = info_or_blank (get m key) in
      ground (
        arith,
        update_info-Told new_state nested old,
        get-put m key j (update_info new_state nested old).0,
        get-erase m key j,
        e.beq_iff key j,
        eqb_ℤ_iff new_state state_unknown,
        eqb_ℤ_iff old.state state_unknown,
      )

  reset_keys-IsTold :
      (keys : List K) (new_state : ℤ) (m : StateMap K) → IsTold m (reset_keys keys new_state m)
  unfolding IsTold reset_keys follow
  reset_keys-IsTold [] new_state m j = refl
  reset_keys-IsTold (key ∷ keys) new_state m j =
      let first = update_state_for_primary_key key new_state false m in
      follow-append j _ first.changes _
        (unfold IsTold in update_state_for_primary_key-IsTold key new_state false m j)
        (reset_keys-IsTold keys new_state first.states j)

  clear_state_for_primary_key-IsTold :
      (key : K) (m : StateMap K) → IsTold m (clear_state_for_primary_key key m)
  unfolding clear_state_for_primary_key
  clear_state_for_primary_key-IsTold key m = elim (Option-cases (get m key)) [
    | inl missing ↦ rw (clear_state_for_primary_key, missing) (unfold IsTold follow in λ j. refl)
    | inr (info, found) ↦
        rw (clear_state_for_primary_key, found)
          (update_state_for_primary_key-IsTold key state_unknown false m)
  ]

  on_log_event-IsTold : (event : LogEvent K) (m : StateMap K) → IsTold m (on_log_event event m)
  unfolding on_log_event handle_reset
  on_log_event-IsTold event m = elim (Option-cases event.exclusive_state) [
    | inl missing ↦ rw missing (clear_state_for_primary_key-IsTold event.primary_key m)
    | inr (other_value, found) ↦ rw found (clear_state_for_primary_key-IsTold event.primary_key m)
    | inr (int_value s, found) ↦ rw found (
        if_both (IsTold m) (eqb_ℤ event.reset_state (negsuc 0)) _ _
          (λ _. update_state_for_primary_key-IsTold event.primary_key s event.is_nested m)
          (λ _. reset_keys-IsTold (map (λ entry. entry.0) m) event.reset_state m))
  ]

  -- A sequence of events on a tracker, with all its changes.
  unfoldable pub run : List (LogEvent K) → StateMap K → Outcome K
  unfolding on_log_event
  run [] m = record { states = m; changes = [] }
  run (event ∷ events) m =
      let first = on_log_event event m in
      let others = run events first.states in
      record { states = others.states; changes = first.changes ++ others.changes }

  run-IsTold : (events : List (LogEvent K)) (m : StateMap K) → IsTold m (run events m)
  unfolding IsTold run follow
  run-IsTold [] m j = refl
  run-IsTold (event ∷ events) m j =
      let first = on_log_event event m in
      follow-append j _ first.changes _ (unfold IsTold in on_log_event-IsTold event m j)
        (run-IsTold events first.states j)

  -- After any events on a new tracker, resets and erroneous events included, a listener that starts
  -- from the unknown state of a key and follows the changes has the state that getStateValue returns:
  -- each change starts from the state it has and leads to another one.
  pub follow-run :
      (events : List (LogEvent K)) (key : K)
      → follow key state_unknown (run events []).changes
        ≡ some (get_state_value (run events []).states key)
  follow-run events key = unfold get_state_value get IsTold in run-IsTold events [] key
