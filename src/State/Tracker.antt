-- ===== src/State/Tracker.antt =====
-- statsd/src/state/StateTracker.h and .cpp: the state of each primary key of an atom. An event is what
-- onLogEvent reads of a LogEvent; the changes are the calls of notifyListeners, in order, which every
-- listener gets. The set of listeners, the event's time and the field's tag are left out.
pub mod Changes
pub mod Counting
pub mod Entries
pub mod Tests
use packages_modules_stats_d.Common.{
  Option, none, some, Bool, true, false, List, [], ◌∷◌, ◌++◌, map, if◌then◌else◌, Eq,
}
use packages_modules_stats_d.Common.Int.{ℤ, pos, negsuc, ◌+ℤ◌, ◌-ℤ◌, eqb_ℤ}
use packages_modules_stats_d.Common.Dict.{Dict, get, put, erase}

-- kStateUnknown
abbrev pub state_unknown : ℤ
state_unknown = negsuc 0

-- A value of a field: an INT or any other type.
pub data Value : Type 0 where
  int_value : ℤ → Value
  other_value : Value

-- `exclusive_state` is the exclusive state field, with its annotation for nesting; `reset_state` is -1
-- where the event resets nothing.
pub record LogEvent (K : Type 0) : Type 0 where
  pub primary_key : K
  pub exclusive_state : Option Value
  pub is_nested : Bool
  pub reset_state : ℤ

pub record StateValueInfo : Type 0 where
  pub state : ℤ
  pub count : ℤ

abbrev pub StateMap : Type 0 → Type 0
StateMap K = Dict K StateValueInfo

-- One call of notifyListeners.
pub record Change (K : Type 0) : Type 0 where
  pub primary_key : K
  pub old_state : ℤ
  pub new_state : ℤ

-- The state map after an operation, and the changes.
pub record Outcome (K : Type 0) : Type 0 where
  pub states : StateMap K
  pub changes : List (Change K)

-- The members of a new entry, as they are declared.
abbrev pub blank : StateValueInfo
blank = record { state = state_unknown; count = pos 0 }

abbrev pub entered : ℤ → StateValueInfo
entered new_state = record { state = new_state; count = pos 1 }

-- The branches of updateStateForPrimaryKey: the entry, and whether listeners are notified.
unfoldable pub update_info : ℤ → Bool → StateValueInfo → StateValueInfo × Bool
update_info new_state false info =
    if eqb_ℤ new_state info.state then (info, false) else (entered new_state, true)
update_info new_state true info =
    if eqb_ℤ new_state state_unknown
    then (if eqb_ℤ info.state state_unknown then (info, false) else (info, true))
    else if eqb_ℤ info.state state_unknown
    then (entered new_state, true)
    else if eqb_ℤ info.state new_state
    then (record info { count = info.count +ℤ pos 1 }, false)
    else if eqb_ℤ (info.count -ℤ pos 1) (pos 0)
    then (entered new_state, true)
    else (record info { count = info.count -ℤ pos 1 }, false)

abbrev pub info_or_blank : Option StateValueInfo → StateValueInfo
info_or_blank none = blank
info_or_blank (some info) = info

module _ {K : Type 0} ⦃e : Eq K⦄ where
  -- The reference to the entry is the entry of the key, new if there is none.
  unfoldable pub update_state_for_primary_key : K → ℤ → Bool → StateMap K → Outcome K
  unfolding update_info
  update_state_for_primary_key key new_state nested m =
      let old = info_or_blank (get m key) in
      let (info, told) = update_info new_state nested old in
      record {
        states = if eqb_ℤ new_state state_unknown then erase m key else put m key info;
        changes =
            if told
            then record { primary_key = key; old_state = old.state; new_state = new_state } ∷ []
            else [];
      }

  -- The loop of handleReset over the keys of the map.
  unfoldable pub reset_keys : List K → ℤ → StateMap K → Outcome K
  unfolding update_state_for_primary_key
  reset_keys [] new_state m = record { states = m; changes = [] }
  reset_keys (key ∷ keys) new_state m =
      let first = update_state_for_primary_key key new_state false m in
      let others = reset_keys keys new_state first.states in
      record { states = others.states; changes = first.changes ++ others.changes }

  unfoldable pub handle_reset : ℤ → StateMap K → Outcome K
  unfolding reset_keys
  handle_reset new_state m = reset_keys (map (λ entry. entry.0) m) new_state m

  unfoldable pub clear_state_for_primary_key : K → StateMap K → Outcome K
  unfolding update_state_for_primary_key
  clear_state_for_primary_key key m = elim (get m key) [
    | none ↦ record { states = m; changes = [] }
    | some _ ↦ update_state_for_primary_key key state_unknown false m
  ]

  unfoldable pub on_log_event : LogEvent K → StateMap K → Outcome K
  unfolding handle_reset clear_state_for_primary_key update_state_for_primary_key
  on_log_event event m = elim event.exclusive_state [
    | none ↦ clear_state_for_primary_key event.primary_key m
    | some other_value ↦ clear_state_for_primary_key event.primary_key m
    | some (int_value new_state) ↦
        if eqb_ℤ event.reset_state (negsuc 0)
        then update_state_for_primary_key event.primary_key new_state event.is_nested m
        else handle_reset event.reset_state m
  ]

  unfoldable pub get_state_value : StateMap K → K → ℤ
  get_state_value m key = (info_or_blank (get m key)).state
