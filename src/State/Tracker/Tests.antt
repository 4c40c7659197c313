-- ===== src/State/Tracker/Tests.antt =====
-- A run of a tracker over numbered keys, and the theorems at concrete inputs.
use packages_modules_stats_d.Common.{
  ℕ, ◌≡◌, refl, some, true, false, List, [], ◌∷◌, nat_eq, if◌then◌else◌,
}
use packages_modules_stats_d.Common.Int.{pos, negsuc, ltb_ℤ, ◌+ℤ◌, ◌-ℤ◌}
use packages_modules_stats_d.Common.Dict.{get, put, erase}
use packages_modules_stats_d.State.Tracker.{
  LogEvent, state_unknown, int_value, other_value, get_state_value, entered,
}
use packages_modules_stats_d.State.Tracker.Changes.{follow, run, follow-run}
use packages_modules_stats_d.State.Tracker.Counting.{switch, tally, switch_lem}
use packages_modules_stats_d.State.Tracker.Entries.{IsValid, run-IsValid}

abbrev acquired : ℕ → LogEvent ℕ
acquired key = record {
  primary_key = key;
  exclusive_state = some (int_value (pos 1));
  is_nested = true;
  reset_state = negsuc 0;
}

abbrev released : ℕ → LogEvent ℕ
released key = record (acquired key) { exclusive_state = some (int_value (pos 0)) }

abbrev malformed : ℕ → LogEvent ℕ
malformed key = record (acquired key) { exclusive_state = some other_value }

abbrev all_off : LogEvent ℕ
all_off = record (released 0) { reset_state = pos 0 }

abbrev events : List (LogEvent ℕ)
events = acquired 4 ∷ acquired 4 ∷ acquired 5 ∷ released 4 ∷ all_off ∷ malformed 5 ∷ []

-- The key that was reset has state 0, the one with the malformed event none.
state_after_reset : get_state_value (run events []).states 4 ≡ pos 0
unfolding run get_state_value get put erase ◌+ℤ◌ ◌-ℤ◌
state_after_reset = refl

state_after_error : get_state_value (run events []).states 5 ≡ state_unknown
unfolding run get_state_value get put erase ◌+ℤ◌ ◌-ℤ◌
state_after_error = refl

follow-run_example :
    follow 4 state_unknown (run events []).changes ≡ some (get_state_value (run events []).states 4)
follow-run_example = follow-run events 4

switch_example :
    (switch (pos 1) (pos 0) (true ∷ false ∷ false ∷ []) (entered (pos 1))).state
    ≡ (if ltb_ℤ (pos 0) (pos 1 +ℤ tally (true ∷ false ∷ false ∷ [])) then pos 1 else pos 0)
switch_example = switch_lem (pos 1) (pos 0) (true ∷ false ∷ false ∷ []) refl refl refl

run-IsValid_example : IsValid (run {K = ℕ} events []).states
run-IsValid_example = run-IsValid events [] (unfold IsValid get in λ key. tt)
