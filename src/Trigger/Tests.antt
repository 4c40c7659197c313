-- ===== src/Trigger/Tests.antt =====
-- Triggers at concrete names and times.
use packages_modules_stats_d.Common.{ℕ, ◌≡◌, refl, List, [], ◌∷◌, nat_eq, if◌then◌else◌}
use packages_modules_stats_d.Common.Int.{pos, ◌-ℤ◌}
use packages_modules_stats_d.Trigger.MultiCondition.{mark_all, are_marked, mark_all-init}
use packages_modules_stats_d.Trigger.RateLimited.{
  Move, calls, writes, run, trigger, IsSpaced, run-IsSpaced, run-trigger,
}
use packages_modules_stats_d.Trigger.MultiCondition
use packages_modules_stats_d.Trigger.RateLimited

mark_all_example :
    (mark_all {S = ℕ} (4 ∷ 9 ∷ 3 ∷ 4 ∷ []) (MultiCondition.init (3 ∷ 4 ∷ []))).started
    ≡ (if are_marked {S = ℕ} (3 ∷ 4 ∷ []) (4 ∷ 9 ∷ 3 ∷ 4 ∷ []) then 1 else 0)
mark_all_example = mark_all-init (3 ∷ 4 ∷ []) (4 ∷ 9 ∷ 3 ∷ 4 ∷ [])

-- Two threads read 0 and race: the second write fails. A third call is limited, a fourth is not.
abbrev race : List Move
race =
    calls (pos 5)
    ∷ calls (pos 6)
    ∷ writes 1
    ∷ writes 0
    ∷ calls (pos 9)
    ∷ calls (pos 15)
    ∷ writes 0
    ∷ []

race_executed : (run race (RateLimited.init (pos 10))).executed ≡ pos 15 ∷ pos 5 ∷ []
unfolding run ◌-ℤ◌
race_executed = refl

run-IsSpaced_example : IsSpaced (pos 10) (run race (RateLimited.init (pos 10))).executed
run-IsSpaced_example = run-IsSpaced (pos 10) race
