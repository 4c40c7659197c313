-- ===== src/Rate/Tests.antt =====
-- Counters at concrete events.
use packages_modules_stats_d.Common.{ℕ, ◌≡◌, refl, arith, List, [], ◌∷◌, ◌++◌, length, max, nat_eq}
use packages_modules_stats_d.Common.Int.{ℤ, pos, ◌-ℤ◌}
use packages_modules_stats_d.Common.Dict.{get, put}
use packages_modules_stats_d.Rate.Guardrail
use packages_modules_stats_d.Rate.Limiter
use packages_modules_stats_d.Rate.Guardrail.{
  LoggingRate, PeakRate, get_max_rate, get_max_rates, peaks, note_log_event,
}
use packages_modules_stats_d.Rate.Guardrail.Peak.{run, largest_window, times_of, get_max_rate-run}
use packages_modules_stats_d.Rate.Guardrail.Top.{IsFalling, count, get_max_rates-IsFalling}
use packages_modules_stats_d.Rate.Limiter.{allowed, allowed-Opens, calls_of}
use Prim.Native.Nat.{min}

abbrev log : List (ℕ × ℤ)
log = (4, pos 12) ∷ (9, pos 13) ∷ (4, pos 19) ∷ (4, pos 20) ∷ (9, pos 22) ∷ (7, pos 22) ∷ []

-- The window of 10 from 10 on holds three events of atom 4; there is no room for atom 7.
abbrev rates : LoggingRate
rates = run ((4, pos 10) ∷ log) (Guardrail.init 2 (pos 10))

top_rates : get_max_rates 5 rates ≡ (4, 3) ∷ (9, 2) ∷ []
unfolding get_max_rates run get put ◌-ℤ◌
top_rates = refl

get_max_rate_example :
    get_max_rate (run ((4, pos 10) ∷ log) (Guardrail.init 2 (pos 10))) 4
    ≡ largest_window (pos 10) (pos 10 ∷ times_of 4 log)
get_max_rate_example =
    get_max_rate-run (Guardrail.init 2 (pos 10)) 4 (pos 10) log (unfold get in refl) (omega arith)

get_max_rates_example :
    (length (get_max_rates 1 rates) ≡ min 1 (length rates.rate_info))
    × ((rest : List PeakRate) × IsFalling (get_max_rates 1 rates ++ rest)
        × ((a r : ℕ) → count a r (get_max_rates 1 rates ++ rest) ≡ count a r (peaks rates)))
get_max_rates_example = get_max_rates-IsFalling 1 rates

abbrev calls : List (ℕ × ℤ)
calls = (4, pos 120) ∷ (9, pos 999999999) ∷ (4, pos 99999999) ∷ []

allowed_example :
    allowed 4 ((4, pos 0) ∷ calls) (Limiter.init 2 100)
    ≡ max 1 (min (calls_of 4 ((4, pos 0) ∷ calls)) 2)
allowed_example =
    allowed-Opens (Limiter.init 2 100) 4 (pos 0) calls (unfold get in tt)
      (unfold ◌-ℤ◌ in ((λ _. refl), ((λ h. absurd (ground arith)), ((λ _. refl), tt))))
