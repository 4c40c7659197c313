-- ===== src/Rate/Guardrail.antt =====
-- LoggingRate: the peak rate of each atom id.
pub mod Peak
pub mod Top
use packages_modules_stats_d.Common.{
  ℕ, zero, suc, Option, none, some, Bool, true, false, List, [], ◌∷◌, ltb, leb, length, take, map,
  max, if◌then◌else◌, nat_eq,
}
use packages_modules_stats_d.Common.Int.{ℤ, ◌-ℤ◌, leb_ℤ}
use packages_modules_stats_d.Common.Dict.{Dict, get, put}

pub record RateInfo : Type 0 where
  pub interval_start_ns : ℤ
  pub rate : ℕ
  pub max_rate : ℕ

pub record LoggingRate : Type 0 where
  pub max_rate_info_size : ℕ
  pub log_frequency_window_ns : ℤ
  pub rate_info : Dict ℕ RateInfo

abbrev pub init : ℕ → ℤ → LoggingRate
init max_stats_num window = record {
  max_rate_info_size = max_stats_num;
  log_frequency_window_ns = window;
  rate_info = [];
}

-- The entry of a known atom id.
unfoldable pub update_rate : ℤ → ℤ → RateInfo → RateInfo
update_rate window timestamp_ns info =
    if leb_ℤ window (timestamp_ns -ℤ info.interval_start_ns)
    then record info { interval_start_ns = timestamp_ns; rate = 1 }
    else record info { rate = suc info.rate; max_rate = max info.max_rate (suc info.rate) }

unfoldable pub note_log_event : ℕ → ℤ → LoggingRate → LoggingRate
unfolding update_rate
note_log_event atom_id timestamp_ns t = elim (get t.rate_info atom_id) [
  | some info ↦ record t {
    rate_info = put t.rate_info atom_id (update_rate t.log_frequency_window_ns timestamp_ns info);
  }
  | none ↦
      if ltb (length t.rate_info) t.max_rate_info_size
      then record t {
        rate_info =
            put t.rate_info atom_id
              (record { interval_start_ns = timestamp_ns; rate = 1; max_rate = 1 });
      }
      else t
]

unfoldable pub get_max_rate : LoggingRate → ℕ → ℕ
get_max_rate t atom_id = elim (get t.rate_info atom_id) [ none ↦ 0 | some info ↦ info.max_rate ]

-- PeakRatePerAtomId
abbrev pub PeakRate : Type 0
PeakRate = ℕ × ℕ

-- std::sort by falling rates: any order of equal rates would do.
unfoldable pub insert_peak : PeakRate → List PeakRate → List PeakRate
insert_peak p [] = p ∷ []
insert_peak p (q ∷ qs) = if ltb p.1 q.1 then q ∷ insert_peak p qs else p ∷ q ∷ qs

unfoldable pub sort_peaks : List PeakRate → List PeakRate
unfolding insert_peak
sort_peaks [] = []
sort_peaks (p ∷ ps) = insert_peak p (sort_peaks ps)

unfoldable pub peaks : LoggingRate → List PeakRate
peaks t = map (λ entry. (entry.0, entry.1.max_rate)) t.rate_info

unfoldable pub get_max_rates : ℕ → LoggingRate → List PeakRate
unfolding sort_peaks peaks
get_max_rates top_n t = take top_n (sort_peaks (peaks t))

unfoldable pub reset : LoggingRate → LoggingRate
reset t = record t { rate_info = [] }
