-- ===== src/Rate/Guardrail/Top.antt =====
-- getMaxRates returns the largest peaks, and the map stays in its bound.
use packages_modules_stats_d.Common.{
  ℕ, suc, ◌≤◌, ◌≡◌, refl, ap, ◌∙◌, List, [], ◌∷◌, ◌++◌, length, drop, if◌then◌else◌, arith, nat_eq,
  ◌==◌, Option-cases, inl, inr, ◌&&◌, take-append-drop, length-take, length-map,
}
use packages_modules_stats_d.Common.Dict.{get, length-put}
use packages_modules_stats_d.Common.Int.{ℤ}
use packages_modules_stats_d.Rate.Guardrail.{
  LoggingRate, PeakRate, note_log_event, insert_peak, update_rate, sort_peaks, peaks, get_max_rates,
}
use Prim.Native.Nat.{min}

abbrev pub IsFalling : List PeakRate → Type 0
IsFalling [] = Unit
IsFalling (p ∷ []) = Unit
IsFalling (p ∷ q ∷ qs) = (q.1 ≤ p.1) × IsFalling (q ∷ qs)

-- How often a pair occurs.
abbrev pub count : ℕ → ℕ → List PeakRate → ℕ
count atom_id rate [] = 0
count atom_id rate (p ∷ ps) =
    if (p.0 == atom_id) && (p.1 == rate) then suc (count atom_id rate ps) else count atom_id rate ps

IsFalling-insert_peak :
    (p : PeakRate) (ps : List PeakRate) → IsFalling ps → IsFalling (insert_peak p ps)
unfolding insert_peak
IsFalling-insert_peak p [] h = tt
IsFalling-insert_peak p (q ∷ []) h = ground arith
IsFalling-insert_peak p (q ∷ r ∷ qs) h = ground (arith, IsFalling-insert_peak p (r ∷ qs) h.1)

IsFalling-sort_peaks : (ps : List PeakRate) → IsFalling (sort_peaks ps)
unfolding sort_peaks
IsFalling-sort_peaks [] = tt
IsFalling-sort_peaks (p ∷ ps) = IsFalling-insert_peak p (sort_peaks ps) (IsFalling-sort_peaks ps)

count-insert_peak :
    (a r : ℕ) (p : PeakRate) (ps : List PeakRate)
    → count a r (insert_peak p ps) ≡ count a r (p ∷ ps)
unfolding insert_peak
count-insert_peak a r p [] = refl
count-insert_peak a r p (q ∷ qs) = ground (arith, count-insert_peak a r p qs)

count-sort_peaks : (a r : ℕ) (ps : List PeakRate) → count a r (sort_peaks ps) ≡ count a r ps
unfolding sort_peaks
count-sort_peaks a r [] = refl
count-sort_peaks a r (p ∷ ps) =
    ground (arith, count-insert_peak a r p (sort_peaks ps), count-sort_peaks a r ps)

length-insert_peak :
    (p : PeakRate) (ps : List PeakRate) → length (insert_peak p ps) ≡ suc (length ps)
unfolding insert_peak
length-insert_peak p [] = refl
length-insert_peak p (q ∷ qs) = ground (arith, length-insert_peak p qs)

length-sort_peaks : (ps : List PeakRate) → length (sort_peaks ps) ≡ length ps
unfolding sort_peaks
length-sort_peaks [] = refl
length-sort_peaks (p ∷ ps) = length-insert_peak p (sort_peaks ps) ∙ ap suc (length-sort_peaks ps)

length-peaks : (t : LoggingRate) → length (peaks t) ≡ length t.rate_info
unfolding peaks
length-peaks t = length-map t.rate_info (λ entry. (entry.0, entry.1.max_rate))

-- For any limit: getMaxRates returns that many pairs, or one for each recorded atom id if there are
-- fewer; and with the pairs that it leaves out, which follow in the order, they are the recorded peaks,
-- each as often as it is recorded, by falling rates.
pub get_max_rates-IsFalling :
    (top_n : ℕ) (t : LoggingRate)
    → (length (get_max_rates top_n t) ≡ min top_n (length t.rate_info))
      × ((rest : List PeakRate) × IsFalling (get_max_rates top_n t ++ rest)
          × ((a r : ℕ) → count a r (get_max_rates top_n t ++ rest) ≡ count a r (peaks t)))
unfolding get_max_rates
get_max_rates-IsFalling top_n t =
    let sorted = sort_peaks (peaks t) in
    let whole = take-append-drop top_n sorted in
    (
      omega (arith, length-take top_n sorted, length-sort_peaks (peaks t), length-peaks t),
      (
        drop top_n sorted,
        rw whole (IsFalling-sort_peaks (peaks t)),
        λ a r. rw whole (count-sort_peaks a r (peaks t)),
      ),
    )

-- The map never holds more atom ids than its limit, if it did not before an event.
pub length-note_log_event :
    (atom_id : ℕ) (timestamp_ns : ℤ) (t : LoggingRate)
    → length t.rate_info ≤ t.max_rate_info_size
    → length (note_log_event atom_id timestamp_ns t).rate_info ≤ t.max_rate_info_size
unfolding note_log_event
length-note_log_event atom_id timestamp_ns t h = elim (Option-cases (get t.rate_info atom_id)) [
  | inl missing ↦ ground (
    arith,
    length-put t.rate_info atom_id
        (record { interval_start_ns = timestamp_ns; rate = 1; max_rate = 1 }),
  )
  | inr (info, found) ↦ ground (
    arith,
    length-put t.rate_info atom_id (update_rate t.log_frequency_window_ns timestamp_ns info),
  )
]
