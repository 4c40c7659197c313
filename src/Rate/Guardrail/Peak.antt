-- ===== src/Rate/Guardrail/Peak.antt =====
-- The recorded peak of an atom id is the size of its largest window.
use packages_modules_stats_d.Common.{
  ℕ, zero, suc, ◌+◌, ◌≤◌, ◌<◌, ◌≡◌, refl, ap, ◌∙◌, none, some, true, false, List, [], ◌∷◌, length,
  max, if◌then◌else◌, arith, nat_eq, ◌==◌, Option-cases, inl, inr, Bool-cases,
}
use packages_modules_stats_d.Common.Int.{ℤ, ◌-ℤ◌, leb_ℤ}
use packages_modules_stats_d.Common.Dict.{get, get-put}
use packages_modules_stats_d.Rate.Guardrail.{
  RateInfo, LoggingRate, update_rate, note_log_event, get_max_rate,
}

-- The timestamps, from the first on, that are in the window that starts at `start`, and the others
-- from the first one outside.
abbrev inside : ℤ → ℤ → List ℤ → ℕ
inside window start [] = 0
inside window start (t ∷ ts) = if leb_ℤ window (t -ℤ start) then 0 else suc (inside window start ts)

abbrev outside : ℤ → ℤ → List ℤ → List ℤ
outside window start [] = []
outside window start (t ∷ ts) =
    if leb_ℤ window (t -ℤ start) then t ∷ ts else outside window start ts

-- The largest number of timestamps in one window, where the first timestamp outside a window opens the
-- next one. The fuel is at least the number of timestamps.
abbrev largest : ℕ → ℤ → List ℤ → ℕ
largest zero window ts = 0
largest (suc fuel) window [] = 0
largest (suc fuel) window (t ∷ ts) =
    max (suc (inside window t ts)) (largest fuel window (outside window t ts))

abbrev pub largest_window : ℤ → List ℤ → ℕ
largest_window window ts = largest (length ts) window ts

abbrev update_all : ℤ → List ℤ → RateInfo → RateInfo
update_all window [] info = info
update_all window (t ∷ ts) info = update_all window ts (update_rate window t info)

length-outside : (window start : ℤ) (ts : List ℤ) → length (outside window start ts) ≤ length ts
length-outside window start [] = omega arith
length-outside window start (t ∷ ts) = ground (arith, length-outside window start ts)

update_all-largest :
    (fuel : ℕ) (window : ℤ) (ts : List ℤ) (info : RateInfo)
    → length ts ≤ fuel
    → 1 ≤ info.max_rate
    → info.rate ≤ info.max_rate
    → (update_all window ts info).max_rate
      ≡ max info.max_rate (
          max
            (info.rate + inside window info.interval_start_ns ts)
            (largest fuel window (outside window info.interval_start_ns ts)))
unfolding update_rate
update_all-largest zero window [] info h one le = omega arith
update_all-largest (suc fuel) window [] info h one le = omega arith
update_all-largest zero window (t ∷ ts) info h one le = absurd (omega arith)
update_all-largest (suc fuel) window (t ∷ ts) info h one le =
    let opened = record info { interval_start_ns = t; rate = 1 } in
    let counted = record info {
      rate = suc info.rate;
      max_rate = max info.max_rate (suc info.rate);
    } in
    elim (Bool-cases (leb_ℤ window (t -ℤ info.interval_start_ns))) [
      | inl new ↦
          ap (λ i. (update_all window ts i).max_rate) {x = update_rate window t info} {y = opened}
            (rw new refl)
          ∙ update_all-largest fuel window ts opened (omega (arith, h)) one one
          ∙ rw new (omega (arith, le, one))
      | inr same ↦
          ap (λ i. (update_all window ts i).max_rate) {x = update_rate window t info} {y = counted}
            (rw same refl)
          ∙ update_all-largest (suc fuel) window ts counted (omega (arith, h)) (omega (arith, one))
              (omega arith)
          ∙ rw same (omega (arith, le))
    ]

-- The events of a log: an atom id and a timestamp each.
unfoldable pub run : List (ℕ × ℤ) → LoggingRate → LoggingRate
unfolding note_log_event
run [] t = t
run (event ∷ events) t = run events (note_log_event event.0 event.1 t)

abbrev pub times_of : ℕ → List (ℕ × ℤ) → List ℤ
times_of atom_id [] = []
times_of atom_id (event ∷ events) =
    if event.0 == atom_id then event.1 ∷ times_of atom_id events else times_of atom_id events

note_log_event-window :
    (atom_id : ℕ) (timestamp_ns : ℤ) (t : LoggingRate)
    → (note_log_event atom_id timestamp_ns t).log_frequency_window_ns ≡ t.log_frequency_window_ns
unfolding note_log_event
note_log_event-window atom_id timestamp_ns t = ground arith

note_log_event-other :
    (other atom_id : ℕ) (timestamp_ns : ℤ) (t : LoggingRate)
    → (other == atom_id) ≡ false
    → get (note_log_event other timestamp_ns t).rate_info atom_id ≡ get t.rate_info atom_id
unfolding note_log_event
note_log_event-other other atom_id timestamp_ns t ne = elim (Option-cases (get t.rate_info other)) [
  | inl missing ↦ ground (
    arith,
    get-put t.rate_info other atom_id
        (record { interval_start_ns = timestamp_ns; rate = 1; max_rate = 1 }),
  )
  | inr (info, found) ↦ ground (
    arith,
    get-put t.rate_info other atom_id (update_rate t.log_frequency_window_ns timestamp_ns info),
  )
]

note_log_event-known :
    (window : ℤ) (other atom_id : ℕ) (timestamp_ns : ℤ) (t : LoggingRate) (info : RateInfo)
    → (other == atom_id) ≡ true
    → t.log_frequency_window_ns ≡ window
    → get t.rate_info atom_id ≡ some info
    → get (note_log_event other timestamp_ns t).rate_info atom_id
      ≡ some (update_rate window timestamp_ns info)
unfolding note_log_event
note_log_event-known window other atom_id timestamp_ns t info same w found = ground (
  arith,
  get-put t.rate_info other atom_id (update_rate t.log_frequency_window_ns timestamp_ns info),
)

note_log_event-new :
    (atom_id : ℕ) (first : ℤ) (t : LoggingRate)
    → get t.rate_info atom_id ≡ none
    → length t.rate_info < t.max_rate_info_size
    → get (note_log_event atom_id first t).rate_info atom_id
      ≡ some (record { interval_start_ns = first; rate = 1; max_rate = 1 })
unfolding note_log_event
note_log_event-new atom_id first t missing room = ground (
  arith,
  get-put t.rate_info atom_id atom_id
      (record { interval_start_ns = first; rate = 1; max_rate = 1 }),
)

get_max_rate-known :
    (t : LoggingRate) (atom_id : ℕ) (info : RateInfo)
    → get t.rate_info atom_id ≡ some info
    → get_max_rate t atom_id ≡ info.max_rate
unfolding get_max_rate
get_max_rate-known t atom_id info found = rw (get_max_rate, found) refl

run-known :
    (window : ℤ) (events : List (ℕ × ℤ)) (atom_id : ℕ) (t : LoggingRate) (info : RateInfo)
    → t.log_frequency_window_ns ≡ window
    → get t.rate_info atom_id ≡ some info
    → get (run events t).rate_info atom_id ≡ some (update_all window (times_of atom_id events) info)
unfolding run
run-known window [] atom_id t info w found = found
run-known window ((other, timestamp_ns) ∷ events) atom_id t info w found =
    let u = note_log_event other timestamp_ns t in
    let v = note_log_event-window other timestamp_ns t ∙ w in
    elim (Bool-cases (other == atom_id)) [
      | inl same ↦ rw same (
          run-known window events atom_id u (update_rate window timestamp_ns info) v
            (note_log_event-known window other atom_id timestamp_ns t info same w found))
      | inr ne ↦ rw ne (
          run-known window events atom_id u info v
            (note_log_event-other other atom_id timestamp_ns t ne ∙ found))
    ]

-- If there is room for a new atom id when its first event comes: after that event and any others, of
-- this and other ids, the recorded peak of the id is the number of its events in its largest window,
-- where the first event outside a window opens the next one.
pub get_max_rate-run :
    (t : LoggingRate) (atom_id : ℕ) (first : ℤ) (events : List (ℕ × ℤ))
    → get t.rate_info atom_id ≡ none
    → length t.rate_info < t.max_rate_info_size
    → get_max_rate (run ((atom_id, first) ∷ events) t) atom_id
      ≡ largest_window t.log_frequency_window_ns (first ∷ times_of atom_id events)
unfolding run
get_max_rate-run t atom_id first events missing room =
    let window = t.log_frequency_window_ns in
    let u = note_log_event atom_id first t in
    let info : RateInfo = record { interval_start_ns = first; rate = 1; max_rate = 1 } in
    let times = times_of atom_id events in
    let known =
      run-known window events atom_id u info (note_log_event-window atom_id first t)
        (note_log_event-new atom_id first t missing room) in
    get_max_rate-known (run events u) atom_id (update_all window times info) known
    ∙ update_all-largest (length times) window times info (omega arith) (omega arith) (omega arith)
    ∙ omega arith
