-- ===== src/Rate/Limiter.antt =====
-- lib/libstatssocket/logging_rate_limiter.h: at most a number of logs of an atom id in a window. The
-- clock is a parameter; the window is held in nanoseconds.
use packages_modules_stats_d.Common.{
  ℕ, suc, ◌-◌, ◌*◌, ◌%◌, ◌^◌, ltb, ◌≡◌, subst, ◌∙◌, Option, none, some, Bool, true, false, List, [],
  ◌∷◌, leb, max, if◌then◌else◌, arith, nat_eq, beq_refl, ◌==◌, Option-cases, inl, inr, Bool-cases,
}
use packages_modules_stats_d.Common.Int.{ℤ, pos, negsuc, ◌-ℤ◌, leb_ℤ}
use packages_modules_stats_d.Common.Dict.{Dict, get, put, get-put}
use Prim.Native.Nat.{min}

pub record Frequency : Type 0 where
  pub interval_start_ns : ℤ
  pub logs_count : ℕ

pub record LoggingRateLimiter : Type 0 where
  pub log_frequency_threshold : ℕ
  pub log_frequency_window_ns : ℤ
  pub log_frequencies : Dict ℕ Frequency

-- The value that an int32_t keeps of a number.
abbrev pub to_int32 : ℕ → ℤ
to_int32 n = let low = n % 2 ^ 32 in if ltb low (2 ^ 31) then pos low else negsuc (2 ^ 32 - low - 1)

-- The product is computed in an int32_t, and wraps for a window of more than 2147 ms.
abbrev pub init : ℕ → ℕ → LoggingRateLimiter
init log_frequency_threshold log_frequency_window_ms = record {
  log_frequency_threshold = log_frequency_threshold;
  log_frequency_window_ns = to_int32 (log_frequency_window_ms * 1000000);
  log_frequencies = [];
}

abbrev pub is_logging_under_threshold : LoggingRateLimiter → ℕ → Bool
is_logging_under_threshold t logs_count = leb logs_count t.log_frequency_threshold

abbrev put_frequency : ℕ → ℤ → ℕ → LoggingRateLimiter → LoggingRateLimiter
put_frequency atom_id start count t = record t {
  log_frequencies =
      put t.log_frequencies atom_id (record { interval_start_ns = start; logs_count = count });
}

-- The branches for an entry of the map.
abbrev log_known : ℕ → ℤ → Frequency → LoggingRateLimiter → LoggingRateLimiter × Bool
log_known atom_id now_ns f t =
    if leb_ℤ t.log_frequency_window_ns (now_ns -ℤ f.interval_start_ns)
    then (put_frequency atom_id now_ns 1 t, true)
    else (
      put_frequency atom_id f.interval_start_ns (suc f.logs_count) t,
      is_logging_under_threshold t (suc f.logs_count),
    )

unfoldable pub can_log_atom : ℕ → ℤ → LoggingRateLimiter → LoggingRateLimiter × Bool
can_log_atom atom_id now_ns t = elim (get t.log_frequencies atom_id) [
  | none ↦ (put_frequency atom_id now_ns 1 t, true)
  | some f ↦ log_known atom_id now_ns f t
]

-- Calls for atom ids at times: how many of the calls for one id were allowed.
unfoldable pub allowed : ℕ → List (ℕ × ℤ) → LoggingRateLimiter → ℕ
allowed atom_id [] t = 0
allowed atom_id ((other, now_ns) ∷ calls) t =
    let (u, ok) = can_log_atom other now_ns t in
    let rest = allowed atom_id calls u in
    if other == atom_id then (if ok then suc rest else rest) else rest

-- The calls for the id, and whether they all come before the window from `start` is over.
abbrev pub calls_of : ℕ → List (ℕ × ℤ) → ℕ
calls_of atom_id [] = 0
calls_of atom_id ((other, now_ns) ∷ calls) =
    if other == atom_id then suc (calls_of atom_id calls) else calls_of atom_id calls

abbrev pub IsWithin : ℕ → ℤ → ℤ → List (ℕ × ℤ) → Type 0
IsWithin atom_id window start [] = Unit
IsWithin atom_id window start ((other, now_ns) ∷ calls) =
    ((other == atom_id) ≡ true → leb_ℤ window (now_ns -ℤ start) ≡ false)
    × IsWithin atom_id window start calls

can_log_atom-other :
    (other atom_id : ℕ) (now_ns : ℤ) (t : LoggingRateLimiter)
    → (other == atom_id) ≡ false
    → get (can_log_atom other now_ns t).0.log_frequencies atom_id ≡ get t.log_frequencies atom_id
unfolding can_log_atom
can_log_atom-other other atom_id now_ns t ne = elim (Option-cases (get t.log_frequencies other)) [
  | inl missing ↦ ground (
    arith,
    get-put t.log_frequencies other atom_id (record { interval_start_ns = now_ns; logs_count = 1 }),
  )
  | inr (f, found) ↦ ground (
    arith,
    get-put t.log_frequencies other atom_id (record { interval_start_ns = now_ns; logs_count = 1 }),
    get-put t.log_frequencies other atom_id
        (record { interval_start_ns = f.interval_start_ns; logs_count = suc f.logs_count }),
  )
]

can_log_atom-settings :
    (atom_id : ℕ) (now_ns : ℤ) (t : LoggingRateLimiter)
    → ((can_log_atom atom_id now_ns t).0.log_frequency_threshold ≡ t.log_frequency_threshold)
      × ((can_log_atom atom_id now_ns t).0.log_frequency_window_ns ≡ t.log_frequency_window_ns)
unfolding can_log_atom
can_log_atom-settings atom_id now_ns t = ground arith

can_log_atom-inside :
    (other atom_id threshold : ℕ) (window start now_ns : ℤ) (count : ℕ) (t : LoggingRateLimiter)
    → (other == atom_id) ≡ true
    → t.log_frequency_threshold ≡ threshold
    → t.log_frequency_window_ns ≡ window
    → get t.log_frequencies atom_id
      ≡ some (record { interval_start_ns = start; logs_count = count })
    → leb_ℤ window (now_ns -ℤ start) ≡ false
    → (get (can_log_atom other now_ns t).0.log_frequencies atom_id
        ≡ some (record { interval_start_ns = start; logs_count = suc count }))
      × ((can_log_atom other now_ns t).1 ≡ leb (suc count) threshold)
unfolding can_log_atom
can_log_atom-inside other atom_id threshold window start now_ns count t same th w found within =
    ground (
      arith,
      get-put t.log_frequencies other atom_id
          (record { interval_start_ns = start; logs_count = suc count }),
    )

-- An id with no entry, or one whose window is over.
abbrev pub Opens : ℤ → ℤ → Option Frequency → Type 0
Opens window now_ns none = Unit
Opens window now_ns (some f) = leb_ℤ window (now_ns -ℤ f.interval_start_ns) ≡ true

can_log_atom-Opens :
    (atom_id : ℕ) (now_ns : ℤ) (t : LoggingRateLimiter)
    → Opens t.log_frequency_window_ns now_ns (get t.log_frequencies atom_id)
    → (get (can_log_atom atom_id now_ns t).0.log_frequencies atom_id
        ≡ some (record { interval_start_ns = now_ns; logs_count = 1 }))
      × ((can_log_atom atom_id now_ns t).1 ≡ true)
unfolding can_log_atom
can_log_atom-Opens atom_id now_ns t fresh = elim (Option-cases (get t.log_frequencies atom_id)) [
  | inl missing ↦ ground (
    arith,
    get-put t.log_frequencies atom_id atom_id
        (record { interval_start_ns = now_ns; logs_count = 1 }),
  )
  | inr (f, found) ↦
      let over : leb_ℤ t.log_frequency_window_ns (now_ns -ℤ f.interval_start_ns) ≡ true =
        subst (Opens t.log_frequency_window_ns now_ns) found fresh in
      ground (
        arith,
        get-put t.log_frequencies atom_id atom_id
            (record { interval_start_ns = now_ns; logs_count = 1 }),
      )
]

allowed-inside :
    (atom_id threshold : ℕ) (window start : ℤ) (count : ℕ) (calls : List (ℕ × ℤ))
    (t : LoggingRateLimiter)
    → t.log_frequency_threshold ≡ threshold
    → t.log_frequency_window_ns ≡ window
    → get t.log_frequencies atom_id
      ≡ some (record { interval_start_ns = start; logs_count = count })
    → IsWithin atom_id window start calls
    → allowed atom_id calls t ≡ min (calls_of atom_id calls) (threshold - count)
unfolding allowed
allowed-inside atom_id threshold window start count [] t th w found inside = omega arith
allowed-inside atom_id threshold window start count ((other, now_ns) ∷ calls) t th w found inside =
    let s = can_log_atom-settings other now_ns t in
    let u = (can_log_atom other now_ns t).0 in
    elim (Bool-cases (other == atom_id)) [
      | inl same ↦
          let (counted, ok) =
            can_log_atom-inside other atom_id threshold window start now_ns count t same th w found
              (inside.0 same) in
          let rest =
            allowed-inside atom_id threshold window start (suc count) calls u (s.0 ∙ th) (s.1 ∙ w)
              counted inside.1 in
          rw (same, ok, rest) (ground arith)
      | inr ne ↦ rw ne (
          allowed-inside atom_id threshold window start count calls u (s.0 ∙ th) (s.1 ∙ w)
            (can_log_atom-other other atom_id now_ns t ne ∙ found) inside.1)
    ]

-- When a call for an atom id opens a window, because the id has no entry or its window is over, and the
-- calls of the id that follow lie inside the new window, whatever calls of other ids come between: of
-- the calls of the id, that first one included, as many are allowed as the threshold says, or all if
-- they are fewer, and at least one.
pub allowed-Opens :
    (t : LoggingRateLimiter) (atom_id : ℕ) (start : ℤ) (calls : List (ℕ × ℤ))
    → Opens t.log_frequency_window_ns start (get t.log_frequencies atom_id)
    → IsWithin atom_id t.log_frequency_window_ns start calls
    → allowed atom_id ((atom_id, start) ∷ calls) t
      ≡ max 1 (min (suc (calls_of atom_id calls)) t.log_frequency_threshold)
unfolding allowed
allowed-Opens t atom_id start calls opens inside =
    let s = can_log_atom-settings atom_id start t in
    let (entry, ok) = can_log_atom-Opens atom_id start t opens in
    let rest =
      allowed-inside atom_id t.log_frequency_threshold t.log_frequency_window_ns start 1 calls
        (can_log_atom atom_id start t).0 s.0 s.1 entry inside in
    rw (beq_refl nat_eq atom_id, ok, rest) (omega arith)
