-- ===== src/Duration/Sums.antt =====
-- The sums of integers behind the flush.
use packages_modules_stats_d.Common.{
  ℕ, ◌+◌, ◌-◌, ◌*◌, ◌≡◌, refl, ap, Bool, true, false, ◌&&◌, not, ltb, if◌then◌else◌, arith,
}
use packages_modules_stats_d.Common.Int.{
  ℤ, pos, ◌+ℤ◌, ◌-ℤ◌, ◌≤ℤ◌, pos_part, neg_part, int_laws, eq_of_parts,
}

-- The sums of the flush, where `b` says whether time runs for the key.
pub balance :
    (f0 f1 f2 d z z2 last end_ns begin event x : ℤ) (b : Bool)
    → f1 +ℤ z ≡ f0 +ℤ (d +ℤ (if b then end_ns -ℤ last else pos 0))
    → z ≡ pos 0
    → f2 ≡ f1 +ℤ (if b then x else pos 0)
    → z2 ≡ pos 0
    → begin ≡ end_ns +ℤ x
    → f2 +ℤ (z2 +ℤ (if b then event -ℤ begin else pos 0))
      ≡ f0 +ℤ (d +ℤ (if b then event -ℤ last else pos 0))
balance f0 f1 f2 d z z2 last end_ns begin event x true a c g h i = eq_of_parts _ _ (
    omega (
      int_laws,
      ap pos_part a,
      ap neg_part a,
      ap pos_part c,
      ap neg_part c,
      ap pos_part g,
      ap neg_part g,
      ap pos_part h,
      ap neg_part h,
      ap pos_part i,
      ap neg_part i,
    ))
balance f0 f1 f2 d z z2 last end_ns begin event x false a c g h i = eq_of_parts _ _ (
    omega (
      int_laws,
      ap pos_part a,
      ap neg_part a,
      ap pos_part c,
      ap neg_part c,
      ap pos_part g,
      ap neg_part g,
      ap pos_part h,
      ap neg_part h,
    ))

-- The start of the bucket of the event.
abbrev pub begin_of : ℕ → ℤ → ℤ → ℕ → ℤ
begin_of forward full_end event_time_ns size =
    if ltb 0 forward then full_end +ℤ pos ((forward - 1) * size) else event_time_ns

pub begin_lem :
    (full : Bool) (q size : ℕ) (full_end event_time_ns : ℤ)
    → let forward = if full then 1 + q else 0 in
      begin_of forward full_end event_time_ns size
      ≡ (if full then full_end else event_time_ns) +ℤ pos ((forward - 1) * size)
begin_lem true q size full_end event_time_ns = ground arith
begin_lem false q size full_end event_time_ns = omega int_laws

pub grown_not_negative :
    (d last end_ns : ℤ) (stopped same_key : Bool)
    → pos 0 ≤ℤ d
    → (stopped ≡ false → last ≤ℤ end_ns)
    → pos 0 ≤ℤ d +ℤ (if not stopped && same_key then end_ns -ℤ last else pos 0)
grown_not_negative d last end_ns true same_key h g = omega int_laws
grown_not_negative d last end_ns false true h g = omega (int_laws, g refl)
grown_not_negative d last end_ns false false h g = omega int_laws
