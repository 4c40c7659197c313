-- ===== src/Duration/Accounting.antt =====
-- The time recorded for a state key up to some instant, and that no call changes it at its own instant.
use packages_modules_stats_d.Common.{◌≡◌, refl, true, false, ◌&&◌, not, if◌then◌else◌, Eq, arith}
use packages_modules_stats_d.Common.Int.{ℤ, pos, ◌+ℤ◌, ◌-ℤ◌, int_laws, +ℤ-zero}
use packages_modules_stats_d.Common.Dict.{get, get-put}
use packages_modules_stats_d.Duration.{
  OringDurationTracker, DurationValues, is_empty, values_or_zero, charge,
}

pub -ℤ-self : (a : ℤ) → a -ℤ a ≡ pos 0
-ℤ-self a = omega int_laws

module _ {K C SK : Type 0} ⦃s : Eq SK⦄ where
  -- What the map has for a state key, and the time since the last start if it is the current one.
  unfoldable pub recorded : OringDurationTracker K C SK → ℤ → SK → ℤ
  recorded t now key =
      (values_or_zero (get t.state_key_duration_map key)).duration
      +ℤ (if not (is_empty t.started) && s.beq t.state_values_key key
          then now -ℤ t.last_start_time
          else pos 0)

  -- The duration map and the clock of `u` against those of `t`: at `now` the clock goes on, stops,
  -- or begins.
  pub data IsMoved (now : ℤ) (t u : OringDurationTracker K C SK) : Type 0 where
    goes_on :
        is_empty u.started ≡ is_empty t.started
        → u.state_key_duration_map ≡ t.state_key_duration_map
        → u.last_start_time ≡ t.last_start_time
        → u.state_values_key ≡ t.state_values_key
        → IsMoved now t u
    stops :
        is_empty t.started ≡ false
        → is_empty u.started ≡ true
        → u.state_key_duration_map ≡ (charge now t).state_key_duration_map
        → u.state_values_key ≡ t.state_values_key
        → IsMoved now t u
    begins :
        is_empty t.started ≡ true
        → u.last_start_time ≡ now
        → u.state_key_duration_map ≡ t.state_key_duration_map
        → u.state_values_key ≡ t.state_values_key
        → IsMoved now t u

  pub recorded-charge :
      (t : OringDurationTracker K C SK) (now : ℤ) (key : SK)
      → (values_or_zero (get (charge now t).state_key_duration_map key)).duration
        ≡ (values_or_zero (get t.state_key_duration_map key)).duration
          +ℤ (if s.beq t.state_values_key key then now -ℤ t.last_start_time else pos 0)
  unfolding charge
  recorded-charge t now key =
      let v = values_or_zero (get t.state_key_duration_map t.state_values_key) in
      let new : DurationValues = record v { duration = v.duration +ℤ (now -ℤ t.last_start_time) } in
      ground (
        arith,
        s.beq_iff t.state_values_key key,
        get-put t.state_key_duration_map t.state_values_key key new,
        +ℤ-zero (values_or_zero (get t.state_key_duration_map key)).duration,
      )

  pub recorded-IsMoved :
      (t u : OringDurationTracker K C SK) (now : ℤ) (key : SK)
      → IsMoved now t u
      → recorded u now key ≡ recorded t now key
  unfolding recorded
  recorded-IsMoved t u now key (goes_on a b c d) = rw (a, b, c, d) refl
  recorded-IsMoved t u now key (stops a b c d) =
      rw (a, b, c)
        (ground (
          arith,
          recorded-charge t now key,
          +ℤ-zero (values_or_zero (get (charge now t).state_key_duration_map key)).duration,
        ))
  recorded-IsMoved t u now key (begins a b c d) = rw (a, b, c, d) (ground (arith, -ℤ-self now))
