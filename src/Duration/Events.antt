-- ===== src/Duration/Events.antt =====
-- Every event of a tracker, and the recorded time over a sequence of events.
use packages_modules_stats_d.Common.{
  ℕ, suc, ◌-◌, ◌≡◌, refl, sym, ◌∙◌, none, some, Bool, true, false, ◌&&◌, not, List, [], ◌∷◌,
  if◌then◌else◌, Eq, arith, if_both, Option-cases, Bool-cases, inl, inr,
}
use packages_modules_stats_d.Common.Int.{ℤ}
use packages_modules_stats_d.Common.Dict.{Dict, get, put, erase}
use packages_modules_stats_d.Duration.{
  AnomalyCall, stop_alarm_call, OringDurationTracker, is_empty, has_value, insert_all, charge,
  detect, stop_clock, drop_start, start_alarms, stop_if_empty, start_key, note_start,
  hit_guard_rail, stop_started, stop_paused, note_stop, note_stop_all, on_condition_changed,
  increment, leaves,
}
use packages_modules_stats_d.Duration.Accounting.{IsMoved, goes_on, stops, begins}

module _ {K : Type 0} ⦃e : Eq K⦄ where
  is_empty-put : {V : Type 0} (m : Dict K V) (k : K) (v : V) → is_empty (put m k v) ≡ false
  unfolding is_empty put
  is_empty-put [] k v = refl
  is_empty-put ((j, w) ∷ m) k v = ground arith

  is_empty-get : {V : Type 0} (m : Dict K V) (k : K) (v : V) → get m k ≡ some v → is_empty m ≡ false
  unfolding is_empty get
  is_empty-get [] k v h = ground arith
  is_empty-get ((j, w) ∷ m) k v h = refl

  is_empty-insert :
      {V : Type 0} (m : Dict K V) (k : K) (v : V)
      → is_empty (if has_value (get m k) then m else put m k v) ≡ false
  unfolding has_value
  is_empty-insert m k v = elim (Option-cases (get m k)) [
    | inl h ↦ rw h (is_empty-put m k v)
    | inr (w, h) ↦ rw h (is_empty-get m k w h)
  ]

  pub is_empty-insert_all :
      {V : Type 0} (entries m : Dict K V)
      → is_empty (insert_all entries m) ≡ (is_empty entries && is_empty m)
  unfolding insert_all is_empty
  is_empty-insert_all [] m = refl
  is_empty-insert_all ((k, v) ∷ entries) m =
      let next = if has_value (get m k) then m else put m k v in
      ground (arith, is_empty-insert_all entries next, is_empty-insert m k v)

module _ {K C SK : Type 0} ⦃s : Eq SK⦄ where
  -- What does not matter for the recorded time.
  keep :
      (now : ℤ) (t u : OringDurationTracker K C SK) (m : Dict K C) (b : Bool) (p : Dict K ℕ)
      (calls : List (AnomalyCall SK))
      → IsMoved now t u
      → IsMoved now t (record u {
        condition_key_map = m;
        has_hit_guardrail = b;
        paused = p;
        anomaly_calls = calls;
      })
  keep now t u m b p calls (goes_on x y z w) = goes_on x y z w
  keep now t u m b p calls (stops x y z w) = stops x y z w
  keep now t u m b p calls (begins x y z w) = begins x y z w

  pub nothing : (now : ℤ) (t : OringDurationTracker K C SK) → IsMoved now t t
  nothing now t = goes_on refl refl refl refl

  pub stop_if_empty-IsMoved :
      (now at_time : ℤ) (t u : OringDurationTracker K C SK)
      → IsMoved now t u
      → IsMoved now t (stop_if_empty at_time u)
  stop_if_empty-IsMoved now at_time t u v =
      if_both (IsMoved now t) (is_empty u.started) _ _
        (λ h.
          keep now t u u.condition_key_map u.has_hit_guardrail u.paused
            (stop_alarm_call at_time ∷ u.anomaly_calls) v)
        (λ h. v)

  charge_same :
      (now : ℤ) (t u : OringDurationTracker K C SK)
      → u.state_key_duration_map ≡ t.state_key_duration_map
      → u.last_start_time ≡ t.last_start_time
      → u.state_values_key ≡ t.state_values_key
      → (charge now u).state_key_duration_map ≡ (charge now t).state_key_duration_map
  unfolding charge
  charge_same now t u a b c = rw (a, b, c) refl

  pub stop_clock-IsMoved :
      (t u : OringDurationTracker K C SK) (now : ℤ)
      → is_empty t.started ≡ false
      → u.state_key_duration_map ≡ t.state_key_duration_map
      → u.last_start_time ≡ t.last_start_time
      → u.state_values_key ≡ t.state_values_key
      → IsMoved now t (stop_clock now u)
  unfolding stop_clock charge
  stop_clock-IsMoved t u now running a b c =
      if_both (IsMoved now t) (is_empty u.started) _ _
        (λ h. stops running h (charge_same now t u a b c) c) (λ h. goes_on (h ∙ sym running) a b c)

module _ {K C SK : Type 0} ⦃e : Eq K⦄ ⦃s : Eq SK⦄ where
  start_key-IsMoved :
      (t : OringDurationTracker K C SK) (key : K) (now : ℤ) → IsMoved now t (start_key key now t)
  unfolding start_key
  start_key-IsMoved t key now =
      let more =
        is_empty-put t.started key (elim (get t.started key) [ none ↦ 1 | some n ↦ suc n ]) in
      elim (Bool-cases (is_empty t.started)) [
        | inl h ↦ begins h (ground arith) (ground arith) (ground arith)
        | inr h ↦ goes_on (more ∙ sym h) (ground arith) (ground arith) (ground arith)
      ]

  guard-IsMoved :
      (t : OringDurationTracker K C SK) (key : K) (now : ℤ) (limit : ℕ)
      → IsMoved now t (hit_guard_rail key limit t).0
  unfolding hit_guard_rail
  guard-IsMoved t key now limit =
      goes_on (ground arith) (ground arith) (ground arith) (ground arith)

  pub note_start-IsMoved :
      (t : OringDurationTracker K C SK) (key : K) (condition : Bool) (now : ℤ) (ck : C) (limit : ℕ)
      → IsMoved now t (note_start key condition now ck limit t)
  unfolding note_start hit_guard_rail
  note_start-IsMoved t key condition now ck limit =
      let u =
        if condition then start_key key now t else record t { paused = increment t.paused key } in
      let v : IsMoved now t u =
        if_both (IsMoved now t) condition _ _ (λ h. start_key-IsMoved t key now)
          (λ h.
            keep now t t t.condition_key_map t.has_hit_guardrail (increment t.paused key)
              t.anomaly_calls (nothing now t)) in
      let (guarded, hit) = hit_guard_rail key limit t in
      if_both (IsMoved now t) (hit_guard_rail key limit t).1 _ _
        (λ h. guard-IsMoved t key now limit)
        (λ h.
          if_both (IsMoved now t)
            (t.condition_sliced && not (has_value (get t.condition_key_map key))) _ _
            (λ g.
              keep now t u (put t.condition_key_map key ck) u.has_hit_guardrail u.paused
                u.anomaly_calls v)
            (λ g. v))

  drop_start_fields :
      (t : OringDurationTracker K C SK) (key : K) (stop_all : Bool) (n : ℕ)
      → let u = drop_start key stop_all n t in
        (u.state_key_duration_map ≡ t.state_key_duration_map)
        × (u.last_start_time ≡ t.last_start_time)
        × (u.state_values_key ≡ t.state_values_key)
  unfolding drop_start
  drop_start_fields t key stop_all n = (ground arith, ground arith, ground arith)

  stop_started-IsMoved :
      (t : OringDurationTracker K C SK) (key : K) (now : ℤ) (stop_all : Bool)
      → IsMoved now t (stop_started key now stop_all t)
  unfolding stop_started
  stop_started-IsMoved t key now stop_all = elim (Option-cases (get t.started key)) [
    | inl h ↦ rw (stop_started, h) (nothing now t)
    | inr (n, h) ↦
        let (a, b, c) = drop_start_fields t key stop_all n in
        rw (stop_started, h)
          (stop_clock-IsMoved t (drop_start key stop_all n t) now (is_empty-get t.started key n h) a
            b c)
  ]

  stop_paused-IsMoved :
      (t u : OringDurationTracker K C SK) (key : K) (now : ℤ) (stop_all : Bool)
      → IsMoved now t u
      → IsMoved now t (stop_paused key stop_all u)
  unfolding stop_paused
  stop_paused-IsMoved t u key now stop_all v = elim (Option-cases (get u.paused key)) [
    | inl h ↦ rw (stop_paused, h) v
    | inr (n, h) ↦
        rw (stop_paused, h)
          (if_both (IsMoved now t) (leaves stop_all u.nested n) _ _
            (λ g.
              keep now t u (erase u.condition_key_map key) u.has_hit_guardrail (erase u.paused key)
                u.anomaly_calls v)
            (λ g.
              keep now t u u.condition_key_map u.has_hit_guardrail (put u.paused key (n - 1))
                u.anomaly_calls v))
  ]

  pub note_stop-IsMoved :
      (t : OringDurationTracker K C SK) (key : K) (now : ℤ) (stop_all : Bool)
      → IsMoved now t (note_stop key now stop_all t)
  unfolding note_stop
  note_stop-IsMoved t key now stop_all =
      stop_if_empty-IsMoved now now t (stop_paused key stop_all (stop_started key now stop_all t)) (
        stop_paused-IsMoved t (stop_started key now stop_all t) key now stop_all
          (stop_started-IsMoved t key now stop_all))

  pub note_stop_all-IsMoved :
      (t : OringDurationTracker K C SK) (now : ℤ) → IsMoved now t (note_stop_all now t)
  unfolding note_stop_all is_empty charge
  note_stop_all-IsMoved t now = elim (Bool-cases (is_empty t.started)) [
    | inl h ↦ goes_on (sym h) (ground arith) (ground arith) (ground arith)
    | inr h ↦ stops h refl (rw h refl) (rw h refl)
  ]

  pub on_condition_changed-IsMoved :
      (t : OringDurationTracker K C SK) (condition : Bool) (now : ℤ)
      → IsMoved now t (on_condition_changed condition now t)
  unfolding on_condition_changed charge is_empty
  on_condition_changed-IsMoved t true now =
      let first = start_alarms now (record t { last_start_time = now }) in
      let u = if is_empty t.started then first else t in
      let grown = is_empty-insert_all t.paused t.started in
      stop_if_empty-IsMoved now now t
        (if is_empty t.paused
          then t
          else record u { started = insert_all t.paused t.started; paused = [] })
        (if_both (IsMoved now t) (is_empty t.paused) _ _ (λ h. nothing now t)
          (λ h. elim (Bool-cases (is_empty t.started)) [
            | inl g ↦ begins g (ground arith) (ground arith) (ground arith)
            | inr g ↦ goes_on (ground arith) (ground arith) (ground arith) (ground arith)
          ]))
  on_condition_changed-IsMoved t false now =
      let charged = charge now t in
      stop_if_empty-IsMoved now now t
        (if is_empty t.started
          then t
          else detect now (record charged { started = []; paused = insert_all t.started t.paused }))
        (if_both (IsMoved now t) (is_empty t.started) _ _ (λ h. nothing now t)
          (λ h. stops h refl refl refl))
