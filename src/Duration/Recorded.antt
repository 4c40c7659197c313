-- ===== src/Duration/Recorded.antt =====
-- The recorded time over any sequence of timed events.
use packages_modules_stats_d.Common.{
  ℕ, ◌≡◌, refl, sym, ◌∙◌, Bool, true, false, ◌&&◌, not, List, [], ◌∷◌, if◌then◌else◌, Eq, arith,
  if_both, Bool-cases, inl, inr,
}
use packages_modules_stats_d.Common.Int.{ℤ, pos, ◌+ℤ◌, ◌-ℤ◌, int_laws, +ℤ-zero, +ℤ_assoc}
use packages_modules_stats_d.Common.Dict.{Dict, get}
use packages_modules_stats_d.Duration.{
  OringDurationTracker, is_empty, values_or_zero, charge, stop_if_empty, note_start, note_stop,
  note_stop_all, on_condition_changed,
}
use packages_modules_stats_d.Duration.Accounting.{
  IsMoved, goes_on, begins, recorded, recorded-IsMoved, recorded-charge, -ℤ-self,
}
use packages_modules_stats_d.Duration.Events.{
  note_start-IsMoved, note_stop-IsMoved, note_stop_all-IsMoved, on_condition_changed-IsMoved,
  stop_if_empty-IsMoved, nothing, stop_clock-IsMoved, is_empty-insert_all,
}
use packages_modules_stats_d.Duration.Sliced.{
  pause_keys, resume_keys, on_sliced_condition_may_change, on_state_changed, split,
}

module _ {K C SK : Type 0} ⦃e : Eq K⦄ ⦃s : Eq SK⦄ where
  pause_keys-IsMoved :
      (t : OringDurationTracker K C SK) (query : C → Bool) (now : ℤ)
      → IsMoved now t (pause_keys query now t)
  unfolding pause_keys
  pause_keys-IsMoved t query now =
      if_both (IsMoved now t) (is_empty t.started) _ _ (λ h. nothing now t)
        (λ h.
          stop_clock-IsMoved t
            (record t { started = (split query t.condition_key_map false t.started).0 }) now h refl
            refl refl)

  resume_keys-IsMoved :
      (t : OringDurationTracker K C SK) (query : C → Bool) (now : ℤ) (to_paused : Dict K ℕ)
      → IsMoved now t (resume_keys query now to_paused t)
  unfolding resume_keys
  resume_keys-IsMoved t query now to_paused =
      let move = (split query t.condition_key_map true t.paused).1 in
      let grown = is_empty-insert_all move t.started in
      elim (Bool-cases (is_empty t.started && not (is_empty move))) [
        | inl h ↦ begins (ground arith) (ground arith) (ground arith) (ground arith)
        | inr h ↦ goes_on (ground arith) (ground arith) (ground arith) (ground arith)
      ]

  recorded-on_sliced_condition_may_change :
      (t : OringDurationTracker K C SK) (query : C → Bool) (now : ℤ) (key : SK)
      → recorded (on_sliced_condition_may_change query now t) now key ≡ recorded t now key
  unfolding on_sliced_condition_may_change
  recorded-on_sliced_condition_may_change t query now key =
      let u = pause_keys query now t in
      let to_paused = (split query t.condition_key_map false t.started).1 in
      let w = resume_keys query now to_paused u in
      recorded-IsMoved u (stop_if_empty now w) now key
        (stop_if_empty-IsMoved now now u w (resume_keys-IsMoved u query now to_paused))
      ∙ recorded-IsMoved t u now key (pause_keys-IsMoved t query now)

later_lem :
    (d prev now last : ℤ) (b : Bool)
    → d +ℤ (if b then now -ℤ last else pos 0)
      ≡ d +ℤ (if b then prev -ℤ last else pos 0) +ℤ (if b then now -ℤ prev else pos 0)
later_lem d prev now last true = omega int_laws
later_lem d prev now last false = omega int_laws

pub data Event (K C V : Type 0) : Type 0 where
  key_started : K → Bool → C → ℕ → Event K C V
  key_stopped : K → Bool → Event K C V
  stop_all_event : Event K C V
  condition_event : Bool → Event K C V
  sliced_condition_event : (C → Bool) → Event K C V
  state_event : ℕ → V → Event K C V

module _ {K C V : Type 0} ⦃e : Eq K⦄ ⦃s : Eq (List (ℕ × V))⦄ where
  unfoldable pub step :
      ℤ
      → Event K C V
      → OringDurationTracker K C (List (ℕ × V))
      → OringDurationTracker K C (List (ℕ × V))
  step now (key_started key condition ck limit) t = note_start key condition now ck limit t
  step now (key_stopped key stop_all) t = note_stop key now stop_all t
  step now stop_all_event t = note_stop_all now t
  step now (condition_event condition) t = on_condition_changed condition now t
  step now (sliced_condition_event query) t = on_sliced_condition_may_change query now t
  step now (state_event atom_id value) t = on_state_changed now atom_id value t

  unfoldable pub run :
      List (ℤ × Event K C V)
      → OringDurationTracker K C (List (ℕ × V))
      → OringDurationTracker K C (List (ℕ × V))
  run [] t = t
  run ((now, event) ∷ events) t = run events (step now event t)

  -- The time of the last event, `prev` if there is none.
  unfoldable pub end_time : ℤ → List (ℤ × Event K C V) → ℤ
  end_time prev [] = prev
  end_time prev ((now, event) ∷ events) = end_time now events

  -- Whether time counts for a state key: some key is started, and the state values are these.
  unfoldable pub is_running : OringDurationTracker K C (List (ℕ × V)) → List (ℕ × V) → Bool
  is_running t key = not (is_empty t.started) && s.beq t.state_values_key key

  -- The time between the events that counts for a state key.
  unfoldable pub running_time :
      ℤ → List (ℤ × Event K C V) → OringDurationTracker K C (List (ℕ × V)) → List (ℕ × V) → ℤ
  running_time prev [] t key = pos 0
  running_time prev ((now, event) ∷ events) t key =
      (if is_running t key then now -ℤ prev else pos 0)
      +ℤ running_time now events (step now event t) key

  recorded-on_state_changed :
      (t : OringDurationTracker K C (List (ℕ × V))) (now : ℤ) (atom_id : ℕ) (value : V)
      (key : List (ℕ × V))
      → recorded (on_state_changed now atom_id value t) now key ≡ recorded t now key
  unfolding on_state_changed recorded charge
  recorded-on_state_changed t now atom_id value key = elim (Bool-cases (is_empty t.started)) [
    | inl h ↦ ground arith
    | inr h ↦
        rw (on_state_changed, h)
          (ground (
            arith,
            recorded-charge t now key,
            -ℤ-self now,
            +ℤ-zero (values_or_zero (get (charge now t).state_key_duration_map key)).duration,
          ))
  ]

  recorded-step :
      (t : OringDurationTracker K C (List (ℕ × V))) (now : ℤ) (event : Event K C V)
      (key : List (ℕ × V))
      → recorded (step now event t) now key ≡ recorded t now key
  unfolding step
  recorded-step t now (key_started k condition ck limit) key =
      recorded-IsMoved t (note_start k condition now ck limit t) now key
        (note_start-IsMoved t k condition now ck limit)
  recorded-step t now (key_stopped k stop_all) key =
      recorded-IsMoved t (note_stop k now stop_all t) now key (note_stop-IsMoved t k now stop_all)
  recorded-step t now stop_all_event key =
      recorded-IsMoved t (note_stop_all now t) now key (note_stop_all-IsMoved t now)
  recorded-step t now (condition_event condition) key =
      recorded-IsMoved t (on_condition_changed condition now t) now key
        (on_condition_changed-IsMoved t condition now)
  recorded-step t now (sliced_condition_event query) key =
      recorded-on_sliced_condition_may_change t query now key
  recorded-step t now (state_event atom_id value) key =
      recorded-on_state_changed t now atom_id value key

  -- Between events the recorded time grows with the clock exactly while it is running.
  recorded_later :
      (t : OringDurationTracker K C (List (ℕ × V))) (prev now : ℤ) (key : List (ℕ × V))
      → recorded t now key
        ≡ recorded t prev key +ℤ (if is_running t key then now -ℤ prev else pos 0)
  unfolding recorded is_running
  recorded_later t prev now key =
      later_lem (values_or_zero (get t.state_key_duration_map key)).duration prev now
        t.last_start_time (not (is_empty t.started) && s.beq t.state_values_key key)

  -- After any timed events, the time recorded for a state key up to the last event is what was
  -- recorded up to the first instant and the sum of the times between the events during which some key
  -- was started and the state values were that key's: overlapping starts count once, and no call
  -- loses or adds time.
  pub recorded-run :
      (prev : ℤ) (events : List (ℤ × Event K C V)) (t : OringDurationTracker K C (List (ℕ × V)))
      (key : List (ℕ × V))
      → recorded (run events t) (end_time prev events) key
        ≡ recorded t prev key +ℤ running_time prev events t key
  unfolding run end_time running_time
  recorded-run prev [] t key = sym (+ℤ-zero (recorded t prev key))
  recorded-run prev ((now, event) ∷ events) t key =
      let part = if is_running t key then now -ℤ prev else pos 0 in
      recorded-run now events (step now event t) key
      ∙ rw (recorded-step t now event key, recorded_later t prev now key)
          (+ℤ_assoc (recorded t prev key) part (running_time now events (step now event t) key))
