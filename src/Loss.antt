-- ===== src/Loss.antt =====
-- lib/libstatssocket/stats_socket_loss_reporter.h and .cpp, with the CooldownTimer of utils.h: the events
-- that could not be written, counted by error and atom id until an atom with the counts is written.
-- The calls are taken one after the other; the clock and the result of the write are arguments. Counts
-- are int32_t in the source and natural numbers here.
pub mod Account
pub mod Tests
use packages_modules_stats_d.Common.{
  ℕ, suc, ◌==◌, ◌≡◌, ◌↔◌, Option, none, some, Bool, true, false, ◌&&◌, not, List, [], ◌∷◌, map, ltb,
  length, if◌then◌else◌, Eq, arith,
}
use packages_modules_stats_d.Common.Int.{ℤ, pos, ◌-ℤ◌, ◌+ℤ◌, eqb_ℤ, eqb_ℤ_iff, ltb_ℤ, leb_ℤ}
use packages_modules_stats_d.Common.Dict.{Dict, get, put}

-- LossInfoKey: error and tag.
abbrev pub LossInfoKey : Type 0
LossInfoKey = ℤ × ℕ

abbrev same_key : LossInfoKey → LossInfoKey → Bool
same_key (a, b) (c, d) = eqb_ℤ a c && (b == d)

pub same_key_iff : (p q : LossInfoKey) → (same_key p q ≡ true) ↔ (p ≡ q)
same_key_iff (a, b) (c, d) = ground (arith, eqb_ℤ_iff a c)

instance abbrev pub key_eq : Eq LossInfoKey
key_eq = record { beq = same_key; beq_iff = same_key_iff }

-- kMaxAtomTagsCount
abbrev pub max_atom_tags_count : ℕ
max_atom_tags_count = 100

-- kCoolDownTimerDurationNanos, one minute
abbrev pub cool_down_timer_duration_nanos : ℤ
cool_down_timer_duration_nanos = pos 60000000000

-- STATS_SOCKET_LOSS_REPORTED is the argument `own` of the operations.
pub record StatsSocketLossReporter : Type 0 where
  pub first_ts_nanos : ℤ
  pub last_ts_nanos : ℤ
  pub cooldown_timer_finish_at_nanos : ℤ
  pub loss_info : Dict LossInfoKey ℕ
  pub overflow_counter : ℕ

-- The fields of the atom that a dump writes; the uid is left out.
pub record LossAtom : Type 0 where
  pub first_ts_nanos : ℤ
  pub last_ts_nanos : ℤ
  pub overflow_counter : ℕ
  pub errors : List ℤ
  pub tags : List ℕ
  pub counts : List ℕ

abbrev pub init : StatsSocketLossReporter
init = record {
  first_ts_nanos = pos 0;
  last_ts_nanos = pos 0;
  cooldown_timer_finish_at_nanos = pos 0;
  loss_info = [];
  overflow_counter = 0;
}

-- The timestamps are set even for the atom of the reporter itself.
abbrev pub note_time : ℤ → StatsSocketLossReporter → StatsSocketLossReporter
note_time now r = record r {
  first_ts_nanos = if eqb_ℤ r.first_ts_nanos (pos 0) then now else r.first_ts_nanos;
  last_ts_nanos = now;
}

unfoldable pub count_loss : LossInfoKey → StatsSocketLossReporter → StatsSocketLossReporter
count_loss key r = elim (get r.loss_info key) [
  | some n ↦ record r { loss_info = put r.loss_info key (suc n) }
  | none ↦
      if ltb (length r.loss_info) max_atom_tags_count
      then record r { loss_info = put r.loss_info key 1 }
      else record r { overflow_counter = suc r.overflow_counter }
]

unfoldable pub note_drop : ℕ → ℤ → ℤ → ℕ → StatsSocketLossReporter → StatsSocketLossReporter
unfolding count_loss
note_drop own now error atom_id r =
    let noted = note_time now r in
    if atom_id == own then noted else count_loss (error, atom_id) noted

-- CooldownTimer
abbrev pub is_expired : ℤ → StatsSocketLossReporter → Bool
is_expired now r = leb_ℤ r.cooldown_timer_finish_at_nanos now

abbrev pub start_cooldown : ℤ → StatsSocketLossReporter → StatsSocketLossReporter
start_cooldown now r = record r {
  cooldown_timer_finish_at_nanos = now +ℤ cool_down_timer_duration_nanos;
}

abbrev pub loss_atom : StatsSocketLossReporter → LossAtom
loss_atom r = record {
  first_ts_nanos = r.first_ts_nanos;
  last_ts_nanos = r.last_ts_nanos;
  overflow_counter = r.overflow_counter;
  errors = map (λ entry. entry.0.0) r.loss_info;
  tags = map (λ entry. entry.0.1) r.loss_info;
  counts = map (λ entry. entry.1) r.loss_info;
}

-- The clearing after a write that returned a positive number.
abbrev pub clear : StatsSocketLossReporter → StatsSocketLossReporter
clear r = record r {
  first_ts_nanos = pos 0;
  last_ts_nanos = pos 0;
  loss_info = [];
  overflow_counter = 0;
}

-- On a platform with the socket: the reporter, and the atom if a write was tried. `stats_write` stands
-- for the function of that name, whose result is what the socket returned.
unfoldable pub dump_atoms_loss_stats :
    (LossAtom → ℤ) → Bool → ℤ → StatsSocketLossReporter → StatsSocketLossReporter × Option LossAtom
dump_atoms_loss_stats stats_write force_dump now r =
    let started = start_cooldown now r in
    if not force_dump && not (is_expired now r)
    then (r, none)
    else if length r.loss_info == 0
    then (started, none)
    else if ltb_ℤ (pos 0) (stats_write (loss_atom started))
    then (clear started, some (loss_atom started))
    else (started, some (loss_atom started))
