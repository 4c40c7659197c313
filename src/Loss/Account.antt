-- ===== src/Loss/Account.antt =====
-- Every drop is counted until an atom with it is written.
use packages_modules_stats_d.Common.{
  ℕ, suc, ◌+◌, ◌≤◌, ◌≡◌, refl, ap, ◌==◌, Option, none, some, Bool, true, false, ◌&&◌, not, List, [],
  ◌∷◌, map, length, if◌then◌else◌, if_both, arith, Bool-cases, inl, inr, Option-cases, length-map,
}
use packages_modules_stats_d.Common.Int.{ℤ, pos, ◌+ℤ◌, ltb_ℤ, leb_ℤ}
use packages_modules_stats_d.Common.Dict.{Dict, get, put, length-put}
use packages_modules_stats_d.Loss.{
  LossInfoKey, key_eq, same_key, StatsSocketLossReporter, LossAtom, init, note_time, count_loss,
  note_drop, is_expired, start_cooldown, loss_atom, clear, dump_atoms_loss_stats,
  max_atom_tags_count,
}

abbrev pub sum : List ℕ → ℕ
sum [] = 0
sum (n ∷ ns) = n + sum ns

abbrev value_of : Option ℕ → ℕ
value_of none = 0
value_of (some n) = n

abbrev counts_of : Dict LossInfoKey ℕ → List ℕ
counts_of m = map (λ entry. entry.1) m

sum-put :
    (m : Dict LossInfoKey ℕ) (key : LossInfoKey) (n : ℕ)
    → sum (counts_of (put m key n)) + value_of (get m key) ≡ sum (counts_of m) + n
unfolding get put
sum-put [] key n = omega arith
sum-put ((k, w) ∷ m) key n = elim (Bool-cases (same_key k key)) [
  | inl same ↦ rw same (omega arith)
  | inr ne ↦ rw ne (omega (arith, sum-put m key n))
]

-- The losses that a reporter holds, and those that an atom tells.
abbrev pub held : StatsSocketLossReporter → ℕ
held r = sum (counts_of r.loss_info) + r.overflow_counter

abbrev pub told : LossAtom → ℕ
told atom = sum atom.counts + atom.overflow_counter

count_loss-held :
    (key : LossInfoKey) (r : StatsSocketLossReporter) → held (count_loss key r) ≡ suc (held r)
unfolding count_loss
count_loss-held key r = elim (Option-cases (get r.loss_info key)) [
  | inl missing ↦ rw (count_loss, missing) (ground (arith, sum-put r.loss_info key 1))
  | inr (n, found) ↦
      rw (count_loss, found) (omega (arith, sum-put r.loss_info key (suc n), ap value_of found))
]

-- A drop or a dump, with the time, and for a dump what the socket returns.
pub data Call : Type 0 where
  drops : ℤ → ℤ → ℕ → Call
  dumps : (LossAtom → ℤ) → Bool → ℤ → Call

-- The losses told by an atom that the socket took.
abbrev pub delivered : (LossAtom → ℤ) → Option LossAtom → ℕ
delivered stats_write none = 0
delivered stats_write (some atom) = if ltb_ℤ (pos 0) (stats_write atom) then told atom else 0

-- The reporter after a call, and the losses that were delivered.
unfoldable pub step : ℕ → Call → StatsSocketLossReporter → StatsSocketLossReporter × ℕ
step own (drops now error atom_id) r = (note_drop own now error atom_id r, 0)
step own (dumps stats_write force_dump now) r =
    let (s, atom) = dump_atoms_loss_stats stats_write force_dump now r in
    (s, delivered stats_write atom)

unfoldable pub run : ℕ → List Call → StatsSocketLossReporter → StatsSocketLossReporter × ℕ
run own [] r = (r, 0)
run own (c ∷ cs) r = let (s, n) = step own c r in let (t, m) = run own cs s in (t, n + m)

-- The drops of other atoms than the reporter's own.
abbrev pub drops_in : ℕ → List Call → ℕ
drops_in own [] = 0
drops_in own (drops now error atom_id ∷ cs) =
    if atom_id == own then drops_in own cs else suc (drops_in own cs)
drops_in own (dumps stats_write force_dump now ∷ cs) = drops_in own cs

note_drop-held :
    (own : ℕ) (now error : ℤ) (atom_id : ℕ) (r : StatsSocketLossReporter)
    → held (note_drop own now error atom_id r) ≡ (if atom_id == own then held r else suc (held r))
unfolding note_drop
note_drop-held own now error atom_id r = elim (Bool-cases (atom_id == own)) [
  | inl same ↦ rw same refl
  | inr other ↦ rw other (count_loss-held (error, atom_id) (note_time now r))
]

-- What holds before and after a dump, which is the only call that tells losses.
abbrev Even :
    StatsSocketLossReporter → (LossAtom → ℤ) → StatsSocketLossReporter × Option LossAtom → Type 0
Even r stats_write (s, atom) = delivered stats_write atom + held s ≡ held r

taken :
    (stats_write : LossAtom → ℤ) (r : StatsSocketLossReporter)
    → Even r stats_write (
        if ltb_ℤ (pos 0) (stats_write (loss_atom r))
        then (clear r, some (loss_atom r))
        else (r, some (loss_atom r)))
taken stats_write r =
    if_both (Even r stats_write) (ltb_ℤ (pos 0) (stats_write (loss_atom r))) _ _
      (λ ok. rw ok (omega arith)) (λ failed. rw failed (omega arith))

dump-held :
    (stats_write : LossAtom → ℤ) (force_dump : Bool) (now : ℤ) (r : StatsSocketLossReporter)
    → Even r stats_write (dump_atoms_loss_stats stats_write force_dump now r)
unfolding dump_atoms_loss_stats
dump-held stats_write force_dump now r =
    if_both (Even r stats_write) (not force_dump && not (is_expired now r)) _ _ (λ _. omega arith)
      (λ _.
        if_both (Even r stats_write) (length r.loss_info == 0) _ _ (λ _. omega arith)
          (λ _. taken stats_write (start_cooldown now r)))

run-held_from :
    (own : ℕ) (cs : List Call) (r : StatsSocketLossReporter)
    → (run own cs r).1 + held (run own cs r).0 ≡ drops_in own cs + held r
unfolding run step
run-held_from own [] r = omega arith
run-held_from own (drops now error atom_id ∷ cs) r =
    let s = note_drop own now error atom_id r in
    let rest = run-held_from own cs s in
    ground (arith, rest, note_drop-held own now error atom_id r)
run-held_from own (dumps stats_write force_dump now ∷ cs) r =
    let s = (dump_atoms_loss_stats stats_write force_dump now r).0 in
    omega (arith, run-held_from own cs s, dump-held stats_write force_dump now r)

-- For a new reporter and any drops and dumps, dumps that fail or come too early included: the losses
-- that were told by atoms that the socket took, with those that the reporter still holds in its counts
-- and its overflow counter, are the drops of atoms other than the reporter's own.
pub run-held :
    (own : ℕ) (cs : List Call) → (run own cs init).1 + held (run own cs init).0 ≡ drops_in own cs
run-held own cs = omega (arith, run-held_from own cs init)

length-count_loss :
    (key : LossInfoKey) (r : StatsSocketLossReporter)
    → length r.loss_info ≤ max_atom_tags_count
    → length (count_loss key r).loss_info ≤ max_atom_tags_count
unfolding count_loss
length-count_loss key r h = elim (Option-cases (get r.loss_info key)) [
  | inl missing ↦ ground (arith, length-put r.loss_info key 1)
  | inr (n, found) ↦ ground (arith, length-put r.loss_info key (suc n))
]

length-step :
    (own : ℕ) (c : Call) (r : StatsSocketLossReporter)
    → length r.loss_info ≤ max_atom_tags_count
    → length (step own c r).0.loss_info ≤ max_atom_tags_count
unfolding step note_drop dump_atoms_loss_stats
length-step own (drops now error atom_id) r h =
    if_both (λ (s : StatsSocketLossReporter). length s.loss_info ≤ max_atom_tags_count)
      (atom_id == own) _ _ (λ _. h) (λ _. length-count_loss (error, atom_id) (note_time now r) h)
length-step own (dumps stats_write force_dump now) r h = ground arith

length-run :
    (own : ℕ) (cs : List Call) (r : StatsSocketLossReporter)
    → length r.loss_info ≤ max_atom_tags_count
    → length (run own cs r).0.loss_info ≤ max_atom_tags_count
unfolding run
length-run own [] r h = h
length-run own (c ∷ cs) r h = length-run own cs (step own c r).0 (length-step own c r h)

-- For a new reporter, whatever was dropped and dumped: an atom that a dump writes has three arrays of
-- one size, at most 100, so they fit in the 127 elements that an array of an event may have.
pub length-loss_atom :
    (own : ℕ) (cs : List Call)
    → let r = (run own cs init).0 in
      (length (loss_atom r).errors ≡ length (loss_atom r).tags)
      × (length (loss_atom r).tags ≡ length (loss_atom r).counts)
      × (length (loss_atom r).counts ≤ 100)
length-loss_atom own cs =
    let r = (run own cs init).0 in
    let e = length-map r.loss_info (λ entry. entry.0.0) in
    let t = length-map r.loss_info (λ entry. entry.0.1) in
    let c = length-map r.loss_info (λ entry. entry.1) in
    (
      omega (arith, e, t),
      omega (arith, t, c),
      omega (arith, c, length-run own cs init (omega arith)),
    )

-- After a dump that the cooldown did not stop, a dump that is not forced and comes less than a minute
-- later writes nothing and changes nothing, and from a minute on it is not stopped.
pub dump_twice :
    (first_write second_write : LossAtom → ℤ) (now later : ℤ) (r : StatsSocketLossReporter)
    → let s = (dump_atoms_loss_stats first_write true now r).0 in
      if leb_ℤ (now +ℤ pos 60000000000) later
      then (dump_atoms_loss_stats second_write false later s
          ≡ dump_atoms_loss_stats second_write true later s)
      else (dump_atoms_loss_stats second_write false later s ≡ (s, none))
unfolding dump_atoms_loss_stats
dump_twice first_write second_write now later r = ground arith
