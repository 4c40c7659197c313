-- ===== src/Writer/Order.antt =====
-- The queue is written in order, and every buffer is freed once.
use packages_modules_stats_d.Common.{
  ℕ, ◌≤◌, ◌≡◌, refl, sym, ap, subst, ◌∙◌, some, Bool, true, false, List, [], ◌∷◌, ◌++◌, leb, length,
  if◌then◌else◌, if_both, arith, inl, inr, length-append, Option-cases,
}
use mathlib.Core.List.{append-nil, append_assoc}
use packages_modules_stats_d.Writer.{
  Cmd, Phase, waiting, handling, stopped, BufferWriterQueue, init, Report, push_to_queue, write,
  terminate, take_front, begin_command, end_command, drain_queue, Move, writes, terminates, begins,
  ends, move, run, reported, queue_max_size_limit, terminate_cmd,
}
use packages_modules_stats_d.Writer.Reports.{
  accepted_of, finished_of, accepted_of-append, finished_of-append,
}

-- The command that is being written is still at the front of the queue, however many were pushed.
abbrev pub IsAt : Phase → List Cmd → Type 0
IsAt waiting queue = Unit
IsAt stopped queue = Unit
IsAt (handling cmd _) [] = ⊥
IsAt (handling cmd _) (front ∷ rest) = front ≡ cmd

-- What a move does: the front stays, the queue and the reports balance, and the limit holds.
record Keeps (q : BufferWriterQueue) (r : BufferWriterQueue × List Report) : Type 0 where
  at_front : IsAt r.0.phase r.0.cmd_queue
  balance : q.cmd_queue ++ accepted_of r.1 ≡ finished_of r.1 ++ r.0.cmd_queue
  bounded : length r.0.cmd_queue ≤ queue_max_size_limit

IsAt-push : (p : Phase) (queue : List Cmd) (cmd : Cmd) → IsAt p queue → IsAt p (queue ++ (cmd ∷ []))
IsAt-push waiting queue cmd h = tt
IsAt-push stopped queue cmd h = tt
IsAt-push (handling c f) [] cmd h = absurd h
IsAt-push (handling c f) (front ∷ rest) cmd h = h

push_to_queue-Keeps :
    (cmd : Cmd) (q : BufferWriterQueue)
    → IsAt q.phase q.cmd_queue
    → length q.cmd_queue ≤ queue_max_size_limit
    → Keeps q (reported cmd (push_to_queue cmd q))
unfolding push_to_queue
push_to_queue-Keeps cmd q at le =
    if_both (λ r. Keeps q (reported cmd r)) (leb queue_max_size_limit (length q.cmd_queue)) _ _
      (λ _. record { at_front = at; balance = append-nil q.cmd_queue; bounded = le })
      (λ room. record {
        at_front = IsAt-push q.phase q.cmd_queue cmd at;
        balance = refl;
        bounded = ground (arith, length-append q.cmd_queue (cmd ∷ []));
      })

same-Keeps :
    (q r : BufferWriterQueue)
    → r.cmd_queue ≡ q.cmd_queue
    → IsAt r.phase r.cmd_queue
    → length q.cmd_queue ≤ queue_max_size_limit
    → Keeps q (r, [])
same-Keeps q r e at le = record {
  at_front = at;
  balance = append-nil q.cmd_queue ∙ sym e;
  bounded = subst (λ l. length l ≤ queue_max_size_limit) (sym e) le;
}

take_front-queue : (l : List Cmd) (q : BufferWriterQueue) → (take_front l q).cmd_queue ≡ q.cmd_queue
unfolding take_front
take_front-queue [] q = refl
take_front-queue (cmd ∷ rest) q = elim (Option-cases cmd.buffer) [
  | inl null ↦ rw null refl
  | inr (b, full) ↦ rw full refl
]

take_front-IsAt :
    (l : List Cmd) (q : BufferWriterQueue) → IsAt q.phase l → IsAt (take_front l q).phase l
unfolding take_front
take_front-IsAt [] q h = h
take_front-IsAt (cmd ∷ rest) q h = elim (Option-cases cmd.buffer) [
  | inl null ↦ rw null tt
  | inr (b, full) ↦ rw full refl
]

-- The queue object field by field, to split on the phase.
abbrev pub fields : List Cmd → Bool → Bool → ℕ → Phase → BufferWriterQueue
fields l d w k p = record {
  cmd_queue = l;
  do_terminate = d;
  worker_thread_started = w;
  retry_count = k;
  phase = p;
}

begin_fields-Keeps :
    (l : List Cmd) (d w : Bool) (k : ℕ) (p : Phase)
    → IsAt p l
    → length l ≤ queue_max_size_limit
    → Keeps (fields l d w k p) (begin_command (fields l d w k p), [])
unfolding begin_command
begin_fields-Keeps l d false k waiting at le = same-Keeps _ _ refl tt le
begin_fields-Keeps l d true k waiting at le =
    let q = fields l d true k waiting in
    let e = take_front-queue l q in
    same-Keeps q (take_front l q) e
      (subst (IsAt (take_front l q).phase) (sym e) (take_front-IsAt l q tt)) le
begin_fields-Keeps l d w k (handling cmd f) at le = same-Keeps _ _ refl at le
begin_fields-Keeps l d w k stopped at le = same-Keeps _ _ refl tt le

end_phase : (d : Bool) (l : List Cmd) → IsAt (if d then stopped else waiting) l
end_phase true l = tt
end_phase false l = tt

end_fields-Keeps :
    (success : Bool) (l : List Cmd) (d w : Bool) (k : ℕ) (p : Phase)
    → IsAt p l
    → length l ≤ queue_max_size_limit
    → Keeps (fields l d w k p) (end_command success (fields l d w k p))
unfolding end_command
end_fields-Keeps success l d w k waiting at le = same-Keeps _ _ refl tt le
end_fields-Keeps success l d w k stopped at le = same-Keeps _ _ refl tt le
end_fields-Keeps success [] d w k (handling cmd f) at le = absurd at
end_fields-Keeps true (front ∷ rest) d w k (handling cmd f) at le = record {
  at_front = end_phase d rest;
  balance = rw at (append-nil (cmd ∷ rest));
  bounded = omega (arith, le);
}
end_fields-Keeps false (front ∷ rest) d w k (handling cmd true) at le = record {
  at_front = end_phase d rest;
  balance = rw at (append-nil (cmd ∷ rest));
  bounded = omega (arith, le);
}
end_fields-Keeps false (front ∷ rest) d w k (handling cmd false) at le = record {
  at_front = end_phase d (front ∷ rest);
  balance = append-nil (front ∷ rest);
  bounded = le;
}

move-Keeps :
    (m : Move) (q : BufferWriterQueue)
    → IsAt q.phase q.cmd_queue
    → length q.cmd_queue ≤ queue_max_size_limit
    → Keeps q (move m q)
unfolding move write terminate
move-Keeps (writes true bytes atom_id) q at le =
    push_to_queue-Keeps (record { buffer = some bytes; atom_id = atom_id }) q at le
move-Keeps (writes false bytes atom_id) q at le = record {
  at_front = at;
  balance = append-nil q.cmd_queue;
  bounded = le;
}
move-Keeps terminates q at le =
    if_both (Keeps q) q.worker_thread_started _ _
      (λ _.
        let g = push_to_queue-Keeps terminate_cmd (record q { do_terminate = true }) at le in
        record { at_front = g.at_front; balance = g.balance; bounded = g.bounded })
      (λ _. same-Keeps q q refl at le)
move-Keeps begins q at le =
    begin_fields-Keeps q.cmd_queue q.do_terminate q.worker_thread_started q.retry_count q.phase at
      le
move-Keeps (ends success) q at le =
    end_fields-Keeps success q.cmd_queue q.do_terminate q.worker_thread_started q.retry_count
      q.phase at le

run-Keeps :
    (ms : List Move) (q : BufferWriterQueue)
    → IsAt q.phase q.cmd_queue
    → length q.cmd_queue ≤ queue_max_size_limit
    → Keeps q (run ms q)
unfolding run
run-Keeps [] q at le = same-Keeps q q refl at le
run-Keeps (m ∷ ms) q at le =
    let (p, first) = move m q in
    let k = move-Keeps m q at le in
    let h = run-Keeps ms p k.at_front k.bounded in
    let (r, others) = run ms p in
    record {
      at_front = h.at_front;
      balance =
          rw (accepted_of-append first others, finished_of-append first others)
            (sym (append_assoc q.cmd_queue (accepted_of first) (accepted_of others))
              ∙ ap (λ l. l ++ accepted_of others) k.balance
              ∙ append_assoc (finished_of first) p.cmd_queue (accepted_of others)
              ∙ ap (λ l. finished_of first ++ l) h.balance
              ∙ sym (append_assoc (finished_of first) (finished_of others) r.cmd_queue));
      bounded = h.bounded;
    }

-- For a new queue and any interleaving of writes, a termination request and the worker's steps: the
-- commands that were accepted are, in this order, those that the worker wrote or gave up and then those
-- that drainQueue frees; so each buffer is freed once and no two commands change places.
pub run-accepted :
    (ms : List Move)
    → let (q, reports) = run ms init in
      accepted_of reports ≡ finished_of reports ++ (drain_queue q).1
unfolding drain_queue
run-accepted ms = (run-Keeps ms init tt (omega arith)).balance

-- The queue of a new object never holds more than 4800 commands, and while the worker writes a command
-- that command is still at the front.
pub run-IsAt :
    (ms : List Move)
    → let q = (run ms init).0 in
      (length q.cmd_queue ≤ queue_max_size_limit) × IsAt q.phase q.cmd_queue
run-IsAt ms = let k = run-Keeps ms init tt (omega arith) in (k.bounded, k.at_front)
