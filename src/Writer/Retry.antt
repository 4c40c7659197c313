-- ===== src/Writer/Retry.antt =====
-- How often a command is tried, and the end of the worker.
use packages_modules_stats_d.Common.{
  ℕ, suc, ◌-◌, ◌≤◌, ◌<◌, ◌≡◌, refl, ap, ◌==◌, Option, none, some, Bool, true, false, List, [], ◌∷◌,
  ◌++◌, leb, ltb, length, if◌then◌else◌, if_both, arith, inl, inr, length-append, Option-cases,
}
use packages_modules_stats_d.Writer.{
  Cmd, Phase, waiting, handling, stopped, BufferWriterQueue, init, Report, accepted, refused, sent,
  failed, dropped, push_to_queue, write, terminate, take_front, begin_command, end_command, Move,
  writes, terminates, begins, ends, move, run, reported, queue_max_size_limit, terminate_cmd,
}
use packages_modules_stats_d.Writer.Order.{fields}

-- Counts the attempts at one command that failed: it fails itself on a command that is tried an
-- eleventh time, repeated after the tenth, or given up before it.
unfoldable pub tries : ℕ → List Report → Option ℕ
tries k [] = some k
tries k (accepted cmd ∷ reports) = tries k reports
tries k (refused cmd ∷ reports) = tries k reports
tries k (sent cmd ∷ reports) = let rest = tries 0 reports in if ltb k 10 then rest else none
tries k (failed cmd ∷ reports) = let rest = tries (suc k) reports in if ltb k 9 then rest else none
tries k (dropped cmd ∷ reports) = let rest = tries 0 reports in if k == 9 then rest else none

-- The attempts that are over.
abbrev pub past_tries : Phase → ℕ → ℕ
past_tries waiting k = k
past_tries (handling _ _) k = k - 1
past_tries stopped k = k

abbrev IsCounted : Phase → ℕ → Type 0
IsCounted waiting k = k ≤ 9
IsCounted (handling _ is_final) k = (1 ≤ k) × (k ≤ 10) × (is_final ≡ leb 10 k)
IsCounted stopped k = k ≤ 9

tries-append :
    (k : ℕ) (rs ss : List Report) {j i : ℕ}
    → tries k rs ≡ some j
    → tries j ss ≡ some i
    → tries k (rs ++ ss) ≡ some i
unfolding tries
tries-append k [] ss h g = ground arith
tries-append k (accepted cmd ∷ rs) ss h g = tries-append k rs ss h g
tries-append k (refused cmd ∷ rs) ss h g = tries-append k rs ss h g
tries-append k (sent cmd ∷ rs) ss {j = j} {i = i} h g =
    ground (arith, tries-append 0 rs ss {j = j} {i = i})
tries-append k (failed cmd ∷ rs) ss {j = j} {i = i} h g =
    ground (arith, tries-append (suc k) rs ss {j = j} {i = i})
tries-append k (dropped cmd ∷ rs) ss {j = j} {i = i} h g =
    ground (arith, tries-append 0 rs ss {j = j} {i = i})

record Counts (p : Phase) (k : ℕ) (r : BufferWriterQueue × List Report) : Type 0 where
  counted : IsCounted r.0.phase r.0.retry_count
  tried : tries (past_tries p k) r.1 ≡ some (past_tries r.0.phase r.0.retry_count)

same-Counts :
    (p : Phase) (k : ℕ) (q : BufferWriterQueue)
    → q.phase ≡ p
    → q.retry_count ≡ k
    → IsCounted p k
    → Counts p k (q, [])
unfolding tries
same-Counts p k q e f h = record { counted = rw (e, f) h; tried = rw (e, f) refl }

push_to_queue-Counts :
    (cmd : Cmd) (q : BufferWriterQueue)
    → IsCounted q.phase q.retry_count
    → Counts q.phase q.retry_count (reported cmd (push_to_queue cmd q))
unfolding push_to_queue tries
push_to_queue-Counts cmd q h =
    if_both (λ r. Counts q.phase q.retry_count (reported cmd r))
      (leb queue_max_size_limit (length q.cmd_queue)) _ _
      (λ _. record { counted = h; tried = refl }) (λ _. record { counted = h; tried = refl })

take_front-Counts :
    (l : List Cmd) (q : BufferWriterQueue)
    → q.phase ≡ waiting
    → q.retry_count ≤ 9
    → Counts waiting q.retry_count (take_front l q, [])
unfolding take_front tries
take_front-Counts [] q e h = same-Counts waiting q.retry_count q e refl h
take_front-Counts (cmd ∷ rest) q e h = elim (Option-cases cmd.buffer) [
  | inl null ↦ rw null (record { counted = h; tried = refl })
  | inr (b, full) ↦
      rw full (record { counted = (omega arith, omega arith, refl); tried = ap some (omega arith) })
]

begin_fields-Counts :
    (l : List Cmd) (d w : Bool) (k : ℕ) (p : Phase)
    → IsCounted p k
    → Counts p k (begin_command (fields l d w k p), [])
unfolding begin_command
begin_fields-Counts l d false k waiting h = same-Counts waiting k _ refl refl h
begin_fields-Counts l d true k waiting h = take_front-Counts l (fields l d true k waiting) refl h
begin_fields-Counts l d w k (handling cmd f) h = same-Counts (handling cmd f) k _ refl refl h
begin_fields-Counts l d w k stopped h = same-Counts stopped k _ refl refl h

end_fields-Counts :
    (success : Bool) (l : List Cmd) (d w : Bool) (k : ℕ) (p : Phase)
    → IsCounted p k
    → Counts p k (end_command success (fields l d w k p))
unfolding end_command tries
end_fields-Counts success l d w k waiting h = same-Counts waiting k _ refl refl h
end_fields-Counts success l d w k stopped h = same-Counts stopped k _ refl refl h
end_fields-Counts true l true w k (handling cmd f) h = record {
  counted = omega arith;
  tried = ground (arith, h.0, h.1);
}
end_fields-Counts true l false w k (handling cmd f) h = record {
  counted = omega arith;
  tried = ground (arith, h.0, h.1);
}
end_fields-Counts false l true w k (handling cmd true) h = record {
  counted = omega arith;
  tried = ground (arith, h.0, h.1, h.2);
}
end_fields-Counts false l false w k (handling cmd true) h = record {
  counted = omega arith;
  tried = ground (arith, h.0, h.1, h.2);
}
end_fields-Counts false l true w k (handling cmd false) h = record {
  counted = ground (arith, h.2);
  tried = ground (arith, h.0, h.1, h.2);
}
end_fields-Counts false l false w k (handling cmd false) h = record {
  counted = ground (arith, h.2);
  tried = ground (arith, h.0, h.1, h.2);
}

move-Counts :
    (m : Move) (q : BufferWriterQueue)
    → IsCounted q.phase q.retry_count
    → Counts q.phase q.retry_count (move m q)
unfolding move write terminate
move-Counts (writes true bytes atom_id) q h =
    push_to_queue-Counts (record { buffer = some bytes; atom_id = atom_id }) q h
move-Counts (writes false bytes atom_id) q h = record { counted = h; tried = unfold tries in refl }
move-Counts terminates q h =
    if_both (Counts q.phase q.retry_count) q.worker_thread_started _ _
      (λ _. push_to_queue-Counts terminate_cmd (record q { do_terminate = true }) h)
      (λ _. same-Counts q.phase q.retry_count q refl refl h)
move-Counts begins q h =
    begin_fields-Counts q.cmd_queue q.do_terminate q.worker_thread_started q.retry_count q.phase h
move-Counts (ends success) q h =
    end_fields-Counts success q.cmd_queue q.do_terminate q.worker_thread_started q.retry_count
      q.phase h

run-Counts :
    (ms : List Move) (q : BufferWriterQueue)
    → IsCounted q.phase q.retry_count
    → Counts q.phase q.retry_count (run ms q)
unfolding run
run-Counts [] q h = same-Counts q.phase q.retry_count q refl refl h
run-Counts (m ∷ ms) q h =
    let (p, first) = move m q in
    let c = move-Counts m q h in
    let d = run-Counts ms p c.counted in
    record {
      counted = d.counted;
      tried = tries-append (past_tries q.phase q.retry_count) first (run ms p).1 c.tried d.tried;
    }

-- For a new queue and any interleaving: every command that is given up was tried exactly ten times, and
-- none is tried more often; what the worker has counted is the attempts at the present front.
pub tries-run :
    (ms : List Move)
    → let (q, reports) = run ms init in tries 0 reports ≡ some (past_tries q.phase q.retry_count)
tries-run ms = (run-Counts ms init (omega arith)).tried

take_front-stops :
    (success : Bool) (l : List Cmd) (q : BufferWriterQueue)
    → 0 < length l
    → q.do_terminate ≡ true
    → (end_command success (take_front l q)).0.phase ≡ stopped
unfolding take_front end_command
take_front-stops success [] q h d = absurd (omega arith)
take_front-stops success (cmd ∷ rest) q h d = elim (Option-cases cmd.buffer) [
  | inl null ↦ rw null refl
  | inr (b, full) ↦ rw full (rw d refl)
]

worker_stops :
    (success : Bool) (l : List Cmd) (k : ℕ) (p : Phase)
    → 0 < length l
    → (end_command success (begin_command (fields l true true k p))).0.phase ≡ stopped
unfolding begin_command end_command
worker_stops success l k waiting h = take_front-stops success l _ h refl
worker_stops success l k (handling cmd f) h = refl
worker_stops success l k stopped h = refl

-- Once the worker runs, after a termination request one more attempt at most stops it, whether the
-- request found room in the queue or not and whether that attempt succeeds or not: from any phase, its
-- next look at the front and the end of what it then writes leave it stopped.
pub terminate-stopped :
    (success : Bool) (q : BufferWriterQueue)
    → q.worker_thread_started ≡ true
    → (end_command success (begin_command (terminate q).0)).0.phase ≡ stopped
unfolding terminate push_to_queue
terminate-stopped success q h = rw h (
    if_both
      (λ r. (end_command success (begin_command (reported terminate_cmd r).0)).0.phase ≡ stopped)
      (leb queue_max_size_limit (length q.cmd_queue)) _ _
      (λ full. worker_stops success q.cmd_queue q.retry_count q.phase (ground arith))
      (λ room.
        worker_stops success (q.cmd_queue ++ (terminate_cmd ∷ [])) q.retry_count q.phase
          (omega (arith, length-append q.cmd_queue (terminate_cmd ∷ [])))))
