-- ===== src/Alarm/Heap/Top.antt =====
-- The top of the priority queue, and pop as the removal of the top.
use packages_modules_stats_d.Common.{
  ℕ, ◌≤◌, ◌≡◌, ◌==◌, inl, inr, Bool-cases, true, false, length, ltb, Eq, arith, Option, none, some,
  Option-cases,
}
use packages_modules_stats_d.Common.Dict.{get}
use packages_modules_stats_d.Alarm.Heap.{
  IndexedPriorityQueue, top, remove, pop, contains_alarm, sift_up,
}
use packages_modules_stats_d.Alarm.Heap.Entries.{entry_inside, inside_of_entry, key_of, key}
use packages_modules_stats_d.Alarm.Heap.Order.{IsHeap-root}
use packages_modules_stats_d.Alarm.Heap.Refines.{IsQueue}

module _ {A : Type 0} ⦃e : Eq A⦄ (timestamp_sec : A → ℕ) where
  -- What the top promises: none on an empty queue, otherwise a held element that no held one precedes.
  abbrev pub IsTop : IndexedPriorityQueue A → Option A → Type 0
  IsTop q none = (length q.pq ≡ 0) × ((x : A) → contains_alarm q x ≡ false)
  IsTop q (some a) =
      (contains_alarm q a ≡ true)
      × ((x : A) → contains_alarm q x ≡ true → timestamp_sec a ≤ timestamp_sec x)
      × (1 ≤ length q.pq)

  pub top-IsTop : (q : IndexedPriorityQueue A) → IsQueue timestamp_sec q → IsTop q (top q)
  unfolding contains_alarm key_of
  top-IsTop q v = elim (Option-cases (top q)) [
    | inl h ↦ rw h (
        let empty : length q.pq ≡ 0 = elim (Bool-cases (ltb 0 (length q.pq))) [
          | inl t ↦ let (a, f) = entry_inside q.pq 1 (omega arith) (ground arith) in ground arith
          | inr t ↦ ground arith
        ] in
        (
          empty,
          λ x. elim (Option-cases (get q.indices x)) [
            | inl g ↦ rw (contains_alarm, g)
            | inr (i, g) ↦
                absurd (omega (arith, inside_of_entry q.pq i x (v.indexed.at_index x i g)))
          ],
        ))
    | inr (a, h) ↦
        let there = v.indexed.index_of a 1 h in
        rw h (
          ground arith,
          (λ x t. elim (Option-cases (get q.indices x)) [
            | inl g ↦ ground arith
            | inr (i, g) ↦
                let here = v.indexed.at_index x i g in
                let (low, high) = inside_of_entry q.pq i x here in
                let least =
                  IsHeap-root i (key timestamp_sec q.pq) (length q.pq) i v.heap (omega arith) low
                    high in
                ground arith
          ]),
          (inside_of_entry q.pq 1 a h).1,
        )
  ]

  pub pop-remove-top :
      (q : IndexedPriorityQueue A)
      → IsQueue timestamp_sec q
      → pop timestamp_sec q ≡ (remove timestamp_sec (top q) q).0
  unfolding pop remove sift_up
  pop-remove-top q v = elim (Option-cases (top q)) [
    | inl h ↦ rw (pop, h)
    | inr (a, h) ↦
        let there = v.indexed.index_of a 1 h in
        let (low, high) = inside_of_entry q.pq 1 a h in
        let inside : ltb (length q.pq) 1 ≡ false = ground arith in
        rw (pop, remove, h, there, inside)
          (elim (Bool-cases (1 == length q.pq)) [ inl b ↦ rw b | inr b ↦ rw b ])
  ]

  -- On a valid queue, top is none only if the queue is empty and holds nothing; otherwise it is an
  -- element of the queue whose timestamp is the least. pop leaves the queue that remove leaves for the
  -- top.
  pub top-pop_lem :
      (q : IndexedPriorityQueue A)
      → IsQueue timestamp_sec q
      → IsTop q (top q) × (pop timestamp_sec q ≡ (remove timestamp_sec (top q) q).0)
  top-pop_lem q v = (top-IsTop q v, pop-remove-top q v)
