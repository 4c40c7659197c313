-- ===== src/Alarm/Heap/Refines.antt =====
-- The priority queue as a set of elements whose top is least.
use packages_modules_stats_d.Common.{
  ℕ, suc, ◌/◌, ◌≤◌, ◌<◌, ◌≡◌, refl, sym, ap, ◌∙◌, ◌==◌, if◌then◌else◌, inl, inr, Bool-cases, true,
  false, ◌&&◌, ◌||◌, not, [], length, ltb, Eq, arith, subst, none, some, Option-cases,
}
use packages_modules_stats_d.Common.Dict.{get}
use packages_modules_stats_d.Alarm.Heap.{
  IndexedPriorityQueue, init, push, remove, contains_alarm, fill_gap, drop_last, sift_up, sift_down,
}
use packages_modules_stats_d.Alarm.Heap.Entries.{entry_inside, inside_of_entry, key, entry-pop_back}
use packages_modules_stats_d.Alarm.Heap.Indices.{
  IsIndexed, Reorders-trans, sift_up-Reorders, sift_down-Reorders,
}
use packages_modules_stats_d.Alarm.Heap.Order.{IsHeap, UpHeap, DownHeap}
use packages_modules_stats_d.Alarm.Heap.Up.{sift_up-IsHeap, sift_up-DownHeap}
use packages_modules_stats_d.Alarm.Heap.Down.{sift_down-IsHeap}
use packages_modules_stats_d.Alarm.Heap.Gap.{
  With, Without, With-Reorders, Without-Reorders, appended, appended-With, appended-UpHeap,
  drop_last-Without, Filled, fill_gap-Filled, Without-Filled, GapHeap-Filled,
}

module _ {A : Type 0} ⦃e : Eq A⦄ (timestamp_sec : A → ℕ) where
  -- The index map is the inverse of the vector, and the vector is a heap.
  pub record IsQueue (q : IndexedPriorityQueue A) : Type 0 where
    pub indexed : IsIndexed q
    pub heap : IsHeap (key timestamp_sec q.pq) (length q.pq)

module _ {A : Type 0} ⦃e : Eq A⦄ (timestamp_sec : A → ℕ) where
  pub init-IsQueue : IsQueue timestamp_sec (init {A = A})
  unfolding get
  init-IsQueue = record {
    indexed = record {
      at_index = λ a i h. ground arith;
      index_of = λ a i h. ground (arith, inside_of_entry {A = A} [] i a);
    };
    heap = λ c p r. absurd (omega arith);
  }

  sorted-IsQueue :
      (r : IndexedPriorityQueue A) (n : ℕ)
      → IsIndexed r
      → length r.pq ≡ n
      → IsHeap (key timestamp_sec r.pq) n
      → IsQueue timestamp_sec r
  sorted-IsQueue r n v s h = record {
    indexed = v;
    heap = subst (IsHeap (key timestamp_sec r.pq)) (sym s) h;
  }

  push_new :
      (q : IndexedPriorityQueue A) (a : A)
      → IsQueue timestamp_sec q
      → contains_alarm q a ≡ false
      → let n = suc (length q.pq) in
        let r = sift_up timestamp_sec n n (appended a q) in IsQueue timestamp_sec r × With a q r
  push_new q a v new =
      let n = suc (length q.pq) in
      let w = appended-With a q v.indexed new in
      let o = sift_up-Reorders timestamp_sec n n (appended a q) w.indexed in
      let up =
        subst (λ m. UpHeap (key timestamp_sec (appended a q).pq) m n) (sym w.longer)
          (appended-UpHeap timestamp_sec a q v.heap) in
      let h =
        sift_up-IsHeap timestamp_sec n n (appended a q) (omega arith) (omega arith)
          (omega (arith, w.longer)) up in
      (
        sorted-IsQueue (sift_up timestamp_sec n n (appended a q)) (length (appended a q).pq)
            o.indexed o.same_length h,
        With-Reorders a q (appended a q) (sift_up timestamp_sec n n (appended a q)) w o,
      )

  -- On a valid queue, push gives a valid queue that holds the element and whatever was there, one
  -- longer if the element is new; it is the queue itself if the element is there, and so is a push of
  -- null.
  pub push-IsQueue :
      (q : IndexedPriorityQueue A) (a : A)
      → IsQueue timestamp_sec q
      → let r = push timestamp_sec (some a) q in
        IsQueue timestamp_sec r
        × ((x : A) → contains_alarm r x ≡ (e.beq a x || contains_alarm q x))
        × (length r.pq ≡ (if contains_alarm q a then length q.pq else suc (length q.pq)))
        × (contains_alarm q a ≡ true → r ≡ q)
        × (push timestamp_sec none q ≡ q)
  unfolding push
  push-IsQueue q a v = elim (Bool-cases (contains_alarm q a)) [
    | inl t ↦ rw (push, t) (v, (λ x. ground (arith, e.beq_iff a x)), refl, (λ h. refl), refl)
    | inr t ↦
        let (r, w) = push_new q a v t in
        rw (push, t) (r, w.elements, w.longer, (λ h. ground arith), refl)
  ]

  -- A gap at `idx`, after both sifts.
  sifted_gap :
      (q f : IndexedPriorityQueue A) (a last : A) (idx : ℕ)
      → IsQueue timestamp_sec q
      → Filled a last idx q f
      → Without a q f
      → 1 ≤ idx
      → idx < length q.pq
      → let n = length q.pq in
        let r = sift_down timestamp_sec n idx (sift_up timestamp_sec idx idx f) in
        IsQueue timestamp_sec r × Without a q r
  sifted_gap q f a last idx v d w p less =
      let n = length q.pq in
      let up = sift_up timestamp_sec idx idx f in
      let o1 = sift_up-Reorders timestamp_sec idx idx f w.indexed in
      let o2 = sift_down-Reorders timestamp_sec n idx up o1.indexed in
      let gap = GapHeap-Filled timestamp_sec a last idx q f v.heap less d in
      let m =
        sift_up-DownHeap timestamp_sec idx idx f (omega arith) p (omega (arith, w.shorter)) gap in
      let down = subst (λ n. DownHeap (key timestamp_sec up.pq) n idx) (sym o1.same_length) m in
      let h =
        sift_down-IsHeap timestamp_sec n idx up (omega (arith, o1.same_length, w.shorter)) p
          (omega (arith, o1.same_length, w.shorter)) down in
      (
        sorted-IsQueue (sift_down timestamp_sec n idx up) (length up.pq) o2.indexed o2.same_length
            h,
        Without-Reorders a q f (sift_down timestamp_sec n idx up) w (Reorders-trans f up _ o1 o2),
      )

  dropped :
      (q : IndexedPriorityQueue A) (a : A)
      → IsQueue timestamp_sec q
      → get q.indices a ≡ some (length q.pq)
      → IsQueue timestamp_sec (drop_last a q) × Without a q (drop_last a q)
  dropped q a v h =
      let w = drop_last-Without a q v.indexed h in
      (
        record {
          indexed = w.indexed;
          heap = λ c p r.
              ground
                (arith, entry-pop_back q.pq c, entry-pop_back q.pq (c / 2), w.shorter, v.heap c);
        },
        w,
      )

  removed :
      (q : IndexedPriorityQueue A) (a : A)
      → IsQueue timestamp_sec q
      → contains_alarm q a ≡ true
      → let (r, found) = remove timestamp_sec (some a) q in
        IsQueue timestamp_sec r × Without a q r × (found ≡ true)
  unfolding remove contains_alarm
  removed q a v t = elim (Option-cases (get q.indices a)) [
    | inl h ↦ ground arith
    | inr (idx, h) ↦
        let (low, high) = inside_of_entry q.pq idx a (v.indexed.at_index a idx h) in
        let inside : ltb (length q.pq) idx ≡ false = ground arith in
        elim (Bool-cases (idx == length q.pq)) [
          | inl b ↦
              let same : idx ≡ length q.pq = ground arith in
              let (r, w) = dropped q a v (h ∙ ap some same) in
              rw (remove, h, inside, b) (r, w, refl)
          | inr b ↦
              let less : idx < length q.pq = ground arith in
              let (last, f) = entry_inside q.pq (length q.pq) (omega arith) (omega arith) in
              let d = fill_gap-Filled a idx q low less last f in
              let w = Without-Filled a last idx q (fill_gap a idx q) v.indexed h less f d in
              let (r, w2) = sifted_gap q (fill_gap a idx q) a last idx v d w low less in
              rw (remove, h, inside, b) (r, w2, refl)
        ]
  ]

  -- On a valid queue, remove gives a valid queue without the element and with whatever else was
  -- there, one shorter, and says true; if the element is not there, or is null, it gives the queue
  -- itself and says false.
  pub remove-IsQueue :
      (q : IndexedPriorityQueue A) (a : A)
      → IsQueue timestamp_sec q
      → let (r, found) = remove timestamp_sec (some a) q in
        IsQueue timestamp_sec r
        × ((x : A) → contains_alarm r x ≡ (contains_alarm q x && not (e.beq a x)))
        × (found ≡ contains_alarm q a)
        × (length q.pq ≡ (if found then suc (length r.pq) else length r.pq))
        × (contains_alarm q a ≡ false → r ≡ q)
        × (remove timestamp_sec none q ≡ (q, false))
  unfolding remove contains_alarm
  remove-IsQueue q a v = elim (Bool-cases (contains_alarm q a)) [
    | inl t ↦
        let (r, w, found) = removed q a v t in
        (r, w.elements, found ∙ sym t, rw found (sym w.shorter), (λ h. ground arith), refl)
    | inr t ↦
        let gone : get q.indices a ≡ none = ground arith in
        rw (remove, gone) (v, (λ x. ground (arith, e.beq_iff a x)), sym t, refl, (λ h. refl), refl)
  ]
