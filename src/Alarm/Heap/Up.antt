-- ===== src/Alarm/Heap/Up.antt =====
-- sift_up and the removal's gap: the loop restores the heap order.
use packages_modules_stats_d.Common.{
  ℕ, zero, suc, ◌/◌, ◌≤◌, ◌<◌, ◌≡◌, refl, sym, inl, inr, Bool-cases, false, ◌&&◌, length, ltb, Eq,
  arith, subst, if_both,
}
use packages_modules_stats_d.Alarm.Heap.{IndexedPriorityQueue, swap_indices, sift_up, higher}
use packages_modules_stats_d.Alarm.Heap.Entries.{entry_inside, key, higher_lem}
use packages_modules_stats_d.Alarm.Heap.Indices.{entry-swap_indices, length-swap_indices}
use packages_modules_stats_d.Alarm.Heap.Order.{
  IsHeap, UpHeap, DownHeap, GapHeap, Swapped, UpHeap-swap, IsHeap-UpHeap, DownHeap-IsHeap,
  UpHeap-GapHeap, DownHeap-GapHeap,
}

module _ {A : Type 0} ⦃e : Eq A⦄ (timestamp_sec : A → ℕ) where
  pub swap_indices-Swapped :
      (q : IndexedPriorityQueue A) (i j : ℕ)
      → 1 ≤ i
      → i ≤ length q.pq
      → 1 ≤ j
      → j ≤ length q.pq
      → Swapped (key timestamp_sec q.pq) (key timestamp_sec (swap_indices i j q).pq) i j
  swap_indices-Swapped q i j p r s t k =
      let (a, f) = entry_inside q.pq i p r in
      let (b, g) = entry_inside q.pq j s t in ground (arith, entry-swap_indices q i j k a b f g)

  pub sift_up-IsHeap :
      (fuel idx : ℕ) (q : IndexedPriorityQueue A)
      → idx ≤ fuel
      → 1 ≤ idx
      → idx ≤ length q.pq
      → UpHeap (key timestamp_sec q.pq) (length q.pq) idx
      → IsHeap (key timestamp_sec (sift_up timestamp_sec fuel idx q).pq) (length q.pq)
  unfolding sift_up
  sift_up-IsHeap zero idx q f p r v = absurd (omega arith)
  sift_up-IsHeap (suc fuel) idx q f p r v =
      let K = key timestamp_sec q.pq in
      let swapped = swap_indices idx (idx / 2) q in
      let same = length-swap_indices q idx (idx / 2) in
      if_both (λ (z : IndexedPriorityQueue A). IsHeap (key timestamp_sec z.pq) (length q.pq))
        (ltb 1 idx && higher timestamp_sec q.pq idx (idx / 2)) _ _
        (λ t.
          let big : 2 ≤ idx = ground arith in
          let less : K idx < K (idx / 2) =
            ground (
              arith,
              higher_lem timestamp_sec q.pq idx (idx / 2) p r (omega arith) (omega arith),
            ) in
          subst (IsHeap (key timestamp_sec (sift_up timestamp_sec fuel (idx / 2) swapped).pq)) same
            (sift_up-IsHeap fuel (idx / 2) swapped (omega arith) (omega arith) (omega (arith, same))
              (subst (λ n. UpHeap (key timestamp_sec swapped.pq) n (idx / 2)) (sym same)
                (UpHeap-swap K (key timestamp_sec swapped.pq) (length q.pq) idx v big r less
                  (swap_indices-Swapped q idx (idx / 2) p r (omega arith) (omega arith))))))
        (λ t. IsHeap-UpHeap K (length q.pq) idx v (elim (Bool-cases (ltb 1 idx)) [
          | inl b ↦
              let big : 2 ≤ idx = ground arith in
              inr (
                ground (
                  arith,
                  higher_lem timestamp_sec q.pq idx (idx / 2) p r (omega arith) (omega arith),
                ))
          | inr b ↦ inl (ground arith)
        ]))

  pub sift_up_stays :
      (fuel idx : ℕ) (q : IndexedPriorityQueue A)
      → 1 ≤ idx
      → idx ≤ length q.pq
      → (ltb 1 idx && ltb (key timestamp_sec q.pq idx) (key timestamp_sec q.pq (idx / 2))) ≡ false
      → sift_up timestamp_sec fuel idx q ≡ q
  unfolding sift_up
  sift_up_stays zero idx q p r t = refl
  sift_up_stays (suc fuel) idx q p r t = elim (Bool-cases (ltb 1 idx)) [
    | inl b ↦
        let big : 2 ≤ idx = ground arith in
        ground (arith, higher_lem timestamp_sec q.pq idx (idx / 2) p r (omega arith) (omega arith))
    | inr b ↦ ground arith
  ]

  -- A test that moved nothing leaves the edge above in order; after a move the whole is a heap.
  pub sift_up-DownHeap :
      (fuel idx : ℕ) (q : IndexedPriorityQueue A)
      → idx ≤ fuel
      → 1 ≤ idx
      → idx ≤ length q.pq
      → GapHeap (key timestamp_sec q.pq) (length q.pq) idx
      → DownHeap (key timestamp_sec (sift_up timestamp_sec fuel idx q).pq) (length q.pq) idx
  unfolding sift_up
  sift_up-DownHeap fuel idx q f p r v =
      let K = key timestamp_sec q.pq in
      elim (Bool-cases (ltb 1 idx && ltb (K idx) (K (idx / 2)))) [
        | inl t ↦
            let big : 2 ≤ idx = ground arith in
            let less : K idx < K (idx / 2) = ground arith in
            DownHeap-IsHeap _ (length q.pq) idx
              (sift_up-IsHeap fuel idx q f p r (UpHeap-GapHeap K (length q.pq) idx v big less))
        | inr t ↦
            rw (sift_up_stays fuel idx q p r t)
              (DownHeap-GapHeap K (length q.pq) idx v (ground arith))
      ]
