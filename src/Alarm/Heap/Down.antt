-- ===== src/Alarm/Heap/Down.antt =====
-- sift_down: the loop restores the heap order below an index.
use packages_modules_stats_d.Common.{
  ℕ, zero, suc, ◌+◌, ◌*◌, ◌/◌, ◌≤◌, ◌<◌, ◌≡◌, sym, ◌⊎◌, inl, inr, Bool-cases, ◌&&◌, List, length,
  ltb, leb, Eq, arith, subst, if_both,
}
use packages_modules_stats_d.Alarm.Heap.{
  IndexedPriorityQueue, swap_indices, sift_down, higher, child_of,
}
use packages_modules_stats_d.Alarm.Heap.Entries.{key, higher_lem}
use packages_modules_stats_d.Alarm.Heap.Indices.{length-swap_indices}
use packages_modules_stats_d.Alarm.Heap.Order.{IsHeap, DownHeap, DownHeap-swap, IsHeap-DownHeap}
use packages_modules_stats_d.Alarm.Heap.Up.{swap_indices-Swapped}

-- The child with the smaller key.
pub record SmallerChild (K : ℕ → ℕ) (n idx child : ℕ) : Type 0 where
  pub in_range : child ≤ n
  pub below : child / 2 ≡ idx
  pub least : (c : ℕ) → c ≤ n → c / 2 ≡ idx → K child ≤ K c

module _ {A : Type 0} (timestamp_sec : A → ℕ) where
  pub child_of-SmallerChild :
      (l : List A) (idx : ℕ)
      → 1 ≤ idx
      → 2 * idx ≤ length l
      → SmallerChild (key timestamp_sec l) (length l) idx (child_of timestamp_sec l idx)
  unfolding child_of
  child_of-SmallerChild l idx p r = elim (Bool-cases (ltb (2 * idx) (length l))) [
    | inl t ↦
        let small : 2 * idx < length l = ground arith in
        let h =
          higher_lem timestamp_sec l (2 * idx + 1) (2 * idx) (omega arith) (omega arith)
            (omega arith) (omega arith) in
        record {
          in_range = ground arith;
          below = ground arith;
          least = λ c cn par.
              let side : (c ≡ 2 * idx) ⊎ (c ≡ 2 * idx + 1) = omega arith in ground (arith, h);
        }
    | inr t ↦
        let last : length l ≡ 2 * idx = ground arith in
        record {
          in_range = ground arith;
          below = ground arith;
          least = λ c cn par. let same : c ≡ 2 * idx = omega arith in ground arith;
        }
  ]

module _ {A : Type 0} ⦃e : Eq A⦄ (timestamp_sec : A → ℕ) where
  pub sift_down-IsHeap :
      (fuel idx : ℕ) (q : IndexedPriorityQueue A)
      → length q.pq ≤ fuel + idx
      → 1 ≤ idx
      → idx ≤ length q.pq
      → DownHeap (key timestamp_sec q.pq) (length q.pq) idx
      → IsHeap (key timestamp_sec (sift_down timestamp_sec fuel idx q).pq) (length q.pq)
  unfolding sift_down
  sift_down-IsHeap zero idx q f p r v =
      IsHeap-DownHeap (key timestamp_sec q.pq) (length q.pq) idx v
        (λ c cn par. absurd (omega arith))
  sift_down-IsHeap (suc fuel) idx q f p r v =
      let K = key timestamp_sec q.pq in
      let child = child_of timestamp_sec q.pq idx in
      let swapped = swap_indices child idx q in
      let same = length-swap_indices q child idx in
      if_both (λ (z : IndexedPriorityQueue A). IsHeap (key timestamp_sec z.pq) (length q.pq))
        (leb (2 * idx) (length q.pq) && higher timestamp_sec q.pq child idx) _ _
        (λ t.
          let some_child : 2 * idx ≤ length q.pq = ground arith in
          let s = child_of-SmallerChild timestamp_sec q.pq idx p some_child in
          let below : idx < child = omega (arith, s.below) in
          let less : K child < K idx = ground (
            arith,
            higher_lem timestamp_sec q.pq child idx (omega (arith, s.below)) s.in_range p r,
          ) in
          subst (IsHeap (key timestamp_sec (sift_down timestamp_sec fuel child swapped).pq)) same (
            sift_down-IsHeap fuel child swapped (omega (arith, same)) (omega arith)
              (omega (arith, same, s.in_range))
              (subst (λ n. DownHeap (key timestamp_sec swapped.pq) n child) (sym same)
                (DownHeap-swap K (key timestamp_sec swapped.pq) (length q.pq) idx child v p
                  s.in_range s.below less s.least
                  (swap_indices-Swapped timestamp_sec q child idx (omega arith) s.in_range p r)))))
        (λ t. IsHeap-DownHeap K (length q.pq) idx v (λ c cn par.
          let some_child : 2 * idx ≤ length q.pq = omega arith in
          let s = child_of-SmallerChild timestamp_sec q.pq idx p some_child in
          ground (
            arith,
            s.least c cn par,
            higher_lem timestamp_sec q.pq child idx (omega (arith, s.below)) s.in_range p r,
          )))
