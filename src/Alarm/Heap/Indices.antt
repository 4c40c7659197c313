-- ===== src/Alarm/Heap/Indices.antt =====
-- `indices` is the inverse of `pq`, and no sift loses an element.
use packages_modules_stats_d.Common.{
  ℕ, zero, suc, ◌*◌, ◌/◌, leb, ◌≡◌, refl, ◌∙◌, some, ◌&&◌, inl, inr, ltb, ◌==◌, if◌then◌else◌,
  length, Eq, if_both, Option-cases, arith,
}
use packages_modules_stats_d.Common.Dict.{get, put, get-put}
use packages_modules_stats_d.Alarm.Heap.{
  IndexedPriorityQueue, entry, set_entry, contains_alarm, swap_indices, sift_up, sift_down, higher,
  child_of,
}
use packages_modules_stats_d.Alarm.Heap.Entries.{entry-set_entry, length-set_entry, inside_of_entry}

module _ {A : Type 0} ⦃e : Eq A⦄ where
  -- The map and the vector are inverse to each other.
  pub record IsIndexed (q : IndexedPriorityQueue A) : Type 0 where
    pub at_index : (a : A) (i : ℕ) → get q.indices a ≡ some i → entry q.pq i ≡ some a
    pub index_of : (a : A) (i : ℕ) → entry q.pq i ≡ some a → get q.indices a ≡ some i

  -- The vector after a swap.
  pub entry-swap_indices :
      (q : IndexedPriorityQueue A) (i j k : ℕ) (a b : A)
      → entry q.pq i ≡ some a
      → entry q.pq j ≡ some b
      → entry (swap_indices i j q).pq k
        ≡ (if j == k then some a else if i == k then some b else entry q.pq k)
  unfolding swap_indices
  entry-swap_indices q i j k a b p r =
      let (i1, i2) = inside_of_entry q.pq i a p in
      let (j1, j2) = inside_of_entry q.pq j b r in
      rw (swap_indices, p, r)
        (ground (
          arith,
          entry-set_entry q.pq i k b i1 i2,
          length-set_entry q.pq i b,
          entry-set_entry (set_entry q.pq i b) j k a j1 (rw (length-set_entry q.pq i b) j2),
        ))

  pub get-swap_indices :
      (q : IndexedPriorityQueue A) (i j : ℕ) (a b x : A)
      → entry q.pq i ≡ some a
      → entry q.pq j ≡ some b
      → get (swap_indices i j q).indices x
        ≡ (if e.beq b x then some i else if e.beq a x then some j else get q.indices x)
  unfolding swap_indices
  get-swap_indices q i j a b x p r =
      rw (swap_indices, p, r, get-put (put q.indices a j) b x i, get-put q.indices a x j)

  pub length-swap_indices :
      (q : IndexedPriorityQueue A) (i j : ℕ) → length (swap_indices i j q).pq ≡ length q.pq
  unfolding swap_indices
  length-swap_indices q i j = elim (Option-cases (entry q.pq i)) [
    | inl p ↦ rw (swap_indices, p)
    | inr (a, p) ↦ elim (Option-cases (entry q.pq j)) [
      | inl r ↦ rw (swap_indices, p, r)
      | inr (b, r) ↦
          rw (swap_indices, p, r)
            (length-set_entry (set_entry q.pq i b) j a ∙ length-set_entry q.pq i b)
    ]
  ]

  -- The same elements, in another order.
  pub record Reorders (q r : IndexedPriorityQueue A) : Type 0 where
    pub indexed : IsIndexed r
    pub same_length : length r.pq ≡ length q.pq
    pub same_elements : (x : A) → contains_alarm r x ≡ contains_alarm q x

  pub Reorders-refl : (q : IndexedPriorityQueue A) → IsIndexed q → Reorders q q
  Reorders-refl q v = record { indexed = v; same_length = refl; same_elements = λ x. refl }

  pub Reorders-trans : (q r s : IndexedPriorityQueue A) → Reorders q r → Reorders r s → Reorders q s
  Reorders-trans q r s v w = record {
    indexed = w.indexed;
    same_length = w.same_length ∙ v.same_length;
    same_elements = λ x. w.same_elements x ∙ v.same_elements x;
  }

  pub swap_indices-Reorders :
      (q : IndexedPriorityQueue A) (i j : ℕ) (a b : A)
      → IsIndexed q
      → entry q.pq i ≡ some a
      → entry q.pq j ≡ some b
      → Reorders q (swap_indices i j q)
  unfolding contains_alarm
  swap_indices-Reorders q i j a b v p r = record {
    indexed = record {
      at_index = λ x k h. ground (
        arith,
        get-swap_indices q i j a b x p r,
        entry-swap_indices q i j k a b p r,
        e.beq_iff b x,
        e.beq_iff a x,
        v.at_index x k,
        v.index_of x k,
        v.index_of a i p,
        v.index_of b j r,
      );
      index_of = λ x k h. ground (
        arith,
        get-swap_indices q i j a b x p r,
        entry-swap_indices q i j k a b p r,
        e.beq_iff b x,
        e.beq_iff a x,
        v.index_of x k,
        v.index_of a i p,
        v.index_of b j r,
      );
    };
    same_length = length-swap_indices q i j;
    same_elements = λ x. ground (
      arith,
      get-swap_indices q i j a b x p r,
      e.beq_iff b x,
      e.beq_iff a x,
      v.index_of a i p,
      v.index_of b j r,
    );
  }

  pub swap_indices-Reorders_any :
      (q : IndexedPriorityQueue A) (i j : ℕ) → IsIndexed q → Reorders q (swap_indices i j q)
  unfolding swap_indices
  swap_indices-Reorders_any q i j v = elim (Option-cases (entry q.pq i)) [
    | inl p ↦ rw (swap_indices, p) (Reorders-refl q v)
    | inr (a, p) ↦ elim (Option-cases (entry q.pq j)) [
      | inl r ↦ rw (swap_indices, p, r) (Reorders-refl q v)
      | inr (b, r) ↦ swap_indices-Reorders q i j a b v p r
    ]
  ]

module _ {A : Type 0} ⦃e : Eq A⦄ (timestamp_sec : A → ℕ) where
  pub sift_up-Reorders :
      (fuel idx : ℕ) (q : IndexedPriorityQueue A)
      → IsIndexed q
      → Reorders q (sift_up timestamp_sec fuel idx q)
  unfolding sift_up
  sift_up-Reorders zero idx q v = Reorders-refl q v
  sift_up-Reorders (suc fuel) idx q v =
      let w = swap_indices-Reorders_any q idx (idx / 2) v in
      if_both (Reorders q) (ltb 1 idx && higher timestamp_sec q.pq idx (idx / 2)) _ _
        (λ t.
          Reorders-trans q _ _ w
            (sift_up-Reorders fuel (idx / 2) (swap_indices idx (idx / 2) q) w.indexed))
        (λ f. Reorders-refl q v)

  pub sift_down-Reorders :
      (fuel idx : ℕ) (q : IndexedPriorityQueue A)
      → IsIndexed q
      → Reorders q (sift_down timestamp_sec fuel idx q)
  unfolding sift_down
  sift_down-Reorders zero idx q v = Reorders-refl q v
  sift_down-Reorders (suc fuel) idx q v =
      let child = child_of timestamp_sec q.pq idx in
      let w = swap_indices-Reorders_any q child idx v in
      if_both (Reorders q) (leb (2 * idx) (length q.pq) && higher timestamp_sec q.pq child idx) _ _
        (λ t.
          Reorders-trans q _ _ w
            (sift_down-Reorders fuel child (swap_indices child idx q) w.indexed))
        (λ f. Reorders-refl q v)
