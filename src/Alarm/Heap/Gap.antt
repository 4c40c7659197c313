-- ===== src/Alarm/Heap/Gap.antt =====
-- The element appended by push, and the element taken out by remove and pop, before a sift.
use packages_modules_stats_d.Common.{
  ℕ, suc, ◌/◌, ◌≤◌, ◌<◌, ◌≡◌, ap, ◌∙◌, ◌==◌, if◌then◌else◌, false, ◌&&◌, ◌||◌, not, [], ◌∷◌, ◌++◌,
  length, Eq, arith, none, some, length-append,
}
use packages_modules_stats_d.Common.Dict.{get, put, get-put, get-erase}
use packages_modules_stats_d.Alarm.Heap.{
  IndexedPriorityQueue, entry, set_entry, contains_alarm, fill_gap, drop_last,
}
use packages_modules_stats_d.Alarm.Heap.Entries.{
  inside_of_entry, key, entry-set_entry, length-set_entry, entry-append, entry-pop_back,
  length-pop_back,
}
use packages_modules_stats_d.Alarm.Heap.Indices.{IsIndexed, Reorders}
use packages_modules_stats_d.Alarm.Heap.Order.{IsHeap, UpHeap, GapHeap}

module _ {A : Type 0} ⦃e : Eq A⦄ where
  -- `r` holds what `q` holds and `a`.
  pub record With (a : A) (q r : IndexedPriorityQueue A) : Type 0 where
    pub indexed : IsIndexed r
    pub longer : length r.pq ≡ suc (length q.pq)
    pub elements : (x : A) → contains_alarm r x ≡ (e.beq a x || contains_alarm q x)

  -- `r` holds what `q` holds, less `a`.
  pub record Without (a : A) (q r : IndexedPriorityQueue A) : Type 0 where
    pub indexed : IsIndexed r
    pub shorter : suc (length r.pq) ≡ length q.pq
    pub elements : (x : A) → contains_alarm r x ≡ (contains_alarm q x && not (e.beq a x))

  pub With-Reorders :
      (a : A) (q r s : IndexedPriorityQueue A) → With a q r → Reorders r s → With a q s
  With-Reorders a q r s w o = record {
    indexed = o.indexed;
    longer = o.same_length ∙ w.longer;
    elements = λ x. o.same_elements x ∙ w.elements x;
  }

  pub Without-Reorders :
      (a : A) (q r s : IndexedPriorityQueue A) → Without a q r → Reorders r s → Without a q s
  Without-Reorders a q r s w o = record {
    indexed = o.indexed;
    shorter = ap suc o.same_length ∙ w.shorter;
    elements = λ x. o.same_elements x ∙ w.elements x;
  }

  -- push before the sift
  abbrev pub appended : A → IndexedPriorityQueue A → IndexedPriorityQueue A
  appended a q = record { pq = q.pq ++ (a ∷ []); indices = put q.indices a (suc (length q.pq)) }

  pub appended-With :
      (a : A) (q : IndexedPriorityQueue A)
      → IsIndexed q
      → contains_alarm q a ≡ false
      → With a q (appended a q)
  unfolding contains_alarm
  appended-With a q v new = record {
    indexed = record {
      at_index = λ x k h. ground (
        arith,
        get-put q.indices a x (suc (length q.pq)),
        entry-append q.pq a k,
        e.beq_iff a x,
        v.at_index x k,
        inside_of_entry q.pq k x,
      );
      index_of = λ x k h. ground (
        arith,
        get-put q.indices a x (suc (length q.pq)),
        entry-append q.pq a k,
        e.beq_iff a x,
        v.index_of x k,
      );
    };
    longer = omega (arith, length-append q.pq (a ∷ []));
    elements = λ x. ground (arith, get-put q.indices a x (suc (length q.pq)));
  }

  pub drop_last-Without :
      (a : A) (q : IndexedPriorityQueue A)
      → IsIndexed q
      → get q.indices a ≡ some (length q.pq)
      → Without a q (drop_last a q)
  unfolding contains_alarm
  drop_last-Without a q v h =
      let here = v.at_index a (length q.pq) h in
      record {
        indexed = record {
          at_index = λ x k g. ground (
            arith,
            get-erase q.indices a x,
            entry-pop_back q.pq k,
            e.beq_iff a x,
            v.at_index x k,
          );
          index_of = λ x k g. ground (
            arith,
            get-erase q.indices a x,
            entry-pop_back q.pq k,
            e.beq_iff a x,
            v.index_of x k,
          );
        };
        shorter = omega (arith, length-pop_back q.pq, inside_of_entry q.pq (length q.pq) a here);
        elements = λ x. ground (arith, get-erase q.indices a x);
      }

  -- fill_gap by its entries.
  pub record Filled (a last : A) (idx : ℕ) (q r : IndexedPriorityQueue A) : Type 0 where
    pub entries :
        (k : ℕ)
        → entry r.pq k
          ≡ (if length q.pq == k then none else if idx == k then some last else entry q.pq k)
    pub gets :
        (x : A)
        → get r.indices x
          ≡ (if e.beq a x then none else if e.beq last x then some idx else get q.indices x)
    pub shorter : suc (length r.pq) ≡ length q.pq

  pub fill_gap-Filled :
      (a : A) (idx : ℕ) (q : IndexedPriorityQueue A)
      → 1 ≤ idx
      → idx < length q.pq
      → (last : A) → entry q.pq (length q.pq) ≡ some last
      → Filled a last idx q (fill_gap a idx q)
  unfolding fill_gap
  fill_gap-Filled a idx q p r last f =
      rw (fill_gap, f)
        (record {
          entries = λ k. ground (
            arith,
            entry-pop_back (set_entry q.pq idx last) k,
            entry-set_entry q.pq idx k last p (omega arith),
            length-set_entry q.pq idx last,
          );
          gets = λ x. rw (get-erase (put q.indices last idx) a x, get-put q.indices last x idx);
          shorter =
              omega
                (arith, length-pop_back (set_entry q.pq idx last), length-set_entry q.pq idx last);
        })

  pub Without-Filled :
      (a last : A) (idx : ℕ) (q r : IndexedPriorityQueue A)
      → IsIndexed q
      → get q.indices a ≡ some idx
      → idx < length q.pq
      → entry q.pq (length q.pq) ≡ some last
      → Filled a last idx q r
      → Without a q r
  unfolding contains_alarm
  Without-Filled a last idx q r v h less f d =
      let here = v.at_index a idx h in
      let there = v.index_of last (length q.pq) f in
      record {
        indexed = record {
          at_index = λ x k g.
              ground
                (arith, d.entries k, d.gets x, e.beq_iff a x, e.beq_iff last x, v.at_index x k);
          index_of = λ x k g.
              ground
                (arith, d.entries k, d.gets x, e.beq_iff a x, e.beq_iff last x, v.index_of x k);
        };
        shorter = d.shorter;
        elements = λ x. ground (arith, d.gets x, e.beq_iff a x, e.beq_iff last x);
      }

module _ {A : Type 0} ⦃e : Eq A⦄ (timestamp_sec : A → ℕ) where
  pub appended-UpHeap :
      (a : A) (q : IndexedPriorityQueue A)
      → IsHeap (key timestamp_sec q.pq) (length q.pq)
      → UpHeap (key timestamp_sec (appended a q).pq) (suc (length q.pq)) (suc (length q.pq))
  appended-UpHeap a q h = record {
    edges = λ c p r ne. ground (arith, entry-append q.pq a c, entry-append q.pq a (c / 2), h c);
    bridges = λ c p r par. absurd (omega arith);
  }

  pub GapHeap-Filled :
      (a last : A) (idx : ℕ) (q r : IndexedPriorityQueue A)
      → IsHeap (key timestamp_sec q.pq) (length q.pq)
      → idx < length q.pq
      → Filled a last idx q r
      → GapHeap (key timestamp_sec r.pq) (length r.pq) idx
  GapHeap-Filled a last idx q r h less d = record {
    edges = λ c p cn ne par. ground (arith, d.entries c, d.entries (c / 2), h c, d.shorter);
    bridges = λ c p cn par. ground (arith, d.entries c, d.entries (idx / 2), h c, h idx, d.shorter);
  }
