-- ===== src/Alarm/Heap.antt =====
-- statsd/src/anomaly/indexed_priority_queue.h: a binary heap with the index of each element. The null
-- at the front of `pq` is left out, so that pq[i] is `entry pq i` and size() is the length; so is its
-- entry in `indices`. A pointer that may be null is an Option. The comparator is that of the only
-- queue of the program, InternalAlarm::SmallerTimestamp. The loops have fuel, which the order of the
-- result shows to be enough.
pub mod Entries
pub mod Indices
pub mod Order
pub mod Up
pub mod Down
pub mod Gap
pub mod Refines
pub mod Top
mod Tests
use packages_modules_stats_d.Common.{
  ℕ, zero, suc, ◌+◌, ◌*◌, ◌/◌, Option, none, some, Bool, true, false, ◌&&◌, List, [], ◌∷◌, ◌++◌,
  ltb, leb, ◌==◌, if◌then◌else◌, length, set, get_elem?, Eq,
}
use packages_modules_stats_d.Common.Dict.{Dict, get, put, erase}

pub record IndexedPriorityQueue (A : Type 0) : Type 0 where
  pub pq : List A
  pub indices : Dict A ℕ

module _ {A : Type 0} where
  -- pq[i]
  abbrev pub entry : List A → ℕ → Option A
  entry l zero = none
  entry l (suc i) = get_elem? l i

  -- pq[i] = a
  abbrev pub set_entry : List A → ℕ → A → List A
  set_entry l zero a = l
  set_entry l (suc i) a = set l i a

  -- pq.pop_back()
  abbrev pub pop_back : List A → List A
  pop_back [] = []
  pop_back (a ∷ []) = []
  pop_back (a ∷ b ∷ l) = a ∷ pop_back (b ∷ l)

  abbrev pub init : IndexedPriorityQueue A
  init = record { pq = []; indices = [] }

  abbrev pub clear : IndexedPriorityQueue A → IndexedPriorityQueue A
  clear q = init

  abbrev pub top : IndexedPriorityQueue A → Option A
  top q = entry q.pq 1

module _ {A : Type 0} (timestamp_sec : A → ℕ) where
  -- False out of range, where `entry` has nothing.
  unfoldable pub higher : List A → ℕ → ℕ → Bool
  higher l i j = elim (entry l i) [
    | none ↦ false
    | some a ↦ elim (entry l j) [ none ↦ false | some b ↦ ltb (timestamp_sec a) (timestamp_sec b) ]
  ]

module _ {A : Type 0} (timestamp_sec : A → ℕ) where
  -- The smaller child of `idx`.
  unfoldable pub child_of : List A → ℕ → ℕ
  child_of l idx =
      if ltb (2 * idx) (length l) && higher timestamp_sec l (2 * idx + 1) (2 * idx)
      then 2 * idx + 1
      else 2 * idx

module _ {A : Type 0} ⦃e : Eq A⦄ where
  unfoldable pub contains_alarm : IndexedPriorityQueue A → A → Bool
  contains_alarm q a = elim (get q.indices a) [ none ↦ false | some _ ↦ true ]

  unfoldable pub swap_indices : ℕ → ℕ → IndexedPriorityQueue A → IndexedPriorityQueue A
  swap_indices i j q = elim (entry q.pq i) [
    | none ↦ q
    | some a ↦ elim (entry q.pq j) [
      | none ↦ q
      | some b ↦ record {
        pq = set_entry (set_entry q.pq i b) j a;
        indices = put (put q.indices a j) b i;
      }
    ]
  ]

  -- The last element moves to `idx`, where `a` was.
  unfoldable pub fill_gap : A → ℕ → IndexedPriorityQueue A → IndexedPriorityQueue A
  fill_gap a idx q = elim (entry q.pq (length q.pq)) [
    | none ↦ q
    | some last ↦ record {
      pq = pop_back (set_entry q.pq idx last);
      indices = erase (put q.indices last idx) a;
    }
  ]

  abbrev pub drop_last : A → IndexedPriorityQueue A → IndexedPriorityQueue A
  drop_last a q = record { pq = pop_back q.pq; indices = erase q.indices a }

module _ {A : Type 0} ⦃e : Eq A⦄ (timestamp_sec : A → ℕ) where
  unfoldable pub sift_up : ℕ → ℕ → IndexedPriorityQueue A → IndexedPriorityQueue A
  sift_up zero idx q = q
  sift_up (suc fuel) idx q =
      let rest = sift_up fuel (idx / 2) (swap_indices idx (idx / 2) q) in
      if ltb 1 idx && higher timestamp_sec q.pq idx (idx / 2) then rest else q

  unfoldable pub sift_down : ℕ → ℕ → IndexedPriorityQueue A → IndexedPriorityQueue A
  sift_down zero idx q = q
  sift_down (suc fuel) idx q =
      let child = child_of timestamp_sec q.pq idx in
      let rest = sift_down fuel child (swap_indices child idx q) in
      if leb (2 * idx) (length q.pq) && higher timestamp_sec q.pq child idx then rest else q

  unfoldable pub push : Option A → IndexedPriorityQueue A → IndexedPriorityQueue A
  push none q = q
  push (some a) q =
      let idx = suc (length q.pq) in
      if contains_alarm q a
      then q
      else sift_up idx idx (record { pq = q.pq ++ (a ∷ []); indices = put q.indices a idx })

  unfoldable pub remove : Option A → IndexedPriorityQueue A → IndexedPriorityQueue A × Bool
  remove none q = (q, false)
  remove (some a) q = elim (get q.indices a) [
    | none ↦ (q, false)
    | some idx ↦
        let filled = fill_gap a idx q in
        let sifted = sift_up idx idx filled in
        if ltb (length q.pq) idx
        then (q, false)
        else if idx == length q.pq
        then (drop_last a q, true)
        else (sift_down (length q.pq) idx sifted, true)
  ]

  unfoldable pub pop : IndexedPriorityQueue A → IndexedPriorityQueue A
  pop q = elim (top q) [
    | none ↦ q
    | some a ↦
        if 1 == length q.pq then drop_last a q else sift_down (length q.pq) 1 (fill_gap a 1 q)
  ]
