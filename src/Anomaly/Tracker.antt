-- ===== src/Anomaly/Tracker.antt =====
-- statsd/src/anomaly/AnomalyTracker.h and .cpp: past buckets in a circular array, their cached sum,
-- and the refractory period of each dimension key. Bucket values and the threshold are doubles in the
-- source; here they are of any type `V` with the operations that the code applies to them, which are
-- those of double or, for whole numbers, those of ℕ. A bucket that is handed over is not shared afterwards.
pub mod Sum
pub mod Advance
pub mod Consistent
pub mod Calls
pub mod Read
pub mod Declare
pub mod Refractory
pub mod Tests
use packages_modules_stats_d.Common.{
  ℕ, zero, suc, ◌+◌, ◌-◌, ◌*◌, ◌/◌, ◌%◌, ◌^◌, Option, none, some, Bool, true, false, ◌&&◌, ◌||◌,
  List, [], ◌∷◌, ltb, leb, ◌==◌, if◌then◌else◌, set, replicate, get_elem?, Eq,
}
use packages_modules_stats_d.Common.Int.{ℤ, pos, negsuc, ◌+ℤ◌, ◌-ℤ◌, leb_ℤ, ltb_ℤ, pos_part}
use packages_modules_stats_d.Common.Dict.{Dict, get, put, erase}

-- NS_PER_SEC
abbrev pub ns_per_sec : ℕ
ns_per_sec = 1000000000

-- What the code computes with bucket values: 0, a + b, a - b, a == 0 and a > b.
pub record Values (V : Type 0) : Type 0 where
  pub zero_value : V
  pub plus : V → V → V
  pub minus : V → V → V
  pub is_zero : V → Bool
  pub above : V → V → Bool

-- Whole numbers that are not negative, as Count and Duration metrics have them: on these the arithmetic
-- of double is exact while sums stay below 2 ^ 53. The code takes away only what it has added.
instance abbrev pub whole_values : Values ℕ
whole_values = record {
  zero_value = 0;
  plus = λ a b. a + b;
  minus = λ a b. a - b;
  is_zero = λ a. a == 0;
  above = λ a b. ltb b a;
}

-- What the tracker reads of its Alert; `trigger_if_sum_gt` and `refractory_period_secs` are
-- optional fields.
pub record Alert (V : Type 0) : Type 0 where
  pub num_buckets : ℕ
  pub trigger_if_sum_gt : Option V
  pub refractory_period_secs : Option ℕ

-- DimToValMap
abbrev pub Bucket : Type 0 → Type 0 → Type 0
Bucket K V = Dict K V

-- A null bucket is `none`.
pub record AnomalyTracker (K V : Type 0) : Type 0 where
  pub alert : Alert V
  pub num_of_past_buckets : ℕ
  pub past_buckets : List (Option (Bucket K V))
  pub sum_over_past_buckets : Bucket K V
  pub most_recent_bucket_num : ℤ
  pub refractory_period_ends_sec : Dict K ℕ

abbrev pub bucket_at : {K V : Type 0} → List (Option (Bucket K V)) → ℕ → Option (Bucket K V)
bucket_at buckets i = elim (get_elem? buckets i) [ some b ↦ b | none ↦ none ]

-- index(bucketNum), of a number that is not negative
abbrev pub index : {K V : Type 0} → AnomalyTracker K V → ℕ → ℕ
index t bucket_num = bucket_num % t.num_of_past_buckets

abbrev pub or_zero : {V : Type 0} → ⦃values : Values V⦄ → Option V → V
or_zero ⦃values⦄ none = values.zero_value
or_zero (some v) = v

module _ {K V : Type 0} where
  unfoldable pub reset_storage : AnomalyTracker K V → AnomalyTracker K V
  reset_storage t = record t {
    past_buckets = replicate t.num_of_past_buckets none;
    sum_over_past_buckets = [];
  }

  -- The members as their declarations and the constructor's list initialise them.
  abbrev pub blank : Alert V → AnomalyTracker K V
  blank alert = record {
    alert = alert;
    num_of_past_buckets = alert.num_buckets - 1;
    past_buckets = [];
    sum_over_past_buckets = [];
    most_recent_bucket_num = negsuc 0;
    refractory_period_ends_sec = [];
  }

  unfoldable pub init : Alert V → AnomalyTracker K V
  unfolding reset_storage
  init alert = reset_storage (blank alert)

module _ {K V : Type 0} ⦃e : Eq K⦄ ⦃values : Values V⦄ where
  unfoldable pub subtract_value_from_sum : Bucket K V → K → V → Bucket K V
  subtract_value_from_sum sum key value = elim (get sum key) [
    | none ↦ sum
    | some s ↦
        if values.is_zero (values.minus s value)
        then erase sum key
        else put sum key (values.minus s value)
  ]

  unfoldable pub subtract_entries : Bucket K V → Bucket K V → Bucket K V
  unfolding subtract_value_from_sum
  subtract_entries sum [] = sum
  subtract_entries sum ((key, value) ∷ rest) =
      subtract_entries (subtract_value_from_sum sum key value) rest

  unfoldable pub subtract_bucket_from_sum : Bucket K V → Option (Bucket K V) → Bucket K V
  unfolding subtract_entries
  subtract_bucket_from_sum sum none = sum
  subtract_bucket_from_sum sum (some b) = subtract_entries sum b

  -- sum[key] += value
  unfoldable pub add_value : Bucket K V → K → V → Bucket K V
  add_value sum key value = put sum key (values.plus (or_zero (get sum key)) value)

  unfoldable pub add_bucket_to_sum : Bucket K V → Bucket K V → Bucket K V
  unfolding add_value
  add_bucket_to_sum sum [] = sum
  add_bucket_to_sum sum ((key, value) ∷ rest) = add_bucket_to_sum (add_value sum key value) rest

  -- The loop of advanceMostRecentBucketTo: `count` slots are emptied from number `i` on.
  unfoldable pub clear_slots : ℕ → ℕ → AnomalyTracker K V → AnomalyTracker K V
  unfolding subtract_bucket_from_sum
  clear_slots zero i t = t
  clear_slots (suc count) i t = clear_slots count (suc i) (record t {
    sum_over_past_buckets =
        subtract_bucket_from_sum t.sum_over_past_buckets (bucket_at t.past_buckets (index t i));
    past_buckets = set t.past_buckets (index t i) none;
  })

  unfoldable pub advance_most_recent_bucket_to : ℤ → AnomalyTracker K V → AnomalyTracker K V
  unfolding reset_storage clear_slots
  advance_most_recent_bucket_to bucket_num t =
      if t.num_of_past_buckets == 0
      then t
      else if leb_ℤ bucket_num t.most_recent_bucket_num
      then t
      else if leb_ℤ (t.most_recent_bucket_num +ℤ pos t.num_of_past_buckets) bucket_num
      then record (reset_storage t) { most_recent_bucket_num = bucket_num }
      else record (clear_slots (pos_part (bucket_num -ℤ t.most_recent_bucket_num))
          (pos_part (t.most_recent_bucket_num +ℤ pos 1)) t) { most_recent_bucket_num = bucket_num }

  -- No past buckets, a negative number, or a number before the window.
  abbrev pub out_of_window : AnomalyTracker K V → ℤ → Bool
  out_of_window t bucket_num =
      t.num_of_past_buckets == 0
      || ltb_ℤ bucket_num (pos 0)
      || leb_ℤ bucket_num (t.most_recent_bucket_num -ℤ pos t.num_of_past_buckets)

  unfoldable pub add_past_bucket : Bucket K V → ℤ → AnomalyTracker K V → AnomalyTracker K V
  unfolding advance_most_recent_bucket_to add_bucket_to_sum subtract_bucket_from_sum
  add_past_bucket bucket bucket_num t =
      if out_of_window t bucket_num
      then t
      else let i = index t (pos_part bucket_num) in
        let u =
          if leb_ℤ bucket_num t.most_recent_bucket_num
          then record t {
            sum_over_past_buckets =
                subtract_bucket_from_sum t.sum_over_past_buckets (bucket_at t.past_buckets i);
          }
          else advance_most_recent_bucket_to bucket_num t in
        record u {
          past_buckets = set u.past_buckets i (some bucket);
          sum_over_past_buckets = add_bucket_to_sum u.sum_over_past_buckets bucket;
        }

  -- The entry of an existing bucket is replaced, or added to it.
  unfoldable pub update_entry : K → V → ℕ → Bucket K V → AnomalyTracker K V → AnomalyTracker K V
  unfolding subtract_value_from_sum add_value
  update_entry key value i bucket t =
      let sum : Bucket K V = elim (get bucket key) [
        | some old ↦ subtract_value_from_sum t.sum_over_past_buckets key old
        | none ↦ t.sum_over_past_buckets
      ] in
      record t {
        past_buckets = set t.past_buckets i (some (put bucket key value));
        sum_over_past_buckets = add_value sum key value;
      }

  unfoldable pub add_past_value : K → V → ℤ → AnomalyTracker K V → AnomalyTracker K V
  unfolding add_past_bucket update_entry
  add_past_value key value bucket_num t =
      let i = index t (pos_part bucket_num) in
      let make = add_past_bucket ((key, value) ∷ []) bucket_num t in
      if out_of_window t bucket_num
      then t
      else if leb_ℤ bucket_num t.most_recent_bucket_num
      then elim (bucket_at t.past_buckets i) [
        | some bucket ↦ update_entry key value i bucket t
        | none ↦ make
      ]
      else make

  unfoldable pub get_past_bucket_value : AnomalyTracker K V → K → ℤ → V
  get_past_bucket_value t key bucket_num =
      if ltb_ℤ bucket_num (pos 0)
        || ltb_ℤ t.most_recent_bucket_num (pos 0)
        || leb_ℤ bucket_num (t.most_recent_bucket_num -ℤ pos t.num_of_past_buckets)
        || ltb_ℤ t.most_recent_bucket_num bucket_num
      then values.zero_value
      else elim (bucket_at t.past_buckets (index t (pos_part bucket_num))) [
        | none ↦ values.zero_value
        | some bucket ↦ or_zero (get bucket key)
      ]

  unfoldable pub get_sum_over_past_buckets : AnomalyTracker K V → K → V
  get_sum_over_past_buckets t key = or_zero (get t.sum_over_past_buckets key)
