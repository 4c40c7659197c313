-- ===== src/Trigger/RateLimited.antt =====
-- RateLimitedAsyncTrigger: trigger() reads an atomic, decides, and writes it by a compare-exchange, so
-- calls of several threads interleave between these two steps. The clock is a parameter: each call
-- has the time that it was given. Times are int64, here without a bound.
use packages_modules_stats_d.Common.{
  ℕ, zero, suc, ◌≡◌, refl, sym, subst, ◌∙◌, Bool, false, ◌&&◌, not, List, [], ◌∷◌, arith,
  if◌then◌else◌, if_both, Option, none, some, Bool-cases, inl, inr, true,
}
use packages_modules_stats_d.Common.Int.{
  ℤ, pos, ◌-ℤ◌, ◌+ℤ◌, ◌≤ℤ◌, ltb_ℤ, leb_ℤ, eqb_ℤ, eqb_ℤ_iff, -ℤ_parts, +ℤ_parts,
}

-- A call between its read and its write: nowNs and lastNs.
pub record Pending : Type 0 where
  pub now_ns : ℤ
  pub last_ns : ℤ

-- The atomic, the calls under way, and the times of the executed triggers, the latest first.
pub record RateLimitedAsyncTrigger : Type 0 where
  pub cooldown_ns : ℤ
  pub last_trigger_time_ns : ℤ
  pub pending : List Pending
  pub executed : List ℤ

abbrev pub init : ℤ → RateLimitedAsyncTrigger
init cooldown_ns = record {
  cooldown_ns = cooldown_ns;
  last_trigger_time_ns = pos 0;
  pending = [];
  executed = [];
}

unfoldable pub is_rate_limited : ℤ → ℤ → ℤ → Bool
is_rate_limited cooldown_ns now_ns last_ns =
    let diff = now_ns -ℤ last_ns in
    not (eqb_ℤ last_ns (pos 0)) && leb_ℤ (pos 0) diff && ltb_ℤ diff cooldown_ns

-- The read and the test: the call returns, or goes on to its write.
unfoldable pub load_time : ℤ → RateLimitedAsyncTrigger → RateLimitedAsyncTrigger
unfolding is_rate_limited
load_time now_ns t =
    let last_ns = t.last_trigger_time_ns in
    if is_rate_limited t.cooldown_ns now_ns last_ns
    then t
    else record t { pending = record { now_ns = now_ns; last_ns = last_ns } ∷ t.pending }

abbrev pub take_out : ℕ → List Pending → Option (Pending × List Pending)
take_out i [] = none
take_out zero (p ∷ ps) = some (p, ps)
take_out (suc i) (p ∷ ps) = elim (take_out i ps) [ none ↦ none | some (q, qs) ↦ some (q, p ∷ qs) ]

-- compare_exchange_strong, and the execution if it succeeds.
unfoldable pub exchange : Pending → RateLimitedAsyncTrigger → RateLimitedAsyncTrigger
exchange p t =
    if eqb_ℤ t.last_trigger_time_ns p.last_ns
    then record t { last_trigger_time_ns = p.now_ns; executed = p.now_ns ∷ t.executed }
    else t

-- A call of one thread alone.
unfoldable pub trigger : ℤ → RateLimitedAsyncTrigger → RateLimitedAsyncTrigger
unfolding is_rate_limited exchange
trigger now_ns t =
    let last_ns = t.last_trigger_time_ns in
    if is_rate_limited t.cooldown_ns now_ns last_ns
    then t
    else exchange (record { now_ns = now_ns; last_ns = last_ns }) t

-- What the threads do next: a new call, or the write of a call under way.
pub data Move : Type 0 where
  calls : ℤ → Move
  writes : ℕ → Move

unfoldable pub move : Move → RateLimitedAsyncTrigger → RateLimitedAsyncTrigger
unfolding load_time exchange
move (calls now_ns) t = load_time now_ns t
move (writes i) t = elim (take_out i t.pending) [
  | none ↦ t
  | some (p, rest) ↦ exchange p (record t { pending = rest })
]

unfoldable pub run : List Move → RateLimitedAsyncTrigger → RateLimitedAsyncTrigger
unfolding move
run [] t = t
run (m ∷ ms) t = run ms (move m t)

-- A trigger at `t` after one at `u`: the time `u` is 0, or `t` lies before it, or a cooldown has passed.
pub data IsApart (cooldown_ns t u : ℤ) : Type 0 where
  from_zero : u ≡ pos 0 → IsApart cooldown_ns t u
  before : ltb_ℤ t u ≡ true → IsApart cooldown_ns t u
  cooled : u +ℤ cooldown_ns ≤ℤ t → IsApart cooldown_ns t u

-- Each time is apart from the one before it.
abbrev pub IsSpaced : ℤ → List ℤ → Type 0
IsSpaced cooldown_ns [] = Unit
IsSpaced cooldown_ns (t ∷ []) = Unit
IsSpaced cooldown_ns (t ∷ u ∷ times) = IsApart cooldown_ns t u × IsSpaced cooldown_ns (u ∷ times)

-- A call that the test lets through is apart from the last one.
is_rate_limited-IsApart :
    (cooldown_ns t u : ℤ) → is_rate_limited cooldown_ns t u ≡ false → IsApart cooldown_ns t u
unfolding is_rate_limited
is_rate_limited-IsApart cooldown_ns t u h = elim (Bool-cases (eqb_ℤ u (pos 0))) [
  | inl z ↦ from_zero ((eqb_ℤ_iff u (pos 0)).0 z)
  | inr nonzero ↦ elim (Bool-cases (ltb_ℤ t u)) [
    | inl early ↦ before early
    | inr late ↦ cooled (ground (arith, -ℤ_parts t u, +ℤ_parts u cooldown_ns))
  ]
]

abbrev latest : List ℤ → ℤ
latest [] = pos 0
latest (t ∷ times) = t

abbrev AllAllowed : ℤ → List Pending → Type 0
AllAllowed cooldown_ns [] = Unit
AllAllowed cooldown_ns (p ∷ ps) =
    (is_rate_limited cooldown_ns p.now_ns p.last_ns ≡ false) × AllAllowed cooldown_ns ps

record IsValid (t : RateLimitedAsyncTrigger) : Type 0 where
  spaced : IsSpaced t.cooldown_ns t.executed
  last : t.last_trigger_time_ns ≡ latest t.executed
  allowed : AllAllowed t.cooldown_ns t.pending

IsSpaced-cons :
    (cooldown_ns t : ℤ) (times : List ℤ)
    → is_rate_limited cooldown_ns t (latest times) ≡ false
    → IsSpaced cooldown_ns times
    → IsSpaced cooldown_ns (t ∷ times)
IsSpaced-cons cooldown_ns t [] h s = tt
IsSpaced-cons cooldown_ns t (u ∷ times) h s = (is_rate_limited-IsApart cooldown_ns t u h, s)

exchange-IsValid :
    (p : Pending) (t : RateLimitedAsyncTrigger)
    → is_rate_limited t.cooldown_ns p.now_ns p.last_ns ≡ false
    → IsValid t
    → IsValid (exchange p t)
unfolding exchange
exchange-IsValid p t h v =
    if_both IsValid (eqb_ℤ t.last_trigger_time_ns p.last_ns)
      (record t { last_trigger_time_ns = p.now_ns; executed = p.now_ns ∷ t.executed }) t
      (λ same. record {
        spaced =
            IsSpaced-cons t.cooldown_ns p.now_ns t.executed
              (subst (λ s. is_rate_limited t.cooldown_ns p.now_ns s ≡ false)
                (sym ((eqb_ℤ_iff t.last_trigger_time_ns p.last_ns).0 same) ∙ v.last) h)
              v.spaced;
        last = refl;
        allowed = v.allowed;
      })
      (λ _. v)

load_time-IsValid :
    (now_ns : ℤ) (t : RateLimitedAsyncTrigger) → IsValid t → IsValid (load_time now_ns t)
unfolding load_time
load_time-IsValid now_ns t v =
    if_both IsValid (is_rate_limited t.cooldown_ns now_ns t.last_trigger_time_ns) _ _ (λ _. v)
      λ h. record { spaced = v.spaced; last = v.last; allowed = (h, v.allowed) }

abbrev IsTaken : ℤ → Option (Pending × List Pending) → Type 0
IsTaken cooldown_ns none = Unit
IsTaken cooldown_ns (some (p, rest)) = AllAllowed cooldown_ns (p ∷ rest)

kept-IsTaken :
    (cooldown_ns : ℤ) (p : Pending) (o : Option (Pending × List Pending))
    → is_rate_limited cooldown_ns p.now_ns p.last_ns ≡ false
    → IsTaken cooldown_ns o
    → IsTaken cooldown_ns (elim o [ none ↦ none | some (q, qs) ↦ some (q, p ∷ qs) ])
kept-IsTaken cooldown_ns p none h taken = tt
kept-IsTaken cooldown_ns p (some (q, qs)) h taken = (taken.0, (h, taken.1))

-- A pending call that is taken out was allowed, and so are the others.
take_out-IsTaken :
    (cooldown_ns : ℤ) (i : ℕ) (ps : List Pending)
    → AllAllowed cooldown_ns ps
    → IsTaken cooldown_ns (take_out i ps)
take_out-IsTaken cooldown_ns i [] h = tt
take_out-IsTaken cooldown_ns zero (p ∷ ps) h = h
take_out-IsTaken cooldown_ns (suc i) (p ∷ ps) h =
    kept-IsTaken cooldown_ns p (take_out i ps) h.0 (take_out-IsTaken cooldown_ns i ps h.1)

write-IsValid :
    (t : RateLimitedAsyncTrigger) (o : Option (Pending × List Pending))
    → IsValid t
    → IsTaken t.cooldown_ns o
    → IsValid (elim o [ none ↦ t | some (p, rest) ↦ exchange p (record t { pending = rest }) ])
write-IsValid t none v taken = v
write-IsValid t (some (p, rest)) v taken =
    exchange-IsValid p (record t { pending = rest }) taken.0
      (record { spaced = v.spaced; last = v.last; allowed = taken.1 })

move-IsValid : (m : Move) (t : RateLimitedAsyncTrigger) → IsValid t → IsValid (move m t)
unfolding move
move-IsValid (calls now_ns) t v = load_time-IsValid now_ns t v
move-IsValid (writes i) t v =
    write-IsValid t (take_out i t.pending) v (take_out-IsTaken t.cooldown_ns i t.pending v.allowed)

run-IsValid : (ms : List Move) (t : RateLimitedAsyncTrigger) → IsValid t → IsValid (run ms t)
unfolding run
run-IsValid [] t v = v
run-IsValid (m ∷ ms) t v = run-IsValid ms (move m t) (move-IsValid m t v)

move-cooldown_ns : (m : Move) (t : RateLimitedAsyncTrigger) → (move m t).cooldown_ns ≡ t.cooldown_ns
unfolding move load_time exchange
move-cooldown_ns (calls now_ns) t = ground arith
move-cooldown_ns (writes i) t = ground arith

run-cooldown_ns :
    (ms : List Move) (t : RateLimitedAsyncTrigger) → (run ms t).cooldown_ns ≡ t.cooldown_ns
unfolding run
run-cooldown_ns [] t = refl
run-cooldown_ns (m ∷ ms) t = run-cooldown_ns ms (move m t) ∙ move-cooldown_ns m t

-- However the calls of any threads interleave between their read and their write of the last time, and
-- whatever times the clock gives: each executed trigger comes at least the cooldown after the one that
-- was executed before it, or the clock gave it an earlier time than that one's, or that one's time is
-- 0.
pub run-IsSpaced :
    (cooldown_ns : ℤ) (ms : List Move) → IsSpaced cooldown_ns (run ms (init cooldown_ns)).executed
run-IsSpaced cooldown_ns ms =
    subst (λ c. IsSpaced c (run ms (init cooldown_ns)).executed)
      (run-cooldown_ns ms (init cooldown_ns))
      (run-IsValid ms (init cooldown_ns) (record { spaced = tt; last = refl; allowed = tt })).spaced

-- The same call without interruption is the read followed by the write, if nothing else is under way.
pub run-trigger :
    (now_ns : ℤ) (t : RateLimitedAsyncTrigger)
    → t.pending ≡ []
    → run (calls now_ns ∷ writes 0 ∷ []) t ≡ trigger now_ns t
unfolding run move load_time exchange trigger
run-trigger now_ns t h = ground (arith)
