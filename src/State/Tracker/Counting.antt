-- ===== src/State/Tracker/Counting.antt =====
-- Nested counting of a binary state.
use packages_modules_stats_d.Common.{
  ◌≡◌, ◌∙◌, ◌⊎◌, Bool, true, false, List, [], ◌∷◌, arith, if◌then◌else◌, inl,
}
use packages_modules_stats_d.Common.Int.{
  ℤ, pos, negsuc, ◌+ℤ◌, ◌-ℤ◌, eqb_ℤ, eqb_ℤ_iff, ltb_ℤ, ◌≤ℤ◌, +ℤ_assoc, eq_of_parts, +ℤ_parts,
  -ℤ_parts, int_laws,
}
use packages_modules_stats_d.State.Tracker.{state_unknown, StateValueInfo, entered, update_info}

-- How far a binary state is on the side of `on`: the count there, 1 less the count at `off`.
abbrev pub balance : ℤ → StateValueInfo → ℤ
balance on info = if eqb_ℤ info.state on then info.count else pos 1 -ℤ info.count

-- Nested events, true for `on`.
unfoldable pub switch : ℤ → ℤ → List Bool → StateValueInfo → StateValueInfo
unfolding update_info
switch on off [] info = info
switch on off (b ∷ bs) info = switch on off bs (update_info (if b then on else off) true info).0

abbrev pub tally : List Bool → ℤ
tally [] = pos 0
tally (b ∷ bs) = (if b then pos 1 else negsuc 0) +ℤ tally bs

record IsBinary (on off : ℤ) (info : StateValueInfo) : Type 0 where
  on_known : eqb_ℤ on state_unknown ≡ false
  off_known : eqb_ℤ off state_unknown ≡ false
  differ : eqb_ℤ on off ≡ false
  one_of : (eqb_ℤ info.state on ≡ true) ⊎ (eqb_ℤ info.state off ≡ true)
  counted : pos 1 ≤ℤ info.count

step-IsBinary :
    (on off : ℤ) (b : Bool) (info : StateValueInfo)
    → IsBinary on off info
    → IsBinary on off (update_info (if b then on else off) true info).0
unfolding update_info
step-IsBinary on off b info h = record {
  on_known = h.on_known;
  off_known = h.off_known;
  differ = h.differ;
  one_of = ground (arith, h.one_of, eqb_ℤ_iff info.state on, eqb_ℤ_iff info.state off);
  counted = ground (arith, h.counted, +ℤ_parts info.count (pos 1), -ℤ_parts info.count (pos 1));
}

step-balance :
    (on off : ℤ) (b : Bool) (info : StateValueInfo)
    → IsBinary on off info
    → balance on (update_info (if b then on else off) true info).0
      ≡ balance on info +ℤ (if b then pos 1 else negsuc 0)
unfolding update_info
step-balance on off true info h = ground (
  arith,
  h.counted,
  h.one_of,
  h.differ,
  h.on_known,
  h.off_known,
  eqb_ℤ_iff info.state on,
  eqb_ℤ_iff info.state off,
  +ℤ_parts info.count (pos 1),
  -ℤ_parts info.count (pos 1),
  -ℤ_parts (pos 1) info.count,
  +ℤ_parts (pos 1 -ℤ info.count) (pos 1),
  -ℤ_parts (pos 1) (info.count -ℤ pos 1),
  eq_of_parts (pos 1) (pos 1 -ℤ info.count +ℤ pos 1),
  eq_of_parts (pos 1 -ℤ (info.count -ℤ pos 1)) (pos 1 -ℤ info.count +ℤ pos 1),
)
step-balance on off false info h = ground (
  arith,
  h.counted,
  h.one_of,
  h.differ,
  h.on_known,
  h.off_known,
  eqb_ℤ_iff info.state on,
  eqb_ℤ_iff info.state off,
  +ℤ_parts info.count (pos 1),
  -ℤ_parts info.count (pos 1),
  -ℤ_parts (pos 1) info.count,
  +ℤ_parts info.count (negsuc 0),
  +ℤ_parts (pos 1 -ℤ info.count) (negsuc 0),
  -ℤ_parts (pos 1) (info.count +ℤ pos 1),
  -ℤ_parts (pos 1) (pos 1),
  eq_of_parts (info.count -ℤ pos 1) (info.count +ℤ negsuc 0),
  eq_of_parts (pos 1 -ℤ pos 1) (info.count +ℤ negsuc 0),
  eq_of_parts (pos 1 -ℤ (info.count +ℤ pos 1)) (pos 1 -ℤ info.count +ℤ negsuc 0),
)

switch-balance :
    (on off : ℤ) (bs : List Bool) (info : StateValueInfo)
    → IsBinary on off info
    → IsBinary on off (switch on off bs info)
      × (balance on (switch on off bs info) ≡ balance on info +ℤ tally bs)
unfolding switch
switch-balance on off [] info h = (h, omega int_laws)
switch-balance on off (b ∷ bs) info h =
    let next = (update_info (if b then on else off) true info).0 in
    let (valid, e) = switch-balance on off bs next (step-IsBinary on off b info h) in
    (valid, e ∙ (rw (step-balance on off b info h) (+ℤ_assoc (balance on info) _ (tally bs))))

-- For two different known states and an entry at `on` with count 1, as the first `on` event leaves it:
-- after any nested events the state is `on` exactly if the `on` events, that first one included,
-- outnumber the `off` events, and `off` otherwise.
pub switch_lem :
    (on off : ℤ) (bs : List Bool)
    → eqb_ℤ on state_unknown ≡ false
    → eqb_ℤ off state_unknown ≡ false
    → eqb_ℤ on off ≡ false
    → (switch on off bs (entered on)).state
      ≡ (if ltb_ℤ (pos 0) (pos 1 +ℤ tally bs) then on else off)
switch_lem on off bs f g ne =
    let final = switch on off bs (entered on) in
    let (h, e) = switch-balance on off bs (entered on) (record {
      on_known = f;
      off_known = g;
      differ = ne;
      one_of = inl (ground arith);
      counted = ground arith;
    }) in
    ground (
      arith,
      e,
      h.counted,
      h.one_of,
      eqb_ℤ_iff final.state on,
      eqb_ℤ_iff final.state off,
      -ℤ_parts (pos 1) final.count,
    )
