-- ===== src/Loss/Tests.antt =====
-- A reporter whose first dump fails.
use packages_modules_stats_d.Common.{
  ◌+◌, ◌≡◌, refl, none, true, false, List, [], ◌∷◌, if◌then◌else◌,
}
use packages_modules_stats_d.Common.Int.{ℤ, pos, negsuc, ◌+ℤ◌, leb_ℤ}
use packages_modules_stats_d.Common.Dict.{get, put}
use packages_modules_stats_d.Loss.{
  LossAtom, StatsSocketLossReporter, init, note_drop, dump_atoms_loss_stats,
}
use packages_modules_stats_d.Loss.Account.{
  Call, drops, dumps, run, step, held, drops_in, run-held, dump_twice,
}

abbrev refuse : LossAtom → ℤ
refuse atom = negsuc 10

abbrev accept : LossAtom → ℤ
accept atom = pos 64

abbrev calls : List Call
calls =
    drops (pos 5) (negsuc 0) 7
    ∷ drops (pos 6) (negsuc 0) 7
    ∷ drops (pos 7) (negsuc 0) 752
    ∷ dumps refuse false (pos 60000000000)
    ∷ drops (pos 60000000001) (negsuc 3) 8
    ∷ dumps accept true (pos 60000000002)
    ∷ drops (pos 60000000003) (negsuc 0) 7
    ∷ []

delivered_losses : (run 752 calls init).1 ≡ 3
unfolding run step get put ◌+ℤ◌ note_drop dump_atoms_loss_stats
delivered_losses = refl

run-held_example : (run 752 calls init).1 + held (run 752 calls init).0 ≡ drops_in 752 calls
run-held_example = run-held 752 calls

abbrev lossy : StatsSocketLossReporter
lossy = (run 752 (drops (pos 5) (negsuc 0) 7 ∷ []) init).0

dump_twice_example :
    if leb_ℤ (pos 9 +ℤ pos 60000000000) (pos 10)
    then (dump_atoms_loss_stats accept false
          (pos 10)
          (dump_atoms_loss_stats refuse true (pos 9) lossy).0
        ≡ dump_atoms_loss_stats accept true
            (pos 10)
            (dump_atoms_loss_stats refuse true (pos 9) lossy).0)
    else (dump_atoms_loss_stats accept false
          (pos 10)
          (dump_atoms_loss_stats refuse true (pos 9) lossy).0
        ≡ ((dump_atoms_loss_stats refuse true (pos 9) lossy).0, none))
dump_twice_example = dump_twice refuse accept (pos 9) (pos 10) lossy
