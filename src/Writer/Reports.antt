-- ===== src/Writer/Reports.antt =====
-- The commands that the reports name.
use packages_modules_stats_d.Common.{◌≡◌, refl, ap, List, [], ◌∷◌, ◌++◌}
use packages_modules_stats_d.Writer.{Cmd, Report, accepted, refused, sent, failed, dropped}

-- The commands that were put in the queue.
abbrev pub accepted_of : List Report → List Cmd
accepted_of [] = []
accepted_of (accepted cmd ∷ reports) = cmd ∷ accepted_of reports
accepted_of (refused cmd ∷ reports) = accepted_of reports
accepted_of (sent cmd ∷ reports) = accepted_of reports
accepted_of (failed cmd ∷ reports) = accepted_of reports
accepted_of (dropped cmd ∷ reports) = accepted_of reports

-- The commands that were written or given up, whose buffers the worker freed.
abbrev pub finished_of : List Report → List Cmd
finished_of [] = []
finished_of (accepted cmd ∷ reports) = finished_of reports
finished_of (refused cmd ∷ reports) = finished_of reports
finished_of (sent cmd ∷ reports) = cmd ∷ finished_of reports
finished_of (failed cmd ∷ reports) = finished_of reports
finished_of (dropped cmd ∷ reports) = cmd ∷ finished_of reports

pub accepted_of-append :
    (rs ss : List Report) → accepted_of (rs ++ ss) ≡ accepted_of rs ++ accepted_of ss
accepted_of-append [] ss = refl
accepted_of-append (accepted cmd ∷ rs) ss = ap (λ l. cmd ∷ l) (accepted_of-append rs ss)
accepted_of-append (refused cmd ∷ rs) ss = accepted_of-append rs ss
accepted_of-append (sent cmd ∷ rs) ss = accepted_of-append rs ss
accepted_of-append (failed cmd ∷ rs) ss = accepted_of-append rs ss
accepted_of-append (dropped cmd ∷ rs) ss = accepted_of-append rs ss

pub finished_of-append :
    (rs ss : List Report) → finished_of (rs ++ ss) ≡ finished_of rs ++ finished_of ss
finished_of-append [] ss = refl
finished_of-append (accepted cmd ∷ rs) ss = finished_of-append rs ss
finished_of-append (refused cmd ∷ rs) ss = finished_of-append rs ss
finished_of-append (sent cmd ∷ rs) ss = ap (λ l. cmd ∷ l) (finished_of-append rs ss)
finished_of-append (failed cmd ∷ rs) ss = finished_of-append rs ss
finished_of-append (dropped cmd ∷ rs) ss = ap (λ l. cmd ∷ l) (finished_of-append rs ss)
