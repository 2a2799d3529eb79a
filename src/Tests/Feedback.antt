-- ===== src/Tests/Feedback.antt =====
-- The theorems on quarantine rows and end notices at concrete inputs.
use botster_web.Common.{
  ◌≡◌, refl, List, [], ◌∷◌, String, ◌||◌, if◌then◌else◌, Option, none, some, string_eq, filter,
}
use botster_web.Common.Maps.{lookup}
use botster_web.Quarantines.{
  StatusEntry, refreshing, refused, RowOutcomes, start_quarantine_resolve,
}
use botster_web.Quarantines.Rows.{
  RowEvent, started, answered, refreshed, row_history, view_row, row_steps,
}
use botster_web.Quarantines.Machine.{row_history-steps}
use botster_web.Quarantines.Late.{start_quarantine_resolve-late, starts_nothing, is_of}
use botster_web.Sessions.{SessionEntity}
use botster_web.Sessions.Notices.{
  session_end_notice, upgrades, reports_crash, lost_worker, any_crash, crashed_notice,
  session_end_notice-upgrades,
}

abbrev no_rows : RowOutcomes
no_rows = []

abbrev resolves : List RowEvent
resolves =
    started "package:a" "op1" (some 5)
    ∷ answered "package:a" "op1" refreshing
    ∷ started "package:a" "op2" (some 5)
    ∷ refreshed "package:a" "op1" none
    ∷ []

row_history-steps_example :
    view_row (lookup "package:a" (row_history resolves no_rows))
    ≡ row_steps "package:a" resolves (view_row (lookup "package:a" no_rows))
row_history-steps_example = row_history-steps "package:a" resolves no_rows

abbrev answers : List RowEvent
answers = answered "package:a" "op1" (refused "late") ∷ answered "package:a" "op2" refreshing ∷ []

start_quarantine_resolve-late_example :
    view_row (
      lookup "package:a"
        (row_history answers (start_quarantine_resolve no_rows "package:a" "op2" none)))
    ≡ view_row (
        lookup "package:a" (
          row_history
            (filter (is_of "package:a" "op2") answers)
            (start_quarantine_resolve no_rows "package:a" "op2" none)))
start_quarantine_resolve-late_example =
    start_quarantine_resolve-late "package:a" "op2" none answers no_rows
      (unfold starts_nothing in (refl, (refl, tt)))

abbrev status : Option (List StatusEntry)
status = some (
    record {
      kind = some "package";
      package_name = some "a";
      root = none;
      quarantined_at_ms = some 5;
    }
    ∷ [])

abbrev lost_session : SessionEntity
lost_session = record {
  id = some "s1";
  session_uuid = none;
  session_id = none;
  lifecycle = some "failed";
  lifecycle_class = none;
  failure_reason = some "worker_lost";
}

abbrev later : List (String × Option SessionEntity)
later = ("s2", none) ∷ ("s1", some lost_session) ∷ []

session_end_notice-upgrades_example :
    upgrades later (some (session_end_notice "s1" none none))
    ≡ some (
        if reports_crash none || lost_worker none || any_crash "s1" later
        then crashed_notice "s1"
        else session_end_notice "s1" none none)
session_end_notice-upgrades_example = session_end_notice-upgrades "s1" none none later
