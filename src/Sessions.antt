-- ===== src/Sessions.antt =====
-- src/botster/terminalSession.ts: what the fields of a session entity say.
pub mod Notices
use botster_web.Common.{
  Bool, true, false, not, ◌&&◌, ◌||◌, Option, none, some, List, [], ◌∷◌, ◌==◌, string_eq,
  if◌then◌else◌, opt_beq, is_some, get_or, String,
}
use Prim.Native.String.{◌++◌ as append}

-- The fields of a session entity that are read here; `none` where one is missing or no string.
pub record SessionEntity : Type 0 where
  pub id : Option String
  pub session_uuid : Option String
  pub session_id : Option String
  pub lifecycle : Option String
  pub lifecycle_class : Option String
  pub failure_reason : Option String

unfoldable pub is_attachable_session : Option SessionEntity → Bool
is_attachable_session none = false
is_attachable_session (some e) =
    is_some e.id
    && opt_beq e.lifecycle (some "running")
    && opt_beq e.lifecycle_class (some "current")

unfoldable pub session_entity_requires_detach : Option SessionEntity → Bool
session_entity_requires_detach none = false
session_entity_requires_detach (some e) =
    opt_beq e.lifecycle (some "exited") || opt_beq e.lifecycle (some "failed")

-- The route's view and session, if there is a route.
unfoldable pub is_mounted_session_route : Option (Option String × Option String) → String → Bool
is_mounted_session_route none session_id = false
is_mounted_session_route (some (view, mounted)) session_id =
    opt_beq view (some "session") && opt_beq mounted (some session_id)

unfoldable pub find_session : String → List SessionEntity → Option SessionEntity
find_session session_id [] = none
find_session session_id (e ∷ es) =
    let rest = find_session session_id es in
    if opt_beq e.id (some session_id)
      || opt_beq e.session_uuid (some session_id)
      || opt_beq e.session_id (some session_id)
    then some e
    else rest

-- The entity of that id, or else the first of the family that any of its ids names.
unfoldable pub session_record_for_route :
    Option SessionEntity → List SessionEntity → String → Option SessionEntity
session_record_for_route (some exact) listed session_id = some exact
session_record_for_route none listed session_id = find_session session_id listed

-- `String(record.id)` of a missing id
unfoldable pub session_display_title : SessionEntity → String
session_display_title e = get_or e.session_uuid (get_or e.id "undefined")

pub record SessionFailure : Type 0 where
  pub crashed : Bool
  pub reason : Option String

-- A reason that is there and not empty.
unfoldable pub failure_reason_of : Option String → Option String
failure_reason_of none = none
failure_reason_of (some reason) = if reason == "" then none else some reason

unfoldable pub session_failure : Option SessionEntity → Option SessionFailure
session_failure none = none
session_failure (some e) =
    let reason = failure_reason_of e.failure_reason in
    if not (opt_beq e.lifecycle (some "failed"))
    then none
    else some (record { crashed = opt_beq reason (some "worker_lost"); reason = reason })

unfoldable pub session_display_status : SessionEntity → String
session_display_status e = elim (session_failure (some e)) [
  | none ↦ get_or e.lifecycle_class "Unknown status"
  | some failure ↦
      if failure.crashed
      then "Crashed: worker lost"
      else elim failure.reason [ none ↦ "Failed" | some reason ↦ append "Failed: " reason ]
]
