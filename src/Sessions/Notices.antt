-- ===== src/Sessions/Notices.antt =====
-- src/app/sessionEndNotice.ts: the notice of a session whose route is released.
use botster_web.Common.{
  ◌≡◌, refl, ap, ◌∙◌, Bool, true, false, not, ◌&&◌, ◌||◌, Option, none, some, List, [], ◌∷◌, ◌==◌,
  string_eq, if◌then◌else◌, opt_beq, String, arith, Bool-cases, Option-cases, inl, inr, if_split,
}
use mathlib.Core.Path.{subst}
use Prim.Native.String.{◌++◌ as append}
use botster_web.Plane.State.{AttachmentState, AttachmentStatus}
use botster_web.Sessions.{SessionEntity, SessionFailure, session_failure}

pub data NoticeKind : Type 0 where
  crashed failed ended : NoticeKind

pub data NoticeColor : Type 0 where
  danger medium : NoticeColor

pub record SessionEndNotice : Type 0 where
  pub session_id : String
  pub kind : NoticeKind
  pub message : String
  pub color : NoticeColor

unfoldable pub is_failed_state : AttachmentState → Bool
is_failed_state AttachmentState.attaching = false
is_failed_state AttachmentState.attached = false
is_failed_state AttachmentState.exited = false
is_failed_state AttachmentState.failed = true

unfoldable pub crashed_notice : String → SessionEndNotice
crashed_notice session_id = record {
  session_id = session_id;
  kind = crashed;
  message = append "Session " (append session_id " crashed: its worker process was lost.");
  color = danger;
}

-- The entity reports a crash.
unfoldable pub reports_crash : Option SessionEntity → Bool
reports_crash entity = elim (session_failure entity) [
  | none ↦ false
  | some failure ↦ failure.crashed
]

unfoldable pub failed_notice : String → String → SessionEndNotice
failed_notice session_id message = record {
  session_id = session_id;
  kind = failed;
  message = message;
  color = danger;
}

-- The notice where no crash is known and the status does not say that it failed.
unfoldable pub entity_notice : String → Option SessionFailure → SessionEndNotice
entity_notice session_id none = record {
  session_id = session_id;
  kind = ended;
  message = append "Session " (append session_id " ended");
  color = medium;
}
entity_notice session_id (some failure) = elim failure.reason [
  | none ↦ failed_notice session_id (append "Session " (append session_id " failed."))
  | some reason ↦
      failed_notice session_id
        (append "Session " (append session_id (append " failed: " (append reason "."))))
]

-- The terminal was closed because the worker was lost.
unfoldable pub lost_worker : Option AttachmentStatus → Bool
lost_worker none = false
lost_worker (some status) = opt_beq status.close_reason (some "worker_lost")

unfoldable pub session_end_notice :
    String → Option AttachmentStatus → Option SessionEntity → SessionEndNotice
session_end_notice session_id status entity =
    let otherwise = entity_notice session_id (session_failure entity) in
    if reports_crash entity || lost_worker status then crashed_notice session_id else elim status [
      | none ↦ otherwise
      | some s ↦ if is_failed_state s.state then failed_notice session_id s.message else otherwise
    ]

unfoldable pub is_crashed : NoticeKind → Bool
is_crashed crashed = true
is_crashed failed = false
is_crashed ended = false

unfoldable pub upgrade_session_end_notice :
    Option SessionEndNotice → String → Option SessionEntity → Option SessionEndNotice
upgrade_session_end_notice none session_id entity = none
upgrade_session_end_notice (some current) session_id entity =
    if not (current.session_id == session_id) || is_crashed current.kind
    then some current
    else if reports_crash entity
    then some (crashed_notice session_id)
    else some current

-- The notice after later entities, each of the session it is given with.
unfoldable pub upgrades :
    List (String × Option SessionEntity) → Option SessionEndNotice → Option SessionEndNotice
upgrades [] current = current
upgrades ((session_id, entity) ∷ later) current =
    upgrades later (upgrade_session_end_notice current session_id entity)

-- A later entity of this session reports a crash.
unfoldable pub any_crash : String → List (String × Option SessionEntity) → Bool
any_crash session_id [] = false
any_crash session_id ((other, entity) ∷ later) =
    ((session_id == other) && reports_crash entity) || any_crash session_id later

upgrades-crashed :
    (session_id : String) (later : List (String × Option SessionEntity))
    → upgrades later (some (crashed_notice session_id)) ≡ some (crashed_notice session_id)
unfolding upgrades upgrade_session_end_notice crashed_notice is_crashed
upgrades-crashed session_id [] = refl
upgrades-crashed session_id ((other, entity) ∷ later) =
    ap (upgrades later) (ground arith) ∙ upgrades-crashed session_id later

-- A notice that is no crash is kept until this session's crash is reported.
upgrades-current :
    (n : SessionEndNotice) (later : List (String × Option SessionEntity))
    → is_crashed n.kind ≡ false
    → upgrades later (some n)
      ≡ some (if any_crash n.session_id later then crashed_notice n.session_id else n)
unfolding upgrades any_crash
upgrades-current n [] calm = refl
upgrades-current n ((other, entity) ∷ later) calm = elim (Bool-cases (n.session_id == other)) [
  | inr differs ↦
      let same : upgrade_session_end_notice (some n) other entity ≡ some n =
        unfold upgrade_session_end_notice in rw differs refl in
      ap (upgrades later) same ∙ rw differs (upgrades-current n later calm)
  | inl mine ↦ elim (Bool-cases (reports_crash entity)) [
    | inr quiet ↦
        let same : upgrade_session_end_notice (some n) other entity ≡ some n =
          unfold upgrade_session_end_notice in rw mine (rw calm (rw quiet refl)) in
        ap (upgrades later) same ∙ rw mine (rw quiet (upgrades-current n later calm))
    | inl crash ↦
        let upgraded : upgrade_session_end_notice (some n) other entity
            ≡ some (crashed_notice n.session_id) =
          unfold upgrade_session_end_notice in
          rw mine (rw calm (rw crash (rw ((string_eq.beq_iff n.session_id other).0 mine) refl))) in
        ap (upgrades later) upgraded ∙ rw mine (rw crash (upgrades-crashed n.session_id later))
  ]
]

entity_notice-calm :
    (session_id : String) (failure : Option SessionFailure)
    → (is_crashed (entity_notice session_id failure).kind ≡ false)
      × ((entity_notice session_id failure).session_id ≡ session_id)
unfolding entity_notice failed_notice is_crashed
entity_notice-calm session_id none = (refl, refl)
entity_notice-calm session_id (some failure) = elim (Option-cases failure.reason) [
  | inl unknown ↦ rw (entity_notice, unknown) (refl, refl)
  | inr (reason, known) ↦ rw (entity_notice, known) (refl, refl)
]

session_end_notice-calm :
    (session_id : String) (status : Option AttachmentStatus) (entity : Option SessionEntity)
    → (reports_crash entity || lost_worker status) ≡ false
    → (is_crashed (session_end_notice session_id status entity).kind ≡ false)
      × ((session_end_notice session_id status entity).session_id ≡ session_id)
unfolding session_end_notice
session_end_notice-calm session_id none entity calm =
    rw calm (entity_notice-calm session_id (session_failure entity))
session_end_notice-calm session_id (some s) entity calm = rw calm (
    if_split (λ (n : SessionEndNotice). (is_crashed n.kind ≡ false) × (n.session_id ≡ session_id))
      (is_failed_state s.state) (λ over. unfold failed_notice is_crashed in (refl, refl))
      (λ other. entity_notice-calm session_id (session_failure entity)))

-- Whether the crash of a session is known when its route is released (from the entity or from the
-- close reason) or is reported by a later entity of it, in whatever order and among whatever entities of
-- other sessions, the notice in the end is the crash notice; otherwise it is the one first shown.
pub session_end_notice-upgrades :
    (session_id : String) (status : Option AttachmentStatus) (entity : Option SessionEntity)
    (later : List (String × Option SessionEntity))
    → upgrades later (some (session_end_notice session_id status entity))
      ≡ some (
          if reports_crash entity || lost_worker status || any_crash session_id later
          then crashed_notice session_id
          else session_end_notice session_id status entity)
session_end_notice-upgrades session_id status entity later =
    elim (Bool-cases (reports_crash entity || lost_worker status)) [
      | inl crash ↦
          let shown : session_end_notice session_id status entity ≡ crashed_notice session_id =
            unfold session_end_notice in rw crash refl in
          let either : (reports_crash entity || lost_worker status || any_crash session_id later)
              ≡ true =
            ground (arith, crash) in
          ap (λ n. upgrades later (some n)) shown ∙ rw either (upgrades-crashed session_id later)
      | inr calm ↦
          let (kind, mine) = session_end_notice-calm session_id status entity calm in
          let late : (reports_crash entity || lost_worker status || any_crash session_id later)
              ≡ any_crash session_id later =
            ground (arith, calm) in
          let shown = session_end_notice session_id status entity in
          rw late (
            subst
              (λ id.
                upgrades later (some shown)
                ≡ some (if any_crash id later then crashed_notice id else shown))
              mine (upgrades-current shown later kind))
    ]
