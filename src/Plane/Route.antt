-- ===== src/Plane/Route.antt =====
-- The route frames of src/botster/hubTerminalDataPlane.ts: the fences that a frame passes and what
-- each kind of frame does.
use botster_web.Common.{
  ℕ, ◌+◌, String, Bool, true, false, not, ◌&&◌, ◌||◌, Option, none, some, List, [], ◌∷◌, ◌++◌,
  length, ◌==◌, nat_eq, string_eq, if◌then◌else◌, ltb,
}
use botster_web.Common.Int.{ℤ}
use botster_web.Wire.Error.{WireError}
use botster_web.Wire.Bytes.{Bytes}
use botster_web.Wire.Enums.{HistoryUnavailableReason}
use botster_web.Wire.Event.{TextCodec, TerminalEvent}
use botster_web.Plane.State.{
  attaching, attached, exited, TerminalModes, ScreenHydration, output, modes, cancel_reader, Plane,
  max_pending_terminal_items, max_pending_terminal_bytes,
}
use botster_web.Plane.Basics.{emit, emit_status, says, release_unsafe_paste_consent}
use botster_web.Plane.Queue.{pump_inputs}
use botster_web.Plane.Lifecycle.{
  cancel_hydration, ensure_hydration, arm_progress, fail_route, recover_route,
}

pub record RouteFrame : Type 0 where
  pub route : String
  pub generation : ℕ
  pub stream_epoch : ℕ
  pub body : Bytes

pub record SubscriptionClosed : Type 0 where
  pub session_id : String
  pub subscription_id : String
  pub reason : String

-- What the snapshot reader answers: its progress, or the message of what it threw.
pub data Progress : Type 0 where
  ready page finish : Progress
  other threw : String → Progress

-- The texts that interpolate a value.
pub record Texts : Type 0 where
  pub undecodable : WireError → String
  pub exit_message : Option ℤ → String
  pub history_before_ready : HistoryUnavailableReason → String
  pub history_missing : HistoryUnavailableReason → String
  pub unknown_progress : String → String
  pub close_message : String → String

-- The first frame fixes the route generation; any other generation is stale.
unfoldable pub admit_route_generation : ℕ → Plane → Plane × Bool
admit_route_generation generation p = elim p.route_generation [
  | none ↦ (record p { route_generation = some generation }, true)
  | some g ↦ (p, generation == g)
]

-- The stream epoch fence.
unfoldable pub admit_stream_epoch : ℕ → TerminalEvent → Option ℕ → Bool
admit_stream_epoch stream_epoch (TerminalEvent.attach_state s) accepted = true
admit_stream_epoch stream_epoch (TerminalEvent.input_result r) accepted = true
admit_stream_epoch stream_epoch event none = false
admit_stream_epoch stream_epoch (TerminalEvent.route_resync from_epoch to_epoch) (some accepted) =
    (from_epoch == accepted) && not (to_epoch == from_epoch) && (to_epoch == stream_epoch)
admit_stream_epoch stream_epoch event (some accepted) = stream_epoch == accepted

abbrev pub is_hydrating : ℕ → Option ScreenHydration → Bool
is_hydrating generation none = false
is_hydrating generation (some h) = (h.generation == generation) && not h.completed

unfoldable pub emit_outputs : List Bytes → Plane → Plane
unfolding emit
emit_outputs [] p = p
emit_outputs (bytes ∷ rest) p = emit_outputs rest (emit (output bytes) p)

unfoldable pub receive_modes : TerminalModes → Plane → Plane
receive_modes m p = record p { current_modes = some m; effects = modes m ∷ p.effects }

abbrev pub cancel_own_reader : ScreenHydration → Plane → Plane
cancel_own_reader h p = record p {
  effects = if h.has_reader then cancel_reader h.serial ∷ p.effects else p.effects;
}

-- `this.armHydrationProgressBound(this.hydration!)`
unfoldable pub arm_own : Plane → Plane
arm_own p = elim p.hydration [ none ↦ p | some h ↦ arm_progress h.serial p ]

unfoldable pub receive_route_resync : ℕ → ℕ → Plane → Plane
receive_route_resync to_epoch generation p =
    let q = ensure_hydration generation (
      cancel_hydration
        (release_unsafe_paste_consent (record p { accepted_epoch = some to_epoch }))) in
    let told =
      emit_status (says attaching "Terminal route resynchronizing after egress overflow.") q in
    arm_own told

module _ (codec : TextCodec) (texts : Texts) where
  unfoldable pub emit_process_exit : Option ℤ → Plane → Plane
  emit_process_exit code p = emit_status (says exited (texts.exit_message code)) p

  unfoldable pub emit_pending_exit : Option (Option ℤ) → Plane → Plane
  emit_pending_exit none p = p
  emit_pending_exit (some code) p = emit_process_exit code p

  unfoldable pub buffer_hydrating_output : Bytes → ScreenHydration → ℕ → Plane → Plane
  buffer_hydrating_output bytes h now p =
      let total = h.buffered_bytes + length bytes in
      if ltb max_pending_terminal_bytes total
        || ltb max_pending_terminal_items (length h.buffered_output + 1)
      then recover_route codec h.serial
          "Terminal pending output exceeded the client bound during snapshot history." now p
      else record p {
        hydration = some (record h {
          buffered_output = h.buffered_output ++ bytes ∷ [];
          buffered_bytes = total;
        });
      }

  unfoldable pub receive_output : Bytes → ℕ → ℕ → Plane → Plane
  receive_output bytes generation now p = elim p.hydration [
    | none ↦ emit (output bytes) p
    | some h ↦
        if is_hydrating generation (some h)
        then buffer_hydrating_output bytes h now p
        else emit (output bytes) p
  ]

  unfoldable pub receive_process_exit : Option ℤ → ℕ → Plane → Plane
  receive_process_exit code generation p = elim p.hydration [
    | none ↦ emit_process_exit code p
    | some h ↦
        if is_hydrating generation (some h)
        then record p { hydration = some (record h { pending_exit = some code }) }
        else emit_process_exit code p
  ]

  -- The attach completes: status, then what was buffered, then a waiting exit, then the inputs. The
  -- hydration is the plane's and its attachment current, which the code tests again after each call of a
  -- listener.
  unfoldable pub complete_hydration : ScreenHydration → String → Plane → Plane
  complete_hydration h message p =
      let closed : ScreenHydration = record h { completed = true; progress_armed = false } in
      let flushed =
        emit_outputs h.buffered_output
          (emit_status (says attached message) (record p { hydration = some closed })) in
      let emptied : Plane = record flushed {
        hydration = some (record closed { buffered_output = []; buffered_bytes = 0 });
      } in
      pump_inputs codec (emit_pending_exit h.pending_exit emptied)

  unfoldable pub receive_snapshot_finish : ScreenHydration → ℕ → Plane → Plane
  receive_snapshot_finish h now p =
      let early = not h.decoder_finished && not h.history_incomplete in
      let ended : ScreenHydration = record h {
        finish_received = true;
        history_incomplete = h.history_incomplete || not h.decoder_finished;
      } in
      let message =
        if ended.history_incomplete
        then "Terminal attached with incomplete snapshot history."
        else "Terminal attached after incremental snapshot history." in
      if h.completed
      then p
      else if not h.ready_received
      then fail_route codec "Terminal sent SNAPSHOT_FINISH before SNAPSHOT_READY." now p
      else complete_hydration ended message (if early then cancel_own_reader h p else p)
