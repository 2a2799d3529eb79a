-- ===== src/Plane/Queue.antt =====
-- The input queue of src/botster/hubTerminalDataPlane.ts: admission, the bounded in-flight window
-- and the settling of operations.
use botster_web.Common.{
  ◌+◌, ◌-◌, Bool, true, false, not, ◌||◌, none, some, List, [], ◌∷◌, ◌++◌, ltb, leb, length, ◌==◌,
  nat_eq, if◌then◌else◌, opt_beq, is_some,
}
use botster_web.Common.Maps.{lookup, insert, delete}
use botster_web.Wire.Event.{TextCodec}
use botster_web.Input.Events.{Geometry, SemanticInput}
use botster_web.Input.Encoding.{EncodedInputOperation, encode_semantic_input}
use botster_web.Plane.State.{
  resize, QueuedInput, InflightInput, SendTask, Plane, max_inflight_input_operations,
  max_queued_input_bytes, max_queued_input_operations,
}
use botster_web.Plane.Basics.{
  same_geometry, screen_hydrated, retained_input_bytes, ensure_attached, can_pump, stream_serial,
}

-- The next id goes to the entry, which is in flight from here on; its task joins the send chain.
unfoldable pub append_operation : QueuedInput → Plane → Plane
append_operation entry p =
    let id = p.next_operation_id in
    let inflight : InflightInput = record {
      entry = entry;
      generation = p.attachment_generation;
      operation_id = id;
      retained_bytes = entry.operation.body_bytes;
    } in
    let task : SendTask = record { inflight = inflight; stream_serial = stream_serial p } in
    record p {
      next_operation_id = id + 1;
      inflight_inputs = insert id inflight p.inflight_inputs;
      inflight_input_bytes = p.inflight_input_bytes + entry.operation.body_bytes;
      send_chain = p.send_chain ++ task ∷ [];
    }

-- The operation that the plane holds under this id, if it is the given one.
unfoldable pub holds : InflightInput → Plane → Bool
holds inflight p = elim (lookup inflight.operation_id p.inflight_inputs) [
  | none ↦ false
  | some held ↦ held.generation == inflight.generation
]

unfoldable pub forget_inflight : InflightInput → Plane → Plane
forget_inflight inflight p = record p {
  inflight_inputs = delete inflight.operation_id p.inflight_inputs;
  inflight_input_bytes = p.inflight_input_bytes - inflight.retained_bytes;
  geometry_operation =
      if opt_beq p.geometry_operation (some inflight.operation_id)
      then none
      else p.geometry_operation;
}

unfoldable pub release_unsent_operation : InflightInput → Plane → Plane
release_unsent_operation inflight p =
    if not (holds inflight p) then p else forget_inflight inflight p

-- The loop of `pumpInputs`; the list is what the queue still holds.
unfoldable pub pump_queue : List QueuedInput → Plane → Plane
pump_queue [] p = record p { queued_inputs = [] }
pump_queue (entry ∷ rest) p =
    let taken : Plane = record p {
      queued_inputs = rest;
      queued_input_bytes = p.queued_input_bytes - entry.operation.body_bytes;
    } in
    let sent = pump_queue rest (append_operation entry taken) in
    if ltb (length p.inflight_inputs) max_inflight_input_operations
    then sent
    else record p { queued_inputs = entry ∷ rest }

module _ (codec : TextCodec) where
  abbrev pub resize_operation : Geometry → EncodedInputOperation
  resize_operation g = encode_semantic_input codec (SemanticInput.resize g)

  abbrev pub resize_entry : Geometry → QueuedInput
  resize_entry g = record {
    operation = resize_operation g;
    kind = resize;
    requested_bytes = (resize_operation g).body_bytes;
    paste_data = none;
    paste_attempt = none;
    resolves = false;
  }

  unfoldable pub maybe_send_geometry : Plane → Plane
  maybe_send_geometry p = elim p.desired_geometry [
    | none ↦ p
    | some geometry ↦
        let sent = append_operation (resize_entry geometry) p in
        if not (can_pump p)
        then p
        else if is_some p.geometry_operation || not (screen_hydrated p)
        then p
        else if leb max_inflight_input_operations (length p.inflight_inputs)
            || same_geometry geometry p.sent_geometry
        then p
        else record sent { geometry_operation = some p.next_operation_id }
  ]

  -- The latest geometry goes ahead of the queued operations.
  unfoldable pub pump_inputs : Plane → Plane
  pump_inputs p =
      let ahead = maybe_send_geometry p in
      if not (can_pump p) then p else pump_queue ahead.queued_inputs ahead

  -- The operation is refused, and nothing is retained, when either bound would be passed.
  unfoldable pub enqueue_input : QueuedInput → Plane → Plane × Bool
  enqueue_input entry p =
      let bytes = entry.operation.body_bytes in
      let admitted : Plane = record p {
        queued_inputs = p.queued_inputs ++ entry ∷ [];
        queued_input_bytes = p.queued_input_bytes + bytes;
      } in
      if leb max_queued_input_operations (length p.queued_inputs)
        || ltb max_queued_input_bytes (retained_input_bytes p + bytes)
      then (p, false)
      else (pump_inputs (ensure_attached admitted), true)
