-- ===== src/Daemon/Assembly/Handler.antt =====
-- `handleMessage` of src/botster/webrtcDaemonClient.ts, up to its wait for the decryption and after it.
use botster_web.Common.{
  ℕ, zero, suc, ◌+◌, ◌-◌, Bool, true, false, not, ◌||◌, none, some, List, [], ◌∷◌, ◌++◌, ltb, leb,
  ◌==◌, nat_eq, string_eq, if◌then◌else◌, get_or, length, String,
}
use botster_web.Common.Maps.{lookup, insert, delete}
use Prim.Native.String.{◌++◌ as append}
use botster_web.Daemon.Assembly.{
  RawChunk, DeliveryChunk, frame_too_long, already_completed, too_many_assemblies, budget_exceeded,
  metadata_conflict, duplicate_conflict, bytes_exceed_total, bytes_differ_from_total,
  not_byte_exact, key_unavailable, refused, parsed, ResponseAssembly, Inbox, Assembled, thrown,
  waiting, whole, has_id, parse_delivery_chunk, maximum_frame_bytes_exclusive,
  maximum_aggregate_retained_bytes, maximum_concurrent_assemblies, maximum_completed_message_ids,
  assembly_bookkeeping_bytes, chunk_bookkeeping_bytes, completed_message_bookkeeping_bytes,
}

-- The failing test of `ensureAggregateBudget`, written without the subtraction.
unfoldable pub exceeds_budget : ℕ → ℕ → Bool
exceeds_budget additional aggregate = ltb maximum_aggregate_retained_bytes (aggregate + additional)

-- `validateAssemblyChunk` throws.
unfoldable pub conflicts : ResponseAssembly → DeliveryChunk → ℕ → Bool
conflicts assembly chunk generation =
    not (assembly.generation == generation)
    || not (assembly.delivery_kind == chunk.delivery_kind)
    || not (assembly.chunk_count == chunk.chunk_count)
    || not (assembly.total_bytes == chunk.total_bytes)

-- The loop that appends the chunks `index`, `index + 1`, ...; a missing one reads as JavaScript
-- spells it.
unfoldable pub envelope_json : String → ℕ → ℕ → List (ℕ × String) → String
envelope_json acc index zero chunks = acc
envelope_json acc index (suc left) chunks =
    envelope_json (append acc (get_or (lookup index chunks) "undefined")) (suc index) left chunks

unfoldable pub store_assembly : String → ResponseAssembly → ℕ → Inbox → Inbox
store_assembly message_id assembly retained inbox = record inbox {
  response_assemblies = insert message_id assembly inbox.response_assemblies;
  aggregate_retained_bytes = inbox.aggregate_retained_bytes + retained;
}

unfoldable pub release_assembly : String → ResponseAssembly → Inbox → Inbox
release_assembly message_id assembly inbox = record inbox {
  response_assemblies = delete message_id inbox.response_assemblies;
  aggregate_retained_bytes = inbox.aggregate_retained_bytes - assembly.retained_bytes;
}

module _ (utf8_byte_length : String → ℕ) where
  -- The assembly that a first chunk opens.
  unfoldable pub open_assembly : DeliveryChunk → ℕ → ResponseAssembly
  open_assembly chunk generation = record {
    generation = generation;
    delivery_kind = chunk.delivery_kind;
    chunk_count = chunk.chunk_count;
    total_bytes = chunk.total_bytes;
    chunks = (chunk.chunk_index, chunk.payload) ∷ [];
    received_bytes = utf8_byte_length chunk.payload;
    retained_bytes =
        assembly_bookkeeping_bytes + chunk_bookkeeping_bytes + utf8_byte_length chunk.payload;
  }

  -- An assembly with one more chunk.
  unfoldable pub add_chunk : ResponseAssembly → DeliveryChunk → ResponseAssembly
  add_chunk assembly chunk = record assembly {
    chunks = insert chunk.chunk_index chunk.payload assembly.chunks;
    received_bytes = assembly.received_bytes + utf8_byte_length chunk.payload;
    retained_bytes =
        assembly.retained_bytes + (chunk_bookkeeping_bytes + utf8_byte_length chunk.payload);
  }

  -- What follows once the chunk is stored, up to the decryption.
  unfoldable pub check_whole : ResponseAssembly → Bool → Assembled
  check_whole assembly has_key =
      let envelope = envelope_json "" 0 assembly.chunk_count assembly.chunks in
      if ltb assembly.total_bytes assembly.received_bytes
      then thrown bytes_exceed_total
      else if not (length assembly.chunks == assembly.chunk_count)
      then waiting
      else if not (assembly.received_bytes == assembly.total_bytes)
      then thrown bytes_differ_from_total
      else if not (utf8_byte_length envelope == assembly.total_bytes)
      then thrown not_byte_exact
      else if not has_key
      then thrown key_unavailable
      else whole assembly envelope

  unfoldable pub start_assembly : DeliveryChunk → ℕ → Inbox → Inbox × Assembled
  start_assembly chunk generation inbox =
      let assembly = open_assembly chunk generation in
      if leb maximum_concurrent_assemblies (length inbox.response_assemblies)
      then (inbox, thrown too_many_assemblies)
      else if exceeds_budget assembly.retained_bytes inbox.aggregate_retained_bytes
      then (inbox, thrown budget_exceeded)
      else (
        store_assembly chunk.message_id assembly assembly.retained_bytes inbox,
        check_whole assembly inbox.has_key,
      )

  unfoldable pub extend_assembly : ResponseAssembly → DeliveryChunk → ℕ → Inbox → Inbox × Assembled
  extend_assembly assembly chunk generation inbox =
      let retained = chunk_bookkeeping_bytes + utf8_byte_length chunk.payload in
      if conflicts assembly chunk generation
      then (inbox, thrown metadata_conflict)
      else elim (lookup chunk.chunk_index assembly.chunks) [
        | some existing ↦
            if not (existing == chunk.payload)
            then (inbox, thrown duplicate_conflict)
            else (inbox, waiting)
        | none ↦
            if exceeds_budget retained inbox.aggregate_retained_bytes
            then (inbox, thrown budget_exceeded)
            else (
              store_assembly chunk.message_id (add_chunk assembly chunk) retained inbox,
              check_whole (add_chunk assembly chunk) inbox.has_key,
            )
      ]

  unfoldable pub handle_chunk : DeliveryChunk → ℕ → Inbox → Inbox × Assembled
  handle_chunk chunk generation inbox =
      if has_id chunk.message_id inbox.completed_message_ids
      then (inbox, thrown already_completed)
      else elim (lookup chunk.message_id inbox.response_assemblies) [
        | none ↦ start_assembly chunk generation inbox
        | some assembly ↦ extend_assembly assembly chunk generation inbox
      ]

  -- A frame of so many bytes that holds this JSON.
  unfoldable pub handle_message : ℕ → RawChunk → ℕ → Inbox → Inbox × Assembled
  handle_message frame_bytes raw generation inbox =
      if leb maximum_frame_bytes_exclusive frame_bytes
      then (inbox, thrown frame_too_long)
      else elim (parse_delivery_chunk utf8_byte_length raw) [
        | refused failure ↦ (inbox, thrown failure)
        | parsed chunk ↦ handle_chunk chunk generation inbox
      ]

  abbrev pub completed_bytes : String → ℕ
  completed_bytes id = completed_message_bookkeeping_bytes + utf8_byte_length id

  -- The loop that drops the oldest completed ids.
  unfoldable pub evict_completed : List String → ℕ → List String × ℕ
  evict_completed [] aggregate = ([], aggregate)
  evict_completed (id ∷ ids) aggregate =
      let rest = evict_completed ids (aggregate - completed_bytes id) in
      if leb maximum_completed_message_ids (suc (length ids)) then rest else (id ∷ ids, aggregate)

  -- `Set.add`
  unfoldable pub add_id : String → List String → List String
  add_id id ids = if has_id id ids then ids else ids ++ id ∷ []

  -- `true` where it throws that the budget is exceeded.
  unfoldable pub retain_completed_message_id : String → Inbox → Inbox × Bool
  retain_completed_message_id id inbox =
      let (ids, aggregate) =
        evict_completed inbox.completed_message_ids inbox.aggregate_retained_bytes in
      let evicted : Inbox = record inbox {
        completed_message_ids = ids;
        aggregate_retained_bytes = aggregate;
      } in
      if exceeds_budget (completed_bytes id) aggregate then (evicted, true) else (
        record evicted {
          completed_message_ids = add_id id ids;
          aggregate_retained_bytes = aggregate + completed_bytes id;
        },
        false,
      )

  -- What follows a decryption that succeeded: a delivery of an earlier generation is dropped, and one
  -- of this generation is released and its id retained.
  unfoldable pub complete_delivery : String → ResponseAssembly → ℕ → Inbox → Inbox × Bool
  complete_delivery message_id assembly generation inbox =
      if not (generation == inbox.peer_generation)
      then (inbox, false)
      else retain_completed_message_id message_id (release_assembly message_id assembly inbox)

unfoldable pub clear_assemblies : Inbox → Inbox
clear_assemblies inbox = record inbox {
  response_assemblies = [];
  completed_message_ids = [];
  aggregate_retained_bytes = 0;
}
