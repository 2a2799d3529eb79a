-- ===== src/Tests/Assembly.antt =====
-- The theorems on control deliveries at concrete inputs.
use botster_web.Common.{
  List, ◌+◌, ℕ, zero, suc, ◌≡◌, refl, [], ◌∷◌, map, true, some, arith, String, string_eq, nat_eq,
}
use Prim.Native.String.{len}
use botster_web.Common.Maps.{lookup}
use botster_web.Daemon.Assembly.{
  RawChunk, DeliveryChunk, Inbox, whole, has_id, parse_delivery_chunk, parse_chunk_body,
}
use botster_web.Daemon.Assembly.Handler.{handle_chunk}
use botster_web.Daemon.Assembly.Indices.{has_index, IsComplete}
use botster_web.Daemon.Assembly.Reassembly.{
  handle_chunks, chunk, retained, assembly_of, HasRoom, handle_chunks-reassemble,
}
use botster_web.Daemon.Assembly.Handler.{
  clear_assemblies, complete_delivery, retain_completed_message_id, evict_completed,
  release_assembly, add_id, start_assembly, open_assembly, store_assembly, exceeds_budget,
}
use botster_web.Common.Maps.{insert, delete}
use botster_web.Daemon.Assembly.{
  ResponseAssembly, assembly_bookkeeping_bytes, chunk_bookkeeping_bytes,
}
use botster_web.Daemon.Assembly.History.{
  InboxEvent, reset, inbox_event, received, decrypted, renewed, keyed, new_inbox, inbox_history,
  IsAccounted,
}
use botster_web.Daemon.Assembly.Accounted.{inbox_history-IsAccounted}
use botster_web.Daemon.Assembly.Parsing.{IsParsed, parse_delivery_chunk-IsParsed}

abbrev raw_chunk : RawChunk
raw_chunk = record {
  version = some 2;
  delivery_kind = some "server_frame";
  message_id = some "m1";
  chunk_count = some 2;
  total_bytes = some 3;
  chunk_index = some 1;
  payload = some "c";
}

abbrev last_chunk : DeliveryChunk
last_chunk = record {
  message_id = "m1";
  delivery_kind = "server_frame";
  chunk_count = 2;
  total_bytes = 3;
  chunk_index = 1;
  payload = "c";
}

abbrev keyed_inbox : Inbox
keyed_inbox = record {
  peer_generation = 1;
  has_key = true;
  response_assemblies = [];
  completed_message_ids = "m0" ∷ [];
  aggregate_retained_bytes = 66;
}

abbrev payloads : ℕ → String
payloads zero = "ab"
payloads (suc n) = "c"

parse_delivery_chunk-IsParsed_example : IsParsed len raw_chunk last_chunk
parse_delivery_chunk-IsParsed_example =
    parse_delivery_chunk-IsParsed len raw_chunk last_chunk
      (unfold parse_delivery_chunk parse_chunk_body in refl)

-- The assembly of `last_chunk`, which is its whole delivery.
abbrev stored : ResponseAssembly
stored = record {
  generation = 0;
  delivery_kind = "server_frame";
  chunk_count = last_chunk.chunk_count;
  total_bytes = last_chunk.total_bytes;
  chunks = (last_chunk.chunk_index, last_chunk.payload) ∷ [];
  received_bytes = len last_chunk.payload;
  retained_bytes = assembly_bookkeeping_bytes + chunk_bookkeeping_bytes + len last_chunk.payload;
}

-- A delivery that completes, and one of a lost generation that does not.
abbrev deliveries : List InboxEvent
deliveries =
    keyed
    ∷ received last_chunk 0
    ∷ decrypted "m1" stored 0
    ∷ reset
    ∷ renewed
    ∷ decrypted "m2" stored 0
    ∷ []

inbox_history-IsAccounted_example : IsAccounted len (inbox_history len deliveries new_inbox)
unfolding new_inbox inbox_event handle_chunk has_id lookup start_assembly open_assembly
    store_assembly insert exceeds_budget complete_delivery retain_completed_message_id
    evict_completed release_assembly add_id clear_assemblies delete
inbox_history-IsAccounted_example =
    inbox_history-IsAccounted len deliveries (
      tt,
      (tt, ((λ current. refl), (tt, (tt, ((λ current. absurd (omega (arith, current))), tt))))),
    )

both_indices : IsComplete (1 ∷ 0 ∷ []) 2
unfolding has_index
both_indices = record {
  distinct = (refl, (refl, tt));
  covers = λ i below. ground (arith, below);
  count = refl;
}

empty_room :
    HasRoom len payloads "m1" 1 2 3 (retained len payloads "m1" 1 2 3 (1 ∷ 0 ∷ [])) keyed_inbox
empty_room = record {
  fresh = unfold has_id in refl;
  unknown = unfold lookup in refl;
  few = omega arith;
  budget = omega arith;
  keyed = refl;
}

handle_chunks-reassemble_example :
    (handle_chunks len (map (chunk len payloads "m1" 1 2 3) (1 ∷ 0 ∷ [])) 1 keyed_inbox).1
    ≡ whole (assembly_of len payloads "m1" 1 2 3 (1 ∷ 0 ∷ [])) "abc"
handle_chunks-reassemble_example =
    handle_chunks-reassemble len payloads "m1" 1 2 3 (1 ∷ 0 ∷ []) both_indices refl refl keyed_inbox
      (omega arith) empty_room

-- Another delivery has a chunk stored.
abbrev shared_inbox : Inbox
shared_inbox = record keyed_inbox { response_assemblies = ("m2", stored) ∷ [] }
