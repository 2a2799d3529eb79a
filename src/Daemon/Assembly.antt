-- ===== src/Daemon/Assembly.antt =====
-- Reassembly of control deliveries from their chunks, in src/botster/webrtcDaemonClient.ts. The JSON of
-- a frame is read outside; the browser's UTF-8 length is a parameter. The bytes retained in all are a
-- natural number: what is subtracted has been added before (Daemon.Assembly.History).
pub mod Handler
pub mod Isolation
pub mod Parsing
pub mod Indices
pub mod Reassembly
pub mod Sums
pub mod History
pub mod Storing
pub mod Accounted
use botster_web.Common.{
  ℕ, zero, suc, ◌+◌, ◌-◌, ◌*◌, Bool, true, false, not, ◌&&◌, ◌||◌, Option, none, some, List, [],
  ◌∷◌, ◌++◌, ltb, leb, ◌==◌, nat_eq, string_eq, if◌then◌else◌, get_or, length, opt_beq,
}
use botster_web.Common.Maps.{lookup, insert, delete}
use Prim.Native.String.{String, ◌++◌ as append}

abbrev pub maximum_frame_bytes_exclusive : ℕ
maximum_frame_bytes_exclusive = 65536

abbrev pub maximum_response_bytes : ℕ
maximum_response_bytes = 16777216

abbrev pub maximum_aggregate_retained_bytes : ℕ
maximum_aggregate_retained_bytes = 32 * 1024 * 1024

abbrev pub maximum_concurrent_assemblies : ℕ
maximum_concurrent_assemblies = 16

abbrev pub maximum_completed_message_ids : ℕ
maximum_completed_message_ids = 64

abbrev pub assembly_bookkeeping_bytes : ℕ
assembly_bookkeeping_bytes = 256

abbrev pub chunk_bookkeeping_bytes : ℕ
chunk_bookkeeping_bytes = 64

abbrev pub completed_message_bookkeeping_bytes : ℕ
completed_message_bookkeeping_bytes = 64

-- The fields of a JSON object that the parser looks at; `none` where one is missing or of another
-- type, or no safe integer of at least 0.
pub record RawChunk : Type 0 where
  pub version : Option ℕ
  pub delivery_kind : Option String
  pub message_id : Option String
  pub chunk_count : Option ℕ
  pub total_bytes : Option ℕ
  pub chunk_index : Option ℕ
  pub payload : Option String

pub record DeliveryChunk : Type 0 where
  pub message_id : String
  pub delivery_kind : String
  pub chunk_count : ℕ
  pub total_bytes : ℕ
  pub chunk_index : ℕ
  pub payload : String

-- The failures that the handler throws.
pub data ChunkFailure : Type 0 where
  frame_too_long version_unsupported kind_unsupported message_id_invalid count_invalid total_invalid
        count_exceeds_total index_invalid payload_invalid :
      ChunkFailure
  already_completed too_many_assemblies budget_exceeded metadata_conflict duplicate_conflict
        bytes_exceed_total bytes_differ_from_total not_byte_exact key_unavailable :
      ChunkFailure

pub data Parsed : Type 0 where
  refused : ChunkFailure → Parsed
  parsed : DeliveryChunk → Parsed

pub record ResponseAssembly : Type 0 where
  pub generation : ℕ
  pub delivery_kind : String
  pub chunk_count : ℕ
  pub total_bytes : ℕ
  pub chunks : List (ℕ × String)
  pub received_bytes : ℕ
  pub retained_bytes : ℕ

-- The fields of the client that reassembly uses. A `Set` lists its elements in insertion order.
pub record Inbox : Type 0 where
  pub peer_generation : ℕ
  pub has_key : Bool
  pub response_assemblies : List (String × ResponseAssembly)
  pub completed_message_ids : List String
  pub aggregate_retained_bytes : ℕ

-- Where the handler stops before it decrypts: it has thrown, it waits for more chunks, or it has the
-- whole envelope of an assembly.
pub data Assembled : Type 0 where
  thrown : ChunkFailure → Assembled
  waiting : Assembled
  whole : ResponseAssembly → String → Assembled

unfoldable pub has_id : String → List String → Bool
has_id id [] = false
has_id id (other ∷ ids) = other == id || has_id id ids

-- `isIntegerInRange`, of a field that holds a safe integer
abbrev pub is_in_range : ℕ → ℕ → ℕ → Bool
is_in_range value minimum maximum = leb minimum value && leb value maximum

module _ (utf8_byte_length : String → ℕ) where
  -- The second half of `parseDeliveryChunk`.
  unfoldable pub parse_chunk_body : String → ℕ → ℕ → Option ℕ → Option String → Parsed
  parse_chunk_body message_id chunk_count total_bytes chunk_index payload =
      if not (is_in_range total_bytes 1 maximum_response_bytes)
      then refused total_invalid
      else if ltb total_bytes chunk_count
      then refused count_exceeds_total
      else elim chunk_index [
        | none ↦ refused index_invalid
        | some index ↦
            if not (is_in_range index 0 (chunk_count - 1))
            then refused index_invalid
            else elim payload [
              | none ↦ refused payload_invalid
              | some text ↦
                  if leb (utf8_byte_length text) 0 || ltb total_bytes (utf8_byte_length text)
                  then refused payload_invalid
                  else parsed (record {
                    message_id = message_id;
                    delivery_kind = "server_frame";
                    chunk_count = chunk_count;
                    total_bytes = total_bytes;
                    chunk_index = index;
                    payload = text;
                  })
            ]
      ]

  -- The checks of `parseDeliveryChunk`, in its order.
  unfoldable pub parse_delivery_chunk : RawChunk → Parsed
  parse_delivery_chunk raw =
      if not (opt_beq raw.version (some 2))
      then refused version_unsupported
      else if not (opt_beq raw.delivery_kind (some "server_frame"))
      then refused kind_unsupported
      else elim raw.message_id [
        | none ↦ refused message_id_invalid
        | some message_id ↦
            if message_id == "" then refused message_id_invalid else elim raw.chunk_count [
              | none ↦ refused count_invalid
              | some chunk_count ↦
                  if leb chunk_count 0 then refused count_invalid else elim raw.total_bytes [
                    | none ↦ refused total_invalid
                    | some total_bytes ↦
                        parse_chunk_body message_id chunk_count total_bytes raw.chunk_index
                          raw.payload
                  ]
            ]
      ]
