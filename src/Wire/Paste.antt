-- ===== src/Wire/Paste.antt =====
-- A paste as its frames carry it: `encodePaste` of src/botster/generated/terminal-protocol.ts cuts
-- the data into chunks, and the chunks put together again are the data.
use botster_web.Common.{
  ℕ, zero, suc, ◌+◌, ◌-◌, ◌*◌, ◌^◌, ◌≤◌, ◌<◌, ◌≡◌, refl, ap, ◌∙◌, Bool, ◌&&◌, Option, none, some,
  List, [], ◌∷◌, ◌++◌, length, take, drop, arith, ◌==◌, nat_eq, if◌then◌else◌, take-append-drop,
  length-take, length-drop,
}
use botster_web.Wire.Error.{ok}
use botster_web.Wire.Bytes.{Bytes, be_bytes, get_be, be_value-4}
use botster_web.Wire.Input.{
  OperationId, to_operation_id, encode_input_frame, paste_chunk_frames, encode_paste,
  max_paste_bytes, max_paste_chunks, flag_byte,
}
use botster_web.Wire.Frames.{read_input_frame, encode_input_frame-reads}

-- The next chunk's data, if `frame` is the chunk numbered `index` of operation `id`.
unfoldable pub read_chunk : ℕ → ℕ → Bytes → Option Bytes
read_chunk id index frame = elim (read_input_frame frame) [
  | none ↦ none
  | some f ↦
      if (f.kind == 7) && (f.operation_id == id) && (get_be 4 0 f.body == index)
      then some (drop 4 f.body)
      else none
]

-- The data of consecutive chunks, put together.
unfoldable pub reassemble : ℕ → ℕ → List Bytes → Option Bytes
reassemble id index [] = some []
reassemble id index (frame ∷ frames) = elim (read_chunk id index frame) [
  | none ↦ none
  | some part ↦ elim (reassemble id (index + 1) frames) [
    | none ↦ none
    | some later ↦ some (part ++ later)
  ]
]

reassemble-cons :
    (id index : ℕ) (frame part later : Bytes) (frames : List Bytes)
    → read_chunk id index frame ≡ some part
    → reassemble id (index + 1) frames ≡ some later
    → reassemble id index (frame ∷ frames) ≡ some (part ++ later)
unfolding reassemble
reassemble-cons id index frame part later frames p q = ground arith

count_step :
    (m size n d : ℕ)
    → 0 < size
    → 0 < n
    → d ≡ n - size
    → m * size < d + size
    → suc m * size < n + size
count_step zero size n d s h e few = omega arith
count_step (suc m) size n d s h e few = omega arith

module _ (size : ℕ) (operation_id : OperationId) (id : ℕ) (some_room : 0 < size)
    (fits : size + 4 ≤ 65535) (valid : to_operation_id operation_id ≡ ok id) where
  chunk_frame :
      (index : ℕ) (part : Bytes)
      → index < 2 ^ 32
      → length part ≤ size
      → (frame : Bytes) × (encode_input_frame 7 operation_id (be_bytes 4 index ++ part) ≡ ok frame)
        × (read_chunk id index frame ≡ some part)
  unfolding read_chunk
  chunk_frame index part i short =
      let (frame, written, read, size_of) =
        encode_input_frame-reads 7 operation_id id (be_bytes 4 index ++ part) (omega arith) valid
          (omega arith) in
      (frame, written, ground (arith, read, be_value-4 index))

  Chunks : ℕ → ℕ → Bytes → Type 0
  Chunks fuel index rest =
      (frames : List Bytes) × (paste_chunk_frames size operation_id fuel index rest ≡ ok frames)
      × (reassemble id index frames ≡ some rest)
      × (length frames * size < length rest + size)

  chunks :
      (fuel index : ℕ) (rest : Bytes)
      → length rest ≤ fuel
      → index + fuel < 2 ^ 32
      → Chunks fuel index rest
  unfolding Chunks paste_chunk_frames
  chunks fuel index [] h k = ([], refl, unfold reassemble in refl, omega arith)
  chunks zero index (b ∷ rest) h k = absurd (omega arith)
  chunks (suc fuel) index (b ∷ rest) h k =
      let head = take size (b ∷ rest) in
      let later = drop size (b ∷ rest) in
      let short = length-drop size (b ∷ rest) in
      let (frame, written, read) =
        chunk_frame index head (omega arith) (omega (arith, length-take size (b ∷ rest))) in
      let (frames, made, whole, few) =
        chunks fuel (index + 1) later (omega (arith, short)) (omega arith) in
      (
        frame ∷ frames,
        rw (written, made),
        reassemble-cons id index frame head later frames read whole
            ∙ ap some (take-append-drop size (b ∷ rest)),
        count_step (length frames) size (length (b ∷ rest)) _ some_room (omega arith) short few,
      )

-- A paste of 1 to 1048576 bytes under a valid operation id is always encoded. It is a begin frame
-- that holds the length and the flag, then at most 17 chunk frames whose data in order is the paste,
-- then an empty commit frame, all under that id.
pub encode_paste-reassembles :
    (operation_id : OperationId) (id : ℕ) (allow_unsafe : Bool) (bytes : Bytes)
    → to_operation_id operation_id ≡ ok id
    → 0 < length bytes
    → length bytes ≤ max_paste_bytes
    → (begin : Bytes) × (frames : List Bytes) × (commit : Bytes) × (encode_paste operation_id
          allow_unsafe bytes
        ≡ ok (begin ∷ frames ++ commit ∷ []))
      × (read_input_frame begin
          ≡ some (record {
            kind = 6;
            operation_id = id;
            body = be_bytes 4 (length bytes) ++ flag_byte allow_unsafe ∷ [];
          }))
      × (reassemble id 0 frames ≡ some bytes)
      × (length frames ≤ max_paste_chunks)
      × (read_input_frame commit ≡ some (record { kind = 8; operation_id = id; body = [] }))
unfolding encode_paste Chunks
encode_paste-reassembles operation_id id allow_unsafe bytes valid low high =
    let (begin, begun, begin_reads, _) =
      encode_input_frame-reads 6 operation_id id
        (be_bytes 4 (length bytes) ++ flag_byte allow_unsafe ∷ []) (omega arith) valid
        (omega arith) in
    let (commit, committed, commit_reads, _) =
      encode_input_frame-reads 8 operation_id id [] (omega arith) valid (omega arith) in
    let (frames, made, whole, few) =
      chunks 65531 operation_id id (omega arith) (omega arith) valid (length bytes) 0 bytes
        (omega arith) (omega arith) in
    (
      begin,
      frames,
      commit,
      rw (begun, made, committed) (ground arith),
      begin_reads,
      whole,
      omega arith,
      commit_reads,
    )
