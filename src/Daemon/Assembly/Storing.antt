-- ===== src/Daemon/Assembly/Storing.antt =====
-- What storing a chunk does to the retained bytes, for
-- src/botster/webrtcDaemonClient.ts.
use botster_web.Common.{
  ℕ, suc, ◌+◌, ◌≡◌, refl, true, false, none, some, List, [], ◌∷◌, ltb, leb, ◌==◌, nat_eq, string_eq,
  length, arith, String, Bool-cases, Option-cases, inl, inr,
}
use botster_web.Common.Maps.{lookup, insert, lookup-insert, insert-fresh-distinct}
use botster_web.Daemon.Assembly.{
  DeliveryChunk, ResponseAssembly, Inbox, has_id, maximum_aggregate_retained_bytes,
  maximum_concurrent_assemblies, chunk_bookkeeping_bytes,
}
use botster_web.Daemon.Assembly.Handler.{
  exceeds_budget, conflicts, store_assembly, open_assembly, add_chunk, start_assembly,
  extend_assembly, handle_chunk,
}
use botster_web.Daemon.Assembly.Sums.{insert-fresh, insert-known, AllKept-insert, AllKept-lookup}
use botster_web.Daemon.Assembly.History.{chunk_total, IsKept, IsAccounted}

module _ (utf8_byte_length : String → ℕ) where
  insert-chunk :
      (index : ℕ) (payload : String) (m : List (ℕ × String))
      → lookup index m ≡ none
      → (chunk_total utf8_byte_length (insert index payload m)
          ≡ chunk_total utf8_byte_length m + utf8_byte_length payload)
        × (length (insert index payload m) ≡ suc (length m))
  unfolding insert lookup
  insert-chunk index payload [] h = (omega arith, refl)
  insert-chunk index payload ((j, other) ∷ m) h = elim (Bool-cases (j == index)) [
    | inl same ↦ absurd (ground (arith, same))
    | inr differs ↦
        let (total, size) = insert-chunk index payload m (ground (arith, h, differs)) in
        rw differs (omega (arith, total), omega (arith, size))
  ]

  -- An assembly that is stored, under an id that is not completed.
  store-apart :
      (id : String) (a : ResponseAssembly) (inbox : Inbox)
      → IsAccounted utf8_byte_length inbox
      → has_id id inbox.completed_message_ids ≡ false
      → (other : String) → has_id other inbox.completed_message_ids ≡ true
      → lookup other (insert id a inbox.response_assemblies) ≡ none
  store-apart id a inbox h new other completed = ground (
    arith,
    lookup-insert id other a inbox.response_assemblies,
    h.apart other completed,
    string_eq.beq_iff id other,
    new,
    completed,
  )

  start_assembly-IsAccounted :
      (chunk : DeliveryChunk) (generation : ℕ) (inbox : Inbox)
      → has_id chunk.message_id inbox.completed_message_ids ≡ false
      → lookup chunk.message_id inbox.response_assemblies ≡ none
      → IsAccounted utf8_byte_length inbox
      → IsAccounted utf8_byte_length (start_assembly utf8_byte_length chunk generation inbox).0
  unfolding start_assembly exceeds_budget store_assembly open_assembly
  start_assembly-IsAccounted chunk generation inbox new unknown h =
      let a = open_assembly utf8_byte_length chunk generation in
      let (total, size) = insert-fresh chunk.message_id a inbox.response_assemblies unknown in
      elim (Bool-cases (leb maximum_concurrent_assemblies (length inbox.response_assemblies))) [
        | inl full ↦ rw full h
        | inr room ↦
            elim (Bool-cases (
              ltb maximum_aggregate_retained_bytes
                (inbox.aggregate_retained_bytes + a.retained_bytes))) [
                  | inl over ↦ rw room (rw over h)
                  | inr fits ↦ rw room (
                      rw fits (record {
                        exact = omega (arith, total, h.exact);
                        small = ground (arith, fits);
                        few = ground (arith, size, room);
                        ids = h.ids;
                        distinct =
                            insert-fresh-distinct chunk.message_id a inbox.response_assemblies
                              h.distinct;
                        apart = store-apart chunk.message_id a inbox h new;
                        kept =
                            AllKept-insert (IsKept utf8_byte_length) chunk.message_id a
                              inbox.response_assemblies
                              (record { received = omega arith; retained = omega arith }) h.kept;
                      }))
                ]
      ]

  extend_assembly-IsAccounted :
      (a : ResponseAssembly) (chunk : DeliveryChunk) (generation : ℕ) (inbox : Inbox)
      → has_id chunk.message_id inbox.completed_message_ids ≡ false
      → lookup chunk.message_id inbox.response_assemblies ≡ some a
      → IsAccounted utf8_byte_length inbox
      → IsAccounted utf8_byte_length (extend_assembly utf8_byte_length a chunk generation inbox).0
  unfolding extend_assembly exceeds_budget store_assembly add_chunk
  extend_assembly-IsAccounted a chunk generation inbox new known h =
      let b = add_chunk utf8_byte_length a chunk in
      let (total, size) = insert-known chunk.message_id b a inbox.response_assemblies known in
      let mine =
        AllKept-lookup (IsKept utf8_byte_length) chunk.message_id a inbox.response_assemblies known
          h.kept in
      let extra = chunk_bookkeeping_bytes + utf8_byte_length chunk.payload in
      elim (Bool-cases (conflicts a chunk generation)) [
        | inl clash ↦ rw (extend_assembly, clash) h
        | inr agrees ↦ elim (Option-cases (lookup chunk.chunk_index a.chunks)) [
          | inr (existing, twice) ↦ elim (Bool-cases (existing == chunk.payload)) [
            | inl same ↦ rw (extend_assembly, agrees) (rw (extend_assembly, twice) (rw same h))
            | inr differs ↦
                rw (extend_assembly, agrees) (rw (extend_assembly, twice) (rw differs h))
          ]
          | inl missing ↦
              let (bytes, count) = insert-chunk chunk.chunk_index chunk.payload a.chunks missing in
              elim (Bool-cases
                (ltb maximum_aggregate_retained_bytes (inbox.aggregate_retained_bytes + extra))) [
                  | inl over ↦
                      rw (extend_assembly, agrees) (rw (extend_assembly, missing) (rw over h))
                  | inr fits ↦
                      rw (extend_assembly, agrees)
                        (rw (extend_assembly, missing)
                          (rw fits (record {
                            exact = omega (arith, total, h.exact);
                            small = ground (arith, fits);
                            few = omega (arith, size, h.few);
                            ids = h.ids;
                            distinct =
                                insert-fresh-distinct chunk.message_id b inbox.response_assemblies
                                  h.distinct;
                            apart = store-apart chunk.message_id b inbox h new;
                            kept =
                                AllKept-insert (IsKept utf8_byte_length) chunk.message_id b
                                  inbox.response_assemblies
                                  (record {
                                    received = omega (arith, mine.received, bytes);
                                    retained = omega (arith, mine.retained, bytes, count);
                                  })
                                  h.kept;
                          })))
                ]
        ]
      ]

  pub handle_chunk-IsAccounted :
      (chunk : DeliveryChunk) (generation : ℕ) (inbox : Inbox)
      → IsAccounted utf8_byte_length inbox
      → IsAccounted utf8_byte_length (handle_chunk utf8_byte_length chunk generation inbox).0
  unfolding handle_chunk
  handle_chunk-IsAccounted chunk generation inbox h =
      elim (Bool-cases (has_id chunk.message_id inbox.completed_message_ids)) [
        | inl again ↦ rw again h
        | inr new ↦ elim (Option-cases (lookup chunk.message_id inbox.response_assemblies)) [
          | inl unknown ↦ rw new (
              rw (handle_chunk, unknown)
                (start_assembly-IsAccounted chunk generation inbox new unknown h))
          | inr (a, known) ↦ rw new (
              rw (handle_chunk, known)
                (extend_assembly-IsAccounted a chunk generation inbox new known h))
        ]
      ]
