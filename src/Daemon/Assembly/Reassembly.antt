-- ===== src/Daemon/Assembly/Reassembly.antt =====
-- The chunks of one delivery in any order, for src/botster/webrtcDaemonClient.ts.
use botster_web.Common.{
  ℕ, ◌+◌, ◌*◌, ◌≤◌, ◌<◌, ◌≡◌, refl, sym, ap, ◌∙◌, true, false, none, some, List, [], ◌∷◌, ◌++◌, map,
  nat_eq, string_eq, length, length-append, arith, String, eq_self,
}
use botster_web.Common.Maps.{lookup, lookup-insert}
use mathlib.Core.List.{append_assoc, append-nil}
use botster_web.Daemon.Assembly.{
  DeliveryChunk, ResponseAssembly, Inbox, Assembled, thrown, waiting, whole, has_id,
  maximum_aggregate_retained_bytes, maximum_concurrent_assemblies, assembly_bookkeeping_bytes,
  chunk_bookkeeping_bytes,
}
use botster_web.Daemon.Assembly.Handler.{
  exceeds_budget, conflicts, store_assembly, open_assembly, add_chunk, check_whole, start_assembly,
  extend_assembly, handle_chunk,
}
use botster_web.Daemon.Assembly.Indices.{
  has_index, IsComplete, distinct-fresh, pieces, joined, lookup-pieces, insert-pieces,
  length-pieces, envelope_json-pieces, payload_bytes, payload_bytes-append,
}

abbrev pub then_wait : Inbox × Assembled → (Inbox → Inbox × Assembled) → Inbox × Assembled
then_wait (next, waiting) continue = continue next
then_wait (next, thrown failure) continue = (next, thrown failure)
then_wait (next, whole assembly envelope) continue = (next, whole assembly envelope)

module _ (utf8_byte_length : String → ℕ) where
  -- The handler on one chunk after another, until it does not wait.
  unfoldable pub handle_chunks : List DeliveryChunk → ℕ → Inbox → Inbox × Assembled
  handle_chunks [] generation inbox = (inbox, waiting)
  handle_chunks (c ∷ cs) generation inbox =
      then_wait (handle_chunk utf8_byte_length c generation inbox) (handle_chunks cs generation)

  module _ (payload : ℕ → String) (message_id : String) (generation n total : ℕ) where
    abbrev pub chunk : ℕ → DeliveryChunk
    chunk i = record {
      message_id = message_id;
      delivery_kind = "server_frame";
      chunk_count = n;
      total_bytes = total;
      chunk_index = i;
      payload = payload i;
    }

    abbrev pub retained : List ℕ → ℕ
    retained is = chunk_bookkeeping_bytes * length is + payload_bytes payload utf8_byte_length is

    -- The assembly of the chunks so far.
    abbrev pub assembly_of : List ℕ → ResponseAssembly
    assembly_of is = record {
      generation = generation;
      delivery_kind = "server_frame";
      chunk_count = n;
      total_bytes = total;
      chunks = pieces payload is;
      received_bytes = payload_bytes payload utf8_byte_length is;
      retained_bytes = assembly_bookkeeping_bytes + retained is;
    }

    -- An inbox in which a delivery of so many retained bytes can be assembled.
    pub record HasRoom (bytes : ℕ) (inbox : Inbox) : Type 0 where
      pub fresh : has_id message_id inbox.completed_message_ids ≡ false
      pub unknown : lookup message_id inbox.response_assemblies ≡ none
      pub few : length inbox.response_assemblies < maximum_concurrent_assemblies
      pub budget :
          inbox.aggregate_retained_bytes + (assembly_bookkeeping_bytes + bytes)
          ≤ maximum_aggregate_retained_bytes
      pub keyed : inbox.has_key ≡ true

    -- An inbox that holds the chunks so far, with the bytes of the others still free.
    pub record Holds (done rest : List ℕ) (inbox : Inbox) : Type 0 where
      pub fresh : has_id message_id inbox.completed_message_ids ≡ false
      pub known : lookup message_id inbox.response_assemblies ≡ some (assembly_of done)
      pub budget : inbox.aggregate_retained_bytes + retained rest ≤ maximum_aggregate_retained_bytes
      pub keyed : inbox.has_key ≡ true

    -- Whole once every index is there, and waiting before.
    check_whole_complete :
        (order : List ℕ)
        → IsComplete order n
        → payload_bytes payload utf8_byte_length order ≡ total
        → utf8_byte_length (joined payload "" 0 n) ≡ total
        → check_whole utf8_byte_length (assembly_of order) true
          ≡ whole (assembly_of order) (joined payload "" 0 n)
    unfolding check_whole
    check_whole_complete order complete bytes exact =
        let envelope =
          envelope_json-pieces payload "" 0 n order
            (λ i below. complete.covers i (omega (arith, below))) in
        rw envelope (ground (arith, bytes, exact, complete.count, length-pieces payload order))

    check_whole-partial :
        (done : List ℕ)
        → length done < n
        → payload_bytes payload utf8_byte_length done ≤ total
        → check_whole utf8_byte_length (assembly_of done) true ≡ waiting
    unfolding check_whole
    check_whole-partial done few small = ground (arith, few, small, length-pieces payload done)

    -- Two assemblies of this delivery are equal when their chunks and bytes are.
    assembly-eq :
        (a b : ResponseAssembly)
        → a.generation ≡ b.generation
        → a.delivery_kind ≡ b.delivery_kind
        → a.chunk_count ≡ b.chunk_count
        → a.total_bytes ≡ b.total_bytes
        → a.chunks ≡ b.chunks
        → a.received_bytes ≡ b.received_bytes
        → a.retained_bytes ≡ b.retained_bytes
        → a ≡ b
    assembly-eq a b g d c t chunks received kept = λ i. record {
      generation = g i;
      delivery_kind = d i;
      chunk_count = c i;
      total_bytes = t i;
      chunks = chunks i;
      received_bytes = received i;
      retained_bytes = kept i;
    }

    add_chunk-assembly_of :
        (done : List ℕ) (i : ℕ)
        → has_index i done ≡ false
        → add_chunk utf8_byte_length (assembly_of done) (chunk i) ≡ assembly_of (done ++ i ∷ [])
    unfolding add_chunk
    add_chunk-assembly_of done i new =
        let bytes = payload_bytes-append payload utf8_byte_length done (i ∷ []) in
        assembly-eq _ _ refl refl refl refl (insert-pieces payload i done new)
          (omega (arith, bytes)) (omega (arith, bytes, length-append done (i ∷ [])))

    open_assembly-assembly_of :
        (i : ℕ) → open_assembly utf8_byte_length (chunk i) generation ≡ assembly_of (i ∷ [])
    unfolding open_assembly
    open_assembly-assembly_of i =
        assembly-eq _ _ refl refl refl refl refl (omega arith) (omega arith)

    -- A first chunk, where there is room.
    handle_chunk-first :
        (i : ℕ) (rest : List ℕ) (inbox : Inbox)
        → HasRoom (retained (i ∷ rest)) inbox
        → let kept = assembly_bookkeeping_bytes + retained (i ∷ []) in
          (handle_chunk utf8_byte_length (chunk i) generation inbox ≡ (
            store_assembly message_id (assembly_of (i ∷ [])) kept inbox,
            check_whole utf8_byte_length (assembly_of (i ∷ [])) inbox.has_key,
          ))
          × Holds (i ∷ []) rest (store_assembly message_id (assembly_of (i ∷ [])) kept inbox)
    unfolding handle_chunk start_assembly exceeds_budget store_assembly
    handle_chunk-first i rest inbox h = (
      rw h.fresh (
          rw (handle_chunk, h.unknown)
            (rw (start_assembly, open_assembly-assembly_of i) (ground (arith, h.few, h.budget)))),
      record {
        fresh = h.fresh;
        known =
            lookup-insert message_id message_id (assembly_of (i ∷ [])) inbox.response_assemblies
            ∙ rw (eq_self message_id) refl;
        budget = omega (arith, h.budget);
        keyed = h.keyed;
      },
    )

    -- A further chunk, while its bytes are free.
    handle_chunk-next :
        (done : List ℕ) (i : ℕ) (rest : List ℕ) (inbox : Inbox)
        → Holds done (i ∷ rest) inbox
        → has_index i done ≡ false
        → let kept = chunk_bookkeeping_bytes + utf8_byte_length (payload i) in
          let after = store_assembly message_id (assembly_of (done ++ i ∷ [])) kept inbox in
          (handle_chunk utf8_byte_length (chunk i) generation inbox
            ≡ (after, check_whole utf8_byte_length (assembly_of (done ++ i ∷ [])) inbox.has_key))
          × Holds (done ++ i ∷ []) rest after
    unfolding handle_chunk extend_assembly exceeds_budget store_assembly conflicts
    handle_chunk-next done i rest inbox h new =
        let missing : lookup i (pieces payload done) ≡ none =
          lookup-pieces payload i done ∙ rw new refl in
        let agrees : conflicts (assembly_of done) (chunk i) generation ≡ false =
          ground (arith, eq_self generation, eq_self n, eq_self total) in
        (
          rw h.fresh (
              rw (handle_chunk, h.known)
                (rw (extend_assembly, agrees)
                  (rw (extend_assembly, missing)
                    (rw (extend_assembly, add_chunk-assembly_of done i new)
                      (ground (arith, h.budget)))))),
          record {
            fresh = h.fresh;
            known =
                lookup-insert message_id message_id (assembly_of (done ++ i ∷ []))
                  inbox.response_assemblies
                ∙ rw (eq_self message_id) refl;
            budget = omega (arith, h.budget);
            keyed = h.keyed;
          },
        )

    module _ (order : List ℕ) (complete : IsComplete order n)
        (bytes : payload_bytes payload utf8_byte_length order ≡ total)
        (exact : utf8_byte_length (joined payload "" 0 n) ≡ total) where
      -- From one chunk, once it is stored, to the end.
      handle_chunks-from :
          (rest done : List ℕ) (i : ℕ) (inbox after : Inbox)
          → handle_chunk utf8_byte_length (chunk i) generation inbox
            ≡ (after, check_whole utf8_byte_length (assembly_of done) inbox.has_key)
          → inbox.has_key ≡ true
          → Holds done rest after
          → done ++ rest ≡ order
          → (handle_chunks (map chunk (i ∷ rest)) generation inbox).1
            ≡ whole (assembly_of order) (joined payload "" 0 n)
      unfolding handle_chunks
      handle_chunks-from [] done i inbox after step keyed held all =
          let ends : check_whole utf8_byte_length (assembly_of done) inbox.has_key
              ≡ whole (assembly_of order) (joined payload "" 0 n) =
            rw keyed (
              rw (sym (append-nil done) ∙ all) (check_whole_complete order complete bytes exact)) in
          ap (λ r. (then_wait r (handle_chunks [] generation)).1) step
          ∙ ap (λ (o : Assembled). (then_wait (after, o) (handle_chunks [] generation)).1) ends
      handle_chunks-from (j ∷ rest) done i inbox after step keyed held all =
          let new = distinct-fresh done j rest (rw all complete.distinct) in
          let (next, held') = handle_chunk-next done j rest after held new in
          let ends : check_whole utf8_byte_length (assembly_of done) inbox.has_key ≡ waiting =
            rw keyed (
              check_whole-partial done
                (omega (arith, complete.count, ap length all, length-append done (j ∷ rest)))
                (omega (
                  arith,
                  bytes,
                  ap (payload_bytes payload utf8_byte_length) all,
                  payload_bytes-append payload utf8_byte_length done (j ∷ rest),
                ))) in
          let continue = handle_chunks (map chunk (j ∷ rest)) generation in
          ap (λ r. (then_wait r continue).1) step
          ∙ ap (λ (o : Assembled). (then_wait (after, o) continue).1) ends
          ∙ handle_chunks-from rest (done ++ j ∷ []) j after _ next held.keyed held'
              (append_assoc done (j ∷ []) rest ∙ all)

      handle_chunks-whole :
          (inbox : Inbox) (given : List ℕ)
          → given ≡ order
          → 0 < n
          → HasRoom (retained given) inbox
          → (handle_chunks (map chunk given) generation inbox).1
            ≡ whole (assembly_of order) (joined payload "" 0 n)
      handle_chunks-whole inbox [] all positive room =
          absurd (omega (arith, ap length all, complete.count, positive))
      handle_chunks-whole inbox (i ∷ rest) all positive room =
          let (step, held) = handle_chunk-first i rest inbox room in
          handle_chunks-from rest (i ∷ []) i inbox _ step room.keyed held all

      -- If `order` holds each index below a positive chunk count once, the payloads' bytes add up to the
      -- declared total, the text they join to has that many bytes, and the inbox has a key and room for
      -- a message id that it does not know, then the chunks in that order assemble to the payloads
      -- joined by index.
      pub handle_chunks-reassemble :
          (inbox : Inbox)
          → 0 < n
          → HasRoom (retained order) inbox
          → (handle_chunks (map chunk order) generation inbox).1
            ≡ whole (assembly_of order) (joined payload "" 0 n)
      handle_chunks-reassemble inbox positive room =
          handle_chunks-whole inbox order refl positive room
