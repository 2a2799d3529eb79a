-- ===== src/Daemon/Assembly/Accounted.antt =====
-- The bytes that assemblies retain over any sequence of events, for
-- src/botster/webrtcDaemonClient.ts.
use botster_web.Common.{
  suc, nat_beq_iff, ℕ, ◌+◌, ◌≡◌, refl, false, ◌||◌, none, some, List, [], ◌∷◌, ◌++◌, ltb, ◌==◌,
  nat_eq, string_eq, length-append, arith, String, sym, ◌∙◌, eq_self, Bool-cases, inl, inr,
}
use botster_web.Common.Maps.{lookup, lookup-delete, delete-distinct}
use botster_web.Daemon.Assembly.{ResponseAssembly, Inbox, has_id, maximum_aggregate_retained_bytes}
use botster_web.Daemon.Assembly.Handler.{
  exceeds_budget, release_assembly, completed_bytes, evict_completed, add_id,
  retain_completed_message_id, complete_delivery, clear_assemblies,
}
use botster_web.Daemon.Assembly.Sums.{
  retained_total, delete-known, AllKept-delete, completed_total-append, evict_completed-facts,
}
use botster_web.Daemon.Assembly.History.{
  InboxEvent, received, decrypted, reset, renewed, IsStored, IsTimely, keyed, inbox_event,
  inbox_history, IsKept, IsAccounted, new_inbox,
}
use botster_web.Daemon.Assembly.Storing.{handle_chunk-IsAccounted}

module _ (utf8_byte_length : String → ℕ) where
  release_assembly-IsAccounted :
      (id : String) (a : ResponseAssembly) (inbox : Inbox)
      → lookup id inbox.response_assemblies ≡ some a
      → IsAccounted utf8_byte_length inbox
      → IsAccounted utf8_byte_length (release_assembly id a inbox)
  unfolding release_assembly
  release_assembly-IsAccounted id a inbox known h =
      let (total, size) = delete-known id a inbox.response_assemblies h.distinct known in
      record {
        exact = omega (arith, total, h.exact);
        small = omega (arith, h.small);
        few = omega (arith, size, h.few);
        ids = h.ids;
        distinct = delete-distinct id inbox.response_assemblies h.distinct;
        apart = λ other completed.
            ground
              (arith, lookup-delete id other inbox.response_assemblies, h.apart other completed);
        kept = AllKept-delete (IsKept utf8_byte_length) id inbox.response_assemblies h.kept;
      }

  has_id-append :
      (other id : String) (ids : List String)
      → has_id other (ids ++ id ∷ []) ≡ (has_id other ids || id == other)
  unfolding has_id
  has_id-append other id [] = ground arith
  has_id-append other id (first ∷ ids) = ground (arith, has_id-append other id ids)

  retain_completed_message_id-IsAccounted :
      (id : String) (inbox : Inbox)
      → lookup id inbox.response_assemblies ≡ none
      → has_id id inbox.completed_message_ids ≡ false
      → IsAccounted utf8_byte_length inbox
      → IsAccounted utf8_byte_length (retain_completed_message_id utf8_byte_length id inbox).0
  unfolding retain_completed_message_id exceeds_budget add_id
  retain_completed_message_id-IsAccounted id inbox gone new h =
      let (kept, left) =
        evict_completed utf8_byte_length inbox.completed_message_ids
          inbox.aggregate_retained_bytes in
      let (exact, few, less, known) =
        evict_completed-facts utf8_byte_length inbox.completed_message_ids
          inbox.aggregate_retained_bytes (retained_total inbox.response_assemblies) h.exact in
      let new' : has_id id kept ≡ false = ground (arith, known id, new) in
      elim (Bool-cases
        (ltb maximum_aggregate_retained_bytes (left + completed_bytes utf8_byte_length id))) [
          | inl over ↦ rw over (record {
            exact = exact;
            small = omega (arith, less, h.small);
            few = h.few;
            ids = omega (arith, few);
            distinct = h.distinct;
            apart = λ other mine. h.apart other (known other mine);
            kept = h.kept;
          })
          | inr fits ↦ rw fits (
              rw new' (record {
                exact =
                    omega (arith, exact, completed_total-append utf8_byte_length kept (id ∷ []));
                small = ground (arith, fits);
                few = h.few;
                ids = omega (arith, few, length-append kept (id ∷ []));
                distinct = h.distinct;
                apart = λ other mine. elim (Bool-cases (id == other)) [
                  | inl same ↦ rw (sym ((string_eq.beq_iff id other).0 same)) gone
                  | inr differs ↦
                      h.apart other
                        (known other (ground (arith, mine, differs, has_id-append other id kept)))
                ];
                kept = h.kept;
              }))
        ]

  complete_delivery-IsAccounted :
      (id : String) (a : ResponseAssembly) (generation : ℕ) (inbox : Inbox)
      → (generation ≡ inbox.peer_generation → lookup id inbox.response_assemblies ≡ some a)
      → IsAccounted utf8_byte_length inbox
      → IsAccounted utf8_byte_length (complete_delivery utf8_byte_length id a generation inbox).0
  unfolding complete_delivery
  complete_delivery-IsAccounted id a generation inbox stored h =
      elim (Bool-cases (generation == inbox.peer_generation)) [
        | inr stale ↦ rw stale h
        | inl current ↦ rw current (
            let known = stored ((nat_beq_iff generation inbox.peer_generation).0 current) in
            retain_completed_message_id-IsAccounted id (release_assembly id a inbox)
              (unfold release_assembly in
                lookup-delete id id inbox.response_assemblies ∙ rw (eq_self id) refl)
              (unfold release_assembly in
                elim (Bool-cases (has_id id inbox.completed_message_ids)) [
                  | inl again ↦ absurd (ground (arith, h.apart id again, known))
                  | inr new ↦ new
                ])
              (release_assembly-IsAccounted id a inbox known h))
      ]

  cleared-IsAccounted : (inbox : Inbox) → IsAccounted utf8_byte_length (clear_assemblies inbox)
  unfolding clear_assemblies
  cleared-IsAccounted inbox = record {
    exact = refl;
    small = omega arith;
    few = omega arith;
    ids = omega arith;
    distinct = tt;
    apart = λ id mine. unfold lookup in refl;
    kept = tt;
  }

  inbox_event-IsAccounted :
      (e : InboxEvent) (inbox : Inbox)
      → IsStored utf8_byte_length e inbox
      → IsAccounted utf8_byte_length inbox
      → IsAccounted utf8_byte_length (inbox_event utf8_byte_length e inbox)
  unfolding inbox_event
  inbox_event-IsAccounted (received chunk generation) inbox stored h =
      handle_chunk-IsAccounted utf8_byte_length chunk generation inbox h
  inbox_event-IsAccounted (decrypted id a generation) inbox stored h =
      complete_delivery-IsAccounted id a generation inbox stored h
  inbox_event-IsAccounted reset inbox stored h =
      cleared-IsAccounted (record inbox { has_key = false })
  inbox_event-IsAccounted renewed inbox stored h =
      cleared-IsAccounted
        (record inbox { peer_generation = suc inbox.peer_generation; has_key = false })
  inbox_event-IsAccounted keyed inbox stored h = record {
    exact = h.exact;
    small = h.small;
    few = h.few;
    ids = h.ids;
    distinct = h.distinct;
    apart = h.apart;
    kept = h.kept;
  }

  inbox_history-keeps :
      (es : List InboxEvent) (inbox : Inbox)
      → IsTimely utf8_byte_length es inbox
      → IsAccounted utf8_byte_length inbox
      → IsAccounted utf8_byte_length (inbox_history utf8_byte_length es inbox)
  unfolding inbox_history
  inbox_history-keeps [] inbox timely h = h
  inbox_history-keeps (e ∷ es) inbox timely h =
      inbox_history-keeps es (inbox_event utf8_byte_length e inbox) timely.1
        (inbox_event-IsAccounted e inbox timely.0 h)

  -- If no delivery of the current generation is decrypted after a reset has cleared its assembly, then
  -- whatever chunks of whatever generations arrive on a new inbox, whichever deliveries complete and
  -- however often the peer is lost and made again, the retained bytes are counted exactly and stay
  -- within 33554432; at most 16 assemblies and 64 completed ids are kept, no id among both, each
  -- assembly once, and the counters of each assembly are those of its chunks.
  pub inbox_history-IsAccounted :
      (es : List InboxEvent)
      → IsTimely utf8_byte_length es new_inbox
      → IsAccounted utf8_byte_length (inbox_history utf8_byte_length es new_inbox)
  unfolding new_inbox
  inbox_history-IsAccounted es timely = inbox_history-keeps es new_inbox timely (record {
    exact = refl;
    small = omega arith;
    few = omega arith;
    ids = omega arith;
    distinct = tt;
    apart = λ id mine. unfold lookup in refl;
    kept = tt;
  })
