-- ===== src/Daemon/Assembly/History.antt =====
-- The bytes that assemblies retain over any sequence of chunks, in src/botster/webrtcDaemonClient.ts.
use botster_web.Common.{
  ℕ, suc, ◌+◌, ◌*◌, ◌≤◌, ◌≡◌, true, false, none, some, List, [], ◌∷◌, nat_eq, string_eq, length,
  String,
}
use botster_web.Common.Maps.{lookup, HasDistinctKeys}
use botster_web.Daemon.Assembly.{
  DeliveryChunk, ResponseAssembly, Inbox, has_id, maximum_aggregate_retained_bytes,
  maximum_concurrent_assemblies, maximum_completed_message_ids, assembly_bookkeeping_bytes,
  chunk_bookkeeping_bytes,
}
use botster_web.Daemon.Assembly.Handler.{handle_chunk, complete_delivery, clear_assemblies}
use botster_web.Daemon.Assembly.Sums.{retained_total, AllKept, completed_total}

-- What happens to the inbox: a parsed chunk, the end of the decryption of a whole delivery, for the
-- assembly that its `handleMessage` began it with, the loss of the peer, the start of a new attempt,
-- which resets the peer too, and its key.
pub data InboxEvent : Type 0 where
  received : DeliveryChunk → ℕ → InboxEvent
  decrypted : String → ResponseAssembly → ℕ → InboxEvent
  reset renewed keyed : InboxEvent

unfoldable pub new_inbox : Inbox
new_inbox = record {
  peer_generation = 0;
  has_key = false;
  response_assemblies = [];
  completed_message_ids = [];
  aggregate_retained_bytes = 0;
}

module _ (utf8_byte_length : String → ℕ) where
  unfoldable pub inbox_event : InboxEvent → Inbox → Inbox
  inbox_event (received chunk generation) inbox =
      (handle_chunk utf8_byte_length chunk generation inbox).0
  inbox_event (decrypted message_id assembly generation) inbox =
      (complete_delivery utf8_byte_length message_id assembly generation inbox).0
  inbox_event reset inbox = clear_assemblies (record inbox { has_key = false })
  inbox_event renewed inbox =
      clear_assemblies
        (record inbox { peer_generation = suc inbox.peer_generation; has_key = false })
  inbox_event keyed inbox = record inbox { has_key = true }

  unfoldable pub inbox_history : List InboxEvent → Inbox → Inbox
  inbox_history [] inbox = inbox
  inbox_history (e ∷ es) inbox = inbox_history es (inbox_event e inbox)

  -- A delivery of the current generation that is decrypted has not been cleared meanwhile: its assembly
  -- is still stored.
  abbrev pub IsStored : InboxEvent → Inbox → Type 0
  IsStored (received chunk generation) inbox = Unit
  IsStored (decrypted message_id assembly generation) inbox =
      generation ≡ inbox.peer_generation
      → lookup message_id inbox.response_assemblies ≡ some assembly
  IsStored reset inbox = Unit
  IsStored renewed inbox = Unit
  IsStored keyed inbox = Unit

  abbrev pub IsTimely : List InboxEvent → Inbox → Type 0
  IsTimely [] inbox = Unit
  IsTimely (e ∷ es) inbox = IsStored e inbox × IsTimely es (inbox_event e inbox)

  abbrev pub chunk_total : List (ℕ × String) → ℕ
  chunk_total [] = 0
  chunk_total ((index, payload) ∷ m) = utf8_byte_length payload + chunk_total m

  -- The counters of an assembly are those of its chunks.
  pub record IsKept (a : ResponseAssembly) : Type 0 where
    pub received : a.received_bytes ≡ chunk_total a.chunks
    pub retained :
        a.retained_bytes
        ≡ assembly_bookkeeping_bytes
          + chunk_bookkeeping_bytes * length a.chunks
          + chunk_total a.chunks

  pub record IsAccounted (inbox : Inbox) : Type 0 where
    pub exact :
        inbox.aggregate_retained_bytes
        ≡ retained_total inbox.response_assemblies
          + completed_total utf8_byte_length inbox.completed_message_ids
    pub small : inbox.aggregate_retained_bytes ≤ maximum_aggregate_retained_bytes
    pub few : length inbox.response_assemblies ≤ maximum_concurrent_assemblies
    pub ids : length inbox.completed_message_ids ≤ maximum_completed_message_ids
    pub distinct : HasDistinctKeys inbox.response_assemblies
    pub apart :
        (id : String)
        → has_id id inbox.completed_message_ids ≡ true
        → lookup id inbox.response_assemblies ≡ none
    pub kept : AllKept IsKept inbox.response_assemblies
