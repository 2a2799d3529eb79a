-- ===== src/Daemon/Assembly/Isolation.antt =====
-- What a chunk of one delivery leaves of the others, in src/botster/webrtcDaemonClient.ts.
use botster_web.Common.{◌≡◌, false, ◌==◌, nat_eq, string_eq, String}
use botster_web.Common.Maps.{lookup}
use botster_web.Daemon.Assembly.{Inbox}

-- The deliveries under other ids are what they were, and so are the completed ids, the generation and
-- the key.
pub record IsApart (id : String) (before : Inbox) (after : Inbox) : Type 0 where
  pub others :
      (other : String)
      → (id == other) ≡ false
      → lookup other after.response_assemblies ≡ lookup other before.response_assemblies
  pub completed : after.completed_message_ids ≡ before.completed_message_ids
  pub current : after.peer_generation ≡ before.peer_generation
  pub keyed : after.has_key ≡ before.has_key
