-- ===== src/Tests/Daemon.antt =====
-- The theorems on terminal channels, connections and entity frames at concrete inputs.
use botster_web.Common.{
  ℕ, ◌+◌, ◌-◌, ◌≡◌, refl, List, [], ◌∷◌, ◌++◌, true, false, Option, none, some, arith, length, take,
  length-append, take-append, All, ap,
}
use botster_web.Wire.Bytes.{Bytes}
use botster_web.Daemon.Terminal.{TerminalChannelBinding}
use botster_web.Daemon.Terminal.Channel.{send_terminal_frame}
use botster_web.Daemon.Terminal.Roundtrip.{receive_all}
use botster_web.Daemon.Terminal.Delivery.{AreConnected, send_terminal_frame-received}
use botster_web.Daemon.Reconnect.{new_connection}
use botster_web.Daemon.Reconnect.Run.{
  ConnectionEvent, demand_changed, called, published, opened, attempt_opened, lost, retry_fired,
  recovery_ran, attempt_failed, connection_history, IsOrdered, IsRecovering,
}
use botster_web.Daemon.Reconnect.History.{
  connection_history-IsOrdered, connection_history-IsRecovering,
}
use botster_web.Daemon.Reconnect.Delay.{retry_delay-doubles}
use botster_web.Daemon.Reconnect.{retry_delay}
use botster_web.Daemon.EntityFrames.{
  EntitySubscription, entity_snapshot, entity_delta, DaemonEntityFrame,
}
use botster_web.Daemon.EntityFrames.Gapless.{
  SubscriptionEvent, subscribed, frame_arrived, peer_reset, subscription_history, IsGapless,
  subscription_history-IsGapless,
}
use Prim.Native.Nat.{◌≤◌, min, ◌*◌}

abbrev zeros : Bytes
zeros = 0 ∷ 0 ∷ 0 ∷ 0 ∷ 0 ∷ 0 ∷ 0 ∷ 0 ∷ 0 ∷ 0 ∷ 0 ∷ 0 ∷ 0 ∷ 0 ∷ 0 ∷ 0 ∷ []

-- A stand-in for the cipher: the plain bytes and a tag of zeros.
abbrev with_tag : Bytes → Bytes → Bytes
with_tag nonce plain = plain ++ zeros

abbrev without_tag : Bytes → Bytes → Option Bytes
without_tag nonce sealed = some (take (length sealed - 16) sealed)

tagged : (nonce plain : Bytes) → length (with_tag nonce plain) ≡ length plain + 16
tagged nonce plain = length-append plain zeros

opens : (nonce plain : Bytes) → without_tag nonce (with_tag nonce plain) ≡ some plain
opens nonce plain = ap some (
    take-append (length (plain ++ zeros) - 16) plain zeros
      (omega (arith, length-append plain zeros)))

abbrev nonces : ℕ → Bytes
nonces i = 0 ∷ 1 ∷ 2 ∷ 3 ∷ 4 ∷ 5 ∷ 6 ∷ 7 ∷ 8 ∷ 9 ∷ 10 ∷ 11 ∷ []

abbrev end_of_channel : TerminalChannelBinding
end_of_channel = record {
  generation = some 7;
  closed = false;
  admitted = true;
  is_open = true;
  listener_closed = false;
  outbound_message_id = 4;
  last_inbound_message_id = 2;
  assembly = none;
  delivered = [];
}

connected : AreConnected with_tag without_tag tagged opens 7 end_of_channel end_of_channel
connected = record {
  ready = (refl, refl, refl);
  sends = refl;
  receives = (refl, refl);
  between = refl;
  next = omega arith;
}

send_terminal_frame-received_example :
    (messages : List Bytes) × (send_terminal_frame with_tag without_tag true
        (λ i. true)
        nonces
        (2 ∷ 1 ∷ 104 ∷ [])
        end_of_channel
      ≡ some (record end_of_channel { outbound_message_id = 5 }, (messages, true)))
    × (receive_all with_tag without_tag tagged opens messages end_of_channel ≡ (
      record end_of_channel {
        last_inbound_message_id = 5;
        delivered = record { generation = 7; stream_epoch = 0; body = 2 ∷ 1 ∷ 104 ∷ [] } ∷ [];
      },
      none,
    ))
send_terminal_frame-received_example =
    send_terminal_frame-received with_tag without_tag tagged opens nonces 7 (2 ∷ 1 ∷ 104 ∷ [])
      end_of_channel end_of_channel (λ i. refl) (omega arith) (omega arith) (omega arith) connected

-- A connection that is made, lost and made again at the second attempt.
abbrev recovery : List ConnectionEvent
recovery =
    demand_changed true
    ∷ called
    ∷ published 1
    ∷ opened 1
    ∷ attempt_opened 1
    ∷ lost 1
    ∷ recovery_ran
    ∷ attempt_failed 2
    ∷ retry_fired
    ∷ attempt_opened 3
    ∷ []

connection_history-IsOrdered_example : IsOrdered (connection_history recovery new_connection)
connection_history-IsOrdered_example = connection_history-IsOrdered recovery

connection_history-IsRecovering_example : IsRecovering (connection_history recovery new_connection)
connection_history-IsRecovering_example = connection_history-IsRecovering recovery

retry_delay-doubles_example :
    (250 ≤ retry_delay 3)
    × (retry_delay 3 ≤ 8000)
    × (retry_delay 5 ≡ min (2 * retry_delay 4) 8000)
    × (retry_delay 1 ≡ 250)
retry_delay-doubles_example = retry_delay-doubles 3

abbrev subscription : EntitySubscription
subscription = record {
  entity_type = "session";
  closed = false;
  generation = some 1;
  subscription_id = some "sub1";
  snapshot_seq = none;
  resubscribing = false;
  ready = false;
  delivered = [];
}

abbrev snapshot_frame : DaemonEntityFrame
snapshot_frame = record {
  subscription_id = "sub1";
  entity_type = "session";
  kind = entity_snapshot;
  snapshot_seq = 4;
}

abbrev skipping_frame : DaemonEntityFrame
skipping_frame = record {
  subscription_id = "sub1";
  entity_type = "session";
  kind = entity_delta;
  snapshot_seq = 6;
}

abbrev gap : List SubscriptionEvent
gap =
    subscribed subscription
    ∷ frame_arrived snapshot_frame 1 1
    ∷ frame_arrived skipping_frame 1 1
    ∷ peer_reset
    ∷ []

subscription_history-IsGapless_example : All IsGapless (subscription_history gap [])
subscription_history-IsGapless_example = subscription_history-IsGapless gap
