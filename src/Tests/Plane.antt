-- ===== src/Tests/Plane.antt =====
-- The theorems on the data plane at concrete inputs.
use botster_web.Common.{ℕ, List, ◌≡◌, refl, true, false, some, none, [], ◌∷◌, ◌++◌, arith}
use botster_web.Input.Events.{SemanticInput}
use botster_web.Plane.State.{ScreenHydration, Plane}
use botster_web.Plane.Construction.{new_plane, data_channel_closed}
use botster_web.Plane.Lifecycle.{reset_attachment_state}
use botster_web.Plane.Route.{Texts, receive_snapshot_finish}
use botster_web.Plane.Sound.{IsSound}
use botster_web.Plane.Accounting.{sent}
use botster_web.Plane.Whole.{
  task_started, Happening, subscribed, acquired, made_ready, called, transport, run,
  history-IsSound,
}
use botster_web.Plane.Outcomes.{outcomes, unknown_outcomes, cancelled_outcomes}
use botster_web.Plane.Closing.{reset_attachment_state-settles}
use botster_web.Plane.Buffering.{IsBuffered}
use botster_web.Plane.Buffered.{history-IsBuffered}
use botster_web.Plane.Outputs.{receive_outputs, receive_outputs-appends}
use botster_web.Plane.Order.{delivered, screen_stream, receive_snapshot_finish-flushes}
use botster_web.Tests.Codec.{wide_codec}

abbrev texts : Texts
texts = record {
  undecodable = λ e. "undecodable";
  exit_message = λ code. "exited";
  history_before_ready = λ r. "early";
  history_missing = λ r. "missing";
  unknown_progress = λ name. name;
  close_message = λ reason. reason;
}

abbrev fresh : Plane
fresh = new_plane "session" none (λ n. "route")

-- A plane with a listener, a stream and a screen that waits with one output.
abbrev screen : ScreenHydration
screen = record {
  serial = 0;
  generation = 1;
  buffered_output = (65 ∷ []) ∷ [];
  buffered_bytes = 1;
  pending_exit = none;
  ready_received = true;
  decoder_finished = false;
  finish_received = false;
  history_incomplete = false;
  completed = false;
  progress_armed = true;
  has_reader = true;
}

abbrev attached_plane : Plane
attached_plane = record fresh {
  listeners = 1;
  stream = some (record { serial = 1; can_send = true; attach_sent = true });
  attachment_generation = 1;
  attached_received = true;
  accepted_epoch = some 0;
  hydration = some screen;
}

attached_plane-IsSound : IsSound attached_plane
unfolding new_plane
attached_plane-IsSound = record {
  queued_sum = refl;
  queue_bound = omega arith;
  pastes = tt;
  window = record { sum = refl; bound = omega arith; each = tt; distinct = tt };
  retained = omega arith;
  geometry = tt;
  consent = refl;
  idle = λ e. refl;
}

attached_plane-IsBuffered : IsBuffered attached_plane.hydration
unfolding new_plane
attached_plane-IsBuffered = record {
  items = omega arith;
  counted = refl;
  bytes = omega arith;
  flushed = λ e. absurd (ground (arith, e));
}

-- A listener comes, a stream is acquired, a line is typed, a send starts, the transport is lost.
abbrev morning : List (Happening × ℕ)
morning =
    (subscribed, 1)
    ∷ (acquired 1 (record { serial = 1; can_send = true; attach_sent = true }), 2)
    ∷ (called (sent (SemanticInput.raw (65 ∷ []))), 3)
    ∷ (task_started, 4)
    ∷ (transport data_channel_closed, 5)
    ∷ []

history-IsSound_example :
    IsSound (run wide_codec texts morning (new_plane "session" none (λ n. "route")))
history-IsSound_example = history-IsSound wide_codec texts "session" none (λ n. "route") morning

-- A listener comes, a stream is acquired and its snapshot is awaited, a line is typed and its send starts.
abbrev noon : List (Happening × ℕ)
noon =
    (subscribed, 1)
    ∷ (acquired 1 (record { serial = 1; can_send = true; attach_sent = true }), 2)
    ∷ (made_ready 1 none, 3)
    ∷ (called (sent (SemanticInput.raw (65 ∷ []))), 4)
    ∷ (task_started, 5)
    ∷ []

history-IsBuffered_example :
    IsBuffered (run wide_codec texts noon (new_plane "session" none (λ n. "route"))).hydration
history-IsBuffered_example = history-IsBuffered wide_codec texts "session" none (λ n. "route") noon

reset_attachment_state-settles_example :
    (outcomes ((reset_attachment_state wide_codec "closed" 3 attached_plane).effects)
      ≡ (outcomes attached_plane.effects
          ++ unknown_outcomes "closed" attached_plane.inflight_inputs)
        ++ cancelled_outcomes "closed" attached_plane.queued_inputs)
    × ((reset_attachment_state wide_codec "closed" 3 attached_plane).inflight_inputs ≡ [])
    × ((reset_attachment_state wide_codec "closed" 3 attached_plane).queued_inputs ≡ [])
    × IsSound (reset_attachment_state wide_codec "closed" 3 attached_plane)
reset_attachment_state-settles_example =
    reset_attachment_state-settles wide_codec "closed" 3 attached_plane attached_plane-IsSound

receive_outputs-appends_example :
    screen_stream
      (receive_outputs wide_codec texts ((66 ∷ []) ∷ (67 ∷ 68 ∷ []) ∷ []) 1 3 attached_plane)
    ≡ screen_stream attached_plane ++ (66 ∷ []) ∷ (67 ∷ 68 ∷ []) ∷ []
receive_outputs-appends_example =
    receive_outputs-appends wide_codec texts ((66 ∷ []) ∷ (67 ∷ 68 ∷ []) ∷ []) 1 3 attached_plane
      attached_plane-IsBuffered refl (omega arith) (omega arith)

receive_snapshot_finish-flushes_example :
    delivered ((receive_snapshot_finish wide_codec texts screen 3 attached_plane).effects)
    ≡ delivered attached_plane.effects ++ screen.buffered_output
receive_snapshot_finish-flushes_example =
    receive_snapshot_finish-flushes wide_codec texts screen 3 attached_plane refl refl
