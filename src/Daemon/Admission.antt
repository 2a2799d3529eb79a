-- ===== src/Daemon/Admission.antt =====
-- Admission of raw DataChannel messages ahead of decode, in src/botster/webrtcDaemonClient.ts.
use botster_web.Common.{
  ℕ, true, false, length-append, ◌+◌, ◌-◌, ◌*◌, ◌≤◌, ◌≡◌, refl, Bool, ◌||◌, Option, none, some,
  List, [], ◌∷◌, ◌++◌, ltb, if◌then◌else◌, arith, length, Option-cases, inl, inr, if_split,
}

abbrev pub maximum_queued_frames : ℕ
maximum_queued_frames = 256

abbrev pub maximum_queued_bytes : ℕ
maximum_queued_bytes = 8 * 1024 * 1024

pub record InboundAdmission : Type 0 where
  pub frames : ℕ
  pub bytes : ℕ

-- `none` is the `false` of the source, which leaves the accounting unchanged.
unfoldable pub admit_inbound_frame : InboundAdmission → ℕ → Option InboundAdmission
admit_inbound_frame admission bytes =
    if ltb maximum_queued_frames (admission.frames + 1)
      || ltb maximum_queued_bytes (admission.bytes + bytes)
    then none
    else some (record { frames = admission.frames + 1; bytes = admission.bytes + bytes })

unfoldable pub release_inbound_frame : InboundAdmission → ℕ → InboundAdmission
release_inbound_frame admission bytes = record {
  frames = admission.frames - 1;
  bytes = admission.bytes - bytes;
}

-- A channel: its accounting, the bytes of each message admitted and not yet handled, in order, and
-- whether an overflow retired it.
pub record InboundChannel : Type 0 where
  pub admission : InboundAdmission
  pub queued : List ℕ
  pub retired : Bool

unfoldable pub new_channel : InboundChannel
new_channel = record { admission = record { frames = 0; bytes = 0 }; queued = []; retired = false }

pub data ChannelEvent : Type 0 where
  arrives : ℕ → ChannelEvent
  handled : ChannelEvent

-- A message that arrives is admitted, and waits to be handled; one too many retires the channel.
unfoldable pub admit_message : ℕ → InboundChannel → InboundChannel
admit_message bytes c = elim (admit_inbound_frame c.admission bytes) [
  | none ↦ record c { retired = true }
  | some admission ↦ record c { admission = admission; queued = c.queued ++ bytes ∷ [] }
]

-- A message arrives, which a retired channel ignores, or the first of the chain has been handled
-- (the `finally` of its link).
unfoldable pub channel_event : ChannelEvent → InboundChannel → InboundChannel
channel_event (arrives bytes) c = if c.retired then c else admit_message bytes c
channel_event handled c = elim c.queued [
  | [] ↦ c
  | bytes ∷ others ↦ record c {
    admission = release_inbound_frame c.admission bytes;
    queued = others;
  }
]

unfoldable pub channel_history : List ChannelEvent → InboundChannel → InboundChannel
channel_history [] c = c
channel_history (e ∷ es) c = channel_history es (channel_event e c)

abbrev pub sum : List ℕ → ℕ
sum [] = 0
sum (n ∷ ns) = n + sum ns

sum-append : (xs ys : List ℕ) → sum (xs ++ ys) ≡ sum xs + sum ys
sum-append [] ys = omega arith
sum-append (x ∷ xs) ys = omega (arith, sum-append xs ys)

-- The accounting is that of the messages that wait, and within the bounds.
pub record IsAdmitted (c : InboundChannel) : Type 0 where
  pub frames : c.admission.frames ≡ length c.queued
  pub bytes : c.admission.bytes ≡ sum c.queued
  pub few : length c.queued ≤ maximum_queued_frames
  pub small : sum c.queued ≤ maximum_queued_bytes

admit_inbound_frame-facts :
    (a : InboundAdmission) (bytes : ℕ) (b : InboundAdmission)
    → admit_inbound_frame a bytes ≡ some b
    → (b.frames ≡ a.frames + 1)
      × (b.bytes ≡ a.bytes + bytes)
      × (a.frames + 1 ≤ maximum_queued_frames)
      × (a.bytes + bytes ≤ maximum_queued_bytes)
unfolding admit_inbound_frame
admit_inbound_frame-facts a bytes b h = (ground arith, ground arith, ground arith, ground arith)

handled-IsAdmitted :
    (a : InboundAdmission) (queued : List ℕ) (retired : Bool)
    → IsAdmitted (record { admission = a; queued = queued; retired = retired })
    → IsAdmitted
        (channel_event handled (record { admission = a; queued = queued; retired = retired }))
unfolding channel_event release_inbound_frame
handled-IsAdmitted a [] retired k = k
handled-IsAdmitted a (bytes ∷ others) retired k = record {
  frames = omega (arith, k.frames);
  bytes = omega (arith, k.bytes);
  few = omega (arith, k.few);
  small = omega (arith, k.small);
}

admit_message-IsAdmitted :
    (bytes : ℕ) (c : InboundChannel) → IsAdmitted c → IsAdmitted (admit_message bytes c)
unfolding admit_message
admit_message-IsAdmitted bytes c h = elim (Option-cases (admit_inbound_frame c.admission bytes)) [
  | inl refused ↦
      rw (admit_message, refused)
        (record { frames = h.frames; bytes = h.bytes; few = h.few; small = h.small })
  | inr (b, admitted) ↦
      let (frames, bytes', few, small) = admit_inbound_frame-facts c.admission bytes b admitted in
      rw (admit_message, admitted)
        (record {
          frames = omega (arith, frames, h.frames, length-append c.queued (bytes ∷ []));
          bytes = omega (arith, bytes', h.bytes, sum-append c.queued (bytes ∷ []));
          few = omega (arith, few, h.frames, length-append c.queued (bytes ∷ []));
          small = omega (arith, small, h.bytes, sum-append c.queued (bytes ∷ []));
        })
]

channel_event-IsAdmitted :
    (e : ChannelEvent) (c : InboundChannel) → IsAdmitted c → IsAdmitted (channel_event e c)
unfolding channel_event
channel_event-IsAdmitted (arrives bytes) c h =
    if_split IsAdmitted c.retired (λ over. h) (λ live. admit_message-IsAdmitted bytes c h)
channel_event-IsAdmitted handled c h = handled-IsAdmitted c.admission c.queued c.retired h

channel_history-keeps :
    (es : List ChannelEvent) (c : InboundChannel) → IsAdmitted c → IsAdmitted (channel_history es c)
unfolding channel_history
channel_history-keeps [] c h = h
channel_history-keeps (e ∷ es) c h =
    channel_history-keeps es (channel_event e c) (channel_event-IsAdmitted e c h)

-- Whatever arrives on a new channel and is handled in order, the frames and bytes counted are those
-- of the messages admitted and not yet handled: at most 256 messages and 8388608 bytes.
pub channel_history-IsAdmitted :
    (es : List ChannelEvent) → IsAdmitted (channel_history es new_channel)
unfolding new_channel
channel_history-IsAdmitted es =
    channel_history-keeps es new_channel
      (record { frames = refl; bytes = refl; few = omega arith; small = omega arith })
