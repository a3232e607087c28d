-- ===== src/NotificationChannel/Tests.antt =====
-- A notification of one button.
use libre_connect.Base.{ℕ, ◌≡◌, refl, true, false, List, [], ◌∷◌, ◌++◌, replicate, some, arith}
use libre_connect.Wire.Primitive.{primitive}
use libre_connect.Wire.Text.{text}
use libre_connect.Wire.Pair.{bool}
use libre_connect.Wire.Vector.{vector, all_size, primitive_vector}
use libre_connect.Wire.Notifications.{
  NotificationPacket, notification_packet, NotificationPacketFits,
}
use libre_connect.Transfer.Channel.{connected}
use libre_connect.NotificationChannel.{
  NotificationTransferChannel, serialize_packet, receive_payload, send_payload, send, receive,
}
use libre_connect.NotificationChannel.RoundTrip.{notification_arrives, payload_overwritten}

abbrev ring : NotificationPacket
ring = record {
  key = 107 ∷ [];
  app_name = [];
  title = 116 ∷ [];
  content = [];
  timestamp = 1700000000;
  dismissable = false;
  buttons = (111 ∷ 107 ∷ []) ∷ [];
  main_image = [];
  icon_image = 1 ∷ [];
}

ring_fits : NotificationPacketFits ring
ring_fits = (
  omega arith,
  (
    omega arith,
    (
      omega arith,
      (
        omega arith,
        (
          omega arith,
          (
            omega arith,
            (
              (omega arith, (omega arith, tt)),
              ((omega arith, tt), (omega arith, (omega arith, tt))),
            ),
          ),
        ),
      ),
    ),
  ),
)

ring_size : notification_packet.size ring ≡ 78
unfolding notification_packet text primitive bool vector primitive_vector all_size
ring_size = refl

abbrev channel : List ℕ → NotificationTransferChannel
channel incoming = record {
  connection_state = connected;
  has_socket = true;
  write_in_progress = false;
  read_in_progress = false;
  buffer = 0 ∷ 0 ∷ [];
  outcomes = [];
  sent = [];
  incoming = incoming;
  disconnects = 0;
}

notification_arrives_example :
    (sender' receiver' : NotificationTransferChannel) × (send ring (channel [])
      ≡ some (true, sender'))
    × (receive (record (channel []) { incoming = sender'.sent ++ (7 ∷ []) })
        ≡ some (some ring, receiver'))
    × (receiver'.incoming ≡ 7 ∷ [])
    × (sender'.write_in_progress ≡ false)
    × (receiver'.read_in_progress ≡ false)
notification_arrives_example =
    notification_arrives ring (channel []) (channel []) (7 ∷ []) ring_fits
      (omega (arith, ring_size)) refl refl refl refl refl refl refl refl

payload_overwritten_example :
    let c₁ = (serialize_packet ring (channel (replicate 78 9 ++ (7 ∷ [])))).1 in
    let c₂ = (receive_payload (notification_packet.size ring) c₁).1 in
    (send_payload (notification_packet.size ring) c₂).1.sent ≡ [] ++ replicate 78 9
payload_overwritten_example =
    payload_overwritten ring (channel (replicate 78 9 ++ (7 ∷ []))) (replicate 78 9) (7 ∷ []) refl
      refl (omega (arith, ring_size))
