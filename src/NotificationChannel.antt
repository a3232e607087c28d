-- ===== src/NotificationChannel.antt =====
-- modules/notification-sync/common/src/NotificationTransferChannel.cpp: `Send`, `Receive` and
-- `Disconnect`, as what runs between two waits and as the run in which nothing else comes in between.
-- Both directions share `buffer`. `outcomes` says which writes succeed, all behind its end, and
-- `incoming` is what arrives before the stream ends; an exception is a `Fault`.
pub mod RoundTrip
mod Tests
use libre_connect.Base.{
  ℕ, ◌+◌, ◌-◌, ◌≡◌, Bool, true, false, not, ◌||◌, List, [], ◌∷◌, ◌++◌, length, take, drop,
  replicate, ltb, if◌then◌else◌, Option, none, some, Result, ok, err, Fault, end_of_stream,
  bad_header,
}
use libre_connect.Wire.Buffer.{Buffer, write_at}
use libre_connect.Wire.Text.{size_t}
use libre_connect.Wire.Notifications.{NotificationPacket, notification_packet}
use libre_connect.Transfer.Channel.{
  ConnectionState, disconnected, disconnecting, connecting, connected, is_connected,
}

pub record NotificationTransferChannel : Type 0 where
  pub connection_state : ConnectionState
  pub has_socket : Bool
  pub write_in_progress : Bool
  pub read_in_progress : Bool
  pub buffer : Buffer
  pub outcomes : List Bool
  pub sent : List ℕ
  pub incoming : List ℕ
  -- how often `Disconnect` was spawned
  pub disconnects : ℕ

abbrev pub Outcome : Type 0 → Type 0
Outcome A = Result A × NotificationTransferChannel

abbrev pub then_do :
    {A B : Type 0} → Outcome A → (A → NotificationTransferChannel → Outcome B) → Outcome B
then_do (ok a, c) f = f a c
then_do (err e, c) f = (err e, c)

-- `MAX_NOTIFICATION_PACKET_SIZE`, 32 MiB
abbrev pub max_notification_packet_size : ℕ
max_notification_packet_size = 33554432

unfoldable pub async_write : List ℕ → NotificationTransferChannel → Outcome (Unit {0})
async_write bytes c = written c.outcomes
  where
    written : List Bool → Outcome (Unit {0})
    written [] = (ok tt, record c { sent = c.sent ++ bytes })
    written (true ∷ rest) = (ok tt, record c { sent = c.sent ++ bytes; outcomes = rest })
    written (false ∷ rest) = (err end_of_stream, record c { outcomes = rest })

unfoldable pub async_read : ℕ → NotificationTransferChannel → Outcome (List ℕ)
async_read n c =
    if ltb (length c.incoming) n
    then (err end_of_stream, record c { incoming = [] })
    else (ok (take n c.incoming), record c { incoming = drop n c.incoming })

-- `if (m_buffer.size() < size) m_buffer.resize(size)`
unfoldable pub resized : ℕ → Buffer → Buffer
resized size buffer =
    if ltb (length buffer) size then buffer ++ replicate (size - length buffer) 0 else buffer

-- `Send` behind the slot: the packet into the buffer, and its size.
unfoldable pub serialize_packet : NotificationPacket → NotificationTransferChannel → Outcome ℕ
unfolding resized
serialize_packet n c =
    serialized (notification_packet.serialize n (resized (notification_packet.size n) c.buffer) 0)
  where
    serialized : Result (Buffer × ℕ) → Outcome ℕ
    serialized (ok (buffer, _)) = (ok (notification_packet.size n), record c { buffer = buffer })
    serialized (err e) =
        (err e, record c { buffer = resized (notification_packet.size n) c.buffer })

unfoldable pub send_header : ℕ → NotificationTransferChannel → Outcome ℕ
unfolding async_write
send_header size c = framed (size_t.serialize size (replicate 8 0) 0)
  where
    framed : Result (Buffer × ℕ) → Outcome ℕ
    framed (ok (header, _)) = then_do (async_write header c) (λ _ c'. (ok size, c'))
    framed (err e) = (err e, c)

unfoldable pub send_payload : ℕ → NotificationTransferChannel → Outcome (Unit {0})
unfolding async_write
send_payload size c = async_write (take size c.buffer) c

abbrev pub finish_send : Outcome (Unit {0}) → Bool × NotificationTransferChannel
finish_send (ok _, c) = (true, record c { write_in_progress = false })
finish_send (err e, c) =
    (false, record c { write_in_progress = false; disconnects = c.disconnects + 1 })

-- A look of `WaitForIoSlot` and what follows where it does not sleep, which is none.
unfoldable pub send_look :
    NotificationPacket → NotificationTransferChannel → Option (Bool × NotificationTransferChannel)
unfolding serialize_packet send_header send_payload
send_look n c =
    if not (is_connected c.connection_state)
    then some (false, record c { write_in_progress = false })
    else if c.write_in_progress
    then none
    else some (
        finish_send (
          then_do (then_do (serialize_packet n (record c { write_in_progress = true })) send_header)
            send_payload))

unfoldable pub send :
    NotificationPacket → NotificationTransferChannel → Option (Bool × NotificationTransferChannel)
unfolding send_look
send n c =
    if not c.has_socket || not (is_connected c.connection_state)
    then some (false, c)
    else send_look n c

-- Behind the header of a packet.
unfoldable pub check_size : ℕ → NotificationTransferChannel → Outcome ℕ
unfolding resized
check_size size c =
    if ltb max_notification_packet_size size
    then (err bad_header, c)
    else (ok size, record c { buffer = resized size c.buffer })

unfoldable pub receive_header : NotificationTransferChannel → Outcome ℕ
unfolding async_read check_size
receive_header c = then_do (async_read 8 c) (λ bytes c'. parsed (size_t.deserialize bytes 0) c')
  where
    parsed : Result (ℕ × ℕ) → NotificationTransferChannel → Outcome ℕ
    parsed (ok (size, _)) c' = check_size size c'
    parsed (err e) c' = (err e, c')

abbrev pub parsed_packet :
    Result (NotificationPacket × ℕ) → NotificationTransferChannel → Outcome NotificationPacket
parsed_packet (ok (n, _)) c = (ok n, c)
parsed_packet (err e) c = (err e, c)

unfoldable pub receive_payload : ℕ → NotificationTransferChannel → Outcome NotificationPacket
unfolding async_read
receive_payload size c = then_do (async_read size c) (λ bytes c'.
    parsed_packet (notification_packet.deserialize (write_at c'.buffer 0 bytes) 0)
      (record c' { buffer = write_at c'.buffer 0 bytes }))

abbrev pub finish_receive :
    Outcome NotificationPacket → Option NotificationPacket × NotificationTransferChannel
finish_receive (ok n, c) = (some n, record c { read_in_progress = false })
finish_receive (err e, c) =
    (none, record c { read_in_progress = false; disconnects = c.disconnects + 1 })

unfoldable pub receive_look :
    NotificationTransferChannel → Option (Option NotificationPacket × NotificationTransferChannel)
unfolding receive_header receive_payload
receive_look c =
    if not (is_connected c.connection_state)
    then some (none, record c { read_in_progress = false })
    else if c.read_in_progress
    then none
    else some (
        finish_receive
          (then_do (receive_header (record c { read_in_progress = true })) receive_payload))

unfoldable pub receive :
    NotificationTransferChannel → Option (Option NotificationPacket × NotificationTransferChannel)
unfolding receive_look
receive c =
    if not c.has_socket || not (is_connected c.connection_state)
    then some (none, c)
    else receive_look c

abbrev is_closing : ConnectionState → Bool
is_closing disconnected = true
is_closing disconnecting = true
is_closing _ = false

-- `Disconnect` with `CleanupConnection`, whose wait for the socket ends.
unfoldable pub disconnect : NotificationTransferChannel → NotificationTransferChannel
disconnect c =
    if is_closing c.connection_state
    then c
    else record c { connection_state = disconnected; has_socket = false }
