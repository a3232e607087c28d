-- ===== src/Pairing/Dialogue.antt =====
-- `CoConnect`, `CoSeek`, the round of `CoReceive` for each package, and the callbacks of the user
-- interface and of the primary listener.
use libre_connect.Base.{
  ℕ, ◌-◌, Bool, true, false, not, ◌||◌, ◌&&◌, [], ◌∷◌, ◌++◌, ◌==◌, if◌then◌else◌, same_text,
}
use libre_connect.Wire.Text.{Text, is_empty}
use libre_connect.Transfer.Channel.{connected, connecting, is_connected}
use libre_connect.Wire.Devices.{
  DeviceInfo, InitialConnectionMode, connection_without_pair, InitialConnectionData,
}
use libre_connect.Pairing.{
  is_pair_and_connect, is_connect_with_pair, Message, device_data_for_connection,
  device_data_for_seeking_connection, challenge_answer_request, challenge_response,
  challenge_wrong_answer, device_is_unpaired, device_connect_cooldown, connection_approval_request,
  connection_approval_denied, unreadable, unknown, StreamError, stream_ended, other_error,
  permission_denied, pending_event, approval_requested_event, approval_waiting_event,
  failed_verification_event, verification_event, approval_denied_event, not_paired_event,
  cooldown_event, scanner_error_event, pending_callback, InitialConnection, Surroundings, Moment,
  generate_pairing_code, build_connection_ban_key, is_paired_device_known, no_data, send, emit,
  spawn, disconnect, seek_primary, over, Bans,
}
use libre_connect.Pairing.Bans.{
  is_connection_temporarily_banned, ban_duration, ban_connection_temporarily,
}

-- `MAX_NUMBER_OF_VERIFICATION_TRIES`
abbrev pub max_number_of_verification_tries : ℕ
max_number_of_verification_tries = 5

-- The state at the start of `CoConnect` and `CoSeek`.
abbrev pub begin : InitialConnectionMode → InitialConnection → InitialConnection
begin mode c = record c {
  connection_state = connecting;
  requested_connection_mode = mode;
  final_handshake_completed = false;
  suppress_disconnect_errors = false;
  received_terminal_handshake_reason = false;
}

-- `CoReceive` has been spawned.
abbrev pub open_stream : InitialConnection → InitialConnection
open_stream c = record c { connection_state = connected; receiving = true; remote = no_data }

abbrev pub data_of : DeviceInfo → InitialConnectionMode → InitialConnectionData
data_of device mode = record { device_info = device; initial_connection_mode = mode }

-- `CoConnect`, with whether `async_connect` succeeds.
unfoldable pub co_connect :
    Surroundings → InitialConnectionMode → Bool → InitialConnection → InitialConnection
unfolding send
co_connect s mode true c =
    send (device_data_for_connection (data_of s.this_device mode)) (open_stream (begin mode c))
co_connect s mode false c = disconnect (emit (scanner_error_event other_error) (begin mode c))

-- How the wait of `CoSeek` ends.
pub data Seeking : Type 0 where
  accepted : Seeking
  aborted : Seeking
  failed : Seeking

unfoldable pub co_seek : Seeking → InitialConnection → InitialConnection
co_seek accepted c = open_stream (record (begin connection_without_pair c) { has_acceptor = false })
co_seek aborted c = record (begin connection_without_pair c) { has_acceptor = false }
co_seek failed c = disconnect (record (begin connection_without_pair c) { has_acceptor = false })

-- `data.deviceInfo.deviceAddress = m_socket.remote_endpoint().address().to_string()`
abbrev pub seen_at : Text → InitialConnectionData → InitialConnectionData
seen_at address d = record d { device_info = record d.device_info { device_address = address } }

-- A device that is banned, at the second look at the bans.
unfoldable pub reject_banned : ℕ × Bans → InitialConnection → InitialConnection
unfolding send
reject_banned (duration, bans) c =
    over (send (device_connect_cooldown duration) (record c { bans = bans }))

-- A device that is not banned.
unfoldable pub admit :
    Surroundings → ℕ → InitialConnectionData → InitialConnection → InitialConnection
unfolding send
admit s value d c =
    if is_connect_with_pair d.initial_connection_mode
      && not (is_paired_device_known s d.device_info)
    then over (send (device_is_unpaired (s.to_string s.this_device.device_id)) c)
    else if is_connect_with_pair d.initial_connection_mode
    then spawn (pending_callback d) c
    else emit
        (pending_event d (
          if is_pair_and_connect d.initial_connection_mode
          then generate_pairing_code value
          else []))
        c

-- `DEVICE_DATA_FOR_CONNECTION`
unfoldable pub device_data :
    Surroundings → Moment → InitialConnectionData → InitialConnection → InitialConnection
unfolding admit reject_banned
device_data s t d c =
    looked (is_connection_temporarily_banned t.now (build_connection_ban_key d.device_info) c.bans)
  where
    looked : Bool × Bans → InitialConnection
    looked (true, bans) =
        reject_banned (ban_duration t.later (build_connection_ban_key d.device_info) bans)
          (record c { remote = d })
    looked (false, bans) = admit s t.value d (record c { remote = d; bans = bans })

-- `DEVICE_DATA_FOR_SEEKING_CONNECTION`
unfoldable pub device_data_for_seeking :
    InitialConnectionData → InitialConnection → InitialConnection
device_data_for_seeking d c = over (record c {
  remote = d;
  final_handshake_completed = true;
  suppress_disconnect_errors = true;
  connects = c.connects ++ (d ∷ []);
})

-- A wrong code, with the tries that are left now.
unfoldable pub wrong_answer : ℕ → ℕ → InitialConnection → InitialConnection
unfolding send
wrong_answer now tries c =
    let c' = send (challenge_wrong_answer tries) (record c { challenge_left_tries = tries }) in
    if tries == 0
    then over (record c' {
      bans = ban_connection_temporarily now (build_connection_ban_key c.remote.device_info) c.bans;
    })
    else c'

-- `CHALLENGE_RESPONSE`; the tries do not go below 0.
unfoldable pub check_response : ℕ → Text → InitialConnection → InitialConnection
unfolding wrong_answer send
check_response now response c =
    if not (same_text response c.challenge_result)
    then wrong_answer now (c.challenge_left_tries - 1) c
    else emit (approval_requested_event c.remote) (send connection_approval_request c)

-- A package of `CoReceive` whose type is read. An exception that is no `std::system_error` leaves the
-- loop as it is.
unfoldable pub handle : Surroundings → Moment → Message → InitialConnection → InitialConnection
unfolding device_data device_data_for_seeking check_response
handle s t (device_data_for_connection d) c = device_data s t (seen_at s.remote_address d) c
handle s t (device_data_for_seeking_connection d) c =
    device_data_for_seeking (seen_at s.remote_address d) c
handle s t (challenge_response response) c = check_response t.now response c
handle s t (challenge_wrong_answer tries) c = emit (failed_verification_event tries) c
handle s t connection_approval_request c = emit (approval_waiting_event c.remote) c
handle s t connection_approval_denied c =
    emit approval_denied_event (record c { received_terminal_handshake_reason = true })
handle s t challenge_answer_request c = emit verification_event c
handle s t (device_is_unpaired device_id) c =
    emit (not_paired_event device_id) (record c { received_terminal_handshake_reason = true })
handle s t (device_connect_cooldown duration) c =
    emit (cooldown_event duration) (record c { received_terminal_handshake_reason = true })
handle s t unreadable c = record c { receiving = false }
handle s t unknown c = c

-- A round of `CoReceive`, with the test of the state behind the reads.
unfoldable pub receive : Surroundings → Moment → Message → InitialConnection → InitialConnection
unfolding handle
receive s t m c =
    if not c.receiving
    then c
    else if not (is_connected c.connection_state)
    then record c { receiving = false }
    else handle s t m c

-- `reportCode`
abbrev pub report_code : InitialConnectionMode → StreamError → StreamError
report_code mode stream_ended =
    if is_connect_with_pair mode then permission_denied else stream_ended
report_code mode other_error = other_error
report_code mode permission_denied = permission_denied

-- A read of `CoReceive` that fails.
unfoldable pub receive_failed : StreamError → InitialConnection → InitialConnection
receive_failed e c =
    let silent =
      c.final_handshake_completed || c.received_terminal_handshake_reason
      || c.suppress_disconnect_errors in
    if silent
    then over c
    else over (emit (scanner_error_event (report_code c.requested_connection_mode e)) c)

unfoldable pub co_process_connection_verification_event :
    Text → InitialConnection → InitialConnection
unfolding send
co_process_connection_verification_event response c = send (challenge_response response) c

unfoldable pub co_process_connection_approval_callback :
    Bool → InitialConnectionData → InitialConnection → InitialConnection
unfolding send
co_process_connection_approval_callback false d c = disconnect (send connection_approval_denied c)
co_process_connection_approval_callback true d c = seek_primary d c

unfoldable pub co_process_connection_pending_callback :
    Bool → InitialConnectionData → Text → InitialConnection → InitialConnection
unfolding send
co_process_connection_pending_callback false d challenge c = disconnect c
co_process_connection_pending_callback true d challenge c =
    let c' = record c {
      challenge_left_tries = max_number_of_verification_tries;
      challenge_result = challenge;
    } in
    if is_pair_and_connect d.initial_connection_mode && is_empty challenge
    then disconnect c'
    else if not (is_empty challenge)
    then send challenge_answer_request c'
    else seek_primary d c'

unfoldable pub co_primary_connection_callback :
    InitialConnectionData → InitialConnection → InitialConnection
unfolding send
co_primary_connection_callback d c =
    disconnect (record (send (device_data_for_seeking_connection d) c) {
      final_handshake_completed = true;
      suppress_disconnect_errors = true;
    })

-- The callback that `SeekPrimary` got, once the primary connection listens.
unfoldable pub primary_listening :
    Surroundings → InitialConnectionData → Text → ℕ → InitialConnection → InitialConnection
unfolding co_primary_connection_callback
primary_listening s d address port c =
    co_primary_connection_callback
      (record d {
        device_info = record s.this_device { device_address = address; device_address_port = port };
      })
      c
