-- ===== src/Transfer/Files.antt =====
-- `Send`, `CoSendFile` and `CoReceiveFileData`: one file over the channel, its header first. The file is
-- what its stream yields, or none if it cannot be opened, with the length that `file_size` reports; the
-- sink of the receiver is a test that fails where it throws.
pub mod Sending
pub mod Receiving
pub mod Closing
mod Tests
use libre_connect.Base.{
  ℕ, zero, suc, ◌+◌, ◌-◌, ◌≤◌, ◌≡◌, Bool, true, false, not, ◌||◌, List, [], ◌∷◌, ◌++◌, length, take,
  drop, replicate, ltb, ◌==◌, if◌then◌else◌, Result, ok, err, Fault, end_of_stream,
  channel_unavailable, bad_header, transfer_failed, Option, none, some, min,
}
use libre_connect.Wire.Buffer.{Buffer, write_at}
use libre_connect.Wire.Text.{is_empty}
use libre_connect.Wire.Files.{FileHeader, file_header}
use libre_connect.Transfer.Channel.{
  Channel, is_connected, async_write, async_read, add_size, M, ◌>>=◌, throw, pure,
}

-- `Disconnect` is counted; where the code awaits it and where it spawns it, this is the same.
abbrev pub with_disconnect : Channel → Channel
with_disconnect ch = record ch { disconnects = ch.disconnects + 1 }

-- One round of the loop of `Send`, behind the computation of its size and offset.
unfoldable pub send_chunk : ℕ → ℕ → List ℕ → Channel → Bool × Channel
send_chunk size offset contents ch =
    let filled = record ch { buffer_out = write_at ch.buffer_out 0 (take size contents) } in
    if not (length (take size contents) == size)
    then (false, with_disconnect filled)
    else after (async_write (take size filled.buffer_out) filled)
  where
    after : Bool × Channel → Bool × Channel
    after (true, ch') =
        (true, record ch' { progress = add_size ch'.progress size; current_file_progress = offset })
    after (false, ch') = (false, with_disconnect ch')

abbrev pub and_continue : (Channel → Bool × Channel) → Bool × Channel → Bool × Channel
and_continue f (true, ch) = f ch
and_continue f (false, ch) = (false, ch)

-- Every round sends a byte at least, so the length is enough fuel.
unfoldable pub send_chunks : ℕ → ℕ → ℕ → List ℕ → Channel → Bool × Channel
send_chunks zero file_length offset contents ch = (true, ch)
send_chunks (suc fuel) file_length offset contents ch =
    let size = min (length ch.buffer_out) (file_length - offset) in
    let rest =
      and_continue (send_chunks fuel file_length (offset + size) (drop size contents))
        (send_chunk size (offset + size) contents ch) in
    if ltb offset file_length then rest else (true, ch)

unfoldable pub send : Option (List ℕ) → ℕ → Channel → Bool × Channel
send none file_length ch = (false, ch)
send (some contents) file_length ch =
    if not ch.has_socket
    then (false, ch)
    else send_chunks file_length file_length 0 contents
        (record ch { current_file_progress = 0; current_file_size = file_length })

-- `ResetFlag` clears `m_send` on every way out.
abbrev pub reset_send : Result (Unit {0}) × Channel → Result (Unit {0}) × Channel
reset_send (r, ch) = (r, record ch { send = false })

abbrev pub header_of : ℕ → FileHeader
header_of file_length = record { relative_path = []; file_size = file_length; last = true }

-- Writes the header, then the file.
unfoldable pub send_with_header :
    Option (List ℕ) → ℕ → Result (Buffer × ℕ) → Channel → Result (Unit {0}) × Channel
send_with_header file file_length (err e) ch = (err e, ch)
send_with_header file file_length (ok (buffer, _)) ch = after (async_write buffer ch)
  where
    finish : Bool × Channel → Result (Unit {0}) × Channel
    finish (true, ch') = (ok tt, ch')
    finish (false, ch') = (err transfer_failed, ch')

    after : Bool × Channel → Result (Unit {0}) × Channel
    after (true, ch') = finish (send file file_length ch')
    after (false, ch') = (err end_of_stream, ch')

unfoldable pub co_send_file : Option (List ℕ) → ℕ → Channel → Result (Unit {0}) × Channel
co_send_file file file_length ch =
    let header = header_of file_length in
    if not ch.has_socket || not (is_connected ch.connection_state) || ch.send
    then (err channel_unavailable, ch)
    else reset_send (
        send_with_header file file_length
          (file_header.serialize header (replicate (file_header.size header) 0) 0)
          (record ch {
            send = true;
            progress = 0;
            current_file_size = 0;
            current_file_progress = 0;
          }))

-- `asio::async_read` into a buffer of its own
unfoldable pub read_bytes : ℕ → M (List ℕ)
read_bytes n ch =
    if ltb (length ch.incoming) n
    then (err end_of_stream, record ch { incoming = [] })
    else (ok (take n ch.incoming), record ch { incoming = drop n ch.incoming })

-- The loop of `CoReceiveFileData`; the last argument but the channel is what the sink has got.
unfoldable pub receive_chunks : ℕ → ℕ → ℕ → (List ℕ → Bool) → List ℕ → M (List ℕ)
receive_chunks zero expected_size received sink got ch = (ok got, ch)
receive_chunks (suc fuel) expected_size received sink got ch =
    let count = min (length ch.buffer_in) (expected_size - received) in
    let rest = async_read 0 count >>= λ _ ch'.
    let chunk = take count ch'.buffer_in in
    let more =
      receive_chunks fuel expected_size (received + count) sink (got ++ chunk)
        (record ch' { progress = received + count; current_file_progress = received + count }) in
    if sink chunk then more else (err transfer_failed, ch') in
    if ltb received expected_size then rest ch else (ok got, ch)

unfoldable pub receive_data : ℕ → (List ℕ → Bool) → Result (FileHeader × ℕ) → M (List ℕ)
receive_data expected_size sink (err e) = throw e
receive_data expected_size sink (ok (header, _)) =
    if not (header.file_size == expected_size)
      || not (is_empty header.relative_path)
      || not header.last
    then throw bad_header
    else receive_chunks expected_size expected_size 0 sink []

-- `catch (...)`, then `ResetFlag`
abbrev pub closed_on_error : {A : Type 0} → Result A × Channel → Result A × Channel
closed_on_error (ok a, ch) = (ok a, record ch { receive = false })
closed_on_error (err e, ch) = (err e, record (with_disconnect ch) { receive = false })

unfoldable pub co_receive_file_data : ℕ → (List ℕ → Bool) → M (List ℕ)
co_receive_file_data expected_size sink ch =
    if not ch.has_socket || not (is_connected ch.connection_state) || ch.receive
    then (err channel_unavailable, ch)
    else closed_on_error (
        (read_bytes (file_header.size (record { relative_path = []; file_size = 0; last = false }))
            >>= λ bytes. receive_data expected_size sink (file_header.deserialize bytes 0))
          (record ch {
            receive = true;
            progress = 0;
            current_file_progress = 0;
            current_file_size = expected_size;
          }))
