-- ===== src/Transfer/Entries.antt =====
-- `CoSendDirectoryEntries` and `CoReceiveDirectoryEntries`: a listing goes over the channel as its
-- length and then in frames, each of which fits into the transfer buffer.
pub mod Frames
pub mod Sender
pub mod Listing
pub mod Receiver
pub mod RoundTrip
mod Tests
use libre_connect.Base.{
  ℕ, zero, suc, ◌+◌, ◌-◌, ◌≤◌, ◌≡◌, refl, Bool, true, false, not, ◌||◌, List, [], ◌∷◌, ◌++◌, length,
  ltb, ◌==◌, if◌then◌else◌, Result, ok, err, Fault, end_of_stream, channel_unavailable, Option,
  none, some,
}
use libre_connect.Wire.Buffer.{Buffer}
use libre_connect.Wire.Text.{size_t}
use libre_connect.Wire.Files.{FileEntry, file_entry}
use libre_connect.Transfer.Channel.{
  Channel, is_connected, M, ◌>>=◌, ◌>>◌, pure, throw, lift, get, modify, async_read, sub_size,
  send_buffer,
}

-- `constexpr size_t frameHeaderSize = sizeof(size_t) * 2`
abbrev pub frame_header_size : ℕ
frame_header_size = 16

-- `SerializeObject(value, m_bufferOut, offset)`
unfoldable pub put_size : ℕ → ℕ → M ℕ
put_size value offset = do
  ch ← get
  (buffer, offset') ← lift (size_t.serialize value ch.buffer_out offset)
  modify (λ c. record c { buffer_out = buffer })
  pure offset'

unfoldable pub put_entry : FileEntry → ℕ → M ℕ
put_entry entry offset = do
  ch ← get
  (buffer, offset') ← lift (file_entry.serialize entry ch.buffer_out offset)
  modify (λ c. record c { buffer_out = buffer })
  pure offset'

-- The frame header, then the frame; false means that the caller returns.
unfoldable pub send_frame : ℕ → ℕ → M Bool
send_frame offset count = do
  zero_offset ← put_size (offset - frame_header_size) 0
  _ ← put_size count zero_offset
  send_buffer offset

-- The loop over the entries. `none` means that a frame could not be sent and the loop was left.
unfoldable pub send_entries : List FileEntry → ℕ → ℕ → M (Option (ℕ × ℕ))
send_entries [] offset count ch = (ok (some (offset, count)), ch)
send_entries (entry ∷ entries) offset count ch =
    let full = (do
      is_sent ← send_frame offset count
      if is_sent
          then (do offset' ← put_entry entry frame_header_size; send_entries entries offset' 1)
          else pure none) in
    let fits = (do offset' ← put_entry entry offset; send_entries entries offset' (count + 1)) in
    if ltb (length ch.buffer_out) (offset + file_entry.size entry) then full ch else fits ch

abbrev pub set_send : Bool → M (Unit {0})
set_send b = modify (λ c. record c { send = b })

-- The rest of the function behind the loop.
unfoldable pub send_last : Option (ℕ × ℕ) → M (Unit {0})
send_last none = set_send false
send_last (some (offset, count)) = do _ ← send_frame offset count; set_send false

unfoldable pub send_listing : List FileEntry → M (Unit {0})
send_listing entries = do
  modify (λ c. record c { send = true; progress = 0 })
  _ ← put_size (length entries) 0
  is_sent ← send_buffer 8
  if is_sent
      then (do state ← send_entries entries frame_header_size 0; send_last state)
      else set_send false

unfoldable pub co_send_directory_entries : List FileEntry → M (Unit {0})
co_send_directory_entries entries ch =
    if not (is_connected ch.connection_state) || ch.send
    then (ok tt, ch)
    else send_listing entries ch

-- `DeserializeObject(value, m_bufferIn, offset)`
unfoldable pub take_size : ℕ → M (ℕ × ℕ)
take_size offset = do ch ← get; lift (size_t.deserialize ch.buffer_in offset)

-- `for (size_t i = 0; i < count; i++) entries.push_back(…)`
unfoldable pub take_entries : ℕ → ℕ → List FileEntry → M (List FileEntry)
take_entries zero offset entries = pure entries
take_entries (suc count) offset entries = do
  ch ← get
  (entry, offset') ← lift (file_entry.deserialize ch.buffer_in offset)
  take_entries count offset' (entries ++ (entry ∷ []))

-- The `while (true)` loop. A round takes sixteen bytes or throws, so as many rounds as there are bytes
-- are enough: without fuel the stream is at its end, and the next read throws.
unfoldable pub receive_frames : ℕ → ℕ → List FileEntry → M (List FileEntry)
receive_frames zero total_count entries = throw end_of_stream
receive_frames (suc fuel) total_count entries = do
  async_read 0 frame_header_size
  (payload_size, offset) ← take_size 0
  (count, _) ← take_size offset
  ch ← get
  let rest = (do
    if payload_size == 0 then pure tt else async_read frame_header_size payload_size
    entries' ← take_entries count frame_header_size entries
    let left = sub_size total_count count
    let more = receive_frames fuel left entries'
    if left == 0 then pure entries' else more)
  if ltb (length ch.buffer_in - frame_header_size) payload_size then pure entries else rest

unfoldable pub receive_listing : M (List FileEntry)
receive_listing = do
  async_read 0 8
  (total_count, _) ← take_size 0
  ch ← get
  receive_frames (length ch.incoming) total_count []

-- `ResetFlag` clears `m_receive` on every way out.
abbrev pub reset_receive : {A : Type 0} → Result A × Channel → Result A × Channel
reset_receive (r, ch) = (r, record ch { receive = false })

unfoldable pub co_receive_directory_entries : M (List FileEntry)
co_receive_directory_entries ch =
    if not ch.has_socket || not (is_connected ch.connection_state) || ch.receive
    then (err channel_unavailable, ch)
    else reset_receive (receive_listing (record ch { receive = true; progress = 0 }))
