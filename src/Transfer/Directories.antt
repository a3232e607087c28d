-- ===== src/Transfer/Directories.antt =====
-- `Receive`, `CoReceiveFile`, `CoReceiveDirectory`, `CoSendDirectory`, `CoDisconnect` and
-- `CleanupConnection`: files that are written to the disk, and directories. What the file system does
-- is the argument `Storage`; what was written is returned, file by file.
pub mod Inside
pub mod Sending
pub mod Receiving
pub mod RoundTrip
mod Tests
use libre_connect.Base.{
  ℕ, zero, suc, ◌+◌, ◌-◌, ◌≡◌, Bool, true, false, not, ◌||◌, ◌&&◌, List, [], ◌∷◌, ◌++◌, length,
  take, drop, replicate, ltb, ◌==◌, if◌then◌else◌, Result, ok, err, Fault, end_of_stream,
  channel_unavailable, bad_header, transfer_failed, path_error, Option, none, some, min,
}
use libre_connect.Wire.Buffer.{Buffer, write_at}
use libre_connect.Wire.Text.{Text, is_empty, size_t}
use libre_connect.Wire.Files.{FileHeader, file_header}
use libre_connect.Transfer.Channel.{
  Channel, ConnectionState, disconnected, disconnecting, connecting, connected, is_connected,
  async_write, async_read, add_size, M, ◌>>=◌, throw, pure,
}
use libre_connect.Transfer.Files.{with_disconnect, send, read_bytes, and_continue}
use libre_connect.Transfer.Paths.{FilePath, build_safe_receive_path}

-- `weakly_canonical`, whether `create_directories` and the opening of a file succeed, and whether the
-- stream of a file is good behind a write.
pub record Storage : Type 0 where
  pub weakly_canonical : FilePath → Option FilePath
  pub creates : FilePath → Bool
  pub opens : FilePath → Bool
  pub good : FilePath → List ℕ → Bool

-- A file that was opened for writing, and what has got into it.
pub record Written : Type 0 where
  pub path : FilePath
  pub contents : List ℕ

-- The loop of `Receive`; every round takes a byte at least, so the length is enough fuel.
unfoldable pub receive_rounds :
    Storage → FilePath → ℕ → ℕ → ℕ → List ℕ → Channel → (Bool × List ℕ) × Channel
receive_rounds st path zero file_length offset got ch = ((true, got), ch)
receive_rounds st path (suc fuel) file_length offset got ch =
    let size = min (length ch.buffer_in) (file_length - offset) in
    let rest = λ (ch' : Channel).
      receive_rounds st path fuel file_length (offset + size) (got ++ take size ch'.buffer_in)
        (record ch' {
          progress = add_size ch'.progress size;
          current_file_progress = offset + size;
        }) in
    let round =
      read (async_read 0 size ch) (got ++ take size (async_read 0 size ch).1.buffer_in) rest in
    if ltb offset file_length then round else ((true, got), ch)
  where
    read :
        Result (Unit {0}) × Channel
        → List ℕ
        → (Channel → (Bool × List ℕ) × Channel)
        → (Bool × List ℕ) × Channel
    read (err e, ch') all rest = ((false, got), with_disconnect ch')
    read (ok _, ch') all rest =
        let next = rest ch' in
        if st.good path all then next else ((false, got), with_disconnect ch')

-- The directory above a file.
abbrev pub parent : FilePath → FilePath
parent [] = []
parent (name ∷ []) = []
parent (name ∷ (next ∷ names)) = name ∷ parent (next ∷ names)

abbrev pub write_out : FilePath → (Bool × List ℕ) × Channel → Bool × (List Written × Channel)
write_out path ((done, got), ch) = (done, (record { path = path; contents = got } ∷ [], ch))

unfoldable pub receive : Storage → FilePath → ℕ → Channel → Bool × (List Written × Channel)
receive st path file_length ch =
    let begun = record ch { current_file_progress = 0; current_file_size = file_length } in
    if not ch.has_socket
    then (false, ([], ch))
    else if not (st.creates (parent path)) || not (st.opens path)
    then (false, ([], with_disconnect begun))
    else write_out path (receive_rounds st path file_length file_length 0 [] begun)

-- `ResetFlag` and the state at the start.
abbrev pub begin_receive : Channel → Channel
begin_receive ch = record ch {
  receive = true;
  progress = 0;
  current_file_size = 0;
  current_file_progress = 0;
}

abbrev pub begin_send : Channel → Channel
begin_send ch = record ch {
  send = true;
  progress = 0;
  current_file_size = 0;
  current_file_progress = 0;
}

-- A coroutine that writes files: how it ends, and what was written.
abbrev pub Run : Type 0
Run = Result (Unit {0}) × (List Written × Channel)

abbrev pub reset_receive : Run → Run
reset_receive (r, (files, ch)) = (r, (files, record ch { receive = false }))

abbrev pub received_or_throw : Bool × (List Written × Channel) → Run
received_or_throw (true, x) = (ok tt, x)
received_or_throw (false, x) = (err transfer_failed, x)

unfoldable pub receive_parsed : Storage → FilePath → Result (FileHeader × ℕ) × Channel → Run
receive_parsed st path (err e, ch) = (err e, ([], ch))
receive_parsed st path (ok (header, _), ch) =
    received_or_throw (receive st path header.file_size ch)

abbrev pub no_header : FileHeader
no_header = record { relative_path = []; file_size = 0; last = false }

abbrev pub parse : Result (List ℕ) × Channel → Result (FileHeader × ℕ) × Channel
parse (ok bytes, ch) = (file_header.deserialize bytes 0, ch)
parse (err e, ch) = (err e, ch)

unfoldable pub co_receive_file : Storage → FilePath → Channel → Run
co_receive_file st path ch =
    if not ch.has_socket || not (is_connected ch.connection_state) || ch.receive
    then (err channel_unavailable, ([], ch))
    else reset_receive (
        receive_parsed st path (parse (read_bytes (file_header.size no_header) (begin_receive ch))))

-- `DrainSocketBytes`; a round takes a byte at least.
unfoldable pub drain : ℕ → ℕ → ℕ → M (Unit {0})
drain zero bytes_to_drain drained ch = (ok tt, ch)
drain (suc fuel) bytes_to_drain drained ch =
    let chunk_size = min (length ch.buffer_in) (bytes_to_drain - drained) in
    let round =
      (async_read 0 chunk_size >>= λ _. drain fuel bytes_to_drain (drained + chunk_size)) ch in
    if ltb drained bytes_to_drain then round else (ok tt, ch)

-- What a round of `CoReceiveDirectory` leads to: an exception, the end of the loop, or the next round
-- with the bytes of `buffer`.
pub data Round : Type 0 where
  threw : Fault → Round
  over : Round
  again : Buffer → Round

abbrev pub max_header_size : ℕ
max_header_size = 1024

-- `while (!fileHeader.last)`
abbrev pub unless_last : Bool → Buffer → Round
unless_last true buffer = over
unless_last false buffer = again buffer

abbrev pub drained : Bool → Buffer → Result (Unit {0}) × Channel → Round × (List Written × Channel)
drained last buffer (ok _, ch) = (unless_last last buffer, ([], ch))
drained last buffer (err e, ch) = (threw e, ([], ch))

abbrev pub stored :
    Bool → Buffer → Bool × (List Written × Channel) → Round × (List Written × Channel)
stored last buffer (true, x) = (unless_last last buffer, x)
stored last buffer (false, x) = (threw transfer_failed, x)

-- A file of the directory, behind `BuildSafeReceivePath`.
unfoldable pub receive_into :
    Storage → FileHeader → Buffer → Option FilePath → Channel → Round × (List Written × Channel)
receive_into st header buffer none ch =
    drained header.last buffer (drain header.file_size header.file_size 0 ch)
receive_into st header buffer (some path) ch =
    stored header.last buffer (receive st path header.file_size ch)

-- Behind `fileHeader.Deserialize(buffer, offset)`.
unfoldable pub header_read :
    Storage
    → FilePath
    → Buffer
    → Result (FileHeader × ℕ)
    → Channel
    → Round × (List Written × Channel)
header_read st base buffer (err e) ch = (threw e, ([], ch))
header_read st base buffer (ok (header, _)) ch =
    if header.last && header.file_size == 0 && is_empty header.relative_path
    then (over, ([], ch))
    else receive_into st header buffer
        (build_safe_receive_path st.weakly_canonical base header.relative_path) ch

-- Behind the read of the header's bytes into `buffer`.
unfoldable pub bytes_read :
    Storage → FilePath → Buffer → Result (List ℕ) × Channel → Round × (List Written × Channel)
bytes_read st base buffer (err e, ch) = (threw e, ([], ch))
bytes_read st base buffer (ok bytes, ch) =
    let filled = write_at buffer 0 bytes in
    header_read st base filled (file_header.deserialize filled 0) ch

-- Behind the read of the header's size.
unfoldable pub size_read :
    Storage → FilePath → Buffer → Result (ℕ × ℕ) → Channel → Round × (List Written × Channel)
size_read st base buffer (err e) ch = (threw e, ([], ch))
size_read st base buffer (ok (header_size, _)) ch =
    if ltb max_header_size header_size
    then (threw bad_header, ([], ch))
    else bytes_read st base buffer (read_bytes header_size ch)

unfoldable pub begin_round :
    Storage → FilePath → Buffer → Result (List ℕ) × Channel → Round × (List Written × Channel)
begin_round st base buffer (err e, ch) = (threw e, ([], ch))
begin_round st base buffer (ok bytes, ch) = size_read st base buffer (size_t.deserialize bytes 0) ch

unfoldable pub directory_round :
    Storage → FilePath → Buffer → Channel → Round × (List Written × Channel)
unfolding begin_round size_read bytes_read header_read receive_into
directory_round st base buffer ch = begin_round st base buffer (read_bytes 8 ch)

abbrev pub more_files : List Written → Run → Run
more_files files (r, (rest, ch)) = (r, (files ++ rest, ch))

abbrev pub go_on : (Buffer → Channel → Run) → Round × (List Written × Channel) → Run
go_on rest (threw e, (files, ch)) = (err e, (files, ch))
go_on rest (over, (files, ch)) = (ok tt, (files, ch))
go_on rest (again buffer, (files, ch)) = more_files files (rest buffer ch)

-- The `do` loop; every round takes eight bytes or throws, so one round more than there are bytes is
-- enough fuel.
unfoldable pub directory_rounds : ℕ → Storage → FilePath → Buffer → Channel → Run
directory_rounds zero st base buffer ch = (ok tt, ([], ch))
directory_rounds (suc fuel) st base buffer ch =
    go_on (directory_rounds fuel st base) (directory_round st base buffer ch)

-- `catch (std::system_error& error)`: the errors of the stream and of the file system.
abbrev pub is_system_error : Fault → Bool
is_system_error end_of_stream = true
is_system_error path_error = true
is_system_error _ = false

abbrev pub on_system_error : Run → Run
on_system_error (ok _, x) = (ok tt, x)
on_system_error (err e, (files, ch)) =
    (err e, (files, if is_system_error e then with_disconnect ch else ch))

unfoldable pub receive_in : Storage → Option FilePath → Channel → Run
receive_in st none ch = (err path_error, ([], ch))
receive_in st (some base) ch =
    directory_rounds (length ch.incoming + 1) st base (replicate max_header_size 0) ch

unfoldable pub co_receive_directory : Storage → FilePath → Channel → Run
unfolding receive_in
co_receive_directory st path ch =
    if not ch.has_socket || not (is_connected ch.connection_state) || ch.receive
    then (err channel_unavailable, ([], ch))
    else reset_receive (
        on_system_error (
          receive_in st (if st.creates path then st.weakly_canonical path else none)
            (begin_receive ch)))

-- A file that the iterator finds: its path relative to the directory, its size, and what its stream
-- yields, or none if it cannot be opened.
pub record Source : Type 0 where
  pub relative_path : Text
  pub file_size : ℕ
  pub file : Option (List ℕ)

abbrev pub source_header : Source → Bool → FileHeader
source_header s last = record {
  relative_path = s.relative_path;
  file_size = s.file_size;
  last = last;
}

-- The size of a header and the header, into a buffer of just that size.
unfoldable pub header_frame : FileHeader → Result (Buffer × ℕ)
header_frame header =
    after (size_t.serialize (file_header.size header) (replicate (file_header.size header + 8) 0) 0)
  where
    after : Result (Buffer × ℕ) → Result (Buffer × ℕ)
    after (ok (buffer, offset)) = file_header.serialize header buffer offset
    after (err e) = err e

unfoldable pub write_frame : Result (Buffer × ℕ) → Channel → Result (Unit {0}) × Channel
write_frame (err e) ch = (err e, ch)
write_frame (ok (buffer, _)) ch = after (async_write buffer ch)
  where
    after : Bool × Channel → Result (Unit {0}) × Channel
    after (true, ch') = (ok tt, ch')
    after (false, ch') = (err end_of_stream, ch')

abbrev pub sent_or_throw : Bool × Channel → Result (Unit {0}) × Channel
sent_or_throw (true, ch) = (ok tt, ch)
sent_or_throw (false, ch) = (err transfer_failed, ch)

unfoldable pub send_source : Source → Bool → M (Unit {0})
unfolding write_frame header_frame
send_source s last = write_frame (header_frame (source_header s last)) >>= λ _ ch.
    sent_or_throw (send s.file s.file_size ch)

unfoldable pub send_sources : List Source → M (Unit {0})
send_sources [] = pure tt
send_sources (s ∷ sources) = send_source s (is_empty sources) >>= λ _. send_sources sources

abbrev pub last_marker : FileHeader
last_marker = record { relative_path = []; file_size = 0; last = true }

-- `catch (const std::exception& e)`, then `ResetFlag`
abbrev pub on_exception : Result (Unit {0}) × Channel → Result (Unit {0}) × Channel
on_exception (ok _, ch) = (ok tt, record ch { send = false })
on_exception (err e, ch) = (err e, record (with_disconnect ch) { send = false })

unfoldable pub send_listed : List Source → M (Unit {0})
unfolding write_frame header_frame
send_listed [] = write_frame (header_frame last_marker)
send_listed (s ∷ sources) = send_sources (s ∷ sources)

-- None is an exception of the iterator.
unfoldable pub co_send_directory : Option (List Source) → Channel → Result (Unit {0}) × Channel
co_send_directory sources ch =
    if not ch.has_socket || not (is_connected ch.connection_state) || ch.send
    then (err channel_unavailable, ch)
    else on_exception (listed sources (begin_send ch))
  where
    listed : Option (List Source) → M (Unit {0})
    listed none = throw path_error
    listed (some files) = send_listed files

-- `CoDisconnect` with `CleanupConnection`, whose wait for the socket ends.
abbrev pub is_closing : ConnectionState → Bool
is_closing disconnected = true
is_closing disconnecting = true
is_closing _ = false

unfoldable pub co_disconnect : Channel → Channel
co_disconnect ch =
    if is_closing ch.connection_state
    then ch
    else record ch { connection_state = disconnected; has_socket = false }
