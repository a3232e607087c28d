-- ===== src/RemoteFileBuffer.antt =====
-- modules/file-share/desktop/inc/RemoteFileBuffer.h: the bounded byte buffer between the transfer that
-- downloads a remote file and the file system operation that reads it. Every operation holds the
-- mutex, so it is one step. A `std::function` is the number of an action, and `invoked` lists the
-- actions that `InvokeCancel` has called.
mod Ring
pub mod Queue
mod Writes
mod Reads
pub mod Refinement
pub mod Stream
mod Tests
use libre_connect.Base.{
  ℕ, ◌+◌, ◌-◌, ◌%◌, ◌≤◌, ◌<◌, Bool, true, false, not, ◌||◌, ◌&&◌, List, [], ◌∷◌, ◌++◌, length, take,
  drop, replicate, ltb, ◌==◌, if◌then◌else◌, Option, none, some, min, max,
}
use libre_connect.Wire.Buffer.{Buffer, write_at, read_at}

pub record RemoteFileBuffer : Type 0 where
  pub storage : Buffer
  pub begin : ℕ
  pub size : ℕ
  pub finished : Bool
  pub failed : Bool
  pub cancel_action : Option ℕ
  pub invoked : List ℕ

pub record ReadResult : Type 0 where
  pub bytes : ℕ
  pub finished : Bool
  pub failed : Bool

unfoldable pub new : ℕ → RemoteFileBuffer
new capacity = record {
  storage = replicate (max 1 capacity) 0;
  begin = 0;
  size = 0;
  finished = false;
  failed = false;
  cancel_action = none;
  invoked = [];
}

-- The two `memcpy` of `TryWrite` and of `Read`.
unfoldable pub put : Buffer → ℕ → List ℕ → Buffer
put storage position bytes =
    let first = min (length bytes) (length storage - position) in
    write_at (write_at storage position (take first bytes)) 0 (drop first bytes)

unfoldable pub fetch : Buffer → Buffer → ℕ → ℕ → Buffer
fetch destination storage begin count =
    let first = min count (length storage - begin) in
    write_at (write_at destination 0 (read_at storage begin first)) first
      (read_at storage 0 (count - first))

unfoldable pub try_write : List ℕ → RemoteFileBuffer → Bool × RemoteFileBuffer
try_write bytes b =
    if b.finished || ltb (length b.storage - b.size) (length bytes) then (false, b) else (
      true,
      record b {
        storage = put b.storage ((b.begin + b.size) % length b.storage) bytes;
        size = b.size + length bytes;
      },
    )

unfoldable pub read : Buffer → RemoteFileBuffer → (ReadResult × Buffer) × RemoteFileBuffer
read destination b =
    let count = min (length destination) b.size in
    if count == 0
    then report count destination b
    else report count (fetch destination b.storage b.begin count)
        (record b { begin = (b.begin + count) % length b.storage; size = b.size - count })
  where
    report : ℕ → Buffer → RemoteFileBuffer → (ReadResult × Buffer) × RemoteFileBuffer
    report count destination b = (
      (
        record { bytes = count; finished = b.finished && (b.size == 0); failed = b.failed },
        destination,
      ),
      b,
    )

unfoldable pub finish : Bool → RemoteFileBuffer → RemoteFileBuffer
finish success b =
    let failed' = b.failed || not success in
    record b {
      finished = true;
      failed = failed';
      size = if failed' then 0 else b.size;
      cancel_action = none;
    }

unfoldable pub cancelled : RemoteFileBuffer → Bool
cancelled b = b.failed

-- `if (action) InvokeCancel(action);`
unfoldable pub invoke_cancel : Option ℕ → RemoteFileBuffer → RemoteFileBuffer
invoke_cancel none b = b
invoke_cancel (some action) b = record b { invoked = b.invoked ++ (action ∷ []) }

unfoldable pub set_cancel_action : Option ℕ → RemoteFileBuffer → RemoteFileBuffer
set_cancel_action action b =
    if b.failed
    then invoke_cancel action b
    else if b.finished
    then b
    else record b { cancel_action = action }

unfoldable pub cancel : RemoteFileBuffer → RemoteFileBuffer
cancel b =
    if b.finished && not b.failed
    then b
    else invoke_cancel b.cancel_action
        (record b { finished = true; failed = true; size = 0; cancel_action = none })
