-- ===== src/RemoteFileBuffer/Queue.antt =====
-- `RemoteFileBuffer` as a bounded queue of bytes: no ring, no position, only what is waiting.

use libre_connect.Base.{
  subst, ℕ, ◌+◌, ◌≤◌, ◌<◌, ◌≡◌, sym, ap, ◌∙◌, Bool, true, false, not, ◌||◌, ◌&&◌, List, [], ◌∷◌,
  ◌++◌, length, take, drop, ltb, ◌==◌, if◌then◌else◌, Option, none, some,
}
use libre_connect.Wire.Buffer.{Buffer, write_at}
use libre_connect.RemoteFileBuffer.{
  RemoteFileBuffer, ReadResult, try_write, read, finish, cancelled, set_cancel_action, cancel,
}
use libre_connect.RemoteFileBuffer.Ring.{contents_of, length-window}

pub record IsWellFormed (b : RemoteFileBuffer) : Type 0 where
  pub start : b.begin < length b.storage
  pub bounded : b.size ≤ length b.storage

pub record Queue : Type 0 where
  pub capacity : ℕ
  pub waiting : List ℕ
  pub finished : Bool
  pub failed : Bool
  pub cancel_action : Option ℕ
  pub invoked : List ℕ

-- The calls that the two threads make, and what they get back.
pub data Call : Type 0 where
  call_try_write : List ℕ → Call
  call_read : Buffer → Call
  call_finish : Bool → Call
  call_cancelled : Call
  call_set_cancel_action : Option ℕ → Call
  call_cancel : Call

pub data Reply : Type 0 where
  done : Reply
  answer : Bool → Reply
  got : ReadResult → Buffer → Reply

unfoldable pub step : Call → RemoteFileBuffer → Reply × RemoteFileBuffer
step (call_try_write bytes) b = let (r, b') = try_write bytes b in (answer r, b')
step (call_read destination) b = let ((r, d), b') = read destination b in (got r d, b')
step (call_finish success) b = (done, finish success b)
step call_cancelled b = (answer (cancelled b), b)
step (call_set_cancel_action action) b = (done, set_cancel_action action b)
step call_cancel b = (done, cancel b)

abbrev pub invoke : Option ℕ → Queue → Queue
invoke none q = q
invoke (some action) q = record q { invoked = q.invoked ++ (action ∷ []) }

abbrev pub fail : Queue → Queue
fail q = record q { waiting = []; finished = true; failed = true; cancel_action = none }

-- The contract: first in, first out; a write is whole or refused; a failure drops what waits.
unfoldable pub queue_step : Call → Queue → Reply × Queue
queue_step (call_try_write bytes) q =
    if q.finished || ltb q.capacity (length q.waiting + length bytes)
    then (answer false, q)
    else (answer true, record q { waiting = q.waiting ++ bytes })
queue_step (call_read destination) q =
    let out = take (length destination) q.waiting in
    let rest = drop (length destination) q.waiting in
    (
      got
          (record {
            bytes = length out;
            finished = q.finished && (length rest == 0);
            failed = q.failed;
          })
          (write_at destination 0 out),
      record q { waiting = rest },
    )
queue_step (call_finish success) q = (
  done,
  if q.failed || not success then fail q else record q { finished = true; cancel_action = none },
)
queue_step call_cancelled q = (answer q.failed, q)
queue_step (call_set_cancel_action action) q = (
  done,
  if q.failed
      then invoke action q
      else if q.finished
      then q
      else record q { cancel_action = action },
)
queue_step call_cancel q =
    (done, if q.finished && not q.failed then q else invoke q.cancel_action (fail q))

abbrev pub queue : RemoteFileBuffer → Queue
queue b = record {
  capacity = length b.storage;
  waiting = contents_of b.storage b.begin b.size;
  finished = b.finished;
  failed = b.failed;
  cancel_action = b.cancel_action;
  invoked = b.invoked;
}

pub length-contents :
    (b : RemoteFileBuffer) → IsWellFormed b → length (contents_of b.storage b.begin b.size) ≡ b.size
length-contents b w = length-window b.storage b.begin b.size w.start w.bounded

-- One step of the ring does what the queue does.
abbrev pub Refines : Call → RemoteFileBuffer → Type 0
Refines c b =
    IsWellFormed (step c b).1
    × (((step c b).0 ≡ (queue_step c (queue b)).0)
        × (queue (step c b).1 ≡ (queue_step c (queue b)).1))

pub refines :
    (c : Call) (b : RemoteFileBuffer) {r : Reply} {b' : RemoteFileBuffer} {q : Queue}
    → step c b ≡ (r, b')
    → IsWellFormed b'
    → queue_step c (queue b) ≡ (r, q)
    → queue b' ≡ q
    → Refines c b
refines c b e w f h = (
  subst IsWellFormed (sym (ap (λ (p : Reply × RemoteFileBuffer). p.1) e)) w,
  (
    ap (λ (p : Reply × RemoteFileBuffer). p.0) e ∙ sym (ap (λ (p : Reply × Queue). p.0) f),
    ap (λ (p : Reply × RemoteFileBuffer). queue p.1) e
        ∙ h
        ∙ sym (ap (λ (p : Reply × Queue). p.1) f),
  ),
)
