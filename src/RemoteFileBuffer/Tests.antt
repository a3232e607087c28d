-- ===== src/RemoteFileBuffer/Tests.antt =====
-- Runs of a small ring that goes round.
use libre_connect.Base.{ap, ◌∙◌, ◌≡◌, refl, true, false, List, [], ◌∷◌, ◌++◌, arith, none, some}
use libre_connect.RemoteFileBuffer.{RemoteFileBuffer}
use libre_connect.RemoteFileBuffer.Queue.{
  Call, IsWellFormed, call_try_write, call_read, call_finish, call_set_cancel_action, queue,
  queue_step, Queue,
}
use libre_connect.RemoteFileBuffer.Refinement.{run, queue_run, run-queue_run}
use libre_connect.RemoteFileBuffer.Stream.{all_accepted, all_delivered, run-stream}

-- Four places, of which the last is full.
abbrev ring : RemoteFileBuffer
ring = record {
  storage = 10 ∷ 11 ∷ 12 ∷ 13 ∷ [];
  begin = 3;
  size = 1;
  finished = false;
  failed = false;
  cancel_action = none;
  invoked = [];
}

abbrev calls : List Call
calls =
    call_set_cancel_action (some 7)
    ∷ call_try_write (1 ∷ 2 ∷ 3 ∷ [])
    ∷ call_try_write (4 ∷ [])
    ∷ call_read (0 ∷ 0 ∷ [])
    ∷ call_try_write (5 ∷ 6 ∷ [])
    ∷ call_finish true
    ∷ call_read (0 ∷ 0 ∷ 0 ∷ 0 ∷ 0 ∷ 0 ∷ [])
    ∷ []

ring-IsWellFormed : IsWellFormed ring
ring-IsWellFormed = record { start = omega arith; bounded = omega arith }

run-queue_run_example :
    IsWellFormed (run calls ring).1
    × (((run calls ring).0 ≡ (queue_run calls (queue ring)).0)
        × (queue (run calls ring).1 ≡ (queue_run calls (queue ring)).1))
run-queue_run_example = run-queue_run calls ring ring-IsWellFormed

queue_working : (queue_run calls (queue ring)).1.failed ≡ false
unfolding queue_step
queue_working = refl

still_working : (run calls ring).1.failed ≡ false
still_working =
    ap (λ (q : Queue). q.failed) (run-queue_run calls ring ring-IsWellFormed).1.1 ∙ queue_working

run-stream_example :
    (queue ring).waiting ++ all_accepted calls (run calls ring).0
    ≡ all_delivered (run calls ring).0 ++ (queue (run calls ring).1).waiting
run-stream_example = run-stream calls ring ring-IsWellFormed still_working

broken-IsWellFormed : IsWellFormed (record ring { finished = true; failed = true; size = 0 })
broken-IsWellFormed = record { start = omega arith; bounded = omega arith }
