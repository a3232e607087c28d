-- ===== src/RemoteFileBuffer/Refinement.antt =====
-- `Finish`, `SetCancelAction` and `Cancel`, and then every sequence of calls.

use libre_connect.Base.{
  ℕ, ◌≡◌, refl, ap, ◌∙◌, Bool, true, false, not, ◌||◌, ◌&&◌, List, [], ◌∷◌, ◌++◌, length,
  length-replicate, Option, none, some, Option-cases, max, arith, Bool-cases, inl, inr,
}
use libre_connect.RemoteFileBuffer.{
  RemoteFileBuffer, new, finish, cancelled, invoke_cancel, set_cancel_action, cancel,
}
use libre_connect.RemoteFileBuffer.Queue.{
  Queue, Call, Reply, IsWellFormed, call_try_write, call_read, call_finish, call_cancelled,
  call_set_cancel_action, call_cancel, done, step, queue_step, queue, fail, Refines, refines,
}
use libre_connect.RemoteFileBuffer.Writes.{try_write-Refines}
use libre_connect.RemoteFileBuffer.Reads.{read-Refines}

or_left : (a b : Bool) → (a || b) ≡ false → a ≡ false
or_left false b h = refl
or_left true b h = h

module _ (b : RemoteFileBuffer) (w : IsWellFormed b) where
  emptied-IsWellFormed :
      (action : Option ℕ) (ids : List ℕ)
      → IsWellFormed (record b {
        finished = true;
        failed = true;
        size = 0;
        cancel_action = action;
        invoked = ids;
      })
  emptied-IsWellFormed action ids = record { start = w.start; bounded = omega arith }

  finish-Refines : (success : Bool) → Refines (call_finish success) b
  unfolding step queue_step finish
  finish-Refines success = elim (Bool-cases (b.failed || not success)) [
    | inl bad ↦
        refines (call_finish success) b {r = done}
          {b' = record b { finished = true; failed = true; size = 0; cancel_action = none }}
          {q = fail (queue b)} (rw bad) (emptied-IsWellFormed none b.invoked) (rw bad) refl
    | inr good ↦
        refines (call_finish success) b {r = done}
          {b' = record b { finished = true; failed = false; cancel_action = none }}
          {q = record (queue b) { finished = true; failed = false; cancel_action = none }} (rw good)
          (record { start = w.start; bounded = w.bounded })
          (rw good (λ i. (
            done,
            record (queue b) {
              finished = true;
              failed = or_left b.failed (not success) good i;
              cancel_action = none;
            },
          )))
          refl
  ]

  invoked-IsWellFormed : (ids : List ℕ) → IsWellFormed (record b { invoked = ids })
  invoked-IsWellFormed ids = record { start = w.start; bounded = w.bounded }

  set_cancel_action-Refines : (action : Option ℕ) → Refines (call_set_cancel_action action) b
  unfolding step queue_step set_cancel_action invoke_cancel
  set_cancel_action-Refines action = elim (Bool-cases b.failed) [
    | inl gone ↦ elim action as (λ a. Refines (call_set_cancel_action a) b) [
      | none ↦
          refines (call_set_cancel_action none) b {r = done} {b' = b} {q = queue b} (rw gone) w
            (rw gone) refl
      | some a ↦
          refines (call_set_cancel_action (some a)) b {r = done}
            {b' = record b { invoked = b.invoked ++ (a ∷ []) }}
            {q = record (queue b) { invoked = b.invoked ++ (a ∷ []) }} (rw gone)
            (invoked-IsWellFormed (b.invoked ++ (a ∷ []))) (rw gone) refl
    ]
    | inr alive ↦ elim (Bool-cases b.finished) [
      | inl over ↦
          refines (call_set_cancel_action action) b {r = done} {b' = b} {q = queue b}
            (rw (alive, over)) w (rw (alive, over)) refl
      | inr running ↦
          refines (call_set_cancel_action action) b {r = done}
            {b' = record b { cancel_action = action }}
            {q = record (queue b) { cancel_action = action }} (rw (alive, running))
            (record { start = w.start; bounded = w.bounded }) (rw (alive, running)) refl
    ]
  ]

  cancel-Refines : Refines call_cancel b
  unfolding step queue_step cancel invoke_cancel
  cancel-Refines = elim (Bool-cases (b.finished && not b.failed)) [
    | inl over ↦ refines call_cancel b {r = done} {b' = b} {q = queue b} (rw over) w (rw over) refl
    | inr running ↦ elim (Option-cases b.cancel_action) [
      | inl e ↦
          refines call_cancel b {r = done}
            {b' = record b { finished = true; failed = true; size = 0; cancel_action = none }}
            {q = fail (queue b)} (rw (running, e)) (emptied-IsWellFormed none b.invoked)
            (rw (running, e)) refl
      | inr (a, e) ↦
          refines call_cancel b {r = done}
            {b' = record b {
              finished = true;
              failed = true;
              size = 0;
              cancel_action = none;
              invoked = b.invoked ++ (a ∷ []);
            }}
            {q = record (fail (queue b)) { invoked = b.invoked ++ (a ∷ []) }} (rw (running, e))
            (emptied-IsWellFormed none (b.invoked ++ (a ∷ []))) (rw (running, e)) refl
    ]
  ]

step-Refines : (c : Call) (b : RemoteFileBuffer) → IsWellFormed b → Refines c b
step-Refines (call_try_write bytes) b w = try_write-Refines bytes b w
step-Refines (call_read destination) b w = read-Refines destination b w
step-Refines (call_finish success) b w = finish-Refines b w success
step-Refines call_cancelled b w = unfold step queue_step cancelled in (w, (refl, refl))
step-Refines (call_set_cancel_action action) b w = set_cancel_action-Refines b w action
step-Refines call_cancel b w = cancel-Refines b w

-- A sequence of calls, in the order in which they take the mutex.
abbrev pub run : List Call → RemoteFileBuffer → List Reply × RemoteFileBuffer
run [] b = ([], b)
run (c ∷ cs) b = let (r, b') = step c b in let (rs, b'') = run cs b' in (r ∷ rs, b'')

abbrev pub queue_run : List Call → Queue → List Reply × Queue
queue_run [] q = ([], q)
queue_run (c ∷ cs) q =
    let (r, q') = queue_step c q in let (rs, q'') = queue_run cs q' in (r ∷ rs, q'')

-- From a well-formed buffer, every sequence of calls of the writer and the reader gets the replies
-- that a bounded first-in-first-out queue of bytes would give, the bytes that reads deliver and the
-- flags they report included; the buffer stays well formed and still stands for that queue.
pub run-queue_run :
    (cs : List Call) (b : RemoteFileBuffer)
    → IsWellFormed b
    → IsWellFormed (run cs b).1
      × (((run cs b).0 ≡ (queue_run cs (queue b)).0)
          × (queue (run cs b).1 ≡ (queue_run cs (queue b)).1))
run-queue_run [] b w = (w, (refl, refl))
run-queue_run (c ∷ cs) b w =
    let (w', (r, e)) = step-Refines c b w in
    let (w'', (rs, e')) = run-queue_run cs (step c b).1 w' in
    (
      w'',
      (
        (λ i. r i ∷ (rs ∙ ap (λ (q : Queue). (queue_run cs q).0) e) i),
        e' ∙ ap (λ (q : Queue). (queue_run cs q).1) e,
      ),
    )

-- A new buffer is well formed and empty, whatever capacity is asked for, zero included.
pub new-queue :
    (capacity : ℕ)
    → IsWellFormed (new capacity)
      × ((length (new capacity).storage ≡ max 1 capacity) × ((queue (new capacity)).waiting ≡ []))
unfolding new
new-queue capacity = (
  record {
    start = omega (arith, length-replicate {A = ℕ} (max 1 capacity) 0);
    bounded = omega arith;
  },
  (length-replicate (max 1 capacity) 0, refl),
)
