-- ===== src/RemoteFileBuffer/Stream.antt =====
-- No byte is lost, doubled or moved between the writer and the reader.
use libre_connect.Base.{
  ℕ, ◌≡◌, refl, sym, ap, ◌∙◌, Bool, true, false, not, ◌||◌, ◌&&◌, List, [], ◌∷◌, ◌++◌, append-nil,
  append_assoc, length, take, drop, length-take, take-append-drop, Option, none, some, arith,
  Bool-cases, inl, inr, if◌then◌else◌,
}
use libre_connect.Wire.Buffer.{Buffer, write_at, take-write_at}
use libre_connect.RemoteFileBuffer.{RemoteFileBuffer}
use libre_connect.RemoteFileBuffer.Queue.{
  Queue, Call, Reply, IsWellFormed, call_try_write, call_read, call_finish, call_cancelled,
  call_set_cancel_action, call_cancel, answer, got, queue_step, queue, invoke, fail,
}
use libre_connect.RemoteFileBuffer.Refinement.{run, queue_run, run-queue_run}

-- The bytes that one call puts in, and those that it gets out.
abbrev pub accepted : Call → Reply → List ℕ
accepted (call_try_write bytes) (answer true) = bytes
accepted _ _ = []

abbrev pub delivered : Reply → List ℕ
delivered (got r destination) = take r.bytes destination
delivered _ = []

abbrev pub all_accepted : List Call → List Reply → List ℕ
all_accepted (c ∷ cs) (r ∷ rs) = accepted c r ++ all_accepted cs rs
all_accepted _ _ = []

abbrev pub all_delivered : List Reply → List ℕ
all_delivered [] = []
all_delivered (r ∷ rs) = delivered r ++ all_delivered rs

true≢false : {X : Type 0} → true ≡ false → X
true≢false h = cc

invoke-failed : (action : Option ℕ) (q : Queue) → (invoke action q).failed ≡ q.failed
invoke-failed none q = refl
invoke-failed (some a) q = refl

invoke-waiting : (action : Option ℕ) (q : Queue) → (invoke action q).waiting ≡ q.waiting
invoke-waiting none q = refl
invoke-waiting (some a) q = refl

abbrev write_reply : Bool → Queue → List ℕ → Reply × Queue
write_reply g q bytes =
    if g then (answer false, q) else (answer true, record q { waiting = q.waiting ++ bytes })

write_failed :
    (g : Bool) (q : Queue) (bytes : List ℕ)
    → q.failed ≡ true
    → (write_reply g q bytes).1.failed ≡ true
write_failed true q bytes h = h
write_failed false q bytes h = h

write_stream :
    (g : Bool) (q : Queue) (bytes : List ℕ)
    → q.waiting ++ accepted (call_try_write bytes) (write_reply g q bytes).0
      ≡ delivered (write_reply g q bytes).0 ++ (write_reply g q bytes).1.waiting
write_stream true q bytes = append-nil q.waiting
write_stream false q bytes = refl

abbrev after_finish : Bool → Queue → Queue
after_finish g q = if g then fail q else record q { finished = true; cancel_action = none }

finish_failed : (g : Bool) (q : Queue) → q.failed ≡ true → (after_finish g q).failed ≡ true
finish_failed true q h = refl
finish_failed false q h = h

finish_stream :
    (g : Bool) (q : Queue)
    → (after_finish g q).failed ≡ false
    → q.waiting ++ [] ≡ (after_finish g q).waiting
finish_stream true q h = true≢false h
finish_stream false q h = append-nil q.waiting

abbrev after_set : Bool → Bool → Option ℕ → Queue → Queue
after_set g k action q =
    if g then invoke action q else if k then q else record q { cancel_action = action }

set_failed :
    (g k : Bool) (action : Option ℕ) (q : Queue)
    → q.failed ≡ true
    → (after_set g k action q).failed ≡ true
set_failed true k action q h = invoke-failed action q ∙ h
set_failed false true action q h = h
set_failed false false action q h = h

set_waiting :
    (g k : Bool) (action : Option ℕ) (q : Queue)
    → q.waiting ++ [] ≡ (after_set g k action q).waiting
set_waiting true k action q = append-nil q.waiting ∙ sym (invoke-waiting action q)
set_waiting false true action q = append-nil q.waiting
set_waiting false false action q = append-nil q.waiting

abbrev after_cancel : Bool → Queue → Queue
after_cancel g q = if g then q else invoke q.cancel_action (fail q)

cancel_failed : (g : Bool) (q : Queue) → q.failed ≡ true → (after_cancel g q).failed ≡ true
cancel_failed true q h = h
cancel_failed false q h = invoke-failed q.cancel_action (fail q)

cancel_stream :
    (g : Bool) (q : Queue)
    → (after_cancel g q).failed ≡ false
    → q.waiting ++ [] ≡ (after_cancel g q).waiting
cancel_stream true q h = append-nil q.waiting
cancel_stream false q h = true≢false (sym (invoke-failed q.cancel_action (fail q)) ∙ h)

-- A buffer that has failed stays so.
step-failed : (c : Call) (q : Queue) → q.failed ≡ true → (queue_step c q).1.failed ≡ true
unfolding queue_step
step-failed (call_try_write bytes) q h = write_failed _ q bytes h
step-failed (call_read destination) q h = h
step-failed (call_finish success) q h = finish_failed (q.failed || not success) q h
step-failed call_cancelled q h = h
step-failed (call_set_cancel_action action) q h = set_failed q.failed q.finished action q h
step-failed call_cancel q h = cancel_failed (q.finished && not q.failed) q h

read_stream :
    (destination : Buffer) (xs : List ℕ)
    → xs ++ []
      ≡ take
          (length (take (length destination) xs))
          (write_at destination 0 (take (length destination) xs))
        ++ drop (length destination) xs
read_stream destination xs =
    append-nil xs
    ∙ sym (take-append-drop (length destination) xs)
    ∙ ap (λ (l : List ℕ). l ++ drop (length destination) xs)
        (sym (
          take-write_at destination 0 (take (length destination) xs)
            (length (take (length destination) xs))
            (omega (arith, length-take (length destination) xs)) (omega arith)))

-- One call puts its bytes behind those that wait, or takes from their front.
step-stream :
    (c : Call) (q : Queue)
    → (queue_step c q).1.failed ≡ false
    → q.waiting ++ accepted c (queue_step c q).0
      ≡ delivered (queue_step c q).0 ++ (queue_step c q).1.waiting
unfolding queue_step
step-stream (call_try_write bytes) q h = write_stream _ q bytes
step-stream (call_read destination) q h = read_stream destination q.waiting
step-stream (call_finish success) q h = finish_stream (q.failed || not success) q h
step-stream call_cancelled q h = append-nil q.waiting
step-stream (call_set_cancel_action action) q h = set_waiting q.failed q.finished action q
step-stream call_cancel q h = cancel_stream (q.finished && not q.failed) q h

queue_run-failed : (cs : List Call) (q : Queue) → q.failed ≡ true → (queue_run cs q).1.failed ≡ true
queue_run-failed [] q h = h
queue_run-failed (c ∷ cs) q h = queue_run-failed cs (queue_step c q).1 (step-failed c q h)

queue_run-stream :
    (cs : List Call) (q : Queue)
    → (queue_run cs q).1.failed ≡ false
    → q.waiting ++ all_accepted cs (queue_run cs q).0
      ≡ all_delivered (queue_run cs q).0 ++ (queue_run cs q).1.waiting
queue_run-stream [] q h = append-nil q.waiting
queue_run-stream (c ∷ cs) q h =
    sym (append_assoc q.waiting (accepted c (queue_step c q).0) _)
    ∙ ap (λ (l : List ℕ). l ++ all_accepted cs (queue_run cs (queue_step c q).1).0)
        (step-stream c q alive)
    ∙ append_assoc (delivered (queue_step c q).0) _ _
    ∙ ap (◌++◌ (delivered (queue_step c q).0)) (queue_run-stream cs (queue_step c q).1 h)
    ∙ sym (append_assoc (delivered (queue_step c q).0) _ _)
  where
    alive : (queue_step c q).1.failed ≡ false
    alive = elim (Bool-cases (queue_step c q).1.failed) [
      | inl gone ↦ true≢false (sym (queue_run-failed cs (queue_step c q).1 gone) ∙ h)
      | inr fine ↦ fine
    ]

-- For every sequence of calls from a well-formed buffer that does not end in failure: what waited at
-- first and then the bytes of the accepted writes, in order, are the bytes that the reads delivered,
-- in order, and then what still waits. Bytes are not lost, doubled or moved over the end of the ring.
pub run-stream :
    (cs : List Call) (b : RemoteFileBuffer)
    → IsWellFormed b
    → (run cs b).1.failed ≡ false
    → (queue b).waiting ++ all_accepted cs (run cs b).0
      ≡ all_delivered (run cs b).0 ++ (queue (run cs b).1).waiting
run-stream cs b w h =
    let (_, (rs, e)) = run-queue_run cs b w in
    ap (λ (l : List Reply). (queue b).waiting ++ all_accepted cs l) rs
    ∙ queue_run-stream cs (queue b) (sym (ap (λ (q : Queue). q.failed) e) ∙ h)
    ∙ sym (λ i. all_delivered (rs i) ++ (e i).waiting)

-- Once a sequence of calls has made the buffer fail, no later call makes it work again.
pub run-failed :
    (cs : List Call) (b : RemoteFileBuffer)
    → IsWellFormed b
    → b.failed ≡ true
    → (run cs b).1.failed ≡ true
run-failed cs b w h =
    let (_, (_, e)) = run-queue_run cs b w in
    ap (λ (q : Queue). q.failed) e ∙ queue_run-failed cs (queue b) h
