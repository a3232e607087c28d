-- ===== src/RemoteFileBuffer/Reads.antt =====
-- `Read` takes from the front of the queue.
use native.Mathlib.Nat.{mod-lt}
use libre_connect.Base.{
  ℕ, ◌+◌, ◌-◌, ◌%◌, ◌≤◌, ◌≡◌, refl, sym, ap, ◌∙◌, ◌&&◌, List, length, take, drop, length-take,
  length-drop, ◌==◌, ==→eq, min, arith, Bool-cases, inl, inr, drop_all, take_all, le_or_lt,
}
use libre_connect.Wire.Buffer.{Buffer, write_at, write_at-nil}
use libre_connect.RemoteFileBuffer.{RemoteFileBuffer, ReadResult, fetch, read}
use libre_connect.RemoteFileBuffer.Ring.{
  contents_of, contents-Holds, Holds-contents, fetch-Holds, advance-Holds,
}
use libre_connect.RemoteFileBuffer.Queue.{
  IsWellFormed, call_read, got, step, queue_step, queue, Refines, refines, length-contents,
}

take-min : (n : ℕ) (xs : List ℕ) → take n xs ≡ take (min n (length xs)) xs
take-min n xs = elim (le_or_lt n (length xs)) [
  | inl short ↦ let e : min n (length xs) ≡ n = omega arith in ap (λ (i : ℕ). take i xs) (sym e)
  | inr long ↦ take_all n xs (omega arith) ∙ sym (take_all (min n (length xs)) xs (omega arith))
]

drop-min : (n : ℕ) (xs : List ℕ) → drop n xs ≡ drop (min n (length xs)) xs
drop-min n xs = elim (le_or_lt n (length xs)) [
  | inl short ↦ let e : min n (length xs) ≡ n = omega arith in ap (λ (i : ℕ). drop i xs) (sym e)
  | inr long ↦ drop_all n xs (omega arith) ∙ sym (drop_all (min n (length xs)) xs (omega arith))
]

abbrev reported : ℕ → RemoteFileBuffer → ReadResult
reported count b = record {
  bytes = count;
  finished = b.finished && (b.size - count == 0);
  failed = b.failed;
}

queue_read :
    (destination : Buffer) (b : RemoteFileBuffer) (count : ℕ)
    → IsWellFormed b
    → min (length destination) b.size ≡ count
    → queue_step (call_read destination) (queue b) ≡ (
      got
          (reported count b)
          (write_at destination 0 (take count (contents_of b.storage b.begin b.size))),
      record (queue b) { waiting = drop count (contents_of b.storage b.begin b.size) },
    )
unfolding queue_step
queue_read destination b count w e = λ i. (
  got
      (record {
        bytes = out_length i;
        finished = b.finished && (rest_length i == 0);
        failed = b.failed;
      })
      (write_at destination 0 (out i)),
  record (queue b) { waiting = rest i },
)
  where
    waiting : List ℕ
    waiting = contents_of b.storage b.begin b.size

    same : min (length destination) (length waiting) ≡ count
    same = ap (min (length destination)) (length-contents b w) ∙ e

    out : take (length destination) waiting ≡ take count waiting
    out = take-min (length destination) waiting ∙ ap (λ (i : ℕ). take i waiting) same

    rest : drop (length destination) waiting ≡ drop count waiting
    rest = drop-min (length destination) waiting ∙ ap (λ (i : ℕ). drop i waiting) same

    out_length : length (take (length destination) waiting) ≡ count
    out_length = omega (arith, length-take (length destination) waiting, same)

    rest_length : length (drop (length destination) waiting) ≡ b.size - count
    rest_length = omega (arith, length-drop (length destination) waiting, same, length-contents b w)

taken : ℕ → RemoteFileBuffer → RemoteFileBuffer
taken count b = record b { begin = (b.begin + count) % length b.storage; size = b.size - count }

taken-IsWellFormed :
    (count : ℕ) (b : RemoteFileBuffer) → IsWellFormed b → IsWellFormed (taken count b)
unfolding taken
taken-IsWellFormed count b w = record {
  start = mod-lt (b.begin + count) (omega (arith, w.start));
  bounded = omega (arith, w.bounded);
}

contents-taken :
    (count : ℕ) (b : RemoteFileBuffer)
    → IsWellFormed b
    → count ≤ b.size
    → queue (taken count b)
      ≡ record (queue b) { waiting = drop count (contents_of b.storage b.begin b.size) }
unfolding taken
contents-taken count b w h = λ i. record (queue b) {
  waiting =
      Holds-contents b.storage ((b.begin + count) % length b.storage) (b.size - count)
        (drop count (contents_of b.storage b.begin b.size))
        (advance-Holds b.storage b.begin count _
          (contents-Holds b.storage b.begin b.size w.start w.bounded) w.start
          (omega (arith, length-contents b w)))
        (omega
          (arith, length-drop count (contents_of b.storage b.begin b.size), length-contents b w))
        i;
}

pub read-Refines :
    (destination : Buffer) (b : RemoteFileBuffer)
    → IsWellFormed b
    → Refines (call_read destination) b
unfolding step read taken
read-Refines destination b w = elim (Bool-cases (min (length destination) b.size == 0)) [
  | inl none_left ↦
      let e : min (length destination) b.size ≡ 0 = ==→eq _ _ none_left in
      let z : b.size ≡ b.size - 0 = omega arith in
      refines (call_read destination) b {b' = b}
        (rw none_left (λ i. (
          got (record { bytes = e i; finished = b.finished && (z i == 0); failed = b.failed })
              (sym (write_at-nil destination 0) i),
          b,
        )))
        w (queue_read destination b 0 w e) refl
  | inr some_left ↦
      let count : ℕ = min (length destination) b.size in
      refines (call_read destination) b {b' = taken count b}
        (rw some_left (λ i. (got (reported count b) (fetched count refl i), taken count b)))
        (taken-IsWellFormed count b w) (queue_read destination b count w refl)
        (contents-taken count b w (omega arith))
]
  where
    fetched :
        (count : ℕ)
        → count ≡ min (length destination) b.size
        → fetch destination b.storage b.begin count
          ≡ write_at destination 0 (take count (contents_of b.storage b.begin b.size))
    fetched count e =
        fetch-Holds destination b.storage b.begin count _
          (contents-Holds b.storage b.begin b.size w.start w.bounded) w.start
          (omega (arith, length-contents b w)) (omega (arith, length-contents b w, w.bounded))
          (omega arith)
