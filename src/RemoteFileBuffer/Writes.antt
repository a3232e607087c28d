-- ===== src/RemoteFileBuffer/Writes.antt =====
-- `TryWrite` appends to the queue, or refuses.
use native.Mathlib.Nat.{mod-lt}
use libre_connect.Base.{
  ℕ, ◌+◌, ◌-◌, ◌%◌, ◌≤◌, ◌≡◌, refl, sym, ap, ◌∙◌, Bool, true, false, ◌||◌, List, ◌++◌, length,
  length-append, ltb, arith, Bool-cases, inl, inr,
}
use libre_connect.RemoteFileBuffer.{RemoteFileBuffer, put, try_write}
use libre_connect.RemoteFileBuffer.Ring.{
  contents_of, contents-Holds, Holds-contents, put-Holds, length-put,
}
use libre_connect.RemoteFileBuffer.Queue.{
  IsWellFormed, call_try_write, answer, step, queue_step, queue, Refines, refines, length-contents,
}

refuses : List ℕ → RemoteFileBuffer → Bool
refuses bytes b = b.finished || ltb (length b.storage - b.size) (length bytes)

same_guard :
    (bytes : List ℕ) (b : RemoteFileBuffer)
    → IsWellFormed b
    → refuses bytes b ≡ (
        b.finished
        || ltb (length b.storage) (length (contents_of b.storage b.begin b.size) + length bytes))
unfolding refuses
same_guard bytes b w = ap (◌||◌ b.finished) (
    same_ltb (length b.storage) b.size (length bytes) w.bounded
    ∙ ap (λ (n : ℕ). ltb (length b.storage) (n + length bytes)) (sym (length-contents b w)))
  where
    same_ltb : (n m k : ℕ) → m ≤ n → ltb (n - m) k ≡ ltb n (m + k)
    same_ltb n m k h = ground arith

stored : List ℕ → RemoteFileBuffer → RemoteFileBuffer
stored bytes b = record b {
  storage = put b.storage ((b.begin + b.size) % length b.storage) bytes;
  size = b.size + length bytes;
}

free :
    (bytes : List ℕ) (b : RemoteFileBuffer)
    → refuses bytes b ≡ false
    → length bytes ≤ length b.storage - b.size
unfolding refuses
free bytes b h = ground arith

length-stored :
    (bytes : List ℕ) (b : RemoteFileBuffer)
    → IsWellFormed b
    → refuses bytes b ≡ false
    → length (stored bytes b).storage ≡ length b.storage
unfolding stored
length-stored bytes b w h =
    length-put b.storage ((b.begin + b.size) % length b.storage) bytes
      (mod-lt (b.begin + b.size) (omega (arith, w.start))) (omega (arith, free bytes b h))

stored-IsWellFormed :
    (bytes : List ℕ) (b : RemoteFileBuffer)
    → IsWellFormed b
    → refuses bytes b ≡ false
    → IsWellFormed (stored bytes b)
unfolding stored
stored-IsWellFormed bytes b w h = record {
  start = omega (arith, w.start, length-stored bytes b w h);
  bounded = omega (arith, w.bounded, free bytes b h, length-stored bytes b w h);
}

contents-stored :
    (bytes : List ℕ) (b : RemoteFileBuffer)
    → IsWellFormed b
    → refuses bytes b ≡ false
    → queue (stored bytes b)
      ≡ record (queue b) { waiting = contents_of b.storage b.begin b.size ++ bytes }
unfolding stored
contents-stored bytes b w h = λ i. record (queue b) {
  capacity = length-stored bytes b w h i;
  waiting =
      Holds-contents (stored bytes b).storage b.begin (b.size + length bytes)
        (contents_of b.storage b.begin b.size ++ bytes)
        (put-Holds b.storage b.begin b.size _ bytes
          (contents-Holds b.storage b.begin b.size w.start w.bounded) (length-contents b w) w.start
          (omega (arith, w.bounded, free bytes b h)))
        (omega
          (arith, length-append (contents_of b.storage b.begin b.size) bytes, length-contents b w))
        i;
}

pub try_write-Refines :
    (bytes : List ℕ) (b : RemoteFileBuffer) → IsWellFormed b → Refines (call_try_write bytes) b
unfolding step queue_step try_write refuses stored
try_write-Refines bytes b w = elim (Bool-cases (refuses bytes b)) [
  | inl full ↦
      refines (call_try_write bytes) b {r = answer false} {b' = b} {q = queue b} (rw full) w
        (rw (sym (same_guard bytes b w) ∙ full)) refl
  | inr room ↦
      refines (call_try_write bytes) b {r = answer true} {b' = stored bytes b}
        {q = record (queue b) { waiting = contents_of b.storage b.begin b.size ++ bytes }} (rw room)
        (stored-IsWellFormed bytes b w room) (rw (sym (same_guard bytes b w) ∙ room))
        (contents-stored bytes b w room)
]
