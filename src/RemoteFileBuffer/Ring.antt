-- ===== src/RemoteFileBuffer/Ring.antt =====
-- The ring of `RemoteFileBuffer` as a sequence of bytes: what the two `memcpy` of `TryWrite` and of
-- `Read` do to it.
use native.Mathlib.Nat.{mod-eq_of_lt, mod-eq-sub-mod}
use libre_connect.Base.{
  ℕ, ◌+◌, ◌-◌, ◌%◌, ◌≤◌, ◌<◌, ◌≡◌, refl, sym, ap, ◌∙◌, List, [], ◌++◌, append_assoc, append-nil,
  length, take, drop, length-append, length-take, length-drop, take-append, drop-append,
  take-append_le, drop-append_le, take-append-drop, take_all, drop_all, drop-drop, take-add, arith,
  le_or_lt, inl, inr, min,
}
use libre_connect.Wire.Buffer.{
  Buffer, write_at, length-write_at, write_at_second, write_at-nil, write_at-write_at,
}
use libre_connect.RemoteFileBuffer.{put, fetch}

-- The ring at `begin` holds those bytes: in one piece, or over the end of the storage.
pub data Holds (storage : Buffer) (begin : ℕ) (bytes : List ℕ) : Type 0 where
  flat :
      (before behind : List ℕ)
      → storage ≡ before ++ (bytes ++ behind)
      → length before ≡ begin
      → Holds storage begin bytes
  wrapped :
      (front gap back : List ℕ)
      → storage ≡ front ++ (gap ++ back)
      → length front + length gap ≡ begin
      → bytes ≡ back ++ front
      → Holds storage begin bytes

-- The bytes that the reader has not taken yet.
abbrev pub contents_of : Buffer → ℕ → ℕ → List ℕ
contents_of storage begin size = take size (drop begin storage ++ take begin storage)

mod_low : (a n : ℕ) → a < n → a % n ≡ a
mod_low a n h = mod-eq_of_lt h

mod_high : (a n : ℕ) → n ≤ a → a < n + n → a % n ≡ a - n
mod_high a n h k = mod-eq-sub-mod h ∙ mod-eq_of_lt (omega arith)

pub length-window :
    (storage : Buffer) (begin size : ℕ)
    → begin < length storage
    → size ≤ length storage
    → length (contents_of storage begin size) ≡ size
length-window storage begin size h k = omega (
  arith,
  length-take size (drop begin storage ++ take begin storage),
  length-append (drop begin storage) (take begin storage),
  length-drop begin storage,
  length-take begin storage,
)

pub contents-Holds :
    (storage : Buffer) (begin size : ℕ)
    → begin < length storage
    → size ≤ length storage
    → Holds storage begin (contents_of storage begin size)
contents-Holds storage begin size h k = elim (le_or_lt (begin + size) (length storage)) [
  | inl straight ↦
      flat (take begin storage) (drop size (drop begin storage))
        (sym (take-append-drop begin storage)
          ∙ ap (◌++◌ (take begin storage)) (
              sym (take-append-drop size (drop begin storage))
              ∙ ap (λ (l : List ℕ). l ++ drop size (drop begin storage))
                  (sym (
                    take-append_le size (drop begin storage) _
                      (omega (arith, length-drop begin storage))))))
        (omega (arith, length-take begin storage))
  | inr around ↦
      let over : ℕ = begin + size - length storage in
      let split : take begin storage
          ≡ take over (take begin storage) ++ drop over (take begin storage) =
        sym (take-append-drop over (take begin storage)) in
      wrapped (take over (take begin storage)) (drop over (take begin storage)) (drop begin storage)
        (sym (take-append-drop begin storage)
          ∙ ap (λ (l : List ℕ). l ++ drop begin storage) split
          ∙ append_assoc _ _ (drop begin storage))
        (omega (
          arith,
          length-take over (take begin storage),
          length-drop over (take begin storage),
          length-take begin storage,
        ))
        (ap (λ (l : List ℕ). take size (drop begin storage ++ l)) split
          ∙ ap (take size) (sym (append_assoc (drop begin storage) _ _))
          ∙ take-append size (drop begin storage ++ take over (take begin storage)) _ (
              omega (
                arith,
                length-append (drop begin storage) (take over (take begin storage)),
                length-drop begin storage,
                length-take over (take begin storage),
                length-take begin storage,
              )))
]

pub Holds-contents :
    (storage : Buffer) (begin size : ℕ) (bytes : List ℕ)
    → Holds storage begin bytes
    → length bytes ≡ size
    → contents_of storage begin size ≡ bytes
Holds-contents storage begin size bytes (flat before behind e l) n =
    ap (λ (s : List ℕ). take size (drop begin s ++ take begin storage)) e
    ∙ ap (λ (s : List ℕ). take size (s ++ take begin storage))
        (drop-append begin before (bytes ++ behind) l)
    ∙ ap (take size) (append_assoc bytes behind (take begin storage))
    ∙ take-append size bytes _ n
Holds-contents storage begin size bytes (wrapped front gap back e l w) n =
    let e' : storage ≡ (front ++ gap) ++ back = e ∙ sym (append_assoc front gap back) in
    let l' : length (front ++ gap) ≡ begin = length-append front gap ∙ l in
    ap (take size) (
      ap (λ (s : List ℕ). s ++ take begin storage)
        (ap (drop begin) e' ∙ drop-append begin (front ++ gap) back l')
      ∙ ap (λ (s : List ℕ). back ++ s)
          (ap (take begin) e' ∙ take-append begin (front ++ gap) back l')
      ∙ sym (append_assoc back front gap)
      ∙ ap (λ (s : List ℕ). s ++ gap) (sym w))
    ∙ take-append size bytes gap n

put_whole :
    (storage : Buffer) (position : ℕ) (bytes : List ℕ)
    → length bytes ≤ length storage - position
    → put storage position bytes ≡ write_at storage position bytes
unfolding put
put_whole storage position bytes h =
    let e : min (length bytes) (length storage - position) ≡ length bytes = omega arith in
    ap (λ (n : ℕ). write_at (write_at storage position (take n bytes)) 0 (drop n bytes)) e
    ∙ ap (λ (l : List ℕ). write_at (write_at storage position l) 0 (drop (length bytes) bytes))
        (take_all (length bytes) bytes (omega arith))
    ∙ ap (write_at (write_at storage position bytes) 0)
        (drop_all (length bytes) bytes (omega arith))
    ∙ write_at-nil _ 0

put_around :
    (before bytes : List ℕ) (behind : List ℕ) (position : ℕ)
    → length before ≡ position
    → length behind ≤ length bytes
    → length bytes - length behind ≤ length before
    → put (before ++ behind) position bytes
      ≡ drop (length behind) bytes
        ++ (drop (length bytes - length behind) before ++ take (length behind) bytes)
unfolding put
put_around before bytes behind position h k l =
    let e : min (length bytes) (length (before ++ behind) - position) ≡ length behind =
      omega (arith, length-append before behind) in
    let q : ℕ = length behind in
    ap (λ (n : ℕ). write_at (write_at (before ++ behind) position (take n bytes)) 0 (drop n bytes))
      e
    ∙ ap (λ (s : List ℕ). write_at s 0 (drop q bytes))
        (write_at_second before behind (take q bytes) position h
          ∙ ap (λ (s : List ℕ). before ++ (take q bytes ++ s))
              (drop_all (length (take q bytes)) behind (omega (arith, length-take q bytes)))
          ∙ ap (◌++◌ before) (append-nil (take q bytes)))
    ∙ write_at_second [] (before ++ take q bytes) (drop q bytes) 0 refl
    ∙ ap (◌++◌ (drop q bytes)) (
        ap (λ (n : ℕ). drop n (before ++ take q bytes)) (length-drop q bytes)
        ∙ drop-append_le (length bytes - q) before (take q bytes) l)

-- `TryWrite` appends to the contents.
pub put-Holds :
    (storage : Buffer) (begin size : ℕ) (held bytes : List ℕ)
    → Holds storage begin held
    → length held ≡ size
    → begin < length storage
    → size + length bytes ≤ length storage
    → Holds (put storage ((begin + size) % length storage) bytes) begin (held ++ bytes)
put-Holds storage begin size held bytes (flat before behind e l) n h k =
    let n₀ : length storage ≡ length before + (size + length behind) =
      omega
        (arith, ap length e, length-append before (held ++ behind), length-append held behind) in
    let n₁ : length (before ++ held) ≡ begin + size = omega (arith, length-append before held) in
    let e' : storage ≡ (before ++ held) ++ behind = e ∙ sym (append_assoc before held behind) in
    elim (le_or_lt (length storage) (begin + size)) [
      | inl full ↦
          let z : (begin + size) % length storage ≡ 0 =
            mod_high (begin + size) (length storage) full (omega arith) ∙ omega arith in
          wrapped bytes (drop (length bytes) before) (held ++ behind)
            (ap (λ (i : ℕ). put storage i bytes) z
              ∙ put_whole storage 0 bytes (omega arith)
              ∙ ap (λ (s : List ℕ). write_at s 0 bytes) e
              ∙ write_at_second [] (before ++ (held ++ behind)) bytes 0 refl
              ∙ ap (◌++◌ bytes) (drop-append_le (length bytes) before _ (omega arith)))
            (omega (arith, length-drop (length bytes) before))
            (ap (λ (s : List ℕ). s ++ bytes)
              (sym (append-nil held) ∙ ap (◌++◌ held) (sym (drop_all 0 behind (omega arith)))))
      | inr room ↦
          let z : (begin + size) % length storage ≡ begin + size =
            mod_low (begin + size) (length storage) room in
          elim (le_or_lt (length bytes) (length behind)) [
            | inl fits ↦
                flat before (drop (length bytes) behind)
                  (ap (λ (i : ℕ). put storage i bytes) z
                    ∙ put_whole storage (begin + size) bytes (omega arith)
                    ∙ ap (λ (s : List ℕ). write_at s (begin + size) bytes) e'
                    ∙ write_at_second (before ++ held) behind bytes (begin + size) n₁
                    ∙ append_assoc before held _
                    ∙ ap (◌++◌ before) (sym (append_assoc held bytes _)))
                  l
            | inr around ↦
                wrapped (drop (length behind) bytes) (drop (length bytes - length behind) before)
                  (held ++ take (length behind) bytes)
                  (ap (λ (i : ℕ). put storage i bytes) z
                    ∙ ap (λ (s : List ℕ). put s (begin + size) bytes) e'
                    ∙ put_around (before ++ held) bytes behind (begin + size) n₁ (omega arith)
                        (omega arith)
                    ∙ ap
                        (λ (s : List ℕ).
                          drop (length behind) bytes ++ (s ++ take (length behind) bytes))
                        (drop-append_le (length bytes - length behind) before held (omega arith))
                    ∙ ap (◌++◌ (drop (length behind) bytes)) (append_assoc _ held _))
                  (omega (
                    arith,
                    length-drop (length behind) bytes,
                    length-drop (length bytes - length behind) before,
                  ))
                  (ap (◌++◌ held) (sym (take-append-drop (length behind) bytes))
                    ∙ sym (append_assoc held _ _))
          ]
    ]
put-Holds storage begin size held bytes (wrapped front gap back e l w) n h k =
    let n₀ : length storage ≡ length front + (length gap + length back) =
      omega (arith, ap length e, length-append front (gap ++ back), length-append gap back) in
    let n₁ : length held ≡ length back + length front = ap length w ∙ length-append back front in
    let z : (begin + size) % length storage ≡ length front =
      mod_high (begin + size) (length storage) (omega arith) (omega arith) ∙ omega arith in
    wrapped (front ++ bytes) (drop (length bytes) gap) back
      (ap (λ (i : ℕ). put storage i bytes) z
        ∙ put_whole storage (length front) bytes (omega arith)
        ∙ ap (λ (s : List ℕ). write_at s (length front) bytes) e
        ∙ write_at_second front (gap ++ back) bytes (length front) refl
        ∙ ap (λ (s : List ℕ). front ++ (bytes ++ s))
            (drop-append_le (length bytes) gap back (omega arith))
        ∙ sym (append_assoc front bytes _))
      (omega (arith, length-append front bytes, length-drop (length bytes) gap))
      (ap (λ (s : List ℕ). s ++ bytes) w ∙ append_assoc back front bytes)

-- The bytes of a read come in two pieces.
window : Buffer → ℕ → ℕ → List ℕ
window storage begin count =
    let first = min count (length storage - begin) in
    take first (drop begin storage) ++ take (count - first) storage

fetch-window :
    (destination storage : Buffer) (begin count : ℕ)
    → begin < length storage
    → count ≤ length storage
    → count ≤ length destination
    → fetch destination storage begin count ≡ write_at destination 0 (window storage begin count)
unfolding fetch window
fetch-window destination storage begin count h k l =
    let first : ℕ = min count (length storage - begin) in
    write_at-write_at destination 0 first (take first (drop begin storage))
      (take (count - first) storage)
      (omega (arith, length-take first (drop begin storage), length-drop begin storage))
      (omega (arith, length-take (count - first) storage))

window-Holds :
    (storage : Buffer) (begin count : ℕ) (held : List ℕ)
    → Holds storage begin held
    → begin < length storage
    → count ≤ length held
    → window storage begin count ≡ take count held
unfolding window
window-Holds storage begin count held (flat before behind e l) h k =
    let n₀ : length storage ≡ length before + (length held + length behind) =
      omega
        (arith, ap length e, length-append before (held ++ behind), length-append held behind) in
    let z : min count (length storage - begin) ≡ count = omega arith in
    let z' : count - count ≡ 0 = omega arith in
    ap (λ (i : ℕ). take i (drop begin storage) ++ take (count - i) storage) z
    ∙ ap (λ (i : ℕ). take count (drop begin storage) ++ take i storage) z'
    ∙ append-nil _
    ∙ ap (take count) (ap (drop begin) e ∙ drop-append begin before (held ++ behind) l)
    ∙ take-append_le count held behind k
window-Holds storage begin count held (wrapped front gap back e l w) h k =
    let n₀ : length storage ≡ length front + (length gap + length back) =
      omega (arith, ap length e, length-append front (gap ++ back), length-append gap back) in
    let n₁ : length held ≡ length back + length front = ap length w ∙ length-append back front in
    let tail : drop begin storage ≡ back =
      ap (drop begin) (e ∙ sym (append_assoc front gap back))
      ∙ drop-append begin (front ++ gap) back (length-append front gap ∙ l) in
    elim (le_or_lt count (length back)) [
      | inl one ↦
          let z : min count (length storage - begin) ≡ count = omega arith in
          let z' : count - count ≡ 0 = omega arith in
          ap (λ (i : ℕ). take i (drop begin storage) ++ take (count - i) storage) z
          ∙ ap (λ (i : ℕ). take count (drop begin storage) ++ take i storage) z'
          ∙ append-nil _
          ∙ ap (take count) tail
          ∙ sym (take-append_le count back front one)
          ∙ ap (take count) (sym w)
      | inr two ↦
          let z : min count (length storage - begin) ≡ length back = omega arith in
          let m : ℕ = count - length back in
          let z' : length back + m ≡ count = omega arith in
          ap (λ (i : ℕ). take i (drop begin storage) ++ take (count - i) storage) z
          ∙ ap (λ (s : List ℕ). take (length back) s ++ take m storage) tail
          ∙ ap (λ (s : List ℕ). s ++ take m storage) (take_all (length back) back (omega arith))
          ∙ ap (◌++◌ back) (ap (take m) e ∙ take-append_le m front (gap ++ back) (omega arith))
          ∙ sym (
              ap (λ (i : ℕ). take i (back ++ front)) (sym z')
              ∙ take-add (length back) m (back ++ front)
              ∙ ap (λ (s : List ℕ). s ++ take m (drop (length back) (back ++ front)))
                  (take-append (length back) back front refl)
              ∙ ap (λ (s : List ℕ). back ++ take m s) (drop-append (length back) back front refl))
          ∙ ap (take count) (sym w)
    ]

-- `Read` writes the first bytes of the contents to the destination.
pub fetch-Holds :
    (destination storage : Buffer) (begin count : ℕ) (held : List ℕ)
    → Holds storage begin held
    → begin < length storage
    → count ≤ length held
    → length held ≤ length storage
    → count ≤ length destination
    → fetch destination storage begin count ≡ write_at destination 0 (take count held)
fetch-Holds destination storage begin count held d h k m l =
    fetch-window destination storage begin count h (omega arith) l
    ∙ ap (write_at destination 0) (window-Holds storage begin count held d h k)

-- Then the rest of the contents stands at the new start.
pub advance-Holds :
    (storage : Buffer) (begin count : ℕ) (held : List ℕ)
    → Holds storage begin held
    → begin < length storage
    → count ≤ length held
    → Holds storage ((begin + count) % length storage) (drop count held)
advance-Holds storage begin count held (flat before behind e l) h k =
    let n₀ : length storage ≡ length before + (length held + length behind) =
      omega
        (arith, ap length e, length-append before (held ++ behind), length-append held behind) in
    elim (le_or_lt (length storage) (begin + count)) [
      | inl end ↦
          flat [] storage
            (ap (λ (s : List ℕ). s ++ storage) (sym (drop_all count held (omega arith))))
            (sym (mod_high (begin + count) (length storage) end (omega arith) ∙ omega arith))
      | inr inside ↦
          flat (before ++ take count held) behind
            (e
              ∙ ap (λ (s : List ℕ). before ++ (s ++ behind)) (sym (take-append-drop count held))
              ∙ ap (◌++◌ before) (append_assoc (take count held) (drop count held) behind)
              ∙ sym (append_assoc before (take count held) _))
            (omega (
              arith,
              length-append before (take count held),
              length-take count held,
              mod_low (begin + count) (length storage) inside,
            ))
    ]
advance-Holds storage begin count held (wrapped front gap back e l w) h k =
    let n₀ : length storage ≡ length front + (length gap + length back) =
      omega (arith, ap length e, length-append front (gap ++ back), length-append gap back) in
    let n₁ : length held ≡ length back + length front = ap length w ∙ length-append back front in
    elim (le_or_lt (length storage) (begin + count)) [
      | inl end ↦
          let m : ℕ = count - length back in
          let z : (begin + count) % length storage ≡ m =
            mod_high (begin + count) (length storage) end (omega arith) ∙ omega arith in
          let left : drop count held ≡ drop m front =
            ap (drop count) w
            ∙ sym (drop-drop (length back) m count (back ++ front) (omega arith))
            ∙ ap (drop m) (drop-append (length back) back front refl) in
          flat (take m front) (gap ++ back)
            (e
              ∙ ap (λ (s : List ℕ). s ++ (gap ++ back)) (sym (take-append-drop m front))
              ∙ append_assoc (take m front) (drop m front) _
              ∙ ap (λ (s : List ℕ). take m front ++ (s ++ (gap ++ back))) (sym left))
            (omega (arith, length-take m front, z))
      | inr inside ↦
          wrapped front (gap ++ take count back) (drop count back)
            (e
              ∙ ap (λ (s : List ℕ). front ++ (gap ++ s)) (sym (take-append-drop count back))
              ∙ ap (◌++◌ front) (sym (append_assoc gap (take count back) _)))
            (omega (
              arith,
              length-append gap (take count back),
              length-take count back,
              mod_low (begin + count) (length storage) inside,
            ))
            (ap (drop count) w ∙ drop-append_le count back front (omega arith))
    ]

pub length-put :
    (storage : Buffer) (position : ℕ) (bytes : List ℕ)
    → position < length storage
    → length bytes ≤ length storage
    → length (put storage position bytes) ≡ length storage
unfolding put
length-put storage position bytes h k =
    let first : ℕ = min (length bytes) (length storage - position) in
    let e : length (write_at storage position (take first bytes)) ≡ length storage =
      length-write_at storage position (take first bytes)
        (omega (arith, length-take first bytes)) in
    length-write_at _ 0 (drop first bytes) (omega (arith, length-drop first bytes)) ∙ e
