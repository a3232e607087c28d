-- ===== src/Transfer/Entries/Sender.antt =====
-- The sender writes the frames of the greedy cut.
use libre_connect.Base.{
  ℕ, ◌+◌, ◌-◌, ◌≤◌, ◌≡◌, refl, sym, ap, ◌∙◌, true, List, [], ◌∷◌, ◌++◌, length, take, drop,
  length-append, append_assoc, append-nil, length-take, take-add, le→ltb, lt→ltb, arith, ok, some,
  All, inl, inr, le_or_lt, append_left_cancel,
}
use mathlib.Core.Path.{ap₂}
use libre_connect.Wire.Buffer.{
  Buffer, write_at, length-write_at, take-write_at, drop_behind-write_at, write_at-write_at,
}
use libre_connect.Wire.Primitive.{primitive, big_endian, length-big_endian}
use libre_connect.Wire.Text.{size_t-IsLawful}
use libre_connect.Wire.Files.{FileEntry, file_entry, encode_file_entry, file_entry-IsLawful}
use libre_connect.Wire.Vector.{all_size, length-encode_all}
use libre_connect.Transfer.Channel.{Channel, then_ok, async_write, send_buffer, add_size}
use libre_connect.Transfer.Entries.{put_size, put_entry, send_frame, send_entries}
use libre_connect.Transfer.Entries.Frames.{
  chunk_size, encode_chunk, frame_header, frame, frames, chunks, chunk_size-snoc, encode_chunk-snoc,
  length-frame_header,
}

-- A channel between two frames or inside one: `waiting` stands in the buffer behind the header's place.
pub record Pending (ch : Channel) (capacity : ℕ) (waiting : List FileEntry) (offset count : ℕ)
    (sent : List ℕ) : Type 0 where
  pub socket : ch.has_socket ≡ true
  pub unbroken : ch.outcomes ≡ []
  pub whole : length ch.buffer_out ≡ capacity
  pub written : ch.sent ≡ sent
  pub offset_eq : offset ≡ 16 + chunk_size waiting
  pub count_eq : count ≡ length waiting
  pub room : offset ≤ capacity
  pub place : List ℕ
  pub length-place : length place ≡ 16
  pub taken : take offset ch.buffer_out ≡ place ++ encode_chunk waiting

-- Before the first entry of a frame.
pub fresh :
    (ch : Channel) (capacity : ℕ) (sent : List ℕ)
    → ch.has_socket ≡ true
    → ch.outcomes ≡ []
    → length ch.buffer_out ≡ capacity
    → ch.sent ≡ sent
    → 16 ≤ capacity
    → Pending ch capacity [] 16 0 sent
unfolding all_size
fresh ch capacity sent s u w e h = record {
  socket = s;
  unbroken = u;
  whole = w;
  written = e;
  offset_eq = omega arith;
  count_eq = refl;
  room = h;
  place = take 16 ch.buffer_out;
  length-place = omega (arith, length-take 16 ch.buffer_out);
  taken = sym (append-nil (take 16 ch.buffer_out));
}

pub put_size_ok :
    (value offset : ℕ) (ch : Channel)
    → offset + 8 ≤ length ch.buffer_out
    → put_size value offset ch ≡ (
      ok (offset + 8),
      record ch { buffer_out = write_at ch.buffer_out offset (big_endian 8 value) },
    )
unfolding put_size primitive
put_size_ok value offset ch h = rw (size_t-IsLawful.writes value ch.buffer_out offset h)

put_entry_ok :
    (entry : FileEntry) (ch : Channel) (capacity offset count : ℕ) (waiting : List FileEntry)
    (sent : List ℕ)
    → Pending ch capacity waiting offset count sent
    → offset + file_entry.size entry ≤ capacity
    → (ch' : Channel) × (put_entry entry offset ch ≡ (ok (offset + file_entry.size entry), ch'))
      × Pending ch' capacity
          (waiting ++ (entry ∷ []))
          (offset + file_entry.size entry)
          (count + 1)
          sent
unfolding put_entry
put_entry_ok entry ch capacity offset count waiting sent p h = (
  record ch { buffer_out = write_at ch.buffer_out offset (encode_file_entry entry) },
  rw (file_entry-IsLawful.writes entry ch.buffer_out offset (omega arith)),
  record {
    socket = p.socket;
    unbroken = p.unbroken;
    whole = length-write_at ch.buffer_out offset (encode_file_entry entry) inside ∙ p.whole;
    written = p.written;
    offset_eq = omega (arith, chunk_size-snoc waiting entry);
    count_eq = omega (arith, length-append waiting (entry ∷ []));
    room = h;
    place = p.place;
    length-place = p.length-place;
    taken =
        take-write_at ch.buffer_out offset (encode_file_entry entry) _ inside
          (omega (arith, file_entry-IsLawful.length-encode entry))
        ∙ ap (λ (l : List ℕ). l ++ encode_file_entry entry) p.taken
        ∙ append_assoc p.place (encode_chunk waiting) (encode_file_entry entry)
        ∙ ap (◌++◌ p.place) (sym (encode_chunk-snoc waiting entry));
  },
)
  where
    inside : offset + length (encode_file_entry entry) ≤ length ch.buffer_out
    inside = omega (arith, p, file_entry-IsLawful.length-encode entry)

-- The bytes of a frame: its header over the place that was left for it.
header_over_place :
    (buffer : Buffer) (offset : ℕ) (header place rest : List ℕ)
    → length header ≡ 16
    → length place ≡ 16
    → 16 ≤ length buffer
    → take offset buffer ≡ place ++ rest
    → offset ≡ 16 + length rest
    → take offset (write_at buffer 0 header) ≡ header ++ rest
header_over_place buffer offset header place rest h k m e z = rw z (
    take-add 16 (length rest) (write_at buffer 0 header)
    ∙ ap₂ (◌++◌) (take-write_at buffer 0 header 16 (omega arith) (omega arith)) (
        ap (take (length rest)) (drop_behind-write_at buffer 0 header 16 (omega arith) m)
        ∙ append_left_cancel (take 16 buffer) (take (length rest) (drop 16 buffer)) place rest
            (omega (arith, length-take 16 buffer))
            (sym (take-add 16 (length rest) buffer) ∙ (rw z at e))))

pub send_buffer_ok :
    (size : ℕ) (ch : Channel)
    → ch.has_socket ≡ true
    → ch.outcomes ≡ []
    → send_buffer size ch ≡ (
      ok true,
      record ch { sent = ch.sent ++ take size ch.buffer_out; progress = add_size ch.progress size },
    )
unfolding send_buffer async_write
send_buffer_ok size ch s u = rw s (rw (u, async_write))

pub send_frame_ok :
    (ch : Channel) (capacity offset count : ℕ) (waiting : List FileEntry) (sent : List ℕ)
    → Pending ch capacity waiting offset count sent
    → (ch' : Channel) × (send_frame offset count ch ≡ (ok true, ch'))
      × Pending ch' capacity [] 16 0 (sent ++ frame waiting)
unfolding send_frame frame
send_frame_ok ch capacity offset count waiting sent p = (
  ch₃,
  then_ok (put_size (offset - 16) 0) _ ch (put_size_ok (offset - 16) 0 ch (omega arith))
      ∙ then_ok (put_size count 8) _ ch₁ (put_size_ok count 8 ch₁ (omega (arith, length₁)))
      ∙ send_buffer_ok offset ch₂ p.socket p.unbroken,
  fresh ch₃ capacity (sent ++ frame waiting) p.socket p.unbroken length₃ sent₃ (omega (arith, p)),
)
  where
    ch₁ : Channel
    ch₁ = record ch { buffer_out = write_at ch.buffer_out 0 (big_endian 8 (offset - 16)) }

    length₁ : length ch₁.buffer_out ≡ capacity
    length₁ =
        length-write_at ch.buffer_out 0 (big_endian 8 (offset - 16))
          (omega (arith, p, length-big_endian 8 (offset - 16)))
        ∙ p.whole

    ch₂ : Channel
    ch₂ = record ch₁ { buffer_out = write_at ch₁.buffer_out 8 (big_endian 8 count) }

    ch₃ : Channel
    ch₃ = record ch₂ {
      sent = ch₂.sent ++ take offset ch₂.buffer_out;
      progress = add_size ch₂.progress offset;
    }

    length₃ : length ch₃.buffer_out ≡ capacity
    length₃ =
        length-write_at ch₁.buffer_out 8 (big_endian 8 count)
          (omega (arith, p, length₁, length-big_endian 8 count))
        ∙ length₁

    size_eq : offset - 16 ≡ chunk_size waiting
    size_eq = omega (arith, p)

    header : ch₂.buffer_out ≡ write_at ch.buffer_out 0 (frame_header waiting)
    header =
        write_at-write_at ch.buffer_out 0 8 (big_endian 8 (offset - 16)) (big_endian 8 count)
          (omega (arith, length-big_endian 8 (offset - 16)))
          (omega (arith, p, length-big_endian 8 count))
        ∙ ap₂ (λ (n m : ℕ). write_at ch.buffer_out 0 (big_endian 8 n ++ big_endian 8 m)) size_eq
            p.count_eq

    sent₃ : ch₃.sent ≡ sent ++ (frame_header waiting ++ encode_chunk waiting)
    sent₃ = ap₂ (◌++◌) p.written (
        ap (take offset) header
        ∙ header_over_place ch.buffer_out offset (frame_header waiting) p.place
            (encode_chunk waiting) (length-frame_header waiting) p.length-place (omega (arith, p))
            p.taken (omega (arith, p, length-encode_all file_entry-IsLawful waiting)))

-- The loop sends the frames of the cut, but for the last, which waits behind it.
pub send_entries_ok :
    (entries : List FileEntry) (ch : Channel) (capacity offset count : ℕ) (waiting : List FileEntry)
    (sent : List ℕ)
    → Pending ch capacity waiting offset count sent
    → All (λ e. 16 + file_entry.size e ≤ capacity) entries
    → (ch' : Channel) × (offset' : ℕ) × (count' : ℕ) × (last : List FileEntry) × (sent' : List ℕ)
      × (send_entries entries offset count ch ≡ (ok (some (offset', count')), ch'))
      × Pending ch' capacity last offset' count' sent'
      × (sent' ++ frame last ≡ sent ++ frames (chunks capacity waiting entries))
unfolding send_entries chunks
send_entries_ok [] ch capacity offset count waiting sent p h =
    (ch, offset, count, waiting, sent, refl, p, ap (◌++◌ sent) (sym (append-nil (frame waiting))))
send_entries_ok (entry ∷ entries) ch capacity offset count waiting sent p h =
    elim (le_or_lt (offset + file_entry.size entry) capacity) [
      | inl room ↦
          let (ch₁, run₁, p₁) = put_entry_ok entry ch capacity offset count waiting sent p room in
          let (ch', offset', count', last, sent', run, p', e) =
            send_entries_ok entries ch₁ capacity (offset + file_entry.size entry) (count + 1)
              (waiting ++ (entry ∷ [])) sent p₁ h.1 in
          (
            ch',
            offset',
            count',
            last,
            sent',
            rw (le→ltb (length ch.buffer_out) (offset + file_entry.size entry) (omega (arith, p)))
                (then_ok (put_entry entry offset) _ ch run₁ ∙ run),
            p',
            rw
                (le→ltb capacity (16 + chunk_size waiting + file_entry.size entry)
                  (omega (arith, p)))
                e,
          )
      | inr full ↦
          let (ch₁, run₁, p₁) = send_frame_ok ch capacity offset count waiting sent p in
          let (ch₂, run₂, p₂) =
            put_entry_ok entry ch₁ capacity 16 0 [] (sent ++ frame waiting) p₁ h.0 in
          let (ch', offset', count', last, sent', run, p', e) =
            send_entries_ok entries ch₂ capacity (16 + file_entry.size entry) (0 + 1) (entry ∷ [])
              (sent ++ frame waiting) p₂ h.1 in
          (
            ch',
            offset',
            count',
            last,
            sent',
            rw (lt→ltb (length ch.buffer_out) (offset + file_entry.size entry) (omega (arith, p))) (
                then_ok (send_frame offset count) _ ch run₁
                ∙ then_ok (put_entry entry 16) _ ch₁ run₂
                ∙ run),
            p',
            rw
                (lt→ltb capacity (16 + chunk_size waiting + file_entry.size entry)
                  (omega (arith, p)))
                (e
                  ∙ append_assoc sent (frame waiting)
                      (frames (chunks capacity (entry ∷ []) entries))),
          )
    ]
