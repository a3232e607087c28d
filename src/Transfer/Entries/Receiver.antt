-- ===== src/Transfer/Entries/Receiver.antt =====
-- The receiver reads the frames of a listing, and ends behind the last of them.
use libre_connect.Base.{
  ℕ, zero, suc, ◌+◌, ◌-◌, ◌^◌, ◌≤◌, ◌<◌, ◌≡◌, refl, sym, ap, ◌∙◌, false, List, [], ◌∷◌, ◌++◌,
  length, take, drop, length-append, append_assoc, append-nil, take-append, drop-append, ltb, ◌==◌,
  le→ltb, eq→==, ne→==, arith, ok, All, if◌then◌else◌,
}
use libre_connect.Wire.Buffer.{write_at, length-write_at, drop-write_at, write_at-nil}
use libre_connect.Wire.Codec.{drop_behind, le_behind}
use libre_connect.Wire.Primitive.{primitive, big_endian, length-big_endian, FitsIn}
use libre_connect.Wire.Text.{size_t-IsLawful}
use libre_connect.Wire.Files.{
  FileEntry, file_entry, encode_file_entry, FileEntryFits, file_entry-IsLawful,
}
use libre_connect.Wire.Vector.{length-encode_all, length-le-all_size}
use libre_connect.Transfer.Channel.{Channel, M, ◌>>=◌, then_ok, pure, async_read, sub_size}
use libre_connect.Transfer.Entries.{take_size, take_entries, receive_frames}
use libre_connect.Transfer.Entries.Frames.{
  chunk_size, encode_chunk, frame_header, frame, frames, concat, IsFrame, AreFrames,
  length-frame_header, length-frame,
}

pub async_read_ok :
    (offset n : ℕ) (bytes rest : List ℕ) (ch : Channel)
    → ch.incoming ≡ bytes ++ rest
    → length bytes ≡ n
    → async_read offset n ch
      ≡ (ok tt, record ch { buffer_in = write_at ch.buffer_in offset bytes; incoming = rest })
unfolding async_read
async_read_ok offset n bytes rest ch e h =
    rw (le→ltb (length ch.incoming) n (omega (arith, ap length e, length-append bytes rest))) (λ i.
      (
        ok tt,
        record ch {
          buffer_in = write_at ch.buffer_in offset ((ap (take n) e ∙ take-append n bytes rest h) i);
          incoming = (ap (drop n) e ∙ drop-append n bytes rest h) i;
        },
      ))

pub take_size_ok :
    (value offset : ℕ) (post : List ℕ) (ch : Channel)
    → FitsIn 8 value
    → offset ≤ length ch.buffer_in
    → drop offset ch.buffer_in ≡ big_endian 8 value ++ post
    → take_size offset ch ≡ (ok (value, offset + 8), ch)
unfolding take_size primitive
take_size_ok value offset post ch f h e =
    rw (size_t-IsLawful.reads value ch.buffer_in offset post f h e)

take_entries_ok :
    (chunk : List FileEntry) (offset : ℕ) (entries : List FileEntry) (post : List ℕ) (ch : Channel)
    → All FileEntryFits chunk
    → offset ≤ length ch.buffer_in
    → drop offset ch.buffer_in ≡ encode_chunk chunk ++ post
    → take_entries (length chunk) offset entries ch ≡ (ok (entries ++ chunk), ch)
unfolding take_entries
take_entries_ok [] offset entries post ch f h e = rw (append-nil entries)
take_entries_ok (entry ∷ chunk) offset entries post ch f h e =
    let e' : drop offset ch.buffer_in ≡ encode_file_entry entry ++ (encode_chunk chunk ++ post) =
      e ∙ append_assoc (encode_file_entry entry) (encode_chunk chunk) post in
    rw (file_entry-IsLawful.reads entry ch.buffer_in offset _ f.0 h e') (
      take_entries_ok chunk (offset + file_entry.size entry) (entries ++ (entry ∷ [])) post ch f.1
        (le_behind ch.buffer_in offset (file_entry.size entry) _ _ h e'
          (file_entry-IsLawful.length-encode entry))
        (drop_behind ch.buffer_in offset (file_entry.size entry) _ _ _ e'
          (file_entry-IsLawful.length-encode entry) refl)
      ∙ ap (λ (l : List FileEntry). (ok l, ch)) (append_assoc entries (entry ∷ []) chunk))

read_payload_ok :
    (bytes rest : List ℕ) (n : ℕ) (ch : Channel)
    → ch.incoming ≡ bytes ++ rest
    → length bytes ≡ n
    → (if n == 0 then pure tt else async_read 16 n) ch
      ≡ (ok tt, record ch { buffer_in = write_at ch.buffer_in 16 bytes; incoming = rest })
read_payload_ok [] rest n ch e h =
    rw (eq→== n 0 (sym h))
      (λ i. (ok tt, record ch { buffer_in = sym (write_at-nil ch.buffer_in 16) i; incoming = e i }))
read_payload_ok (b ∷ bytes) rest n ch e h =
    rw (ne→== n 0 (omega arith)) (async_read_ok 16 n (b ∷ bytes) rest ch e h)

length-le-chunk_size : (chunk : List FileEntry) → length chunk ≤ chunk_size chunk
length-le-chunk_size = length-le-all_size file_entry-IsLawful

-- `totalCount -= count; if (totalCount == 0) break;` and the next round.
abbrev round_end : ℕ → ℕ → List FileEntry → M (List FileEntry)
round_end fuel left entries =
    let more = receive_frames fuel left entries in if left == 0 then pure entries else more

round_last :
    (fuel left : ℕ) (entries : List FileEntry) (ch : Channel)
    → left ≡ 0
    → round_end fuel left entries ch ≡ (ok entries, ch)
round_last fuel left entries ch h = rw (eq→== left 0 h)

round_more :
    (fuel left n : ℕ) (entries : List FileEntry) (ch : Channel)
    → left ≡ n
    → 1 ≤ n
    → round_end fuel left entries ch ≡ receive_frames fuel n entries ch
round_more fuel left n entries ch h k =
    rw (ne→== left 0 (omega arith)) (ap (λ (i : ℕ). receive_frames fuel i entries ch) h)

-- One round of the loop, up to the test that ends it.
module _ (chunk : List FileEntry) (capacity : ℕ) (entries : List FileEntry) (more : List ℕ)
    (ch : Channel) (whole : length ch.buffer_in ≡ capacity) (small : capacity < 256 ^ 8)
    (f : IsFrame capacity chunk) (incoming : ch.incoming ≡ frame chunk ++ more) where
  with_header : Channel
  with_header = record ch {
    buffer_in = write_at ch.buffer_in 0 (frame_header chunk);
    incoming = encode_chunk chunk ++ more;
  }

  with_payload : Channel
  with_payload = record with_header {
    buffer_in = write_at with_header.buffer_in 16 (encode_chunk chunk);
    incoming = more;
  }

  read_header : async_read 0 16 ch ≡ (ok tt, with_header)
  unfolding frame with_header
  read_header =
      async_read_ok 0 16 (frame_header chunk) (encode_chunk chunk ++ more) ch
        (incoming ∙ append_assoc (frame_header chunk) (encode_chunk chunk) more)
        (length-frame_header chunk)

  header_inside : 0 + length (frame_header chunk) ≤ length ch.buffer_in
  header_inside = omega (arith, f.room, length-frame_header chunk)

  length-with_header : length with_header.buffer_in ≡ capacity
  unfolding with_header
  length-with_header = length-write_at ch.buffer_in 0 (frame_header chunk) header_inside ∙ whole

  payload_inside : 16 + length (encode_chunk chunk) ≤ length with_header.buffer_in
  payload_inside =
      omega (arith, f.room, length-with_header, length-encode_all file_entry-IsLawful chunk)

  length-with_payload : length with_payload.buffer_in ≡ capacity
  unfolding with_payload
  length-with_payload =
      length-write_at with_header.buffer_in 16 (encode_chunk chunk) payload_inside
      ∙ length-with_header

  header_bytes :
      drop 0 with_header.buffer_in
      ≡ big_endian 8 (chunk_size chunk)
        ++ (big_endian 8 (length chunk) ++ drop (0 + length (frame_header chunk)) ch.buffer_in)
  unfolding with_header
  header_bytes =
      drop-write_at ch.buffer_in 0 (frame_header chunk) header_inside
      ∙ append_assoc (big_endian 8 (chunk_size chunk)) (big_endian 8 (length chunk)) _

  read_size : take_size 0 with_header ≡ (ok (chunk_size chunk, 8), with_header)
  read_size =
      take_size_ok (chunk_size chunk) 0 _ with_header (omega (arith, f.room)) (omega arith)
        header_bytes

  read_count : take_size 8 with_header ≡ (ok (length chunk, 16), with_header)
  read_count =
      take_size_ok (length chunk) 8 _ with_header
        (omega (arith, f.room, length-le-chunk_size chunk))
        (omega (arith, f.room, length-with_header))
        (drop_behind with_header.buffer_in 0 8 8 _ _ header_bytes
          (length-big_endian 8 (chunk_size chunk)) refl)

  accepted : ltb (length with_header.buffer_in - 16) (chunk_size chunk) ≡ false
  accepted =
      le→ltb (length with_header.buffer_in - 16) (chunk_size chunk)
        (omega (arith, f.room, length-with_header))

  read_payload :
      (if chunk_size chunk == 0 then pure tt else async_read 16 (chunk_size chunk)) with_header
      ≡ (ok tt, with_payload)
  unfolding with_header with_payload
  read_payload =
      read_payload_ok (encode_chunk chunk) more (chunk_size chunk) with_header refl
        (length-encode_all file_entry-IsLawful chunk)

  read_entries :
      take_entries (length chunk) 16 entries with_payload ≡ (ok (entries ++ chunk), with_payload)
  unfolding with_payload
  read_entries =
      take_entries_ok chunk 16 entries _ with_payload f.fits
        (omega (arith, f.room, length-with_payload))
        (drop-write_at with_header.buffer_in 16 (encode_chunk chunk) payload_inside)

  rest_behind : with_payload.incoming ≡ more
  unfolding with_payload
  rest_behind = refl

  receive_round :
      (fuel total : ℕ)
      → receive_frames (suc fuel) total entries ch
        ≡ round_end fuel (sub_size total (length chunk)) (entries ++ chunk) with_payload
  unfolding receive_frames
  receive_round fuel total =
      then_ok (async_read 0 16) _ ch read_header
      ∙ then_ok (take_size 0) _ with_header read_size
      ∙ then_ok (take_size 8) _ with_header read_count
      ∙ rw accepted (
          then_ok (if chunk_size chunk == 0 then pure tt else async_read 16 (chunk_size chunk))
            (λ _.
              take_entries (length chunk) 16 entries
              >>= round_end fuel (sub_size total (length chunk)))
            with_header read_payload
          ∙ then_ok (take_entries (length chunk) 16 entries)
              (round_end fuel (sub_size total (length chunk))) with_payload read_entries)

-- The loop takes all the frames of a listing, in order, and nothing behind them.
pub receive_frames_ok :
    (cs : List (List FileEntry)) (chunk : List FileEntry) (capacity : ℕ) (entries : List FileEntry)
    (rest : List ℕ) (ch : Channel) (fuel : ℕ)
    → length ch.buffer_in ≡ capacity
    → capacity < 256 ^ 8
    → AreFrames capacity (chunk ∷ cs)
    → ch.incoming ≡ frames (chunk ∷ cs) ++ rest
    → length ch.incoming ≤ fuel
    → length (concat (chunk ∷ cs)) < 2 ^ 64
    → (ch' : Channel) × (receive_frames fuel (length (concat (chunk ∷ cs))) entries ch
        ≡ (ok (entries ++ concat (chunk ∷ cs)), ch'))
      × (ch'.incoming ≡ rest)
receive_frames_ok cs chunk capacity entries rest ch zero w s f e k t = absurd (
    omega (
      arith,
      ap length e,
      length-append (frames (chunk ∷ cs)) rest,
      length-append (frame chunk) (frames cs),
      length-frame chunk,
    ))
receive_frames_ok [] chunk capacity entries rest ch (suc fuel) w s f e k t = (
  with_payload chunk capacity entries rest ch w s f.0 e',
  receive_round chunk capacity entries rest ch w s f.0 e' fuel (length (chunk ++ []))
      ∙ round_last fuel _ (entries ++ chunk) _ (omega (arith, length-append chunk []))
      ∙ ap
          (λ (l : List FileEntry).
            (ok (entries ++ l), with_payload chunk capacity entries rest ch w s f.0 e'))
          (sym (append-nil chunk)),
  unfold with_payload in refl,
)
  where
    e' : ch.incoming ≡ frame chunk ++ rest
    e' = e ∙ ap (λ (l : List ℕ). l ++ rest) (append-nil (frame chunk))
receive_frames_ok (c ∷ cs) chunk capacity entries rest ch (suc fuel) w s f e k t =
    let (ch', run, z) =
      receive_frames_ok cs c capacity (entries ++ chunk) rest next fuel
        (length-with_payload chunk capacity entries more ch w s f.0 e') s f.1.0 behind fuel_left
        (omega (arith, length-append chunk (concat (c ∷ cs)))) in
    (
      ch',
      receive_round chunk capacity entries more ch w s f.0 e' fuel
            (length (chunk ++ concat (c ∷ cs)))
          ∙ round_more fuel _ (length (concat (c ∷ cs))) (entries ++ chunk) next
              (omega (arith, length-append chunk (concat (c ∷ cs))))
              (omega (arith, length-append c (concat cs), f.1.1.0))
          ∙ run
          ∙ ap (λ (l : List FileEntry). (ok l, ch')) (append_assoc entries chunk (concat (c ∷ cs))),
      z,
    )
  where
    more : List ℕ
    more = frames (c ∷ cs) ++ rest

    e' : ch.incoming ≡ frame chunk ++ more
    e' = e ∙ append_assoc (frame chunk) (frames (c ∷ cs)) rest

    next : Channel
    next = with_payload chunk capacity entries more ch w s f.0 e'

    behind : next.incoming ≡ more
    behind = rest_behind chunk capacity entries more ch w s f.0 e'

    fuel_left : length next.incoming ≤ fuel
    fuel_left = omega (
      arith,
      ap length behind,
      ap length e',
      length-append (frame chunk) more,
      length-frame chunk,
    )
