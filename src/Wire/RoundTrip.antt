-- ===== src/Wire/RoundTrip.antt =====
-- What the overloads of Packable.h promise to the code that sends and receives objects.
use libre_connect.Base.{
  ℕ, ◌+◌, ◌≤◌, ◌<◌, ◌≡◌, List, length, take, drop, arith, Result, ok, err, ◌>>=◌,
  serialize_out_of_bounds, ◌⊎◌, inl, inr, le_or_lt,
}
use libre_connect.Wire.Buffer.{
  Buffer, write_at, length-write_at, drop-write_at, take_before-write_at, drop_behind-write_at,
}
use libre_connect.Wire.Codec.{Codec, IsLawful}
use libre_connect.Wire.Files.{
  FileHeader, file_header, FileHeaderFits, file_header-IsLawful, FileEntry, file_entry,
  FileEntryFits, file_entry-IsLawful,
}
use libre_connect.Wire.Notifications.{
  NotificationPacket, notification_packet, NotificationPacketFits, notification_packet-IsLawful,
}
use libre_connect.Wire.Vector.{vector, VectorFits}
use libre_connect.Wire.Vector.Laws.{vector-IsLawful}

-- Written and read at the same offset.
abbrev pub written_and_read : {A : Type 0} → Codec A → A → Buffer → ℕ → Result (A × ℕ)
written_and_read c a buffer offset = c.serialize a buffer offset >>= λ p. c.deserialize p.0 offset

-- The buffer differs from the old one in the n bytes behind the offset at most.
pub record IsLocal (old new : Buffer) (offset n : ℕ) : Type 0 where
  pub same_length : length new ≡ length old
  pub before : take offset new ≡ take offset old
  pub behind : drop (offset + n) new ≡ drop (offset + n) old

module _ {A : Type 0} {c : Codec A} {encode : A → List ℕ} {Fits : A → Type 0}
    (l : IsLawful c encode Fits) where
  round_trip :
      (a : A) (buffer : Buffer) (offset : ℕ)
      → Fits a
      → offset + c.size a ≤ length buffer
      → written_and_read c a buffer offset ≡ ok (a, offset + c.size a)
  round_trip a buffer offset f h =
      let inside : offset + length (encode a) ≤ length buffer = omega (arith, l.length-encode a) in
      rw (l.writes a buffer offset h) (
        l.reads a _ offset _ f (omega (arith, length-write_at buffer offset (encode a) inside))
          (drop-write_at buffer offset (encode a) inside))

  outcome :
      (a : A) (buffer : Buffer) (offset : ℕ)
      → ((offset + c.size a ≤ length buffer)
          × ((new : Buffer) × (c.serialize a buffer offset ≡ ok (new, offset + c.size a))
              × IsLocal buffer new offset (c.size a)))
        ⊎ ((length buffer < offset + c.size a)
            × (c.serialize a buffer offset ≡ err serialize_out_of_bounds))
  outcome a buffer offset = elim (le_or_lt (offset + c.size a) (length buffer)) [
    | inl room ↦
        let inside : offset + length (encode a) ≤ length buffer =
          omega (arith, l.length-encode a) in
        inl (
          room,
          (
            write_at buffer offset (encode a),
            l.writes a buffer offset room,
            record {
              same_length = length-write_at buffer offset (encode a) inside;
              before = take_before-write_at buffer offset (encode a) inside;
              behind =
                  drop_behind-write_at buffer offset (encode a) (offset + c.size a)
                    (omega (arith, l.length-encode a)) room;
            },
          ),
        )
    | inr full ↦ inr (full, l.refuses a buffer offset full)
  ]

-- A vector of a type whose overloads are lawful, written where it fits, is read back whole.
pub vector_round_trip :
    {A : Type 0} {c : Codec A} {encode : A → List ℕ} {Fits : A → Type 0}
    (l : IsLawful c encode Fits) (xs : List A) (buffer : Buffer) (offset : ℕ)
    → VectorFits Fits xs
    → offset + (vector c).size xs ≤ length buffer
    → written_and_read (vector c) xs buffer offset ≡ ok (xs, offset + (vector c).size xs)
vector_round_trip l xs buffer offset f h = round_trip (vector-IsLawful l) xs buffer offset f h

-- A file header whose numbers fit their widths, written where it fits, is read back whole, and the
-- cursor ends behind it.
pub file_header_round_trip :
    (h : FileHeader) (buffer : Buffer) (offset : ℕ)
    → FileHeaderFits h
    → offset + file_header.size h ≤ length buffer
    → written_and_read file_header h buffer offset ≡ ok (h, offset + file_header.size h)
file_header_round_trip = round_trip file_header-IsLawful

-- A file entry whose numbers fit their widths, written where it fits, is read back whole with the
-- same optional fields present, and the cursor ends behind it.
pub file_entry_round_trip :
    (e : FileEntry) (buffer : Buffer) (offset : ℕ)
    → FileEntryFits e
    → offset + file_entry.size e ≤ length buffer
    → written_and_read file_entry e buffer offset ≡ ok (e, offset + file_entry.size e)
file_entry_round_trip = round_trip file_entry-IsLawful

-- A notification whose numbers fit their widths, written where it fits, is read back whole, its
-- buttons and images included, and the cursor ends behind it.
pub notification_round_trip :
    (n : NotificationPacket) (buffer : Buffer) (offset : ℕ)
    → NotificationPacketFits n
    → offset + notification_packet.size n ≤ length buffer
    → written_and_read notification_packet n buffer offset
      ≡ ok (n, offset + notification_packet.size n)
notification_round_trip = round_trip notification_packet-IsLawful

-- Writing a notification has two outcomes. Where its size fits behind the offset it succeeds,
-- the cursor advances by just the size that was announced, and no byte outside of that range and no
-- length changes; everywhere else it throws.
pub notification_outcome :
    (n : NotificationPacket) (buffer : Buffer) (offset : ℕ)
    → ((offset + notification_packet.size n ≤ length buffer)
        × ((new : Buffer) × (notification_packet.serialize n buffer offset
              ≡ ok (new, offset + notification_packet.size n))
            × IsLocal buffer new offset (notification_packet.size n)))
      ⊎ ((length buffer < offset + notification_packet.size n)
          × (notification_packet.serialize n buffer offset ≡ err serialize_out_of_bounds))
notification_outcome = outcome notification_packet-IsLawful

-- Whatever bytes the peer has sent: when a notification is read without an exception, the cursor has
-- not moved back and stands inside of the buffer.
pub notification-in_bounds :
    (buffer : Buffer) (offset : ℕ) (n : NotificationPacket) (offset' : ℕ)
    → notification_packet.deserialize buffer offset ≡ ok (n, offset')
    → (offset ≤ offset') × (offset' ≤ length buffer)
notification-in_bounds = notification_packet-IsLawful.in_bounds

-- Whatever bytes the peer has sent: when a file entry is read without an exception, the cursor has
-- not moved back and stands inside of the buffer.
pub file_entry-in_bounds :
    (buffer : Buffer) (offset : ℕ) (e : FileEntry) (offset' : ℕ)
    → file_entry.deserialize buffer offset ≡ ok (e, offset')
    → (offset ≤ offset') × (offset' ≤ length buffer)
file_entry-in_bounds = file_entry-IsLawful.in_bounds
