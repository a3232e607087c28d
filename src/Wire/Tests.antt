-- ===== src/Wire/Tests.antt =====
-- Concrete objects on the wire.
use libre_connect.Base.{
  ℕ, ◌∙◌, ◌+◌, ◌≤◌, ◌≡◌, refl, true, List, [], ◌∷◌, replicate, length, ok, some, none, arith,
}
use libre_connect.Wire.Buffer.{Buffer, write_at, drop-write_at, length-write_at}
use libre_connect.Wire.Codec.{Codec, IsLawful, ok_path}
use libre_connect.Wire.Primitive.{primitive}
use libre_connect.Wire.Text.{text}
use libre_connect.Wire.Pair.{option, bool}
use libre_connect.Wire.Vector.{vector, all_size, primitive_vector}
use libre_connect.Wire.Files.{
  FileHeader, file_header, FileEntry, file_entry, encode_file_entry, file_entry-IsLawful,
  FileEntryFits,
}
use libre_connect.Wire.Notifications.{
  NotificationPacket, notification_packet, encode_notification_packet, notification_packet-IsLawful,
  NotificationPacketFits,
}

abbrev header : FileHeader
header = record { relative_path = 97 ∷ 47 ∷ 98 ∷ []; file_size = 70000; last = true }

abbrev entry : FileEntry
entry = record {
  name = some (97 ∷ 65 ∷ []);
  path = none;
  size = some 1000;
  type = some 1;
  last_mod_time = none;
  creation_time = some 7;
}

abbrev notification : NotificationPacket
notification = record {
  key = 107 ∷ [];
  app_name = 97 ∷ 112 ∷ [];
  title = [];
  content = 104 ∷ 105 ∷ [];
  timestamp = 1700000000;
  dismissable = true;
  buttons = (111 ∷ 107 ∷ []) ∷ [] ∷ [];
  main_image = 1 ∷ 2 ∷ 3 ∷ [];
  icon_image = [];
}

abbrev zeros : Buffer
zeros = replicate 200 0

notification_fits : NotificationPacketFits notification
notification_fits = (
  omega arith,
  (
    omega arith,
    (
      omega arith,
      (
        omega arith,
        (
          omega arith,
          (
            omega arith,
            (
              ((omega arith, (omega arith, (omega arith, tt)))),
              (((omega arith, (omega arith, (omega arith, (omega arith, tt))))), (omega arith, tt)),
            ),
          ),
        ),
      ),
    ),
  ),
)

entry_fits : FileEntryFits entry
entry_fits = (omega arith, (tt, (omega arith, (omega arith, (tt, omega arith)))))

header_size : file_header.size header ≡ 20
unfolding file_header text primitive bool
header_size = refl

entry_size : file_entry.size entry ≡ 33
unfolding file_entry text primitive option bool
entry_size = refl

notification_size : notification_packet.size notification ≡ 91
unfolding notification_packet text primitive bool vector primitive_vector all_size
notification_size = refl

numbers_size : (vector (primitive 2)).size (1000 ∷ 65535 ∷ []) ≡ 12
unfolding vector all_size primitive
numbers_size = refl

abbrev received : Buffer
received = write_at zeros 5 (encode_notification_packet notification)

abbrev received_entry : Buffer
received_entry = write_at zeros 5 (encode_file_entry entry)

module _ {A : Type 0} {c : Codec A} {encode : A → List ℕ} {Fits : A → Type 0}
    (l : IsLawful c encode Fits) where
  arrives :
      (a : A) (n : ℕ)
      → Fits a
      → 5 + c.size a ≤ 200
      → 5 + c.size a ≡ n
      → c.deserialize (write_at zeros 5 (encode a)) 5 ≡ ok (a, n)
  arrives a n f h e =
      let inside : 5 + length (encode a) ≤ length zeros = omega (arith, l.length-encode a) in
      l.reads a (write_at zeros 5 (encode a)) 5 _ f
        (omega (arith, length-write_at zeros 5 (encode a) inside))
        (drop-write_at zeros 5 (encode a) inside)
      ∙ ok_path refl e

notification-received : notification_packet.deserialize received 5 ≡ ok (notification, 96)
notification-received =
    arrives notification_packet-IsLawful notification 96 notification_fits
      (omega (arith, notification_size)) (omega (arith, notification_size))

entry-received : file_entry.deserialize received_entry 5 ≡ ok (entry, 38)
entry-received =
    arrives file_entry-IsLawful entry 38 entry_fits (omega (arith, entry_size))
      (omega (arith, entry_size))
