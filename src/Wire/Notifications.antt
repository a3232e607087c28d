-- ===== src/Wire/Notifications.antt =====
-- `NotificationPacket` of utilities/notifications-handler, which writes its fields in order.
use libre_connect.Base.{ℕ, ◌+◌, refl, List, ◌++◌, arith, ok, ◌>>=◌, Bool}
use libre_connect.Wire.Codec.{Codec, IsLawful}
use libre_connect.Wire.Primitive.{FitsIn, big_endian}
use libre_connect.Wire.Text.{
  Text, text, text-IsLawful, encode_text, TextFits, size_t, size_t-IsLawful,
}
use libre_connect.Wire.Pair.{pair, pair-IsLawful, embed, bool, bool-IsLawful, bool_byte}
use libre_connect.Wire.Vector.{vector, primitive_vector, encode_vector, VectorFits}
use libre_connect.Wire.Vector.Laws.{vector-IsLawful, primitive_vector-IsLawful}

pub record NotificationPacket : Type 0 where
  pub key : Text
  pub app_name : Text
  pub title : Text
  pub content : Text
  pub timestamp : ℕ
  pub dismissable : Bool
  pub buttons : List Text
  pub main_image : List ℕ
  pub icon_image : List ℕ

abbrev images : Codec (List ℕ)
images = primitive_vector 1

unfoldable pub notification_packet : Codec NotificationPacket
notification_packet = record {
  serialize = λ n buffer offset. do
    (buffer, offset) ← text.serialize n.key buffer offset
    (buffer, offset) ← text.serialize n.app_name buffer offset
    (buffer, offset) ← text.serialize n.title buffer offset
    (buffer, offset) ← text.serialize n.content buffer offset
    (buffer, offset) ← size_t.serialize n.timestamp buffer offset
    (buffer, offset) ← bool.serialize n.dismissable buffer offset
    (buffer, offset) ← (vector text).serialize n.buttons buffer offset
    (buffer, offset) ← images.serialize n.main_image buffer offset
    images.serialize n.icon_image buffer offset;
  deserialize = λ buffer offset. do
    (key, offset) ← text.deserialize buffer offset
    (app_name, offset) ← text.deserialize buffer offset
    (title, offset) ← text.deserialize buffer offset
    (content, offset) ← text.deserialize buffer offset
    (timestamp, offset) ← size_t.deserialize buffer offset
    (dismissable, offset) ← bool.deserialize buffer offset
    (buttons, offset) ← (vector text).deserialize buffer offset
    (main_image, offset) ← images.deserialize buffer offset
    (icon_image, offset) ← images.deserialize buffer offset
    ok (
      record {
        key = key;
        app_name = app_name;
        title = title;
        content = content;
        timestamp = timestamp;
        dismissable = dismissable;
        buttons = buttons;
        main_image = main_image;
        icon_image = icon_image;
      },
      offset,
    );
  size = λ n.
      text.size n.key
      + text.size n.app_name
      + text.size n.title
      + text.size n.content
      + size_t.size n.timestamp
      + bool.size n.dismissable
      + (vector text).size n.buttons
      + images.size n.main_image
      + images.size n.icon_image;
}

unfoldable pub encode_notification_packet : NotificationPacket → List ℕ
encode_notification_packet n =
    encode_text n.key
    ++ (encode_text n.app_name
        ++ (encode_text n.title
            ++ (encode_text n.content
                ++ (big_endian 8 n.timestamp
                    ++ (big_endian 1 (bool_byte n.dismissable)
                        ++ (encode_vector encode_text n.buttons
                            ++ (encode_vector (big_endian 1) n.main_image
                                ++ encode_vector (big_endian 1) n.icon_image)))))))

abbrev pub NotificationPacketFits : NotificationPacket → Type 0
NotificationPacketFits n =
    TextFits n.key
    × (TextFits n.app_name
        × (TextFits n.title
            × (TextFits n.content
                × (FitsIn 8 n.timestamp
                    × (FitsIn 1 (bool_byte n.dismissable)
                        × (VectorFits TextFits n.buttons
                            × (VectorFits (FitsIn 1) n.main_image
                                × VectorFits (FitsIn 1) n.icon_image)))))))

images-IsLawful : IsLawful images (encode_vector (big_endian 1)) (VectorFits (FitsIn 1))
images-IsLawful = primitive_vector-IsLawful 1 (omega arith)

pub notification_packet-IsLawful :
    IsLawful notification_packet encode_notification_packet NotificationPacketFits
unfolding notification_packet encode_notification_packet pair
notification_packet-IsLawful =
    embed
      (pair-IsLawful text-IsLawful (
        pair-IsLawful text-IsLawful (
          pair-IsLawful text-IsLawful (
            pair-IsLawful text-IsLawful (
              pair-IsLawful size_t-IsLawful (
                pair-IsLawful bool-IsLawful (
                  pair-IsLawful (vector-IsLawful text-IsLawful)
                    (pair-IsLawful images-IsLawful images-IsLawful))))))))
      notification_packet
      (λ n. (
        n.key,
        (
          n.app_name,
          (
            n.title,
            (n.content, (n.timestamp, (n.dismissable, (n.buttons, (n.main_image, n.icon_image))))),
          ),
        ),
      ))
      (λ p. record {
        key = p.0;
        app_name = p.1.0;
        title = p.1.1.0;
        content = p.1.1.1.0;
        timestamp = p.1.1.1.1.0;
        dismissable = p.1.1.1.1.1.0;
        buttons = p.1.1.1.1.1.1.0;
        main_image = p.1.1.1.1.1.1.1.0;
        icon_image = p.1.1.1.1.1.1.1.1;
      })
      (λ n. refl) (λ n buffer offset. refl) (λ buffer offset. ground arith) (λ n. omega arith)
