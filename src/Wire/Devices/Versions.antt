-- ===== src/Wire/Devices/Versions.antt =====
-- Devices of this version and of an older one.
use libre_connect.Base.{
  ℕ, ◌+◌, ◌≤◌, ◌<◌, ◌≡◌, refl, sym, ap, ◌∙◌, List, [], ◌++◌, append-nil, length, drop,
  length-append, length-drop, arith, ok, err, ◌>>=◌, Option, some, primitive_out_of_bounds,
}
use libre_connect.Wire.Buffer.{Buffer, lacks_space-true, write_at, drop-write_at, length-write_at}
use libre_connect.Wire.RoundTrip.{written_and_read}
use libre_connect.Wire.Codec.{Codec, IsLawful, ok_path}
use libre_connect.Wire.Primitive.{
  primitive, primitive-IsLawful, FitsIn, big_endian, deserialize_primitive, length-big_endian,
}
use libre_connect.Wire.Text.{Text, text, text-IsLawful, encode_text, TextFits, deserialize_text}
use libre_connect.Wire.Pair.{pair, pair-IsLawful}
use libre_connect.Wire.Uuid.{uuid-IsLawful}
use libre_connect.Wire.Devices.{
  DeviceInfo, InitialConnectionData, deserialize_if_left, with_text, with_text-IsLawful, if_left,
  none_left, uuids, device_info, initial_connection_data,
}

module _ (to_string : ℕ → Text) (generator : Text → Option ℕ) where
  -- The fields that every version sends.
  abbrev pub Core : Type 0
  Core = Text × (ℕ × (ℕ × (ℕ × Text)))

  abbrev pub core : Codec Core
  core = pair text (pair (primitive 2) (pair (uuids to_string generator) (pair (primitive 4) text)))

  abbrev pub core_of : DeviceInfo → Core
  core_of d = (
    d.device_name,
    (d.device_address_port, (d.device_id, (d.device_type, d.certificate_fingerprint))),
  )

  abbrev pub encode_core : Core → List ℕ
  encode_core (name, (port, (id, (type, fingerprint)))) =
      encode_text name
      ++ (big_endian 2 port
          ++ (encode_text (to_string id) ++ (big_endian 4 type ++ encode_text fingerprint)))

  abbrev pub CoreFits : Core → Type 0
  CoreFits (name, (port, (id, (type, fingerprint)))) =
      TextFits name
      × (FitsIn 2 port × (TextFits (to_string id) × (FitsIn 4 type × TextFits fingerprint)))

  abbrev pub Whole : Type 0
  Whole = ((Core × Text) × Text) × Text

  abbrev pub whole : Codec Whole
  whole = with_text (with_text (with_text core))

  abbrev pub whole_of : DeviceInfo → Whole
  whole_of d = (((core_of d, d.os_name), d.os_version), d.app_version)

  -- The device that the fields describe, at no address.
  abbrev pub device_of : Whole → DeviceInfo
  device_of ((((name, (port, (id, (type, fingerprint)))), os), version), app) = record {
    device_name = name;
    os_name = os;
    os_version = version;
    app_version = app;
    device_address = [];
    device_address_port = port;
    device_id = id;
    device_type = type;
    certificate_fingerprint = fingerprint;
  }

  serialize_as :
      (d : DeviceInfo) (buffer : Buffer) (offset : ℕ)
      → (device_info to_string generator).serialize d buffer offset
        ≡ whole.serialize (whole_of d) buffer offset
  unfolding device_info pair
  serialize_as d buffer offset = ground arith

  deserialize_as :
      (buffer : Buffer) (offset : ℕ)
      → (device_info to_string generator).deserialize buffer offset
        ≡ (whole.deserialize buffer offset >>= λ (p : Whole × ℕ). ok (device_of p.0, p.1))
  unfolding device_info pair
  deserialize_as buffer offset = ground arith

  module _ (length-to_string : (u : ℕ) → length (to_string u) ≡ 36)
      (generator-to_string : (u : ℕ) → generator (to_string u) ≡ some u) where
    core-IsLawful : IsLawful core encode_core CoreFits
    core-IsLawful = pair-IsLawful text-IsLawful (
        pair-IsLawful (primitive-IsLawful 2 (omega arith)) (
          pair-IsLawful (uuid-IsLawful to_string generator length-to_string generator-to_string)
            (pair-IsLawful (primitive-IsLawful 4 (omega arith)) text-IsLawful)))

    abbrev pub encode_whole : Whole → List ℕ
    encode_whole w =
        ((encode_core w.0.0.0 ++ encode_text w.0.0.1) ++ encode_text w.0.1) ++ encode_text w.1

    abbrev pub WholeFits : Whole → Type 0
    WholeFits w = ((CoreFits w.0.0.0 × TextFits w.0.0.1) × TextFits w.0.1) × TextFits w.1

    whole-IsLawful : IsLawful whole encode_whole WholeFits
    whole-IsLawful = with_text-IsLawful (with_text-IsLawful (with_text-IsLawful core-IsLawful))

    -- A device of an older version: the last three texts are missing, and nothing follows.
    old_device :
        (x : Core) (buffer : Buffer) (offset : ℕ)
        → CoreFits x
        → offset ≤ length buffer
        → drop offset buffer ≡ encode_core x
        → (device_info to_string generator).deserialize buffer offset
          ≡ ok (device_of (((x, []), []), []), offset + core.size x)
    old_device x buffer offset f h e =
        let e' : drop offset buffer ≡ encode_core x ++ [] = e ∙ sym (append-nil (encode_core x)) in
        let long : length buffer ≤ offset + core.size x =
          omega (arith, length-drop offset buffer, ap length e, core-IsLawful.length-encode x) in
        let gone = none_left buffer (offset + core.size x) long in
        deserialize_as buffer offset
        ∙ rw (core-IsLawful.reads x buffer offset [] f h e') (rw gone (rw gone (rw gone refl)))

    text_short :
        (buffer : Buffer) (offset : ℕ)
        → length buffer < offset + 8
        → text.deserialize buffer offset ≡ err primitive_out_of_bounds
    unfolding text deserialize_text primitive deserialize_primitive
    text_short buffer offset h = rw (lacks_space-true buffer offset 8 h) refl

    -- A byte is too little for the first of the three texts.
    old_device_then_byte :
        (x : Core) (mode : ℕ) (buffer : Buffer) (offset : ℕ)
        → CoreFits x
        → offset ≤ length buffer
        → drop offset buffer ≡ encode_core x ++ big_endian 1 mode
        → (device_info to_string generator).deserialize buffer offset ≡ err primitive_out_of_bounds
    old_device_then_byte x mode buffer offset f h e =
        let k : ℕ = offset + core.size x in
        let one : length buffer ≡ k + 1 = omega (
          arith,
          h,
          length-drop offset buffer,
          ap length e,
          length-append (encode_core x) (big_endian 1 mode),
          core-IsLawful.length-encode x,
          length-big_endian 1 mode,
        ) in
        let short : deserialize_if_left buffer k ≡ err primitive_out_of_bounds =
          if_left buffer k (omega (arith, one)) ∙ text_short buffer k (omega (arith, one)) in
        deserialize_as buffer offset
        ∙ rw (core-IsLawful.reads x buffer offset (big_endian 1 mode) f h e) (rw short refl)

    -- What a device of an older version sends, with fields that fit, at the end of a buffer: as a
    -- `DeviceInfo` it is read with the three newer texts empty. As an `InitialConnectionData`, where
    -- the byte of the mode follows, it is not: the byte is taken for the first of the texts, and
    -- reading throws.
    pub old_versions :
        (x : Core) (mode : ℕ) (buffer buffer' : Buffer) (offset : ℕ)
        → CoreFits x
        → offset ≤ length buffer
        → drop offset buffer ≡ encode_core x
        → offset ≤ length buffer'
        → drop offset buffer' ≡ encode_core x ++ big_endian 1 mode
        → ((device_info to_string generator).deserialize buffer offset
            ≡ ok (device_of (((x, []), []), []), offset + core.size x))
          × ((initial_connection_data to_string generator).deserialize buffer' offset
              ≡ err primitive_out_of_bounds)
    unfolding initial_connection_data
    old_versions x mode buffer buffer' offset f h e h' e' = (
      old_device x buffer offset f h e,
      rw (old_device_then_byte x mode buffer' offset f h' e') refl,
    )

    abbrev pub unseen : InitialConnectionData → InitialConnectionData
    unseen d = record d { device_info = record d.device_info { device_address = [] } }

    data-IsLawful :
        IsLawful
          (pair whole (primitive 1))
          (λ p. encode_whole p.0 ++ big_endian 1 p.1)
          (λ p. WholeFits p.0 × FitsIn 1 p.1)
    data-IsLawful = pair-IsLawful whole-IsLawful (primitive-IsLawful 1 (omega arith))

    abbrev pub DataFits : InitialConnectionData → Type 0
    DataFits d = WholeFits (whole_of d.device_info) × FitsIn 1 d.initial_connection_mode

    size_as :
        (d : InitialConnectionData)
        → (initial_connection_data to_string generator).size d
          ≡ (pair whole (primitive 1)).size (whole_of d.device_info, d.initial_connection_mode)
    unfolding initial_connection_data device_info pair primitive
    size_as d = omega arith

    write_data :
        (d : InitialConnectionData) (buffer : Buffer) (offset : ℕ)
        → (initial_connection_data to_string generator).serialize d buffer offset
          ≡ (pair whole (primitive 1)).serialize
              (whole_of d.device_info, d.initial_connection_mode)
              buffer
              offset
    unfolding initial_connection_data pair
    write_data d buffer offset = rw (serialize_as d.device_info buffer offset) refl

    read_data :
        (buffer : Buffer) (offset : ℕ)
        → (initial_connection_data to_string generator).deserialize buffer offset ≡ (
            (pair whole (primitive 1)).deserialize buffer offset >>= λ (p : (Whole × ℕ) × ℕ).
            ok (record { device_info = device_of p.0.0; initial_connection_mode = p.0.1 }, p.1))
    unfolding initial_connection_data pair
    read_data buffer offset = rw (deserialize_as buffer offset) (ground arith)

    -- Connection data whose fields fit their widths, written where it fits, is read back with every
    -- field but the address, which is not sent, and the cursor ends behind it.
    pub connection_data_round_trip :
        (d : InitialConnectionData) (buffer : Buffer) (offset : ℕ)
        → DataFits d
        → offset + (initial_connection_data to_string generator).size d ≤ length buffer
        → written_and_read (initial_connection_data to_string generator) d buffer offset
          ≡ ok (unseen d, offset + (initial_connection_data to_string generator).size d)
    connection_data_round_trip d buffer offset f h =
        let a : Whole × ℕ = (whole_of d.device_info, d.initial_connection_mode) in
        let bytes = encode_whole a.0 ++ big_endian 1 a.1 in
        let fits : offset + length bytes ≤ length buffer =
          omega (arith, h, size_as d, data-IsLawful.length-encode a) in
        let new = write_at buffer offset bytes in
        rw
          (write_data d buffer offset
            ∙ data-IsLawful.writes a buffer offset (omega (arith, h, size_as d)))
          (read_data new offset
            ∙ rw
                (data-IsLawful.reads a new offset (drop (offset + length bytes) buffer) f
                  (omega (arith, length-write_at buffer offset bytes fits, fits))
                  (drop-write_at buffer offset bytes fits))
                (ok_path refl (omega (arith, size_as d))))
