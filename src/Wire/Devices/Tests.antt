-- ===== src/Wire/Devices/Tests.antt =====
-- A phone that introduces itself.
use libre_connect.Base.{
  ℕ, ◌+◌, ◌≡◌, refl, [], ◌∷◌, ◌++◌, replicate, arith, ok, err, Option, some, none,
  primitive_out_of_bounds,
}
use libre_connect.Wire.Primitive.{big_endian}
use libre_connect.Wire.Text.{Text, text}
use libre_connect.Wire.Uuid.{uuid}
use libre_connect.Wire.RoundTrip.{written_and_read}
use libre_connect.Wire.Devices.{
  DeviceInfo, InitialConnectionData, pair_and_connect, device_info, initial_connection_data,
}
use libre_connect.Wire.Devices.Versions.{
  core, core_of, encode_core, device_of, unseen, old_versions, connection_data_round_trip,
}

-- A text of 36 characters for a number, from which it is read back.
abbrev shown : ℕ → Text
shown id = id ∷ replicate 35 48

abbrev read : Text → Option ℕ
read [] = none
read (id ∷ cs) = some id

abbrev phone : DeviceInfo
phone = record {
  device_name = 112 ∷ [];
  os_name = 97 ∷ [];
  os_version = 49 ∷ 53 ∷ [];
  app_version = [];
  device_address = 49 ∷ [];
  device_address_port = 8080;
  device_id = 9;
  device_type = 3;
  certificate_fingerprint = 102 ∷ 102 ∷ [];
}

abbrev hello : InitialConnectionData
hello = record { device_info = phone; initial_connection_mode = pair_and_connect }

data_size : (initial_connection_data shown read).size hello ≡ 97
unfolding initial_connection_data device_info uuid text
data_size = refl

connection_data_round_trip_example :
    written_and_read (initial_connection_data shown read) hello (replicate 120 0) 10
    ≡ ok (
      unseen shown read (λ u. refl) (λ u. refl) hello,
      10 + (initial_connection_data shown read).size hello,
    )
connection_data_round_trip_example =
    connection_data_round_trip shown read (λ u. refl) (λ u. refl) hello (replicate 120 0) 10
      (
        (
          (
            ((omega arith, (omega arith, (omega arith, (omega arith, omega arith)))), omega arith),
            omega arith,
          ),
          omega arith,
        ),
        omega arith,
      )
      (omega (arith, data_size))

old_versions_example :
    ((device_info shown read).deserialize (encode_core shown read (core_of shown read phone)) 0
      ≡ ok (
        device_of shown read (((core_of shown read phone, []), []), []),
        0 + (core shown read).size (core_of shown read phone),
      ))
    × ((initial_connection_data shown read).deserialize
          (encode_core shown read (core_of shown read phone) ++ big_endian 1 0)
          0
        ≡ err primitive_out_of_bounds)
old_versions_example =
    old_versions shown read (λ u. refl) (λ u. refl) (core_of shown read phone) 0
      (encode_core shown read (core_of shown read phone))
      (encode_core shown read (core_of shown read phone) ++ big_endian 1 0) 0
      (omega arith, (omega arith, (omega arith, (omega arith, omega arith)))) (omega arith) refl
      (omega arith) refl
