-- ===== src/Pairing.antt =====
-- utilities/p2p-network/src/InitialConnection.cpp: the dialogue by which two devices agree to connect or
-- to pair, and the ban of a peer that guesses codes. A message is a package whose values could be read. The
-- functions are what runs between two waits on the strand of the connection. The clock, the drawn code
-- and the files of the paired devices are arguments; times are milliseconds, and the float of a
-- cooldown is its exact value.
pub mod Bans
pub mod Dialogue
pub mod Guessing
pub mod Approval
pub mod Bound
pub mod Completion
pub mod Sending
mod Tests
use libre_connect.Base.{
  ℕ, ◌+◌, ◌-◌, ◌/◌, ◌%◌, Bool, true, false, not, ◌||◌, ◌&&◌, List, [], ◌∷◌, ◌++◌, leb, ◌==◌,
  if◌then◌else◌, Option, none, some,
}
use libre_connect.Wire.Text.{Text, is_empty}
use libre_connect.Wire.Devices.{
  DeviceInfo, InitialConnectionMode, pair_and_connect, connect_with_pair, connection_without_pair,
  InitialConnectionData,
}
use libre_connect.Transfer.Channel.{
  ConnectionState, disconnected, connecting, connected, disconnecting, is_connected,
}

abbrev pub is_pair_and_connect : InitialConnectionMode → Bool
is_pair_and_connect mode = mode == pair_and_connect

abbrev pub is_connect_with_pair : InitialConnectionMode → Bool
is_connect_with_pair mode = mode == connect_with_pair

-- The packages by their type. `unreadable` is one that exceeds the size limit or whose values cannot
-- be read, `unknown` one of another type.
pub data Message : Type 0 where
  device_data_for_connection : InitialConnectionData → Message
  device_data_for_seeking_connection : InitialConnectionData → Message
  challenge_answer_request : Message
  challenge_response : Text → Message
  challenge_wrong_answer : ℕ → Message
  device_is_unpaired : Text → Message
  device_connect_cooldown : ℕ → Message
  connection_approval_request : Message
  connection_approval_denied : Message
  unreadable : Message
  unknown : Message

-- The errors of the stream that the code tells apart.
pub data StreamError : Type 0 where
  stream_ended : StreamError
  other_error : StreamError
  permission_denied : StreamError

-- What is sent to the user interface; the first two carry the data that their callbacks hold, the
-- callback of the third does nothing.
pub data Event : Type 0 where
  pending_event : (data' : InitialConnectionData) (pairing_code : Text) → Event
  approval_requested_event : InitialConnectionData → Event
  approval_waiting_event : InitialConnectionData → Event
  failed_verification_event : ℕ → Event
  verification_event : Event
  approval_denied_event : Event
  not_paired_event : Text → Event
  cooldown_event : ℕ → Event
  scanner_error_event : StreamError → Event

-- The coroutines that the code itself spawns on the strand.
pub data Task : Type 0 where
  pending_callback : InitialConnectionData → Task
  disconnecting_task : Task

-- `g_connectionBanExpirations`, which all connections share.
abbrev pub Bans : Type 0
Bans = List (Text × ℕ)

-- `receiving` holds while `CoReceive` runs, and `data` is its local variable; `seeks` and `connects` are
-- the calls of `ConnectionManager::SeekPrimary` and `ConnectPrimary`.
pub record InitialConnection : Type 0 where
  pub connection_state : ConnectionState
  pub challenge_result : Text
  pub challenge_left_tries : ℕ
  pub requested_connection_mode : InitialConnectionMode
  pub final_handshake_completed : Bool
  pub suppress_disconnect_errors : Bool
  pub received_terminal_handshake_reason : Bool
  pub has_acceptor : Bool
  pub receiving : Bool
  pub remote : InitialConnectionData
  pub packages_out : List Message
  pub send_in_flight : Bool
  pub spawned : List Task
  pub events : List Event
  pub seeks : List InitialConnectionData
  pub connects : List InitialConnectionData
  pub bans : Bans

-- What a device knows: itself, `boost::uuids::to_string`, which files exist, where none is an error of the file system, and the
-- address of the peer.
pub record Surroundings : Type 0 where
  pub this_device : DeviceInfo
  pub to_string : ℕ → Text
  pub exists : List Text → Option Bool
  pub remote_address : Text

-- What the clock says at the two looks at the bans, and the number that is drawn.
pub record Moment : Type 0 where
  pub now : ℕ
  pub later : ℕ
  pub value : ℕ

abbrev pub certs : Text
certs = 99 ∷ 101 ∷ 114 ∷ 116 ∷ 115 ∷ []

-- `cert.key`
abbrev pub cert_key : Text
cert_key = 99 ∷ 101 ∷ 114 ∷ 116 ∷ 46 ∷ 107 ∷ 101 ∷ 121 ∷ []

-- `data.JSON`
abbrev pub data_json : Text
data_json = 100 ∷ 97 ∷ 116 ∷ 97 ∷ 46 ∷ 74 ∷ 83 ∷ 79 ∷ 78 ∷ []

unfoldable pub is_paired_device_known : Surroundings → DeviceInfo → Bool
is_paired_device_known s d =
    both (s.exists (certs ∷ s.to_string d.device_id ∷ cert_key ∷ []))
      (s.exists (certs ∷ s.to_string d.device_id ∷ data_json ∷ []))
  where
    both : Option Bool → Option Bool → Bool
    both none data_exists = false
    both (some cert_exists) none = false
    both (some cert_exists) (some data_exists) = cert_exists && data_exists

-- `std::setw(6) << std::setfill('0')` of a number below a million.
unfoldable pub generate_pairing_code : ℕ → Text
generate_pairing_code value =
    digit (value / 100000)
    ∷ (digit (value / 10000)
        ∷ (digit (value / 1000)
            ∷ (digit (value / 100) ∷ (digit (value / 10) ∷ (digit value ∷ [])))))
  where
    digit : ℕ → ℕ
    digit n = 48 + n % 10

unfoldable pub build_connection_ban_key : DeviceInfo → Text
build_connection_ban_key d =
    if not (is_empty d.certificate_fingerprint) then d.certificate_fingerprint else d.device_address

-- `DeviceInfo{}` and `InitialConnectionData{}`
abbrev pub no_data : InitialConnectionData
no_data = record {
  device_info = record {
    device_name = [];
    os_name = [];
    os_version = [];
    app_version = [];
    device_address = [];
    device_address_port = 0;
    device_id = 0;
    device_type = 0;
    certificate_fingerprint = [];
  };
  initial_connection_mode = connection_without_pair;
}

-- A new connection.
abbrev pub create : Bans → InitialConnection
create bans = record {
  connection_state = disconnected;
  challenge_result = [];
  challenge_left_tries = 0;
  requested_connection_mode = connection_without_pair;
  final_handshake_completed = false;
  suppress_disconnect_errors = false;
  received_terminal_handshake_reason = false;
  has_acceptor = false;
  receiving = false;
  remote = no_data;
  packages_out = [];
  send_in_flight = false;
  spawned = [];
  events = [];
  seeks = [];
  connects = [];
  bans = bans;
}

unfoldable pub send : Message → InitialConnection → InitialConnection
send m c = record c { packages_out = c.packages_out ++ (m ∷ []) }

abbrev pub emit : Event → InitialConnection → InitialConnection
emit e c = record c { events = c.events ++ (e ∷ []) }

abbrev pub spawn : Task → InitialConnection → InitialConnection
spawn t c = record c { spawned = c.spawned ++ (t ∷ []) }

-- `Disconnect()`
abbrev pub disconnect : InitialConnection → InitialConnection
disconnect c = spawn disconnecting_task c

abbrev pub seek_primary : InitialConnectionData → InitialConnection → InitialConnection
seek_primary d c = record c { suppress_disconnect_errors = true; seeks = c.seeks ++ (d ∷ []) }

-- `CoReceive` returns behind a disconnect.
abbrev pub over : InitialConnection → InitialConnection
over c = record (disconnect c) { receiving = false }

-- `CoDisconnect` before and behind its wait for the packages that are still to be written.
unfoldable pub begin_disconnect : InitialConnection → InitialConnection
begin_disconnect c = closing c.connection_state
  where
    closing : ConnectionState → InitialConnection
    closing disconnected = c
    closing disconnecting = c
    closing _ = record c { connection_state = disconnecting; has_acceptor = false }

unfoldable pub end_disconnect : InitialConnection → InitialConnection
end_disconnect c = record c { connection_state = disconnected }
