-- ===== src/ChannelPool.antt =====
-- modules/common/src/TransferChannelPool.cpp: the transfer channels of a connection, of which coroutines
-- borrow one each. `std::shared_ptr<TransferChannel>` is a number, and what a channel answers is read
-- from `status`; the reservation guard of a borrower is part of its task, and releasing it is a step.
-- A borrower stops before and behind `TryReserve`, where others may run: what it reads of one index is
-- one step. A test of the connection state and the store behind it are one step too.
pub mod Exclusion
pub mod Borrowing
pub mod Connecting
mod Tests
use libre_connect.Base.{
  ℕ, zero, suc, ◌+◌, ◌-◌, ◌≡◌, Bool, true, false, not, ◌||◌, ◌&&◌, List, [], ◌∷◌, ◌++◌, length, ltb,
  leb, ◌==◌, if◌then◌else◌, Option, none, some,
}
use libre_connect.Transfer.Channel.{
  ConnectionState, disconnected, connecting, connected, disconnecting, is_connected,
}

-- `GetConnectionState()`, `IsUsed(true)` and `IsUsed(false)` of a channel.
pub record Status : Type 0 where
  pub connection_state : ConnectionState
  pub send : Bool
  pub receive : Bool

abbrev pub new_status : Status
new_status = record { connection_state = disconnected; send = false; receive = false }

abbrev pub is_free : Status → Bool
is_free s = is_connected s.connection_state && not s.receive && not s.send

abbrev pub is_disconnected : ConnectionState → Bool
is_disconnected disconnected = true
is_disconnected _ = false

abbrev pub is_connecting : ConnectionState → Bool
is_connecting connecting = true
is_connecting _ = false

pub record Pool : Type 0 where
  pub count : ℕ
  pub connection_state : ConnectionState
  pub waiting_for_connections : Bool
  pub channels : List ℕ
  pub reserved : List ℕ
  -- the channels made so far, what each answers, and those that were told to disconnect
  pub made : ℕ
  pub status : ℕ → Status
  pub disconnects : List ℕ

abbrev pub get_elem? : List ℕ → ℕ → Option ℕ
get_elem? [] i = none
get_elem? (x ∷ xs) zero = some x
get_elem? (x ∷ xs) (suc i) = get_elem? xs i

-- `unordered_set::contains` and `erase`
abbrev pub contains : List ℕ → ℕ → Bool
contains [] index = false
contains (x ∷ xs) index = x == index || contains xs index

abbrev pub erase : List ℕ → ℕ → List ℕ
erase [] index = []
erase (x ∷ xs) index = if x == index then erase xs index else x ∷ erase xs index

abbrev pub count_from : ℕ → ℕ → List ℕ
count_from first zero = []
count_from first (suc n) = first ∷ count_from (first + 1) n

-- `emplace_back(std::make_shared<TransferChannel>())` for every place
unfoldable pub initialize_channels : Pool → Pool
initialize_channels p = record p {
  channels = p.channels ++ count_from p.made p.count;
  made = p.made + p.count;
  status = λ c. if leb p.made c then new_status else p.status c;
}

unfoldable pub new : ℕ → Pool
unfolding initialize_channels
new count = initialize_channels (record {
  count = count;
  connection_state = disconnected;
  waiting_for_connections = false;
  channels = [];
  reserved = [];
  made = 0;
  status = λ c. new_status;
  disconnects = [];
})

unfoldable pub get : ℕ → Pool → Option ℕ
get index p = get_elem? p.channels index

unfoldable pub is_reserved : ℕ → Pool → Bool
is_reserved index p = contains p.reserved index

-- True is the guard.
unfoldable pub try_reserve : ℕ → Pool → Bool × Pool
try_reserve index p =
    if contains p.reserved index
    then (false, p)
    else (true, record p { reserved = index ∷ p.reserved })

-- The deleter of the guard.
unfoldable pub release : ℕ → Pool → Pool
release index p = record p { reserved = erase p.reserved index }

unfoldable pub clear_reservations : Pool → Pool
clear_reservations p = record p { reserved = [] }

unfoldable pub reset : Pool → Pool
unfolding clear_reservations initialize_channels
reset p =
    let cleared =
      clear_reservations
        (record p { connection_state = disconnected; waiting_for_connections = false }) in
    initialize_channels
      (record cleared { channels = []; disconnects = p.disconnects ++ p.channels })

unfoldable pub clear : Pool → Pool
unfolding clear_reservations
clear p = record (clear_reservations p) { channels = []; disconnects = p.disconnects ++ p.channels }

-- Where `BorrowTransferChannel` is: at the top of its `while`; in its `for` before the test of an
-- index; before `TryReserve` and behind it, with the channel it has got; returned; thrown.
pub data Task : Type 0 where
  round : Task
  scan : (i count : ℕ) → Task
  reserve : (i count channel : ℕ) → Task
  recheck : (i count channel : ℕ) → Task
  borrowed : (i channel : ℕ) → Task
  thrown : Task

-- The reads of `for` before `TryReserve`.
unfoldable pub examine : ℕ → ℕ → Option ℕ → Pool → Task
examine i count none p = scan (i + 1) count
examine i count (some channel) p =
    if is_free (p.status channel) then reserve i count channel else scan (i + 1) count

unfoldable pub reserved_or_next : ℕ → ℕ → ℕ → Bool × Pool → Task × Pool
reserved_or_next i count channel (true, p) = (recheck i count channel, p)
reserved_or_next i count channel (false, p) = (scan (i + 1) count, p)

-- One step of a borrower, from the state of the primary connection.
unfoldable pub borrow : ConnectionState → Task → Pool → Task × Pool
unfolding examine reserved_or_next try_reserve release get is_reserved
borrow primary round p =
    if not (is_connected primary) || not (is_connected p.connection_state)
    then (thrown, p)
    else (scan 0 (length p.channels), p)
borrow primary (scan i count) p =
    if not (ltb i count)
    then (round, p)
    else if is_reserved i p
    then (scan (i + 1) count, p)
    else (examine i count (get i p) p, p)
borrow primary (reserve i count channel) p = reserved_or_next i count channel (try_reserve i p)
borrow primary (recheck i count channel) p =
    if is_free (p.status channel)
    then (borrowed i channel, p)
    else (scan (i + 1) count, release i p)
borrow primary (borrowed i channel) p = (borrowed i channel, p)
borrow primary thrown p = (thrown, p)

-- One look of `WaitForAllChannelsConnected` at the channels from an index on: none, a channel is
-- missing; some, whether all are connected.
unfoldable pub all_connected : ℕ → ℕ → Pool → Option Bool
all_connected zero i p = some true
all_connected (suc n) i p = at (get_elem? p.channels i) (all_connected n (i + 1) p)
  where
    at : Option ℕ → Option Bool → Option Bool
    at none rest = none
    at (some channel) rest =
        if is_connected (p.status channel).connection_state then rest else some false

abbrev pub stop_waiting : ConnectionState → Pool → Pool
stop_waiting state p = record p { connection_state = state; waiting_for_connections = false }

-- Behind the look; `expired` says whether the deadline has passed.
unfoldable pub looked : Bool → Option Bool → Pool → Option Bool × Pool
looked expired none p = (some false, stop_waiting disconnected p)
looked expired (some true) p = (some true, stop_waiting connected p)
looked expired (some false) p =
    if expired then (some false, stop_waiting disconnected p) else (none, p)

-- One round of `WaitForAllChannelsConnected`; none, it waits for another one.
unfoldable pub wait_round : ConnectionState → Bool → Pool → Option Bool × Pool
unfolding looked all_connected
wait_round primary expired p =
    if not (is_connected primary)
    then (some false, stop_waiting disconnected p)
    else looked expired (all_connected p.count 0 p) p

-- `Connect` on the desktop up to its loop; none is the early return.
unfoldable pub connect : Pool → Option Pool
connect p =
    if not (is_disconnected p.connection_state)
    then none
    else some (record p { connection_state = connecting })

-- One round of its loop: whether it sends a request and waits for another round.
unfoldable pub connect_round : ConnectionState → Bool → Pool → Bool × Pool
connect_round primary expired p =
    if not (is_connecting p.connection_state)
    then (false, p)
    else if not (is_connected primary)
    then (false, record p { connection_state = disconnected })
    else if p.waiting_for_connections
    then (false, p)
    else if expired
    then (false, record p { connection_state = disconnected })
    else (true, p)

-- The handler of `TRANSFER_CHANNEL_POOL_PORT_INFO` on the desktop: the channel that is told to connect
-- to the port, and whether the wait for all channels is started.
unfoldable pub port_info : ℕ → Pool → Option ℕ × (Bool × Pool)
port_info index p =
    if leb p.count index then (none, (false, p)) else told (get_elem? p.channels index)
  where
    told : Option ℕ → Option ℕ × (Bool × Pool)
    told none = (none, (false, p))
    told (some channel) =
        (some channel, (not p.waiting_for_connections, record p { waiting_for_connections = true }))

-- The loop of `Seek` that spawns a `Seek` for every channel: those spawned, and whether none is missing.
unfoldable pub spawn_seeks : ℕ → ℕ → Pool → List ℕ × Bool
spawn_seeks zero i p = ([], true)
spawn_seeks (suc n) i p = at (get_elem? p.channels i) (spawn_seeks n (i + 1) p)
  where
    at : Option ℕ → List ℕ × Bool → List ℕ × Bool
    at none rest = ([], false)
    at (some channel) (spawned, whole) = (channel ∷ spawned, whole)

-- `Seek` up to the wait for the ports, with the channels that seek; none is the early return.
unfoldable pub seek : Pool → Option (List ℕ × Pool)
unfolding spawn_seeks
seek p =
    let (spawned, whole) = spawn_seeks p.count 0 p in
    if not (is_disconnected p.connection_state)
    then none
    else some (spawned, record p { connection_state = if whole then connecting else disconnected })

-- The loop that publishes the ports, from the ports that the listeners have got and the state of the
-- primary connection that it meets behind each wait: the packages sent, and whether all were.
unfoldable pub publish : ℕ → List (ℕ × ConnectionState) → Pool → List (ℕ × ℕ) × (Bool × Pool)
publish i [] p = ([], (true, p))
publish i ((port, primary) ∷ rest) p =
    let (sent, done) = publish (i + 1) rest p in
    if port == 0
    then ([], (false, record p { connection_state = disconnected }))
    else if not (is_connected primary)
    then ([], (false, record p { connection_state = disconnected }))
    else ((i, port) ∷ sent, done)
