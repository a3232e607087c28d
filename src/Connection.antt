-- ===== src/Connection.antt =====
-- utilities/p2p-network: `PrimaryConnection`, the connection over which packages go in both directions.
-- Its coroutines are loops whose rounds are the functions below; a round says whether the loop goes on.
-- What the socket does is data: which of the next writes fail, and the bytes that arrive before the
-- stream ends. `Disconnect` spawns a coroutine, so a round only notes its reason.
pub mod Rounds
pub mod Stream
pub mod Account
mod Tests
use libre_connect.Base.{
  ℕ, zero, suc, ◌+◌, ◌-◌, ◌*◌, ◌%◌, ◌^◌, ◌≡◌, Bool, true, false, not, ◌||◌, ◌&&◌, List, [], ◌∷◌,
  ◌++◌, length, take, drop, replicate, ltb, ◌==◌, if◌then◌else◌, Option, none, some, Result, ok,
  err, ◌>>=◌,
}
use libre_connect.Wire.Buffer.{Buffer}
use libre_connect.Package.{
  PackageHeader, package_header, header_size, Package, of_header, Args, create,
}
use libre_connect.Transfer.Channel.{
  ConnectionState, disconnected, connecting, connected, disconnecting, is_connected,
}

-- `MAX_PACKAGE_SIZE` and `MAX_INBOUND_QUEUED_BYTES`
abbrev pub max_package_size : ℕ
max_package_size = 1024 * 256

abbrev pub max_inbound_queued_bytes : ℕ
max_inbound_queued_bytes = 1024 * 1024 * 16

-- `PC_PackageType::HEARTBEAT`
abbrev pub heartbeat : ℕ
heartbeat = 1

pub data Reason : Type 0 where
  message_size timed_out socket_error bad_message : Reason

pub record Connection : Type 0 where
  pub connection_state : ConnectionState
  pub connection_generation : ℕ
  pub package_out : List Package
  pub package_in : List Package
  pub inbound_queued_bytes : ℕ
  pub heartbeat_received : Bool
  pub disconnected_event_sent : Bool
  pub outcomes : List Bool
  pub sent : List ℕ
  pub incoming : List ℕ
  -- the calls of `Disconnect` and the `DisconnectedEvent`s
  pub disconnects : List Reason
  pub events : ℕ

unfoldable pub send : ℕ → Args → Connection → Result Connection
send type args c = if not (is_connected c.connection_state) then ok c else do
  new_package ← create type args
  ok (record c { package_out = c.package_out ++ (new_package ∷ []) })

unfoldable pub send_with_flag : ℕ → ℕ → Args → Connection → Result Connection
send_with_flag type flag args c = if not (is_connected c.connection_state) then ok c else do
  new_package ← create type args
  let flagged = record new_package { header = record new_package.header { flags = flag } }
  ok (record c { package_out = c.package_out ++ (flagged ∷ []) })

-- `m_packageIn.try_dequeue(consumerToken, package)` and its branches
unfoldable pub dequeued : List Package → Connection → Option Package × Connection
dequeued [] c = (none, c)
dequeued (p ∷ ps) c = (
  some p,
  record c {
    package_in = ps;
    inbound_queued_bytes = (c.inbound_queued_bytes + 2 ^ 64 - p.header.size) % 2 ^ 64;
  },
)

unfoldable pub get_package : Connection → Option Package × Connection
get_package c = dequeued c.package_in c

unfoldable pub clear_queued_packages : Connection → Connection
clear_queued_packages c = record c { package_out = []; package_in = []; inbound_queued_bytes = 0 }

-- The condition of every loop.
abbrev pub runs_on : ℕ → Connection → Bool
runs_on generation c = is_connected c.connection_state && (generation == c.connection_generation)

abbrev pub disconnect : Reason → Connection → Connection
disconnect reason c = record c { disconnects = c.disconnects ++ (reason ∷ []) }

-- The `catch` of every coroutine.
unfoldable pub caught : ℕ → Connection → Bool × Connection
caught generation c =
    (false, if generation == c.connection_generation then disconnect socket_error c else c)

-- `asio::async_write(*socket, constBuffers)`
unfoldable pub write_buffers : List ℕ → Connection → Bool × Connection
write_buffers bytes c = written c.outcomes
  where
    written : List Bool → Bool × Connection
    written [] = (true, record c { sent = c.sent ++ bytes })
    written (true ∷ rest) = (true, record c { sent = c.sent ++ bytes; outcomes = rest })
    written (false ∷ rest) = (false, record c { outcomes = rest })

-- The header buffer; it has just the size of a header, so writing into it never throws.
unfoldable pub header_bytes : PackageHeader → Buffer
header_bytes header = done (package_header.serialize header (replicate header_size 0) 0)
  where
    done : Result (Buffer × ℕ) → Buffer
    done (ok (buffer, _)) = buffer
    done (err e) = replicate header_size 0

-- One package of the inner loop of `CoSend`.
unfoldable pub send_package : ℕ → Package → Connection → Bool × Connection
send_package generation p c =
    after (write_buffers (header_bytes p.header ++ take p.header.size p.buffer) c)
  where
    after : Bool × Connection → Bool × Connection
    after (true, c') = (true, c')
    after (false, c') = caught generation c'

unfoldable pub send_round : ℕ → Connection → Bool × Connection
send_round generation c = if runs_on generation c then dequeue c.package_out else (false, c)
  where
    dequeue : List Package → Bool × Connection
    dequeue [] = (false, c)
    dequeue (p ∷ ps) = send_package generation p (record c { package_out = ps })

-- Behind the read of the body.
unfoldable pub body_read : ℕ → Package → Connection → Bool × Connection
body_read generation p c =
    let counted = record c {
      inbound_queued_bytes = (c.inbound_queued_bytes + p.header.size) % 2 ^ 64;
    } in
    if not (runs_on generation c)
    then (false, c)
    else if p.header.type == heartbeat
    then (true, record c { heartbeat_received = true })
    else if ltb max_inbound_queued_bytes counted.inbound_queued_bytes
    then (false, disconnect message_size counted)
    else (true, record counted { package_in = c.package_in ++ (p ∷ []) })

-- Behind the read of the header.
unfoldable pub header_read : ℕ → PackageHeader → Connection → Bool × Connection
header_read generation header c =
    let body = record (of_header header) { buffer = take header.size c.incoming } in
    if not (runs_on generation c)
    then (false, c)
    else if ltb max_package_size header.size
    then (false, disconnect message_size c)
    else if ltb (length c.incoming) header.size
    then caught generation (record c { incoming = [] })
    else body_read generation body (record c { incoming = drop header.size c.incoming })

-- Behind `header.Deserialize`; an exception of it is no `system_error` and ends the coroutine.
unfoldable pub header_parsed : ℕ → Result (PackageHeader × ℕ) → Connection → Bool × Connection
header_parsed generation (ok (header, _)) c =
    header_read generation header (record c { incoming = drop header_size c.incoming })
header_parsed generation (err e) c = (false, c)

-- One round of `CoReceive`.
unfoldable pub receive_round : ℕ → Connection → Bool × Connection
receive_round generation c =
    if not (runs_on generation c)
    then (false, c)
    else if ltb (length c.incoming) header_size
    then caught generation (record c { incoming = [] })
    else header_parsed generation (package_header.deserialize (take header_size c.incoming) 0) c

-- A loop for that many rounds at most.
abbrev pub rounds : (Connection → Bool × Connection) → ℕ → Connection → Connection
rounds round zero c = c
rounds round (suc n) c =
    let (goes_on, c') = round c in let rest = rounds round n c' in if goes_on then rest else c'

-- `CoHeartbeatMonitor` when its timer expires.
unfoldable pub monitor_round : ℕ → Connection → Bool × Connection
monitor_round generation c =
    let cleared = record c { heartbeat_received = false } in
    if not (runs_on generation c)
    then (false, c)
    else if c.heartbeat_received
    then (true, cleared)
    else (false, disconnect timed_out cleared)

-- `CoDisconnect` up to its wait for the sockets, from the state that it finds; none is the early
-- return.
unfoldable pub leave : ConnectionState → Connection → Option Connection
leave disconnected c = none
leave disconnecting c = none
leave _ c = some (record c {
  connection_state = disconnecting;
  connection_generation = (c.connection_generation + 1) % 2 ^ 64;
})

unfoldable pub begin_disconnect : Connection → Option Connection
begin_disconnect c = leave c.connection_state c

-- Behind the wait.
unfoldable pub end_disconnect : Bool → Connection → Connection
end_disconnect call_connection_manager c =
    let cleared = record (clear_queued_packages c) {
      heartbeat_received = false;
      connection_state = disconnected;
    } in
    if call_connection_manager && not c.disconnected_event_sent
    then record cleared { disconnected_event_sent = true; events = c.events + 1 }
    else cleared
