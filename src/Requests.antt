-- ===== src/Requests.antt =====
-- utilities/p2p-network ConnectionManager and utilities/system AwaitableFlag: requests that wait for the
-- response of the peer. `SendRequest` and `CoProcessPackages` run on different threads: each access to a
-- map or a flag is a step, since others come in between. A flag is a number, `raised` what it holds.
pub mod Answers
pub mod Cancel
pub mod Matching
mod Tests
use libre_connect.Base.{
  ℕ, ◌+◌, ◌-◌, ◌*◌, ◌/◌, ◌%◌, ◌^◌, ◌≡◌, Bool, true, false, not, ◌||◌, ◌&&◌, List, [], ◌∷◌, ◌++◌,
  length, ◌==◌, if◌then◌else◌, Option, none, some, Result, ok, err, ◌>>=◌,
}
use libre_connect.Wire.Text.{size_t}
use libre_connect.Package.{Package, Args, cons, get_value}
use libre_connect.Transfer.Channel.{is_connected}
use libre_connect.Connection.{
  Connection, Reason, bad_message, send_with_flag, get_package, disconnect, heartbeat,
}
use libre_connect.ConcurrentMap.{ConcurrentUnorderedMap, get, insert_or_assign, erase, pop, pop_all}

-- `PackageFlag`
abbrev pub request_awaitable : ℕ
request_awaitable = 8

abbrev pub request_awaitable_response : ℕ
request_awaitable_response = 16

-- `(header.flags & PackageFlag::REQUEST_AWAITABLE_RESPONSE) != 0`
abbrev pub is_response : ℕ → Bool
is_response flags = flags / request_awaitable_response % 2 == 1

pub record Manager : Type 0 where
  pub connection : Connection
  pub current_request_id : ℕ
  pub request_awaitable_map : ConcurrentUnorderedMap ℕ
  pub request_package_map : ConcurrentUnorderedMap Package
  -- a handler is a number; `posted` holds those that were started with their packages
  pub response_handler_map : ConcurrentUnorderedMap ℕ
  pub response_awaitable_handler_map : ConcurrentUnorderedMap ℕ
  pub posted : List (ℕ × Package)
  -- the `AwaitableFlag`s made so far, and those that hold true
  pub flags : ℕ
  pub raised : ℕ → Bool

abbrev pub set_flag : ℕ → Bool → (ℕ → Bool) → ℕ → Bool
set_flag flag value raised f = if flag == f then value else raised f

-- `AwaitableFlag::Signal`
unfoldable pub signal : ℕ → Manager → Manager
signal flag m = record m { raised = set_flag flag true m.raised }

-- `AwaitableFlag::TryConsume`
unfoldable pub try_consume : ℕ → Manager → Bool × Manager
try_consume flag m = (m.raised flag, record m { raised = set_flag flag false m.raised })

-- One look of `AwaitableFlag::Wait` before it sleeps: some true is SUCCESS, some false TIMEOUT, none
-- goes to sleep. The timer wakes it, or is aborted by a signal: `woken`.
unfoldable pub wait_look : ℕ → Bool → Manager → Option Bool × Manager
unfolding try_consume
wait_look flag expired m = looked (try_consume flag m)
  where
    looked : Bool × Manager → Option Bool × Manager
    looked (true, m') = (some true, m')
    looked (false, m') = (if expired then some false else none, m')

unfoldable pub woken : Bool → Bool → Option Bool
woken aborted expired = if not aborted && expired then some false else none

-- Behind `SendWithFlag`.
unfoldable pub request_sent :
    ℕ → ℕ → Manager → Result Connection → Result (Option (ℕ × ℕ)) × Manager
request_sent id flag m (ok c) = (ok (some (id, flag)), record m { connection = c })
request_sent id flag m (err e) = (err e, m)

-- `SendRequest` up to the wait for its flag: the request and the flag, or none where it returns at once.
-- An exception of `Create` leaves the flag in the map.
unfoldable pub begin_request : ℕ → Args → Manager → Result (Option (ℕ × ℕ)) × Manager
begin_request type args m =
    let id = m.current_request_id in
    let flag = m.flags in
    let m' = record m {
      current_request_id = (id + 1) % 2 ^ 64;
      flags = flag + 1;
      raised = set_flag flag false m.raised;
      request_awaitable_map = insert_or_assign id flag m.request_awaitable_map;
    } in
    if not (is_connected m.connection.connection_state)
    then (ok none, m)
    else request_sent id flag m'
        (send_with_flag type request_awaitable (cons size_t id args) m'.connection)

-- Behind the wait, with whether it was a success.
unfoldable pub finish_request : Bool → ℕ → Manager → Option Package × Manager
finish_request success id m =
    let m' = record m { request_awaitable_map = erase id m.request_awaitable_map } in
    if not success
    then (none, record m' { request_package_map = erase id m.request_package_map })
    else (
      (pop id m.request_package_map).0,
      record m' { request_package_map = (pop id m.request_package_map).1 },
    )

-- `SendRequestResponse`
unfoldable pub send_request_response : ℕ → ℕ → Args → Manager → Result Manager
send_request_response id type args m =
    if not (is_connected m.connection.connection_state) then ok m else do
      c ← send_with_flag type request_awaitable_response (cons size_t id args) m.connection
      ok (record m { connection = c })

-- `flag->Signal()` for each of the flags.
unfoldable pub signal_all : List ℕ → Manager → Manager
unfolding signal
signal_all [] m = m
signal_all (flag ∷ flags) m = signal_all flags (signal flag m)

-- Taking both maps and signalling the flags are one step.
unfoldable pub cancel_pending_requests : Manager → Manager
cancel_pending_requests m = signal_all (pop_all m.request_awaitable_map).0 (record m {
  request_awaitable_map = (pop_all m.request_awaitable_map).1;
  request_package_map = (pop_all m.request_package_map).1;
})

-- `Disconnect` of the manager for a package that makes the loop throw, as far as it is about requests:
-- the primary connection is told to disconnect.
unfoldable pub bad_package : Manager → Manager
unfolding cancel_pending_requests
bad_package m =
    let m' = cancel_pending_requests m in
    record m' { connection = disconnect bad_message m'.connection }

-- Where `CoProcessPackages` is: at `GetPackage`; with a response, before `InsertOrAssign` and before
-- `Signal`.
pub data Processing : Type 0 where
  idle : Processing
  inserting : (id flag : ℕ) (p : Package) → Processing
  signalling : (flag : ℕ) → Processing

-- `m_requestAwaitableMap.Pop(requestID)` for a response.
unfoldable pub response : Result (ℕ × Package) → Manager → Processing × Manager
unfolding bad_package
response (err e) m = (idle, bad_package m)
response (ok (id, p)) m =
    popped (pop id m.request_awaitable_map).0
      (record m { request_awaitable_map = (pop id m.request_awaitable_map).1 })
  where
    popped : Option ℕ → Manager → Processing × Manager
    popped none m' = (idle, m')
    popped (some flag) m' = (inserting id flag p, m')

abbrev pub first_of : Option ℕ → Option ℕ → Option ℕ
first_of none second = second
first_of (some handler) second = some handler

-- A package that is no response: the handler of its type is started, the plain one before the awaitable.
unfoldable pub handle : Package → Manager → Manager
handle p m =
    if p.header.type == heartbeat
    then record m { connection = record m.connection { heartbeat_received = true } }
    else start (
        first_of (get p.header.type m.response_handler_map)
          (get p.header.type m.response_awaitable_handler_map))
  where
    start : Option ℕ → Manager
    start none = m
    start (some handler) = record m { posted = m.posted ++ ((handler, p) ∷ []) }

unfoldable pub process : Package → Manager → Processing × Manager
unfolding response handle
process p m =
    if is_response p.header.flags then response (get_value size_t p) m else (idle, handle p m)

-- A step of the loop from where it is. An empty queue leaves it waiting for the receive flag.
unfoldable pub process_step : Processing → Manager → Processing × Manager
unfolding process signal
process_step idle m = got (get_package m.connection)
  where
    got : Option Package × Connection → Processing × Manager
    got (none, c) = (idle, m)
    got (some p, c) = process p (record m { connection = c })
process_step (inserting id flag p) m = (
  signalling flag,
  record m { request_package_map = insert_or_assign id p m.request_package_map },
)
process_step (signalling flag) m = (idle, signal flag m)

-- The registration of handlers.
unfoldable pub add_response_handler : ℕ → ℕ → Manager → Manager
add_response_handler type handler m = record m {
  response_handler_map = insert_or_assign type handler m.response_handler_map;
}

unfoldable pub add_awaitable_response_handler : ℕ → ℕ → Manager → Manager
add_awaitable_response_handler type handler m = record m {
  response_awaitable_handler_map = insert_or_assign type handler m.response_awaitable_handler_map;
}

unfoldable pub remove_response_handler : ℕ → Manager → Manager
remove_response_handler type m = record m {
  response_handler_map = erase type m.response_handler_map;
}

unfoldable pub remove_awaitable_response_handler : ℕ → Manager → Manager
remove_awaitable_response_handler type m = record m {
  response_awaitable_handler_map = erase type m.response_awaitable_handler_map;
}
