-- ===== src/Transfer/Channel.antt =====
-- A transfer channel: its state, coroutines as state passing with exceptions, and its socket.
-- What the network does is data of the state: `outcomes` says which of the next writes fail (none does
-- behind its end), and `incoming` holds the bytes that the peer sends before the stream ends.
use libre_connect.Base.{
  ℕ, ◌+◌, ◌-◌, ◌*◌, ◌%◌, ◌^◌, ◌≡◌, Bool, true, false, List, [], ◌∷◌, ◌++◌, length, take, drop, ltb,
  if◌then◌else◌, Result, ok, err, Fault, end_of_stream,
}
use libre_connect.Wire.Buffer.{Buffer, write_at}

pub data ConnectionState : Type 0 where
  disconnected connecting connected disconnecting : ConnectionState

abbrev pub is_connected : ConnectionState → Bool
is_connected connected = true
is_connected _ = false

pub record Channel : Type 0 where
  pub connection_state : ConnectionState
  pub has_socket : Bool
  pub send : Bool
  pub receive : Bool
  pub progress : ℕ
  pub current_file_size : ℕ
  pub current_file_progress : ℕ
  pub buffer_in : Buffer
  pub buffer_out : Buffer
  pub outcomes : List Bool
  pub sent : List ℕ
  pub incoming : List ℕ
  -- calls of `co_spawn(…, Disconnect())`
  pub disconnects : ℕ

abbrev pub transfer_buffer_size : ℕ
transfer_buffer_size = 1024 * 256

-- An exception leaves the state as it is when it is thrown.
abbrev pub M : Type 0 → Type 0
M A = Channel → Result A × Channel

infixl 5 ◌>>=◌ ◌>>◌
abbrev pub ◌>>=◌ : {A B : Type 0} → M A → (A → M B) → M B
◌>>=◌ {A} {B} m f ch = after (m ch)
  where
    after : Result A × Channel → Result B × Channel
    after (ok a, ch') = f a ch'
    after (err e, ch') = (err e, ch')

abbrev pub ◌>>◌ : {B : Type 0} → M (Unit {0}) → M B → M B
m >> k = m >>= λ _. k

abbrev pub pure : {A : Type 0} → A → M A
pure a ch = (ok a, ch)

abbrev pub throw : {A : Type 0} → Fault → M A
throw e ch = (err e, ch)

abbrev pub lift : {A : Type 0} → Result A → M A
lift r ch = (r, ch)

abbrev pub get : M Channel
get ch = (ok ch, ch)

abbrev pub modify : (Channel → Channel) → M (Unit {0})
modify f ch = (ok tt, f ch)

-- `asio::async_write(*socket, buffer)`: false stands for the `system_error` that it throws.
unfoldable pub async_write : List ℕ → Channel → Bool × Channel
async_write bytes ch = written ch.outcomes
  where
    written : List Bool → Bool × Channel
    written [] = (true, record ch { sent = ch.sent ++ bytes })
    written (true ∷ rest) = (true, record ch { sent = ch.sent ++ bytes; outcomes = rest })
    written (false ∷ rest) = (false, record ch { outcomes = rest })

-- `asio::async_read(*socket, buffer of n bytes at offset)` into `m_bufferIn`; it throws if the stream
-- ends too early.
unfoldable pub async_read : ℕ → ℕ → M (Unit {0})
async_read offset n ch =
    if ltb (length ch.incoming) n then (err end_of_stream, record ch { incoming = [] }) else (
      ok tt,
      record ch {
        buffer_in = write_at ch.buffer_in offset (take n ch.incoming);
        incoming = drop n ch.incoming;
      },
    )

abbrev pub add_size : ℕ → ℕ → ℕ
add_size a b = (a + b) % 2 ^ 64

abbrev pub sub_size : ℕ → ℕ → ℕ
sub_size a b = (a + 2 ^ 64 - b) % 2 ^ 64

-- `SendBuffer(size)`: the first bytes of `m_bufferOut`.
unfoldable pub send_buffer : ℕ → M Bool
send_buffer size ch =
    if ch.has_socket then finish (async_write (take size ch.buffer_out) ch) else (ok false, ch)
  where
    finish : Bool × Channel → Result Bool × Channel
    finish (true, ch') = (ok true, record ch' { progress = add_size ch'.progress size })
    finish (false, ch') = (ok false, record ch' { disconnects = ch'.disconnects + 1 })

-- A step that succeeds hands its value and its state on; one that throws ends the chain.
module _ {A B : Type 0} (m : M A) (f : A → M B) (ch : Channel) {ch' : Channel} where
  pub then_ok : {a : A} → m ch ≡ (ok a, ch') → (m >>= f) ch ≡ f a ch'
  then_ok e = rw e

  pub then_err : {e : Fault} → m ch ≡ (err e, ch') → (m >>= f) ch ≡ (err e, ch')
  then_err e = rw e
