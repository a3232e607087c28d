-- ===== src/Pairing/Sending.antt =====
-- `CoSend`, between its waits for the flag and its writes, and what is written before a connection is
-- closed. What has been written is returned beside the connection.
use libre_connect.Base.{
  ℕ, zero, suc, ◌≡◌, refl, sym, ap, ◌∙◌, Bool, true, false, not, ◌||◌, List, [], ◌∷◌, ◌++◌, length,
  if◌then◌else◌,
}
use libre_connect.Wire.Text.{Text, is_empty}
use libre_connect.Wire.Devices.{InitialConnectionData}
use libre_connect.Transfer.Channel.{
  ConnectionState, disconnected, disconnecting, connecting, connected, is_connected,
}
use libre_connect.Pairing.{
  Message, device_data_for_seeking_connection, StreamError, scanner_error_event, InitialConnection,
  Surroundings, send, emit, disconnect, begin_disconnect,
}
use libre_connect.Pairing.Dialogue.{co_primary_connection_callback, primary_listening}

-- Where `CoSend` is: at `m_sendFlag.Wait()`, at `async_write`, or at its end.
pub data Sending : Type 0 where
  waiting : Sending
  writing : Message → Sending
  ended : Sending

abbrev pub is_disconnected : ConnectionState → Bool
is_disconnected disconnected = true
is_disconnected _ = false

abbrev clear : InitialConnection → Sending × InitialConnection
clear c = (ended, record c { packages_out = [] })

-- The loop over the queue, the test behind it, and the next wait.
unfoldable pub next_package : InitialConnection → Sending × InitialConnection
next_package c = first c.packages_out
  where
    first : List Message → Sending × InitialConnection
    first [] = if not (is_connected c.connection_state) then clear c else (waiting, c)
    first (p ∷ ps) = (writing p, record c { packages_out = ps; send_in_flight = true })

-- Behind the wait.
unfoldable pub woken : InitialConnection → Sending × InitialConnection
unfolding next_package
woken c = if is_disconnected c.connection_state then clear c else next_package c

-- The start of `CoSend`.
unfoldable pub co_send : InitialConnection → Sending × InitialConnection
unfolding woken
co_send c =
    if is_empty c.packages_out
    then if not (is_connected c.connection_state) then clear c else (waiting, c)
    else woken c

unfoldable pub package_written : InitialConnection → Sending × InitialConnection
unfolding next_package
package_written c = next_package (record c { send_in_flight = false })

-- A write that fails.
unfoldable pub write_failed : StreamError → InitialConnection → Sending × InitialConnection
write_failed e c =
    let c' = record c { send_in_flight = false } in
    let silent =
      c.final_handshake_completed || c.received_terminal_handshake_reason
      || c.suppress_disconnect_errors in
    if silent then clear (disconnect c') else clear (disconnect (emit (scanner_error_event e) c'))

abbrev and_written :
    Message
    → List Message × (Sending × InitialConnection)
    → List Message × (Sending × InitialConnection)
and_written p x = (p ∷ x.0, x.1)

-- As many writes that succeed, and what they write.
abbrev pub write_all :
    ℕ → Sending × InitialConnection → List Message × (Sending × InitialConnection)
write_all zero x = ([], x)
write_all (suc n) (waiting, c) = ([], (waiting, c))
write_all (suc n) (ended, c) = ([], (ended, c))
write_all (suc n) (writing p, c) = let rest = write_all n (package_written c) in and_written p rest

-- Where `CoSend` is behind the last package.
abbrev pub at_rest : ConnectionState → Sending
at_rest k = if is_connected k then waiting else ended

queue_written :
    (ps : List Message) (c : InitialConnection)
    → c.packages_out ≡ ps
    → c.send_in_flight ≡ false
    → write_all (length ps) (next_package c)
      ≡ (ps, (at_rest c.connection_state, record c { packages_out = [] }))
unfolding next_package package_written
queue_written [] c e f = rw e (resting c.connection_state)
  where
    resting :
        (k : ConnectionState)
        → ◌≡◌ {A = List Message × (Sending × InitialConnection)}
            (
              [],
              (if not (is_connected k)
                  then (ended, record c { packages_out = [] })
                  else (waiting, record c { packages_out = [] })),
            )
            ([], (at_rest k, record c { packages_out = [] }))
    resting disconnected = refl
    resting disconnecting = refl
    resting connecting = refl
    resting connected = refl
queue_written (p ∷ ps) c e f =
    let rest =
      queue_written ps (record c { packages_out = ps; send_in_flight = false }) refl refl in
    ap
      (λ (qs : List Message).
        write_all (suc (length ps)) (next_package (record c { packages_out = qs })))
      e
    ∙ ap (and_written p) rest
    ∙ ap (λ (b : Bool). all_of b) (sym f)
  where
    all_of : Bool → List Message × (Sending × InitialConnection)
    all_of b =
        (p ∷ ps, (at_rest c.connection_state, record c { packages_out = []; send_in_flight = b }))

begun_lem :
    (c : InitialConnection)
    → c.connection_state ≡ connected
    → begin_disconnect c ≡ record c { connection_state = disconnecting; has_acceptor = false }
unfolding begin_disconnect
begun_lem c o = rw o refl

-- A connected end whose `CoSend` waits is told where the primary connection listens, and its disconnect
-- begins: if the writes that follow succeed, what was queued and then the invitation are written, each
-- once and in order, and `CoSend` ends. Once the connection is disconnected, what is still queued is
-- dropped.
pub invitation_written :
    (s : Surroundings) (d : InitialConnectionData) (address : Text) (port : ℕ)
    (c : InitialConnection)
    → c.connection_state ≡ connected
    → c.send_in_flight ≡ false
    → let c' = begin_disconnect (primary_listening s d address port c) in
      ((write_all (length c'.packages_out) (woken c') ≡ (
        c.packages_out
            ++ (device_data_for_seeking_connection (record d {
              device_info = record s.this_device {
                device_address = address;
                device_address_port = port;
              };
            })
                ∷ []),
        (ended, record c' { packages_out = [] }),
      ))
        × (co_send (record c' { connection_state = disconnected })
            ≡ (ended, record c' { connection_state = disconnected; packages_out = [] })))
unfolding primary_listening co_primary_connection_callback send woken co_send
invitation_written s d address port c o f =
    let l = primary_listening s d address port c in
    rw (begun_lem l o) (
      queue_written _ (record l { connection_state = disconnecting; has_acceptor = false }) refl f,
      gone (is_empty l.packages_out)
          (record l { connection_state = disconnected; has_acceptor = false }),
    )
  where
    gone : (b : Bool) (x : InitialConnection) → (if b then clear x else clear x) ≡ clear x
    gone true x = refl
    gone false x = refl
