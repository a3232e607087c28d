-- ===== src/Requests/Answers.antt =====
-- A response that the peer sends reaches the coroutine that waits for it.
use libre_connect.Base.{
  ℕ, ◌+◌, ◌^◌, ◌<◌, ◌≡◌, refl, sym, ◌∙◌, true, [], ◌∷◌, ◌++◌, ◌==◌, eq→==, ne→==, if◌then◌else◌,
  none, some, ok, ◌≢◌,
}
use libre_connect.Wire.Primitive.{FitsIn, primitive}
use libre_connect.Wire.Text.{size_t, size_t-IsLawful}
use libre_connect.Package.{Package, Args, cons, get_value}
use libre_connect.Package.Laws.{
  Lawful, cons_lawful, total, created, create_ok, ReadsBack, flagged, flagged-ReadsBack,
}
use libre_connect.Transfer.Channel.{is_connected}
use libre_connect.Connection.{send_with_flag}
use libre_connect.ConcurrentMap.{get, erase, pop}
use libre_connect.ConcurrentMap.Laws.{HasKeysOnce, get-insert_or_assign, get-erase}
use libre_connect.Requests.{
  Manager, Processing, idle, inserting, signalling, request_awaitable_response, is_response, signal,
  finish_request, send_request_response, response, process, process_step,
}

-- One round of `CoProcessPackages` for a package, with nothing in between.
abbrev pub settle : Processing × Manager → Manager
settle (idle, m) = m
settle (inserting id flag p, m) = signal flag (process_step (inserting id flag p) m).1
settle (signalling flag, m) = signal flag m

pub response_lem :
    (id flag : ℕ) (p p' : Package) (m : Manager)
    → is_response p.header.flags ≡ true
    → get_value size_t p ≡ ok (id, p')
    → get id m.request_awaitable_map ≡ some flag
    → process p m ≡ (
      inserting id flag p',
      record m { request_awaitable_map = erase id m.request_awaitable_map },
    )
unfolding process response pop
response_lem id flag p p' m r g a = rw r (rw g (rw a refl))

-- The response with number `id` is processed: its package lies ready for the request `id`, whose flag
-- is raised and which is not waited for any more; the other requests wait as before.
settle_lem :
    (id flag j : ℕ) (p p' : Package) (m : Manager)
    → is_response p.header.flags ≡ true
    → get_value size_t p ≡ ok (id, p')
    → get id m.request_awaitable_map ≡ some flag
    → HasKeysOnce m.request_awaitable_map
    → ((settle (process p m)).raised flag ≡ true)
      × ((finish_request true id (settle (process p m))).0 ≡ some p')
      × (get j (settle (process p m)).request_awaitable_map
          ≡ (if id == j then none else get j m.request_awaitable_map))
unfolding process_step signal finish_request pop
settle_lem id flag j p p' m r g a k = rw (response_lem id flag p p' m r g a) (
  rw (eq→== flag flag refl) refl,
  get-insert_or_assign id id p' m.request_package_map ∙ rw (eq→== id id refl) refl,
  get-erase j id m.request_awaitable_map k,
)

module _ (type id : ℕ) {args : Args} (l : Lawful args) (fits : FitsIn 8 id) where
  -- The package that `SendRequestResponse` queues.
  queued : Package
  queued =
      flagged request_awaitable_response
        (created type (cons size_t id args) (cons_lawful size_t-IsLawful fits l))

  send_response_ok :
      (peer : Manager)
      → 8 + total args < 2 ^ 32
      → is_connected peer.connection.connection_state ≡ true
      → send_request_response id type args peer
        ≡ ok (record peer {
          connection = record peer.connection {
            package_out = peer.connection.package_out ++ (queued ∷ []);
          };
        })
  unfolding send_request_response send_with_flag primitive queued
  send_response_ok peer h c = rw c (rw (create_ok type (cons_lawful size_t-IsLawful fits l) h) refl)

  queued_read :
      (p' : Package) × (get_value size_t queued ≡ ok (id, p')) × (q : Package) × ReadsBack args p' q
  unfolding queued
  queued_read =
      let (q, (p', read, back)) =
        flagged-ReadsBack type request_awaitable_response
          (cons_lawful {args = args} size_t-IsLawful fits l) in
      (p', read, q, back)

  queued_response : is_response queued.header.flags ≡ true
  unfolding queued
  queued_response = refl

  -- A connected peer answers the request `id`, for which a coroutine waits with a flag, by a response
  -- with arguments below 4 GiB: the response is queued as a package, and where this package is
  -- processed the flag is raised, and the coroutine that goes on gets a package from which the
  -- arguments are read back in order; whether and with which flag another request waits has not changed.
  pub response_arrives :
      (flag : ℕ) (peer m : Manager)
      → 8 + total args < 2 ^ 32
      → is_connected peer.connection.connection_state ≡ true
      → get id m.request_awaitable_map ≡ some flag
      → HasKeysOnce m.request_awaitable_map
      → (p : Package) × (send_request_response id type args peer
          ≡ ok (record peer {
            connection = record peer.connection {
              package_out = peer.connection.package_out ++ (p ∷ []);
            };
          }))
        × ((settle (process p m)).raised flag ≡ true)
        × ((got end : Package) × ((finish_request true id (settle (process p m))).0 ≡ some got)
            × ReadsBack args got end)
        × ((j : ℕ)
            → j ≢ id
            → get j (settle (process p m)).request_awaitable_map ≡ get j m.request_awaitable_map)
  response_arrives flag peer m h c a k =
      let (p', read, q, back) = queued_read in
      let (raised, got, others) = settle_lem id flag id queued p' m queued_response read a k in
      (
        queued,
        send_response_ok peer h c,
        raised,
        (p', q, got, back),
        λ j ne.
            (settle_lem id flag j queued p' m queued_response read a k).2
            ∙ rw (ne→== id j (λ e. ne (sym e))) refl,
      )
