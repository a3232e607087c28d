-- ===== src/Connection/Account.antt =====
-- The bytes that wait to be handled, whatever the peer sends; and what a loop of an old connection does.
use libre_connect.Base.{
  ℕ, ◌+◌, ◌%◌, ◌^◌, ◌≤◌, ◌<◌, ◌≡◌, ◌≢◌, ne→==, refl, sym, ap, ◌∙◌, Bool, true, false, not, ◌&&◌,
  List, [], ◌∷◌, ◌++◌, length, take, ltb, ltb→le, ◌==◌, if◌then◌else◌, arith, Option, none, some,
  Result, ok, err,
}
use libre_connect.Package.{PackageHeader, package_header, header_size, Package, of_header}
use libre_connect.Connection.{
  Connection, heartbeat, max_package_size, max_inbound_queued_bytes, runs_on, caught, get_package,
  dequeued, header_parsed, clear_queued_packages, body_read, header_read, receive_round, send_round,
  monitor_round, begin_disconnect, leave,
}
use libre_connect.Transfer.Channel.{
  ConnectionState, disconnected, connecting, connected, disconnecting, is_connected,
}
use libre_connect.Connection.Stream.{total}

-- The counter is the size of the bodies that wait, and within the limit.
pub record IsAccounted (c : Connection) : Type 0 where
  pub counted : c.inbound_queued_bytes ≡ total c.package_in
  pub bounded : c.inbound_queued_bytes ≤ max_inbound_queued_bytes

-- A round that goes on leaves the account right.
abbrev Keeps : Bool × Connection → Type 0
Keeps r = r.0 ≡ true → IsAccounted r.1

ended : (c : Connection) → Keeps (false, c)
ended c h = cc

Keeps-if :
    (g : Bool) (x y : Bool × Connection)
    → (g ≡ true → Keeps x)
    → (g ≡ false → Keeps y)
    → Keeps (if g then x else y)
Keeps-if true x y h k = h refl
Keeps-if false x y h k = k refl

total-snoc : (ps : List Package) (p : Package) → total (ps ++ (p ∷ [])) ≡ total ps + p.header.size
total-snoc [] p = omega arith
total-snoc (q ∷ ps) p = omega (arith, total-snoc ps p)

same :
    (c c' : Connection)
    → c.inbound_queued_bytes ≡ c'.inbound_queued_bytes
    → c.package_in ≡ c'.package_in
    → IsAccounted c
    → IsAccounted c'
same c c' e f a = record {
  counted = sym e ∙ a.counted ∙ ap total f;
  bounded = omega (arith, a.bounded);
}

body_read-Keeps :
    (generation : ℕ) (p : Package) (c : Connection)
    → p.header.size ≤ max_package_size
    → IsAccounted c
    → Keeps (body_read generation p c)
unfolding body_read
body_read-Keeps generation p c l a =
    Keeps-if (not (runs_on generation c)) _ _ (λ _. ended c)
      (λ _.
        Keeps-if (p.header.type == heartbeat) _ _ (λ _ _. same c _ refl refl a)
          (λ _.
            Keeps-if
              (ltb max_inbound_queued_bytes ((c.inbound_queued_bytes + p.header.size) % 2 ^ 64)) _ _
              (λ _. ended _)
              (λ h _. record {
                counted = omega (arith, a.counted, a.bounded, total-snoc c.package_in p);
                bounded = ltb→le _ _ h;
              })))

header_read-Keeps :
    (generation : ℕ) (h : PackageHeader) (c : Connection)
    → IsAccounted c
    → Keeps (header_read generation h c)
unfolding header_read of_header caught
header_read-Keeps generation h c a =
    Keeps-if (not (runs_on generation c)) _ _ (λ _. ended c)
      (λ _.
        Keeps-if (ltb max_package_size h.size) _ _ (λ _. ended _)
          (λ small.
            Keeps-if (ltb (length c.incoming) h.size) _ _ (λ _. ended _)
              (λ _. body_read-Keeps generation _ _ (ltb→le _ _ small) (same c _ refl refl a))))

header_parsed-Keeps :
    (generation : ℕ) (r : Result (PackageHeader × ℕ)) (c : Connection)
    → IsAccounted c
    → Keeps (header_parsed generation r c)
unfolding header_parsed
header_parsed-Keeps generation (ok (h, i)) c a =
    header_read-Keeps generation h _ (same c _ refl refl a)
header_parsed-Keeps generation (err e) c a = ended c

-- Whatever bytes the peer sends: as long as the loop of `CoReceive` goes on, the counter is the sum of
-- the sizes of the packages that wait, and these are 16 MiB at most.
pub receive_round-IsAccounted :
    (generation : ℕ) (c : Connection)
    → IsAccounted c
    → (receive_round generation c).0 ≡ true
    → IsAccounted (receive_round generation c).1
unfolding receive_round caught
receive_round-IsAccounted generation c a =
    Keeps-if (not (runs_on generation c)) _ _ (λ _. ended c)
      (λ _.
        Keeps-if (ltb (length c.incoming) header_size) _ _ (λ _. ended _)
          (λ _.
            header_parsed-Keeps generation
              (package_header.deserialize (take header_size c.incoming) 0) c a))

dequeued-IsAccounted :
    (ps : List Package) (c : Connection)
    → c.package_in ≡ ps
    → IsAccounted c
    → IsAccounted (dequeued ps c).1
unfolding dequeued
dequeued-IsAccounted [] c e a = a
dequeued-IsAccounted (p ∷ ps) c e a = record {
  counted = omega (arith, a.counted, a.bounded, ap total e);
  bounded = omega (arith, a.counted, a.bounded, ap total e);
}

-- Handing out a package and clearing the queues keep the counter equal to the sum of the sizes of the
-- packages that wait, without a wrap-around below zero.
pub get_package-IsAccounted :
    (c : Connection)
    → IsAccounted c
    → IsAccounted (get_package c).1 × IsAccounted (clear_queued_packages c)
unfolding get_package clear_queued_packages
get_package-IsAccounted c a =
    (dequeued-IsAccounted c.package_in c refl a, record { counted = refl; bounded = omega arith })

-- Where the test of the loops fails, for an older generation or a connection that is not connected,
-- the rounds of `CoSend`, `CoReceive` and `CoHeartbeatMonitor` end and change nothing.
pub stale_rounds :
    (generation : ℕ) (c : Connection)
    → runs_on generation c ≡ false
    → (send_round generation c ≡ (false, c))
      × ((receive_round generation c ≡ (false, c)) × (monitor_round generation c ≡ (false, c)))
unfolding send_round receive_round monitor_round
stale_rounds generation c h = (choice _ h, (not_choice _ h, not_choice _ h))
  where
    choice :
        (x : Bool × Connection)
        → runs_on generation c ≡ false
        → (if runs_on generation c then x else (false, c)) ≡ (false, c)
    choice x k = rw k refl

    not_choice :
        (x : Bool × Connection)
        → runs_on generation c ≡ false
        → (if not (runs_on generation c) then (false, c) else x) ≡ (false, c)
    not_choice x k = rw k refl

option_lem :
    {A : Type 0} (P : Connection → A) (c c' : Connection)
    → ◌≡◌ {A = Option Connection} (some c) (some c')
    → P c' ≡ P c
option_lem {A} P c c' e = ap get (sym e)
  where
    get : Option Connection → A
    get none = P c
    get (some d) = P d

-- What a disconnect that begins writes.
record HasLeft (c c' : Connection) : Type 0 where
  left_state : c'.connection_state ≡ disconnecting
  left_generation : c'.connection_generation ≡ (c.connection_generation + 1) % 2 ^ 64

leave-HasLeft : (s : ConnectionState) (c c' : Connection) → leave s c ≡ some c' → HasLeft c c'
unfolding leave
leave-HasLeft disconnected c c' e = cc
leave-HasLeft disconnecting c c' e = cc
leave-HasLeft connecting c c' e = record {
  left_state = option_lem (λ d. d.connection_state) _ c' e;
  left_generation = option_lem (λ d. d.connection_generation) _ c' e;
}
leave-HasLeft connected c c' e = record {
  left_state = option_lem (λ d. d.connection_state) _ c' e;
  left_generation = option_lem (λ d. d.connection_generation) _ c' e;
}

other_generation :
    (generation : ℕ) (x : Connection)
    → generation ≢ x.connection_generation
    → runs_on generation x ≡ false
other_generation generation x h =
    ap (λ (b : Bool). is_connected x.connection_state && b)
      (ne→== generation x.connection_generation h)
    ∙ and_false (is_connected x.connection_state)
  where
    and_false : (b : Bool) → (b && false) ≡ false
    and_false true = refl
    and_false false = refl

-- A disconnect that begins ends the loops of the connection for good: as long as the generation stays
-- the one that it writes, their next rounds of `CoSend`, `CoReceive` and `CoHeartbeatMonitor` end and
-- change nothing, in whatever state the connection is by then, connected again or not. A second
-- disconnect does not begin.
pub begin_disconnect-stops :
    (c c' later : Connection)
    → c.connection_generation < 2 ^ 64
    → begin_disconnect c ≡ some c'
    → later.connection_generation ≡ c'.connection_generation
    → ((send_round c.connection_generation later ≡ (false, later))
        × ((receive_round c.connection_generation later ≡ (false, later))
            × (monitor_round c.connection_generation later ≡ (false, later))))
      × (begin_disconnect c' ≡ none)
unfolding begin_disconnect
begin_disconnect-stops c c' later h e g =
    let l = leave-HasLeft c.connection_state c c' e in
    (
      stale_rounds c.connection_generation later (
          other_generation c.connection_generation later
            (λ same. omega (arith, h, g, l.left_generation, same))),
      ap (λ (s : ConnectionState). leave s c') l.left_state ∙ unfold leave in refl,
    )
