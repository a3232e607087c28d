-- ===== src/ChannelPool/Tests.antt =====
-- A pool of two channels, and borrowers of them.
use libre_connect.Base.{ℕ, ◌+◌, ◌≤◌, ◌≡◌, refl, false, List, [], ◌∷◌, arith}
use libre_connect.Transfer.Channel.{ConnectionState, connected}
use libre_connect.ChannelPool.{
  Status, Pool, reset, Task, round, scan, reserve, recheck, borrowed, initialize_channels,
  clear_reservations, borrow, publish,
}
use libre_connect.ChannelPool.Exclusion.{
  System, step_call, step_borrow, step_channels, Steps, stay, go, users, Steps-exclusive,
}
use libre_connect.ChannelPool.Borrowing.{IsAvailable, alone, with_reserved, borrow_alone}
use libre_connect.ChannelPool.Connecting.{deliver, ports_arrive}

abbrev two : Pool
two = record {
  count = 2;
  connection_state = connected;
  waiting_for_connections = false;
  channels = 5 ∷ 6 ∷ [];
  reserved = 0 ∷ [];
  made = 7;
  status = λ c. record { connection_state = connected; send = false; receive = false };
  disconnects = [];
}

second-IsAvailable : IsAvailable two 1 6
second-IsAvailable = record { there = refl; unreserved = refl; free = refl }

borrow_alone_example :
    (j got : ℕ) × (alone connected (1 + 4) (round, two) ≡ (borrowed j got, with_reserved j two))
    × IsAvailable two j got
    × (j ≤ 1)
borrow_alone_example = borrow_alone connected two 1 6 refl refl second-IsAvailable

abbrev start : System
start = record { pool = reset two; tasks = [] }

abbrev all_up : ℕ → Status
all_up c = record { connection_state = connected; send = false; receive = false }

-- The only borrower goes on.
abbrev next : System → Task → System
next s t = record {
  pool = (borrow connected t s.pool).1;
  tasks = (borrow connected t s.pool).0 ∷ [];
}

abbrev ready : System
ready = record {
  pool = record (reset two) { status = all_up; connection_state = connected };
  tasks = round ∷ [];
}

abbrev scanning : System
scanning = next ready round

abbrev reserving : System
reserving = next scanning (scan 0 2)

abbrev checking : System
checking = next reserving (reserve 0 2 7)

abbrev returned : System
returned = next checking (recheck 0 2 7)

steps : Steps start returned
unfolding reset borrow initialize_channels clear_reservations
steps =
    let called : Steps start (record start { tasks = round ∷ [] }) = go stay step_call in
    let up : Steps start ready = go called (step_channels all_up connected false) in
    let one : Steps start scanning = go up (step_borrow connected [] [] round refl) in
    let two_ : Steps start reserving = go one (step_borrow connected [] [] (scan 0 2) refl) in
    let three : Steps start checking = go two_ (step_borrow connected [] [] (reserve 0 2 7) refl) in
    go three (step_borrow connected [] [] (recheck 0 2 7) refl)

users_returned : users 7 returned.tasks ≡ 1
unfolding reset borrow initialize_channels clear_reservations
users_returned = refl

Steps-exclusive_example : users 7 returned.tasks ≤ 1
Steps-exclusive_example = Steps-exclusive two returned 7 steps

abbrev ports : List (ℕ × ConnectionState)
ports = (4001, connected) ∷ (4002, connected) ∷ []

told_ports : (deliver (publish 0 ports two).0 two).0 ≡ (5, 4001) ∷ (6, 4002) ∷ []
told_ports = ports_arrive ports two two ((omega arith, refl), ((omega arith, refl), tt)) refl refl
