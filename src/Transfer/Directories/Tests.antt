-- ===== src/Transfer/Directories/Tests.antt =====
-- A directory of two files, over channels whose buffers hold two bytes.
use libre_connect.Base.{
  same_text, ℕ, ◌≡◌, refl, true, false, List, [], ◌∷◌, ◌++◌, ok, some, All, arith, ◌==◌,
}
use libre_connect.Transfer.Channel.{Channel, connected}
use libre_connect.Transfer.Files.Sending.{MaySend}
use libre_connect.Transfer.Files.Receiving.{MayReceive}
use libre_connect.Transfer.Paths.{FilePath}
use libre_connect.Transfer.Paths.Plain.{IsPlain}
use libre_connect.Transfer.Directories.{Storage, co_send_directory, co_receive_directory}
use libre_connect.Transfer.Directories.Sending.{File, sources_of}
use libre_connect.Transfer.Directories.Receiving.{IsWorking, IsSendable}
use libre_connect.Transfer.Directories.RoundTrip.{written_of, directory_round_trip}

abbrev idle : Channel
idle = record {
  connection_state = connected;
  has_socket = true;
  send = false;
  receive = false;
  progress = 0;
  current_file_size = 0;
  current_file_progress = 0;
  buffer_in = 0 ∷ 0 ∷ [];
  buffer_out = 0 ∷ 0 ∷ [];
  outcomes = [];
  sent = [];
  incoming = [];
  disconnects = 0;
}

abbrev disk : Storage
disk = record {
  weakly_canonical = λ path. some path;
  creates = λ path. true;
  opens = λ path. true;
  good = λ path contents. true;
}

-- `a/b` with three bytes and `c` with none.
abbrev files : List File
files = ((97 ∷ []) ∷ (98 ∷ []) ∷ [], 1 ∷ 2 ∷ 3 ∷ []) ∷ ((99 ∷ []) ∷ [], []) ∷ []

abbrev home : FilePath
home = (104 ∷ []) ∷ []

disk-IsWorking : IsWorking disk
disk-IsWorking = record {
  creating = λ path. refl;
  opening = λ path. refl;
  writing = λ path contents. refl;
}

letter-IsPlain : (c : ℕ) → (c == 47) ≡ false → (c == 46) ≡ false → IsPlain (c ∷ [])
unfolding same_text
letter-IsPlain c h k = record {
  filled = refl;
  one_part = (h, tt);
  not_dot = rw k refl;
  not_dot_dot = rw k refl;
}

first-IsSendable : IsSendable ((97 ∷ []) ∷ (98 ∷ []) ∷ [], 1 ∷ 2 ∷ 3 ∷ [])
first-IsSendable = record {
  named = refl;
  plain = (letter-IsPlain 97 refl refl, (letter-IsPlain 98 refl refl, tt));
  short = omega arith;
  fits = omega arith;
}

second-IsSendable : IsSendable ((99 ∷ []) ∷ [], [])
second-IsSendable = record {
  named = refl;
  plain = (letter-IsPlain 99 refl refl, tt);
  short = omega arith;
  fits = omega arith;
}

files-IsSendable : All IsSendable files
files-IsSendable = (first-IsSendable, (second-IsSendable, tt))

idle-MaySend : MaySend idle
idle-MaySend = record {
  open_state = refl;
  idle = refl;
  socket = refl;
  unbroken = refl;
  room = omega arith;
}

idle-MayReceive : MayReceive idle
idle-MayReceive = record { open_state = refl; idle = refl; socket = refl; room = omega arith }

directory_round_trip_example :
    (sender' receiver' : Channel) × (co_send_directory (some (sources_of files)) idle
      ≡ (ok tt, sender'))
    × (co_receive_directory disk home (record idle { incoming = sender'.sent ++ (7 ∷ []) })
        ≡ (ok tt, (written_of home files, receiver')))
    × (receiver'.incoming ≡ 7 ∷ [])
    × (sender'.send ≡ false)
    × (receiver'.receive ≡ false)
directory_round_trip_example =
    directory_round_trip disk home home files (7 ∷ []) idle idle disk-IsWorking refl
      files-IsSendable (refl, (refl, tt)) idle-MaySend refl idle-MayReceive
