-- ===== src/Connection/Stream.antt =====
-- The packages that one end has queued arrive at the other.
use libre_connect.Base.{ℕ, ◌+◌, List, [], ◌∷◌, ◌++◌}
use libre_connect.Package.{Package}
use libre_connect.Connection.{Connection}
use libre_connect.Connection.Rounds.{package_bytes}

abbrev pub stream : List Package → List ℕ
stream [] = []
stream (p ∷ ps) = package_bytes p ++ stream ps

abbrev pub total : List Package → ℕ
total [] = 0
total (p ∷ ps) = p.header.size + total ps
