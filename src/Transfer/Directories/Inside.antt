-- ===== src/Transfer/Directories/Inside.antt =====
-- Nothing is written outside of the directory that is received, whatever the peer sends.
use libre_connect.Base.{List, All}
use libre_connect.Wire.Buffer.{Buffer}
use libre_connect.Transfer.Channel.{Channel}
use libre_connect.Transfer.Paths.{FilePath, Under}
use libre_connect.Transfer.Directories.{Written}

abbrev pub AllUnder : FilePath → List Written → Type 0
AllUnder base = All (λ w. Under base w.path)
