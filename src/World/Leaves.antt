-- ===== src/World/Leaves.antt =====
-- Frames: what a piece of the program leaves alone, if it ends with no fault.
use haa_s_libssh.Common.{Option, none, some}
use haa_s_libssh.World.{World}
pub use haa_s_libssh.Common.Ends.{Leaves, >>=-Leaves, >>-Leaves, if-Leaves}

-- A weaker condition.
pub Leaves-mono :
    {A : Type 0} (r : Option (A × World)) (P Q : World → Type 0)
    → Leaves r P
    → ((w : World) → P w → Q w)
    → Leaves r Q
Leaves-mono none P Q h k = tt
Leaves-mono (some (a, w)) P Q h k = k w h
