-- ===== src/World/Frees.antt =====
-- How often a channel is freed in a trace.
use haa_s_libssh.Common.{ℕ, ◌+◌, Option, none, some, List, [], ◌∷◌, ◌==◌, if◌then◌else◌}
use haa_s_libssh.World.{Call}

-- 1 if the handle is the channel, and 0 otherwise.
abbrev pub is_one : ℕ → Option ℕ → ℕ
is_one a none = 0
is_one a (some b) = if b == a then 1 else 0

abbrev pub free_count : ℕ → Call → ℕ
free_count a (Call.ssh_channel_free channel) = is_one a channel
free_count a _ = 0

abbrev pub frees : ℕ → List Call → ℕ
frees a [] = 0
frees a (c ∷ cs) = free_count a c + frees a cs
