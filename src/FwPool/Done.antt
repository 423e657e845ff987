-- ===== src/FwPool/Done.antt =====
-- src/fw_pool.c, `FwPoolDone`: the end of a pool.
pub mod Emptied
use haa_s_libssh.Common.{ℕ, zero, suc, Option, none, some, List}
use haa_s_libssh.FwPair.Life.{fw_pair_release}
use haa_s_libssh.FwPool.{FwPool, slot}
use haa_s_libssh.World.{Env, World, M, ◌>>◌, skip}

module _ (env : Env) where
  -- The loop at index `i`, with `n` rounds left. A slot that was cleared is not read again.
  release_from : List (Option ℕ) → ℕ → ℕ → M (Unit {0})
  unfolding slot
  release_from items i zero = skip
  release_from items i (suc n) = do fw_pair_release env (slot items i); release_from items (suc i) n

  -- `FwPoolDone`; the blocks of the pool itself are freed and not used again.
  unfoldable pub fw_pool_done : Option FwPool → M (Unit {0})
  unfolding release_from
  fw_pool_done none = skip
  fw_pool_done (some p) = release_from p.items 0 p.used
