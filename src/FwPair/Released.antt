-- ===== src/FwPair/Released.antt =====
-- src/fw_pair.c: what making and releasing a pair do to the heap and to the channels.
use haa_s_libssh.Common.{ℕ, suc, ◌+◌, ◌≡◌, ◌≢◌, false, none, some, arith, ◌⊎◌}
use haa_s_libssh.Common.Int.{pos}
use haa_s_libssh.FwPair.{FwPair}
use haa_s_libssh.FwPair.Life.{fw_pair_alloc, fw_pair_release}
use haa_s_libssh.World.{Env, World}
use haa_s_libssh.World.Ends.{Ends}
use haa_s_libssh.World.Frees.{is_one, frees}

-- Releasing a pair that is allocated ends with no fault. It takes the pair and nothing else from
-- the heap, leaves the context alone, and frees each channel as many times as the pair holds it.
pub fw_pair_release-frees :
    (env : Env) (a : ℕ) (pair : FwPair) (w : World)
    → w.heap a ≡ some pair
    → Ends (fw_pair_release env (some a) w) (λ _ w'.
      (w'.ctx ≡ w.ctx)
      × (w'.next ≡ w.next)
      × (w'.heap a ≡ none)
      × ((b : ℕ) → b ≢ a → w'.heap b ≡ w.heap b)
      × ((c : ℕ)
          → frees c w'.trace
            ≡ is_one c pair.source.channel + is_one c pair.destiny.channel + frees c w.trace))
unfolding fw_pair_release
fw_pair_release-frees env a pair w h = ground arith

-- `FwPairAlloc` ends with no fault and leaves the context alone. Either it gives NULL and changes
-- no pair, or it gives the first address that was never given out. The pair there belongs to no context,
-- is not closed, has no address, port or channel at either end, and its callbacks get itself; no other
-- pair changes. Where nothing was at that address, releasing the result right away undoes this: the heap
-- is as before, and no channel is freed.
pub fw_pair_alloc-fresh :
    (env : Env) (w : World)
    → w.heap w.next ≡ none
    → Ends (fw_pair_alloc env w) (λ r w'.
      (w'.ctx ≡ w.ctx)
      × (((r ≡ none) × (w'.heap ≡ w.heap) × (w'.next ≡ w.next))
          ⊎ ((r ≡ some w.next)
              × (w'.next ≡ suc w.next)
              × (w'.heap w.next
                  ≡ some (record {
                    context = false;
                    closed = false;
                    source = record { addr = none; port = pos 0; channel = none };
                    destiny = record { addr = none; port = pos 0; channel = none };
                    userdata = w.next;
                  }))
              × ((b : ℕ) → b ≢ w.next → w'.heap b ≡ w.heap b)))
      × Ends (fw_pair_release env r w') (λ _ w''.
        (w''.ctx ≡ w.ctx)
        × ((b : ℕ) → w''.heap b ≡ w.heap b)
        × ((c : ℕ) → frees c w''.trace ≡ frees c w.trace)))
unfolding fw_pair_alloc fw_pair_release
fw_pair_alloc-fresh env w unused = ground arith
