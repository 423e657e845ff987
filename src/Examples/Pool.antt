-- ===== src/Examples/Pool.antt =====
-- The pool of forwarded connections on the sample state.
use haa_s_libssh.Common.{
  Option, ℕ, zero, suc, ◌+◌, ◌≤◌, ◌<◌, ◌≡◌, ◌≢◌, refl, ◌⊎◌, inr, true, false, none, some, [], ◌∷◌,
  ◌++◌, arith,
}
use mathlib.Core.List.{Perm}
use haa_s_libssh.Common.Int.{pos, minus_one}
use haa_s_libssh.Config.{forward_mode_echo}
use haa_s_libssh.FwPair.{FwPair}
use haa_s_libssh.FwPair.Life.{fw_pair_alloc, fw_pair_release}
use haa_s_libssh.FwPair.Released.{fw_pair_release-frees, fw_pair_alloc-fresh}
use haa_s_libssh.FwPool.{FwPool, get, add, remove, find_closed}
use haa_s_libssh.FwPool.Anywhere.{at, Refused, Removed, remove-at}
use haa_s_libssh.FwPool.Contents.{IsPool, contents, contents-add, add_full, contents-remove}
use haa_s_libssh.FwPool.Closed.{is_closed, is_dangling, find_closed-first}
use haa_s_libssh.FwPool.Owned.{Owned}
use haa_s_libssh.World.{World}
use haa_s_libssh.FwPool.Done.{fw_pool_done}
use haa_s_libssh.FwPool.Done.Emptied.{fw_pool_done-Owned}
use haa_s_libssh.World.Ends.{Ends}
use haa_s_libssh.World.Frees.{is_one, frees}
use haa_s_libssh.Examples.{env, heap, pool, pair_of, world}

pub pool-IsPool : IsPool pool
pool-IsPool = record { fits = omega arith; block = refl }

abbrev full_pool : FwPool
full_pool = record { used = 1; alloc = 1; items = some 0 ∷ [] }

full_pool-IsPool : IsPool full_pool
full_pool-IsPool = record { fits = omega arith; block = refl }

contents-add_example :
    (q : FwPool) × (add (some (λ i. none)) (some full_pool) (some 4) ≡ some (pos 1, some q))
    × IsPool q
    × (q.used ≡ 2)
    × (contents q ≡ contents full_pool ++ some 4 ∷ [])
contents-add_example =
    contents-add (some (λ i. none)) full_pool (some 4) full_pool-IsPool (inr (λ e. cc))

add_full_example : add none (some full_pool) (some 4) ≡ none
add_full_example = add_full full_pool (some 4) full_pool-IsPool refl

contents-remove_example :
    (q : FwPool) × (remove (some pool) (pos 0) ≡ (true, some q))
    × IsPool q
    × (suc q.used ≡ 2)
    × Perm (contents pool) (get (some pool) (pos 0) ∷ contents q)
contents-remove_example = contents-remove pool 0 pool-IsPool (omega arith)

remove-at_example :
    (at (contents pool) (pos 1) ≡ none → Refused (some pool) (pos 1))
    × ((item : Option ℕ)
        → at (contents pool) (pos 1) ≡ some item
        → Removed (some pool) (pos 1) item)
remove-at_example = remove-at (some pool) (pos 1) pool-IsPool

not_dangling : (j : ℕ) → j < 2 → is_dangling heap (get (some pool) (pos j)) ≡ false
unfolding get
not_dangling zero h = refl
not_dangling (suc zero) h = refl
not_dangling (suc (suc j)) h = absurd (omega arith)

find_closed-first_example :
    ((find_closed heap (some pool) ≡ some minus_one)
      × ((j : ℕ) → j < 2 → is_closed heap (get (some pool) (pos j)) ≡ false))
    ⊎ ((k : ℕ) × (find_closed heap (some pool) ≡ some (pos k))
        × (k < 2)
        × (is_closed heap (get (some pool) (pos k)) ≡ true)
        × ((j : ℕ) → j < k → is_closed heap (get (some pool) (pos j)) ≡ false))
find_closed-first_example = find_closed-first heap pool not_dangling

abbrev start : World
start = world forward_mode_echo none

fw_pair_release-frees_example : Ends (fw_pair_release env (some 0) start) (λ _ w'.
    (w'.ctx ≡ start.ctx)
    × (w'.next ≡ 2)
    × (w'.heap 0 ≡ none)
    × ((b : ℕ) → b ≢ 0 → w'.heap b ≡ heap b)
    × ((c : ℕ) → frees c w'.trace ≡ is_one c (some 20) + is_one c (some 21) + 0))
fw_pair_release-frees_example = fw_pair_release-frees env 0 (pair_of 20 (some 21) false) start refl

fw_pair_alloc-fresh_example : Ends (fw_pair_alloc env start) (λ r w'.
    (w'.ctx ≡ start.ctx)
    × (((r ≡ none) × (w'.heap ≡ heap) × (w'.next ≡ 2))
        ⊎ ((r ≡ some 2)
            × (w'.next ≡ 3)
            × (w'.heap 2
                ≡ some (record {
                  context = false;
                  closed = false;
                  source = record { addr = none; port = pos 0; channel = none };
                  destiny = record { addr = none; port = pos 0; channel = none };
                  userdata = 2;
                }))
            × ((b : ℕ) → b ≢ 2 → w'.heap b ≡ heap b)))
    × Ends (fw_pair_release env r w') (λ _ w''.
      (w''.ctx ≡ start.ctx) × ((b : ℕ) → w''.heap b ≡ heap b) × ((c : ℕ) → frees c w''.trace ≡ 0)))
fw_pair_alloc-fresh_example = fw_pair_alloc-fresh env start refl

pub pool-Owned : Owned heap 2 pool
unfolding get
pool-Owned = record {
  wf = pool-IsPool;
  fresh = nothing;
  items = λ j h. owned j h;
  distinct = λ i j hi hj e. apart i j hi hj e;
}
  where
    nothing : (b : ℕ) → 2 ≤ b → heap b ≡ none
    nothing zero h = absurd (omega arith)
    nothing (suc zero) h = absurd (omega arith)
    nothing (suc (suc b)) h = refl

    owned :
        (j : ℕ)
        → j < 2
        → (a : ℕ) × (get (some pool) (pos j) ≡ some a) × (a < 2) × (p : FwPair) × (heap a ≡ some p)
    owned zero h = (0, refl, omega arith, _, refl)
    owned (suc zero) h = (1, refl, omega arith, _, refl)
    owned (suc (suc j)) h = absurd (omega arith)

    apart : (i j : ℕ) → i < 2 → j < 2 → get (some pool) (pos i) ≡ get (some pool) (pos j) → i ≡ j
    apart zero zero hi hj e = refl
    apart zero (suc zero) hi hj e = cc
    apart (suc zero) zero hi hj e = cc
    apart (suc zero) (suc zero) hi hj e = refl
    apart zero (suc (suc j)) hi hj e = absurd (omega arith)
    apart (suc zero) (suc (suc j)) hi hj e = absurd (omega arith)
    apart (suc (suc i)) j hi hj e = absurd (omega arith)

fw_pool_done-Owned_example : Ends (fw_pool_done env (some pool) start) (λ _ w'.
    (w'.ctx ≡ start.ctx)
    × ((j a : ℕ) → j < 2 → get (some pool) (pos j) ≡ some a → w'.heap a ≡ none)
    × ((b : ℕ) → ((j : ℕ) → j < 2 → get (some pool) (pos j) ≢ some b) → w'.heap b ≡ heap b))
fw_pool_done-Owned_example = fw_pool_done-Owned env pool start pool-Owned
