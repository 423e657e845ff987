-- ===== src/FwPool.antt =====
-- src/fw_pool.c: the pool of forwarded connections, an array of pointers that grows by ten slots.
-- A pool pointer may be NULL. `none` as the result of an operation is a fault: a write behind the
-- block, or a read through a pointer that was freed.
pub mod Anywhere
pub mod Contents
pub mod Closed
pub mod Places
pub mod Owned
pub mod Done
use haa_s_libssh.Common.{
  ℕ, zero, suc, ◌+◌, ◌-◌, Bool, true, false, ◌&&◌, Option, none, some, List, [], ◌∷◌, ◌++◌, ltb,
  leb, if◌then◌else◌, length, get_elem?, set, tabulate,
}
use haa_s_libssh.Common.Int.{ℤ, pos, minus_one, pos_part, leb_ℤ, ltb_ℤ}
use haa_s_libssh.FwPair.{FwPair}

abbrev pub pool_alloc_size : ℕ
pool_alloc_size = 10

-- `items` is the whole block: the slots from `used` on hold whatever the allocator left there.
pub record FwPool : Type 0 where
  pub used : ℕ
  pub alloc : ℕ
  pub items : List (Option ℕ)

-- The pairs by address; `none` is memory that is not allocated.
abbrev pub Heap : Type 0
Heap = ℕ → Option FwPair

-- `FwPoolInit`, by whether `malloc` gives a block.
unfoldable pub init : Bool → Option FwPool
init false = none
init true = some (record { used = 0; alloc = 0; items = [] })

-- `FwPoolCount`.
unfoldable pub count : Option FwPool → ℤ
count none = minus_one
count (some p) = pos p.used

-- `Pool->Items[Index]`, which the code reads below `used` only.
pub slot : List (Option ℕ) → ℕ → Option ℕ
slot items i = elim (get_elem? items i) [ none ↦ none | some v ↦ v ]

-- `FwPoolGet`.
unfoldable pub get : Option FwPool → ℤ → Option ℕ
unfolding slot
get none index = none
get (some p) index =
    if leb_ℤ (pos 0) index && ltb_ℤ index (pos p.used) then slot p.items (pos_part index) else none

-- The part of `FwPoolAdd` that calls `realloc`: `grown` is NULL, or what the new slots hold.
grow : Option (ℕ → Option ℕ) → FwPool → FwPool
grow none p = p
grow (some left) p = record p {
  alloc = p.alloc + pool_alloc_size;
  items = p.items ++ tabulate pool_alloc_size left;
}

-- The write at `used`, which faults behind the end of the block.
append : FwPool → Option ℕ → Option (ℤ × Option FwPool)
append p item =
    if leb p.used p.alloc
    then if ltb p.used (length p.items)
      then some (pos p.used, some (record p { used = p.used + 1; items = set p.items p.used item }))
      else none
    else some (minus_one, some p)

-- `FwPoolAdd`: the index of the new item, or -1.
unfoldable pub add : Option (ℕ → Option ℕ) → Option FwPool → Option ℕ → Option (ℤ × Option FwPool)
unfolding grow append
add grown none item = some (minus_one, none)
add grown (some p) item = if leb p.alloc p.used then append (grow grown p) item else append p item

-- The body of `FwPoolRemove`, with the new value of `used`: the last item takes the place of the
-- removed one.
pub drop_at : FwPool → ℕ → ℕ → FwPool
unfolding slot
drop_at p index last = record p {
  used = last;
  items = if ltb index last then set p.items index (slot p.items last) else p.items;
}

-- `FwPoolRemove`.
unfoldable pub remove : Option FwPool → ℤ → Bool × Option FwPool
unfolding drop_at
remove none index = (false, none)
remove (some p) index =
    if leb_ℤ (pos 0) index && ltb_ℤ index (pos p.used)
    then (true, some (drop_at p (pos_part index) (p.used - 1)))
    else (false, some p)

-- The loop of `FwPoolFindClosed` at index `i`, with `n` rounds left.
unfoldable pub find_from : Heap → List (Option ℕ) → ℕ → ℕ → Option ℤ
unfolding slot
find_from heap items i zero = some minus_one
find_from heap items i (suc n) =
    let rest = find_from heap items (suc i) n in
    elim (slot items i) [
      | none ↦ rest
      | some a ↦ elim (heap a) [
        | none ↦ none
        | some pair ↦ if pair.closed then some (pos i) else rest
      ]
    ]

-- `FwPoolFindClosed`: the index of the first closed pair, or -1.
unfoldable pub find_closed : Heap → Option FwPool → Option ℤ
unfolding find_from
find_closed heap none = some minus_one
find_closed heap (some p) = find_from heap p.items 0 p.used
