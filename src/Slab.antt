-- ===== src/Slab.antt =====
-- src/engine/slab.rs: heap entries for long keys and values, with a free list of indices.
-- A raw buffer is the list of its bytes; fresh memory is taken as zeros, which nothing reads before
-- it is written. The allocator does not fail. The end of the `free_list` vector is the list's head.
-- An index out of range is a panic, `none`.
pub mod Entry
pub mod Pool
use pulse_map.Base.{
  ℕ, ◌+◌, ◌-◌, ◌%◌, ◌^◌, max, Option, none, some, List, [], ◌∷◌, ◌++◌, ltb, if◌then◌else◌, length,
  get_elem?, set, replicate, take, slice, blit, ◌>>=◌,
}

pub record SlabEntry : Type 0 where
  pub key_len : ℕ
  pub val_len : ℕ
  pub cap : ℕ
  pub buffer : List ℕ

-- `SlabEntry::key`
unfoldable pub entry_key : SlabEntry → List ℕ
entry_key e = slice e.buffer 0 e.key_len

-- `SlabEntry::value`
unfoldable pub entry_value : SlabEntry → List ℕ
entry_value e = slice e.buffer e.key_len e.val_len

-- `realloc`: the old contents, cut or extended to the new size.
unfoldable pub realloc : List ℕ → ℕ → List ℕ
unfolding take replicate
realloc buffer size = take size buffer ++ replicate (size - length buffer) 0

-- The two copies that `rewrite` and `alloc` make into a buffer.
unfoldable pub copy_pair : List ℕ → List ℕ → List ℕ → List ℕ
unfolding blit
copy_pair buffer key value = blit (blit buffer 0 key) (length key) value

unfoldable pub rewrite : SlabEntry → List ℕ → List ℕ → SlabEntry
unfolding realloc copy_pair
rewrite e key value =
    let needed = length key + length value in
    let grows = ltb e.cap needed in
    record {
      key_len = length key % 2 ^ 32;
      val_len = length value % 2 ^ 32;
      cap = if grows then needed % 2 ^ 32 else e.cap;
      buffer = copy_pair (if grows then realloc e.buffer needed else e.buffer) key value;
    }

pub record SlabPool : Type 0 where
  pub entries : List (Option SlabEntry)
  pub free_list : List ℕ

-- `SlabPool::new`
abbrev pub empty_pool : SlabPool
empty_pool = record { entries = []; free_list = [] }

-- `entries[idx].as_ref().unwrap()`
unfoldable pub get : SlabPool → ℕ → Option SlabEntry
get pool idx = do slot ← get_elem? pool.entries idx; slot

-- The entry that a new allocation makes.
unfoldable pub new_entry : List ℕ → List ℕ → SlabEntry
unfolding copy_pair replicate
new_entry key value =
    let total_len = length key + length value in
    record {
      key_len = length key % 2 ^ 32;
      val_len = length value % 2 ^ 32;
      cap = total_len % 2 ^ 32;
      buffer = copy_pair (replicate (max total_len 1) 0) key value;
    }

-- `alloc` with what `free_list.pop()` leaves to do: reuse of an index, or a new one at the end.
unfoldable pub alloc_from : List ℕ → SlabPool → List ℕ → List ℕ → Option (ℕ × SlabPool)
unfolding get rewrite set new_entry
alloc_from (idx ∷ rest) pool key value = do
  e ← get pool idx
  some (
    idx,
    record { entries = set pool.entries idx (some (rewrite e key value)); free_list = rest },
  )
alloc_from [] pool key value = some (
  length pool.entries,
  record { entries = pool.entries ++ some (new_entry key value) ∷ []; free_list = [] },
)

unfoldable pub alloc : SlabPool → List ℕ → List ℕ → Option (ℕ × SlabPool)
unfolding alloc_from
alloc pool key value = alloc_from pool.free_list pool key value

unfoldable pub free : SlabPool → ℕ → SlabPool
free pool idx = record pool { free_list = idx ∷ pool.free_list }

-- `dealloc_data`: a buffer is returned only where `cap` is not 0.
unfoldable pub dealloc_data : SlabEntry → SlabEntry
dealloc_data e = if ltb 0 e.cap then record e { cap = 0; buffer = [] } else e
