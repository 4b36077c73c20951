-- ===== src/Slab/Entry.antt =====
-- One slab entry: no copy leaves its buffer, and what was written reads back.
use pulse_map.Base.{
  ℕ, ◌+◌, ◌-◌, ◌%◌, ◌^◌, ◌≤◌, ◌<◌, ◌≡◌, ◌∙◌, arith, List, max, ltb, if◌then◌else◌, length,
  length-append, length-replicate, replicate, take, slice, blit, length-blit, slice-blit_self,
  slice-blit_after, length-take,
}
use pulse_map.Slab.{SlabEntry, entry_key, entry_value, realloc, copy_pair, rewrite, new_entry}

-- The buffer holds at least `cap` bytes.
abbrev pub IsSized : SlabEntry → Type 0
IsSized e = e.cap ≤ length e.buffer

-- Lengths that the `u32` fields can hold.
abbrev pub Fits : List ℕ → List ℕ → Type 0
Fits key value = length key + length value < 2 ^ 32

length-realloc : (buffer : List ℕ) (size : ℕ) → length (realloc buffer size) ≡ size
unfolding realloc
length-realloc buffer size = omega (
  arith,
  length-append (take size buffer) (replicate (size - length buffer) 0),
  length-take size buffer,
  length-replicate {A = ℕ} (size - length buffer) 0,
)

length-copy_pair : (buffer key value : List ℕ) → length (copy_pair buffer key value) ≡ length buffer
unfolding copy_pair
length-copy_pair buffer key value =
    length-blit (blit buffer 0 key) (length key) value ∙ length-blit buffer 0 key

key-copy_pair :
    (buffer key value : List ℕ)
    → length key + length value ≤ length buffer
    → slice (copy_pair buffer key value) 0 (length key) ≡ key
unfolding copy_pair
key-copy_pair buffer key value h =
    slice-blit_after (blit buffer 0 key) 0 (length key) (length key) value (omega arith)
    ∙ slice-blit_self buffer 0 key (omega arith)

value-copy_pair :
    (buffer key value : List ℕ)
    → length key + length value ≤ length buffer
    → slice (copy_pair buffer key value) (length key) (length value) ≡ value
unfolding copy_pair
value-copy_pair buffer key value h =
    slice-blit_self (blit buffer 0 key) (length key) value (omega (arith, length-blit buffer 0 key))

-- What an entry holds.
pub record Stores (e : SlabEntry) (key value : List ℕ) : Type 0 where
  pub sized : IsSized e
  pub key_reads : entry_key e ≡ key
  pub value_reads : entry_value e ≡ value

module _ (key value : List ℕ) (fits : Fits key value) where
  small_key : length key % 2 ^ 32 ≡ length key
  small_key = omega arith

  small_value : length value % 2 ^ 32 ≡ length value
  small_value = omega arith

  -- The buffer that `rewrite` copies into is large enough.
  room : SlabEntry → List ℕ
  room e =
      if ltb e.cap (length key + length value)
      then realloc e.buffer (length key + length value)
      else e.buffer

  length-room : (e : SlabEntry) → IsSized e → length key + length value ≤ length (room e)
  unfolding room
  length-room e h = ground (arith, length-realloc e.buffer (length key + length value))

  -- `rewrite` of a sized entry with a pair that fits leaves an entry that is sized and reads back as the pair.
  pub rewrite-Stores : (e : SlabEntry) → IsSized e → Stores (rewrite e key value) key value
  unfolding rewrite entry_key entry_value room
  rewrite-Stores e h = record {
    sized = ground (
      arith,
      length-copy_pair (room e) key value,
      length-room e h,
      length-realloc e.buffer (length key + length value),
    );
    key_reads = rw small_key (key-copy_pair (room e) key value (length-room e h));
    value_reads =
        rw (small_key, small_value) (value-copy_pair (room e) key value (length-room e h));
  }

  pub new_entry-Stores : Stores (new_entry key value) key value
  unfolding new_entry entry_key entry_value
  new_entry-Stores =
      let buffer : List ℕ = replicate (max (length key + length value) 1) 0 in
      let size = length-replicate {A = ℕ} (max (length key + length value) 1) 0 in
      record {
        sized = omega (arith, length-copy_pair buffer key value, size);
        key_reads = rw small_key (key-copy_pair buffer key value (omega (arith, size)));
        value_reads =
            rw (small_key, small_value) (value-copy_pair buffer key value (omega (arith, size)));
      }
