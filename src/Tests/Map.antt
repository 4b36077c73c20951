-- ===== src/Tests/Map.antt =====
-- The operations of the whole map at concrete inputs.
use pulse_map.Base.{
  ◌>>=◌, ℕ, ◌+◌, ◌*◌, ◌%◌, ◌^◌, max, ◌≡◌, arith, none, some, List, [], ◌∷◌, Bool,
  length-to_le_bytes,
}
use pulse_map.Codec.Laws.{unsigned_from-to_le_bytes}
use pulse_map.Codec.{u8_key, u16_value}
use pulse_map.Raw.Get.{get-Keeps}
use pulse_map.Raw.Keep.{Keeps}
use pulse_map.Raw.History.{
  Op, insert_op, remove_op, OpFits, run_op, Reaches, start, step, Tracks, Reaches-Tracks,
  Reaches-run,
}
use pulse_map.Raw.Insert.{Inserts, insert_internal-Inserts}
use pulse_map.Raw.Invariant.{plain, ticked, IsValid, stored, visible}
use pulse_map.Raw.Lookup.{peek-visible}
use pulse_map.Raw.New.{IsLeast, new-IsValid}
use pulse_map.Raw.Clear.{Removes}
use pulse_map.Raw.Remove.{remove-Removes}
use pulse_map.Raw.Ttl.{peek-insert_internal}
use pulse_map.Raw.{PulseMapRaw, new, insert_internal, get, peek, remove}
use pulse_map.Slab.Entry.{Fits}
use pulse_map.Typed.Laws.{peek-insert_ttl, or_insert-and_modify}
use pulse_map.Typed.{TypedPulseMap, Entry, insert_ttl, entry, or_insert, and_modify}
use pulse_map.Typed

-- A hash that keeps the first byte, in low and in high bits.
abbrev pub test_hash : List ℕ → ℕ
test_hash [] = 0
test_hash (b ∷ _) = (b + b * 2 ^ 57) % 2 ^ 64

abbrev pub short_key : List ℕ
short_key = 7 ∷ 1 ∷ []

abbrev pub long_key : List ℕ
long_key = 9 ∷ 2 ∷ 3 ∷ 4 ∷ 5 ∷ 6 ∷ 7 ∷ []

abbrev pub two_bytes : List ℕ
two_bytes = 11 ∷ 12 ∷ []

pub short-Fits : Fits short_key two_bytes
short-Fits = omega arith

pub long-Fits : Fits long_key two_bytes
long-Fits = omega arith

new-IsValid_example :
    IsValid test_hash plain (new 3)
    × IsLeast 0 (max 3 1) (new 3).num_buckets
    × ((key : List ℕ) → stored test_hash plain (new 3) key ≡ none)
new-IsValid_example = new-IsValid test_hash 3 (omega arith)

pub empty-IsValid : IsValid test_hash plain (new 3)
empty-IsValid = (new-IsValid test_hash 3 (omega arith)).0

-- The map with one inline pair, and its successor with a pair in the slab.
abbrev pub one_pair : PulseMapRaw
one_pair = (insert_internal-Inserts test_hash empty-IsValid short_key two_bytes short-Fits 0).0

pub one-IsValid : IsValid test_hash plain one_pair
one-IsValid =
    (insert_internal-Inserts test_hash empty-IsValid short_key two_bytes short-Fits
      0).2.places.valid

insert_internal-Inserts_example :
    (m' : PulseMapRaw) × (insert_internal test_hash one_pair long_key two_bytes 5 ≡ some m')
    × Inserts test_hash (ticked one_pair) long_key two_bytes 5 m'
insert_internal-Inserts_example =
    insert_internal-Inserts test_hash one-IsValid long_key two_bytes long-Fits 5

get-Keeps_example :
    (m' : PulseMapRaw) × (get test_hash one_pair short_key
      ≡ some (visible test_hash plain one_pair short_key, m'))
    × Keeps test_hash plain one_pair m'
get-Keeps_example = get-Keeps test_hash one-IsValid short_key

remove-Removes_example :
    (found : Bool) × (m' : PulseMapRaw) × (remove test_hash one_pair short_key ≡ some (found, m'))
    × Removes test_hash plain one_pair short_key found m'
remove-Removes_example = remove-Removes test_hash one-IsValid short_key

peek-visible_example :
    peek test_hash one_pair short_key ≡ some (visible test_hash plain one_pair short_key)
peek-visible_example = peek-visible test_hash one-IsValid short_key

peek-insert_internal_example :
    (m' : PulseMapRaw) × (insert_internal test_hash one_pair long_key two_bytes 5 ≡ some m')
    × (peek test_hash m' long_key ≡ some (some two_bytes))
peek-insert_internal_example =
    peek-insert_internal test_hash one-IsValid long_key two_bytes long-Fits 5

abbrev one_op : List Op
one_op = insert_op short_key two_bytes 0 ∷ []

one_reached : Reaches test_hash 3 one_op one_pair
unfolding OpFits run_op
one_reached =
    step start (insert_op short_key two_bytes 0) short-Fits
      (insert_internal-Inserts test_hash empty-IsValid short_key two_bytes short-Fits 0).1

Reaches-Tracks_example : Tracks test_hash one_op one_pair
Reaches-Tracks_example = Reaches-Tracks test_hash (omega arith) one_reached

remove_fits : OpFits (remove_op short_key)
unfolding OpFits
remove_fits = tt

Reaches-run_example :
    (m' : PulseMapRaw) × (run_op test_hash one_pair (remove_op short_key) ≡ some m')
    × Reaches test_hash 3 (remove_op short_key ∷ one_op) m'
Reaches-run_example =
    Reaches-run test_hash (omega arith) one_reached (remove_op short_key) remove_fits

abbrev typed_pair : TypedPulseMap
typed_pair = record { raw = one_pair }

pub reads_back : u16_value.from_bytes (u16_value.to_bytes 300) ≡ some 300
unfolding u16_value
reads_back = unsigned_from-to_le_bytes 2 300 (omega arith)

pub bytes_fit : Fits (u8_key.to_bytes 5) (u16_value.to_bytes 300)
unfolding u8_key u16_value
bytes_fit = omega (arith, length-to_le_bytes 2 300)

peek-insert_ttl_example :
    (m' : TypedPulseMap) × (insert_ttl test_hash u8_key u16_value typed_pair 5 300 9 ≡ some m')
    × (Typed.peek test_hash u8_key u16_value m' 5 ≡ some (some 300))
peek-insert_ttl_example =
    peek-insert_ttl test_hash u8_key u16_value one-IsValid 5 300 reads_back bytes_fit 9

or_insert-and_modify_example :
    (e : Entry test_hash u8_key u16_value) × (e' : Entry test_hash u8_key u16_value)
    × (m' : TypedPulseMap) × (entry test_hash u8_key u16_value typed_pair 5 ≡ some e)
    × (and_modify test_hash u8_key u16_value e (λ _. 300) ≡ some e')
    × (or_insert test_hash u8_key u16_value e' 300 ≡ some m')
    × (Typed.peek test_hash u8_key u16_value m' 5
        ≡ some (
            some
              (elim (visible test_hash plain one_pair (u8_key.to_bytes 5)
                >>= u16_value.from_bytes) [ none ↦ 300 | some old ↦ 300 ])))
or_insert-and_modify_example =
    or_insert-and_modify test_hash u8_key u16_value one-IsValid 5 300 reads_back bytes_fit
      (λ _. 300) (λ old there. (reads_back, bytes_fit))
