-- ===== src/Raw/Ttl.antt =====
-- Expiry: when an entry is stale, and that one just written is not.
use pulse_map.Base.{
  ℕ, ◌+◌, ◌^◌, ◌<◌, ◌≤◌, ◌≡◌, ◌≢◌, ◌↔◌, ap, ◌∙◌, arith, some, List, true, false, if◌then◌else◌,
  ◌==◌, u64_max,
}
use pulse_map.Raw.Insert.{insert_internal-Inserts}
use pulse_map.Raw.Invariant.{plain, ticked, IsValid}
use pulse_map.Raw.Lookup.{peek-visible, visible-hit}
use pulse_map.Raw.{PulseMapRaw, SlotTtl, is_stale, insert_internal, peek}
use pulse_map.Slab.Entry.{Fits}

-- The TTL that counts for an entry.
abbrev effective : ℕ → SlotTtl → ℕ
effective default_ttl entry = if entry.ttl == 0 then default_ttl else entry.ttl

-- An entry that was written at or before `now`, an epoch of 64 bits, is stale exactly if its TTL, or the default
-- where it has none, is neither 0 nor `u64::MAX`, and more epochs than it have passed.
pub is_stale_iff :
    (default_ttl now : ℕ) (entry : SlotTtl)
    → entry.epoch ≤ now
    → now < 2 ^ 64
    → (is_stale default_ttl now entry ≡ true) ↔ (
        (effective default_ttl entry ≢ 0)
        × (effective default_ttl entry ≢ u64_max)
        × (entry.epoch + effective default_ttl entry < now))
unfolding is_stale
is_stale_iff default_ttl now entry past small = (
  (λ h. ((λ e. ground arith), (λ e. ground arith), ground arith)),
  (λ h. ground (arith, h.0, h.1, h.2)),
)

pub fresh :
    (default_ttl now ttl : ℕ)
    → now < 2 ^ 64
    → is_stale default_ttl now (record { epoch = now; ttl = ttl }) ≡ false
unfolding is_stale
fresh default_ttl now ttl small = ground arith

-- An insertion into a valid map of a pair whose lengths fit in 32 bits does not panic, and the next `peek` of
-- the key shows the value, whatever was evicted for it and whatever its TTL.
pub peek-insert_internal :
    (wyhash : List ℕ → ℕ) {m : PulseMapRaw} (v : IsValid wyhash plain m) (key value : List ℕ)
    (fits : Fits key value) (ttl : ℕ)
    → (m' : PulseMapRaw) × (insert_internal wyhash m key value ttl ≡ some m')
      × (peek wyhash m' key ≡ some (some value))
peek-insert_internal wyhash {m} v key value fits ttl =
    let (m', runs, r) = insert_internal-Inserts wyhash v key value fits ttl in
    let valid = r.places.valid in
    let reads = r.places.reads in
    let now : is_stale m'.default_ttl m'.current_epoch
          (record { epoch = (ticked m).current_epoch; ttl = ttl })
        ≡ false =
      rw (r.places.clock.0) (fresh m'.default_ttl (ticked m).current_epoch ttl (omega arith)) in
    (
      m',
      runs,
      peek-visible wyhash valid key ∙ ap some (visible-hit wyhash plain valid key reads ∙ rw now),
    )
