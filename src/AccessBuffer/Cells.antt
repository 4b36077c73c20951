-- ===== src/AccessBuffer/Cells.antt =====
-- Positions in a ring of `2 ^ e` cells: a counter that wraps at 64 bits still finds its cell, and a window as
-- long as the ring visits no cell twice.
use pulse_map.Base.{
  ℕ, zero, suc, subst, ◌+◌, ◌-◌, ◌%◌, ◌^◌, ◌<◌, ◌≤◌, ◌≡◌, sym, ap, ◌∙◌, arith, bit_and,
  bit_and_mask,
}
use Prim.Native.Nat.{◌∣◌}
use native.Mathlib.Decide.{dec_lt, dec_le}
use native.Mathlib.Nat.{
  mod-lt, mod-add-mod, mod-eq_of_lt, mod-eq-sub-mod, mod-mod_of_dvd, dvd_refl, dvd-mul_right_of_dvd,
  pow-suc,
}

pub power_dvd : (extra e all : ℕ) → extra + e ≡ all → 2 ^ e ∣ 2 ^ all
power_dvd zero e all sum =
    let same : e ≡ all = omega arith in subst (λ n. 2 ^ e ∣ 2 ^ n) same (dvd_refl (2 ^ e))
power_dvd (suc extra) e zero sum = absurd (omega arith)
power_dvd (suc extra) e (suc all) sum =
    subst (λ n. 2 ^ e ∣ n) (sym (pow-suc 2 all))
      (dvd-mul_right_of_dvd (2 ^ e) (power_dvd extra e all (omega arith)) 2)

wrap : (e x : ℕ) → e ≤ 64 → x % 2 ^ 64 % 2 ^ e ≡ x % 2 ^ e
wrap e x small = mod-mod_of_dvd (2 ^ e) x (power_dvd (64 - e) e 64 (omega arith))

pub cursor : (e x : ℕ) → e ≤ 64 → bit_and (x % 2 ^ 64) (2 ^ e - 1) ≡ x % 2 ^ e
cursor e x small = bit_and_mask e (x % 2 ^ 64) ∙ wrap e x small

shift_zero : (n r d : ℕ) → r < n → d < n → (r + d) % n ≡ r → d ≡ 0
shift_zero n r d br bd e = elim (dec_lt (r + d) n) [
  | yes inside ↦ let same = mod-eq_of_lt inside in omega (arith, same)
  | no outside ↦
      let around = mod-eq-sub-mod {n = r + d} {m = n} (omega arith) in
      let less : r + d - n < n = omega arith in
      let same = mod-eq_of_lt less in absurd (omega (arith, around, same))
]

forward : (n t i d : ℕ) → i + d < n → (t + (i + d)) % n ≡ (t + i) % n → d ≡ 0
forward n t i d inside e =
    let assoc : t + (i + d) ≡ t + i + d = omega arith in
    shift_zero n ((t + i) % n) d (mod-lt (t + i) (omega arith)) (omega arith)
      (mod-add-mod (t + i) n d ∙ ap (λ x. x % n) (sym assoc) ∙ e)

pub same_cell : (n t i j : ℕ) → i < n → j < n → (t + i) % n ≡ (t + j) % n → i ≡ j
same_cell n t i j bi bj e = elim (dec_le i j) [
  | yes le ↦
      let d : i + (j - i) ≡ j = omega arith in
      omega (arith, forward n t i (j - i) (omega arith) (ap (λ x. (t + x) % n) d ∙ sym e))
  | no gt ↦
      let d : j + (i - j) ≡ i = omega arith in
      omega (arith, forward n t j (i - j) (omega arith) (ap (λ x. (t + x) % n) d ∙ e))
]
