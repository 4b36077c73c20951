-- ===== src/Meta/Positions.antt =====
-- In arithmetic: a field reads the same after another one is replaced, and the new value after its
-- own. Each statement is a table over two slot indices.
use pulse_map.Base.{ℕ, ◌+◌, ◌*◌, ◌/◌, ◌%◌, ◌^◌, ◌<◌, ◌≡◌, arith, below_four, ◌==◌, if◌then◌else◌}
use pulse_map.Meta.Fields.{IsWord, replaced}

module _ (v x : ℕ) (word : IsWord v) (fits : x < 2 ^ 2) where
  pub IsWord-state : (i : ℕ) → i < 4 → IsWord (replaced (56 + i * 2) 2 v x)
  IsWord-state =
      below_four (λ i. IsWord (replaced (56 + i * 2) 2 v x)) (omega arith) (omega arith)
        (omega arith) (omega arith)

  abbrev pub KeepsStateState : ℕ → ℕ → Type 0
  KeepsStateState i j =
      replaced (56 + i * 2) 2 v x / 2 ^ (56 + j * 2) % 2 ^ 2
      ≡ (if i == j then x else v / 2 ^ (56 + j * 2) % 2 ^ 2)

  pub state_after_state : (i : ℕ) → i < 4 → (j : ℕ) → j < 4 → KeepsStateState i j
  state_after_state =
      below_four (λ i. (j : ℕ) → j < 4 → KeepsStateState i j)
        (below_four (KeepsStateState 0) (omega arith) (omega arith) (omega arith) (omega arith))
        (below_four (KeepsStateState 1) (omega arith) (omega arith) (omega arith) (omega arith))
        (below_four (KeepsStateState 2) (omega arith) (omega arith) (omega arith) (omega arith))
        (below_four (KeepsStateState 3) (omega arith) (omega arith) (omega arith) (omega arith))

  abbrev pub KeepsStateH2 : ℕ → ℕ → Type 0
  KeepsStateH2 i j =
      replaced (56 + i * 2) 2 v x / 2 ^ (28 + j * 7) % 2 ^ 7 ≡ v / 2 ^ (28 + j * 7) % 2 ^ 7

  pub h2_after_state : (i : ℕ) → i < 4 → (j : ℕ) → j < 4 → KeepsStateH2 i j
  h2_after_state =
      below_four (λ i. (j : ℕ) → j < 4 → KeepsStateH2 i j)
        (below_four (KeepsStateH2 0) (omega arith) (omega arith) (omega arith) (omega arith))
        (below_four (KeepsStateH2 1) (omega arith) (omega arith) (omega arith) (omega arith))
        (below_four (KeepsStateH2 2) (omega arith) (omega arith) (omega arith) (omega arith))
        (below_four (KeepsStateH2 3) (omega arith) (omega arith) (omega arith) (omega arith))

  abbrev pub KeepsStatePrio : ℕ → ℕ → Type 0
  KeepsStatePrio i j =
      replaced (56 + i * 2) 2 v x / 2 ^ (0 + j * 7) % 2 ^ 7 ≡ v / 2 ^ (0 + j * 7) % 2 ^ 7

  pub prio_after_state : (i : ℕ) → i < 4 → (j : ℕ) → j < 4 → KeepsStatePrio i j
  prio_after_state =
      below_four (λ i. (j : ℕ) → j < 4 → KeepsStatePrio i j)
        (below_four (KeepsStatePrio 0) (omega arith) (omega arith) (omega arith) (omega arith))
        (below_four (KeepsStatePrio 1) (omega arith) (omega arith) (omega arith) (omega arith))
        (below_four (KeepsStatePrio 2) (omega arith) (omega arith) (omega arith) (omega arith))
        (below_four (KeepsStatePrio 3) (omega arith) (omega arith) (omega arith) (omega arith))

module _ (v x : ℕ) (word : IsWord v) (fits : x < 2 ^ 7) where
  pub IsWord-h2 : (i : ℕ) → i < 4 → IsWord (replaced (28 + i * 7) 7 v x)
  IsWord-h2 =
      below_four (λ i. IsWord (replaced (28 + i * 7) 7 v x)) (omega arith) (omega arith)
        (omega arith) (omega arith)

  abbrev pub KeepsH2State : ℕ → ℕ → Type 0
  KeepsH2State i j =
      replaced (28 + i * 7) 7 v x / 2 ^ (56 + j * 2) % 2 ^ 2 ≡ v / 2 ^ (56 + j * 2) % 2 ^ 2

  pub state_after_h2 : (i : ℕ) → i < 4 → (j : ℕ) → j < 4 → KeepsH2State i j
  state_after_h2 =
      below_four (λ i. (j : ℕ) → j < 4 → KeepsH2State i j)
        (below_four (KeepsH2State 0) (omega arith) (omega arith) (omega arith) (omega arith))
        (below_four (KeepsH2State 1) (omega arith) (omega arith) (omega arith) (omega arith))
        (below_four (KeepsH2State 2) (omega arith) (omega arith) (omega arith) (omega arith))
        (below_four (KeepsH2State 3) (omega arith) (omega arith) (omega arith) (omega arith))

  abbrev pub KeepsH2H2 : ℕ → ℕ → Type 0
  KeepsH2H2 i j =
      replaced (28 + i * 7) 7 v x / 2 ^ (28 + j * 7) % 2 ^ 7
      ≡ (if i == j then x else v / 2 ^ (28 + j * 7) % 2 ^ 7)

  pub h2_after_h2 : (i : ℕ) → i < 4 → (j : ℕ) → j < 4 → KeepsH2H2 i j
  h2_after_h2 =
      below_four (λ i. (j : ℕ) → j < 4 → KeepsH2H2 i j)
        (below_four (KeepsH2H2 0) (omega arith) (omega arith) (omega arith) (omega arith))
        (below_four (KeepsH2H2 1) (omega arith) (omega arith) (omega arith) (omega arith))
        (below_four (KeepsH2H2 2) (omega arith) (omega arith) (omega arith) (omega arith))
        (below_four (KeepsH2H2 3) (omega arith) (omega arith) (omega arith) (omega arith))

  abbrev pub KeepsH2Prio : ℕ → ℕ → Type 0
  KeepsH2Prio i j =
      replaced (28 + i * 7) 7 v x / 2 ^ (0 + j * 7) % 2 ^ 7 ≡ v / 2 ^ (0 + j * 7) % 2 ^ 7

  pub prio_after_h2 : (i : ℕ) → i < 4 → (j : ℕ) → j < 4 → KeepsH2Prio i j
  prio_after_h2 =
      below_four (λ i. (j : ℕ) → j < 4 → KeepsH2Prio i j)
        (below_four (KeepsH2Prio 0) (omega arith) (omega arith) (omega arith) (omega arith))
        (below_four (KeepsH2Prio 1) (omega arith) (omega arith) (omega arith) (omega arith))
        (below_four (KeepsH2Prio 2) (omega arith) (omega arith) (omega arith) (omega arith))
        (below_four (KeepsH2Prio 3) (omega arith) (omega arith) (omega arith) (omega arith))

module _ (v x : ℕ) (word : IsWord v) (fits : x < 2 ^ 7) where
  pub IsWord-prio : (i : ℕ) → i < 4 → IsWord (replaced (0 + i * 7) 7 v x)
  IsWord-prio =
      below_four (λ i. IsWord (replaced (0 + i * 7) 7 v x)) (omega arith) (omega arith)
        (omega arith) (omega arith)

  abbrev pub KeepsPrioState : ℕ → ℕ → Type 0
  KeepsPrioState i j =
      replaced (0 + i * 7) 7 v x / 2 ^ (56 + j * 2) % 2 ^ 2 ≡ v / 2 ^ (56 + j * 2) % 2 ^ 2

  pub state_after_prio : (i : ℕ) → i < 4 → (j : ℕ) → j < 4 → KeepsPrioState i j
  state_after_prio =
      below_four (λ i. (j : ℕ) → j < 4 → KeepsPrioState i j)
        (below_four (KeepsPrioState 0) (omega arith) (omega arith) (omega arith) (omega arith))
        (below_four (KeepsPrioState 1) (omega arith) (omega arith) (omega arith) (omega arith))
        (below_four (KeepsPrioState 2) (omega arith) (omega arith) (omega arith) (omega arith))
        (below_four (KeepsPrioState 3) (omega arith) (omega arith) (omega arith) (omega arith))

  abbrev pub KeepsPrioH2 : ℕ → ℕ → Type 0
  KeepsPrioH2 i j =
      replaced (0 + i * 7) 7 v x / 2 ^ (28 + j * 7) % 2 ^ 7 ≡ v / 2 ^ (28 + j * 7) % 2 ^ 7

  pub h2_after_prio : (i : ℕ) → i < 4 → (j : ℕ) → j < 4 → KeepsPrioH2 i j
  h2_after_prio =
      below_four (λ i. (j : ℕ) → j < 4 → KeepsPrioH2 i j)
        (below_four (KeepsPrioH2 0) (omega arith) (omega arith) (omega arith) (omega arith))
        (below_four (KeepsPrioH2 1) (omega arith) (omega arith) (omega arith) (omega arith))
        (below_four (KeepsPrioH2 2) (omega arith) (omega arith) (omega arith) (omega arith))
        (below_four (KeepsPrioH2 3) (omega arith) (omega arith) (omega arith) (omega arith))

  abbrev pub KeepsPrioPrio : ℕ → ℕ → Type 0
  KeepsPrioPrio i j =
      replaced (0 + i * 7) 7 v x / 2 ^ (0 + j * 7) % 2 ^ 7
      ≡ (if i == j then x else v / 2 ^ (0 + j * 7) % 2 ^ 7)

  pub prio_after_prio : (i : ℕ) → i < 4 → (j : ℕ) → j < 4 → KeepsPrioPrio i j
  prio_after_prio =
      below_four (λ i. (j : ℕ) → j < 4 → KeepsPrioPrio i j)
        (below_four (KeepsPrioPrio 0) (omega arith) (omega arith) (omega arith) (omega arith))
        (below_four (KeepsPrioPrio 1) (omega arith) (omega arith) (omega arith) (omega arith))
        (below_four (KeepsPrioPrio 2) (omega arith) (omega arith) (omega arith) (omega arith))
        (below_four (KeepsPrioPrio 3) (omega arith) (omega arith) (omega arith) (omega arith))
