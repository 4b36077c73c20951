-- ===== src/Raw/Words.antt =====
-- The metadata words that an insertion writes.
use pulse_map.Base.{ℕ, ◌%◌, ◌<◌, ◌≡◌, ◌∙◌, arith, ◌==◌, if◌then◌else◌}
use pulse_map.Bucket.Fill.{WordElsewhere}
use pulse_map.Meta.Access.{on_access-Accesses}
use pulse_map.Meta.Fields.{IsWord}
use pulse_map.Meta.Laws.{
  set_state-IsWord, get_state-set_state, get_h2-set_state, set_h2-IsWord, get_state-set_h2,
  get_h2-set_h2, set_priority-IsWord, get_state-set_priority, get_h2-set_priority,
}
use pulse_map.Meta.{full, get_state, set_state, get_h2, set_h2, on_access, on_insert}

pub access-WordElsewhere : (v t : ℕ) → IsWord v → t < 4 → WordElsewhere t v (on_access v t)
access-WordElsewhere v t word bt =
    let a = on_access-Accesses v t word bt in
    record { word = a.word; states = λ j bj ne. a.states j bj; tags = λ j bj ne. a.tags j bj }

-- The word of a slot that is filled.
abbrev pub fresh_word : ℕ → ℕ → ℕ → ℕ
fresh_word v t h2 = on_insert (set_h2 (set_state v t full) t h2) t

module _ (v t h2 : ℕ) (word : IsWord v) (bt : t < 4) where
  word₁ : IsWord (set_state v t full)
  word₁ = set_state-IsWord word bt full

  word₂ : IsWord (set_h2 (set_state v t full) t h2)
  word₂ = set_h2-IsWord word₁ bt h2

  state_of :
      (j : ℕ) → j < 4 → get_state (fresh_word v t h2) j ≡ (if t == j then full else get_state v j)
  unfolding on_insert
  state_of j bj =
      get_state-set_priority word₂ bt 1 bj
      ∙ get_state-set_h2 word₁ bt h2 bj
      ∙ get_state-set_state word bt full bj

  tag_of :
      (j : ℕ) → j < 4 → get_h2 (fresh_word v t h2) j ≡ (if t == j then h2 % 128 else get_h2 v j)
  unfolding on_insert
  tag_of j bj =
      get_h2-set_priority word₂ bt 1 bj
      ∙ get_h2-set_h2 word₁ bt h2 bj
      ∙ ground (arith, get_h2-set_state word bt full bj)

  pub fresh-WordElsewhere : WordElsewhere t v (fresh_word v t h2)
  unfolding on_insert
  fresh-WordElsewhere = record {
    word = set_priority-IsWord word₂ bt 1;
    states = λ j bj ne. ground (arith, state_of j bj);
    tags = λ j bj ne. ground (arith, tag_of j bj);
  }

  pub fresh-full : get_state (fresh_word v t h2) t ≡ full
  fresh-full = ground (arith, state_of t bt)

  pub fresh-tagged : h2 < 128 → get_h2 (fresh_word v t h2) t ≡ h2
  fresh-tagged small = ground (arith, tag_of t bt)
