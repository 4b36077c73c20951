-- ===== src/Tests/Contention.antt =====
-- Two threads access two slots of a word with four full slots; the exchange of one fails once.
use pulse_map.Base.{ℕ, ◌<◌, ◌≡◌, refl, arith, [], ◌∷◌}
use pulse_map.Meta.Contention.Laws.{accesses, contended_lem}
use pulse_map.Meta.Contention.{Shared, Pc, put, Reach, start, later, call, load, fail, succeed}
use pulse_map.Meta.Fields.{IsWord}
use pulse_map.Meta.{get_state, get_h2}

abbrev four_full : ℕ
four_full = 0x5500000000000000

record Contended : Type 0 where
  state : Shared
  pc : ℕ → Pc
  reached : Reach four_full state pc
  both : state.done ≡ 1 ∷ 2 ∷ []

contended : Contended
unfolding put
contended = record {
  state = _;
  pc = _;
  reached =
      later 1
        (later 1
          (later 1
            (later 2
              (later 1
                (later 2 (later 2 (later 1 start (call 1 (omega arith))) (call 2 (omega arith)))
                  load)
                load)
              (succeed refl))
            fail)
          load)
        (succeed refl);
  both = refl;
}

four_full-IsWord : IsWord four_full
four_full-IsWord = omega arith

contended_lem_example :
    (contended.state.word ≡ accesses contended.state.done four_full)
    × ((j : ℕ)
        → j < 4
        → (get_state contended.state.word j ≡ get_state four_full j)
          × (get_h2 contended.state.word j ≡ get_h2 four_full j))
contended_lem_example = contended_lem four_full-IsWord contended.reached
