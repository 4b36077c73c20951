-- ===== src/Meta/Contention/Laws.antt =====
-- However threads contend for a word, it is what their accesses give, one after the other.
use pulse_map.Base.{ℕ, ◌<◌, ◌≡◌, refl, sym, ap, ◌∙◌, List, [], ◌∷◌, inl, inr, ◌==◌, Bool-cases}
use pulse_map.Meta.Access.{on_access-Accesses}
use pulse_map.Meta.Fields.{IsWord}
use pulse_map.Meta.Contention.{
  Shared, Pc, idle, looping, loaded, put, Step, call, load, fail, succeed, Reach, start, later,
}
use pulse_map.Meta.{on_access, get_state, get_h2}

-- The accesses to slots, the latest first, one after the other.
unfoldable pub accesses : List ℕ → ℕ → ℕ
accesses [] v = v
accesses (slot ∷ slots) v = on_access (accesses slots v) slot

-- The slot that a thread is at work on is one of four.
abbrev pub InBounds : Pc → Type 0
InBounds idle = Unit
InBounds (looping slot) = slot < 4
InBounds (loaded slot current) = slot < 4

record IsSound (v : ℕ) (s : Shared) : Type 0 where
  replayed : s.word ≡ accesses s.done v
  word : IsWord s.word
  states : (j : ℕ) → j < 4 → get_state s.word j ≡ get_state v j
  tags : (j : ℕ) → j < 4 → get_h2 s.word j ≡ get_h2 v j

put-InBounds :
    (pc : ℕ → Pc) (i : ℕ) (p : Pc)
    → ((j : ℕ) → InBounds (pc j))
    → InBounds p
    → (j : ℕ) → InBounds (put pc i p j)
unfolding put
put-InBounds pc i p all mine j = elim (Bool-cases (i == j)) [
  | inl q ↦ rw q mine
  | inr q ↦ rw q (all j)
]

Step-IsSound :
    {v : ℕ} {s s' : Shared} {q p : Pc}
    → IsSound v s
    → InBounds q
    → Step s q s' p
    → IsSound v s' × InBounds p
unfolding accesses
Step-IsSound h below (call slot below') = (h, below')
Step-IsSound h below load = (h, below)
Step-IsSound h below fail = (h, below)
Step-IsSound {v} {s} h below (succeed {slot} {current} same) =
    let a = on_access-Accesses s.word slot h.word below in
    let now : on_access current slot ≡ on_access s.word slot =
      ap (λ w. on_access w slot) (sym same) in
    (
      record {
        replayed = now ∙ ap (λ w. on_access w slot) h.replayed;
        word = rw now a.word;
        states = λ j bj. ap (λ w. get_state w j) now ∙ a.states j bj ∙ h.states j bj;
        tags = λ j bj. ap (λ w. get_h2 w j) now ∙ a.tags j bj ∙ h.tags j bj;
      },
      tt,
    )

Reach-IsSound :
    {v : ℕ} {s : Shared} {pc : ℕ → Pc}
    → IsWord v
    → Reach v s pc
    → IsSound v s × ((i : ℕ) → InBounds (pc i))
unfolding accesses
Reach-IsSound w start =
    (record { replayed = refl; word = w; states = λ j bj. refl; tags = λ j bj. refl }, λ i. tt)
Reach-IsSound w (later {pc} i {p} r st) =
    let (h, all) = Reach-IsSound w r in
    let (h', mine) = Step-IsSound h (all i) st in (h', put-InBounds pc i p all mine)

-- However the threads that call `on_access` interleave and however often an exchange fails, the word is what
-- the accesses that are done give one after the other, none lost and none done in part; and no state and no
-- fingerprint of a slot has changed.
pub contended_lem :
    {v : ℕ} {s : Shared} {pc : ℕ → Pc}
    → IsWord v
    → Reach v s pc
    → (s.word ≡ accesses s.done v)
      × ((j : ℕ) → j < 4 → (get_state s.word j ≡ get_state v j) × (get_h2 s.word j ≡ get_h2 v j))
contended_lem w r =
    let (h, _) = Reach-IsSound w r in (h.replayed, λ j bj. (h.states j bj, h.tags j bj))
