-- ===== src/Dag/Search/Target.antt =====
-- crates/wll-dag/src/dag.rs: the loop of the path queries stops at its target or at an empty queue.
use wll.Base.{
  ap, ℕ, zero, suc, ◌≤◌, ◌≡◌, refl, ◌⊎◌, inl, inr, true, false, List, [], ◌∷◌, map, none, some,
  contains, length, ◌==◌, eq_nat, arith, Bool-cases, List-cases, nat_eq_iff,
}
use wll.Types.Commitment.{ObjectId}
use wll.Dag.Search.{Loop, round, search_for}
use wll.Dag.Search.Ends.{work, work-round}

module _ {X A : Type 0} (id_of : X → ObjectId) (next : X → List X) (note : X → List X → A → A)
    (us : List ObjectId)
    (inside : (x : X) (k : ObjectId)
      → contains (map id_of (next x)) k ≡ true
      → contains us k ≡ true)
    (to : ObjectId) where
  -- With rounds enough and an invariant of the rounds on other ids than the target: what the loop
  -- had found when the target came up, or nothing, from an empty queue.
  pub search_for_cases {ℓ} :
      (P : Loop X A → Type ℓ)
      → ((x : X) (rest : List X) (s : Loop X A)
          → s.queue ≡ x ∷ rest
          → (id_of x == to) ≡ false
          → P s
          → P (round id_of next note x rest s))
      → (fuel : ℕ) (s : Loop X A) → work id_of next note us inside s ≤ fuel
      → P s
      → ((t : Loop X A) × (x : X) × (rest : List X) × P t
          × (t.queue ≡ x ∷ rest)
          × (id_of x ≡ to)
          × (search_for id_of next note to fuel s ≡ some t.found))
        ⊎ ((t : Loop X A) × P t × (t.queue ≡ []) × (search_for id_of next note to fuel s ≡ none))
  unfolding search_for
  search_for_cases P keep zero s h p = elim (List-cases s.queue) [
    | inl e ↦ inr (s, p, e, refl)
    | inr (x, rest, e) ↦ ground (arith, ap (length {0}) e)
  ]
  search_for_cases P keep (suc fuel) s h p = elim (List-cases s.queue) [
    | inl e ↦ inr (s, p, e, rw (search_for, e) refl)
    | inr (x, rest, e) ↦ elim (Bool-cases (id_of x == to)) [
      | inl hit ↦
          inl (s, x, rest, p, e, (nat_eq_iff (id_of x) to).0 hit, rw (search_for, e, hit) refl)
      | inr miss ↦
          rw (search_for, e, miss)
            (search_for_cases P keep fuel (round id_of next note x rest s)
              (omega (arith, work-round id_of next note us inside x rest s, ap (length {0}) e))
              (keep x rest s e miss p))
    ]
  ]
