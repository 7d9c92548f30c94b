-- ===== src/Dag/Search/Reach.antt =====
-- crates/wll-dag/src/dag.rs: the loop of the queries visits what the edges lead to, and nothing else.
use wll.Base.{
  ap, ℕ, zero, suc, ◌≡◌, sym, ◌⊎◌, inl, inr, ◌↔◌, true, List, [], ◌∷◌, map, contains,
  contains-map-append, ◌==◌, eq_nat, arith, Bool-cases, List-cases, nat_eq_iff,
}
use wll.Types.Commitment.{ObjectId}
use wll.Dag.Search.{Loop, fresh, round, search}
use wll.Dag.Search.Ends.{contains-visit, contains-fresh}

-- A walk along the edges, from an id to itself or on.
pub data Leads (step : ObjectId → List ObjectId) (start : ObjectId) : ObjectId → Type 0 where
  stay : Leads step start start
  go : {b c : ObjectId} → Leads step start b → contains (step b) c ≡ true → Leads step start c

module _ {X A : Type 0} (id_of : X → ObjectId) (next : X → List X) (note : X → List X → A → A) where
  -- What a round keeps holds when the loop stops.
  pub search_rule {ℓ} :
      (P : Loop X A → Type ℓ)
      → ((x : X) (rest : List X) (s : Loop X A)
          → s.queue ≡ x ∷ rest
          → P s
          → P (round id_of next note x rest s))
      → (fuel : ℕ) (s : Loop X A) → P s
      → P (search id_of next note fuel s)
  unfolding search
  search_rule P keep zero s p = p
  search_rule P keep (suc fuel) s p = elim (List-cases s.queue) [
    | inl e ↦ rw (search, e) p
    | inr (x, rest, e) ↦
        rw (search, e)
          (search_rule P keep fuel (round id_of next note x rest s) (keep x rest s e p))
  ]

  module _ (step : ObjectId → List ObjectId)
      (follows : (x : X) (k : ObjectId)
        → contains (map id_of (next x)) k ≡ contains (step (id_of x)) k)
      (start : ObjectId) where
    -- What was visited can be reached, and what was visited and left the queue has its successors
    -- visited.
    pub record IsSearching (s : Loop X A) : Type 0 where
      pub source : contains s.visited start ≡ true
      pub queued :
          (k : ObjectId) → contains (map id_of s.queue) k ≡ true → contains s.visited k ≡ true
      pub sound : (k : ObjectId) → contains s.visited k ≡ true → Leads step start k
      pub closed :
          (u v : ObjectId)
          → contains s.visited u ≡ true
          → contains (step u) v ≡ true
          → (contains (map id_of s.queue) u ≡ true) ⊎ (contains s.visited v ≡ true)

    pub round-IsSearching :
        (x : X) (rest : List X) (s : Loop X A)
        → s.queue ≡ x ∷ rest
        → IsSearching s
        → IsSearching (round id_of next note x rest s)
    unfolding round
    round-IsSearching x rest s e h =
        let at_head : contains (map id_of s.queue) (id_of x) ≡ true =
          rw e (ground (arith, nat_eq_iff (id_of x) (id_of x))) in
        let tail = λ (k : ObjectId). ap (λ q. contains (map id_of q) k) e in
        let now = λ (k : ObjectId). contains-visit id_of s.visited (next x) k in
        let added = λ (k : ObjectId). contains-fresh id_of s.visited (next x) k in
        let later =
          λ (k : ObjectId). contains-map-append id_of rest (fresh id_of s.visited (next x)) k in
        record {
          source = ground (arith, now start, h.source);
          queued = λ k q. ground (arith, now k, added k, later k, tail k, h.queued k);
          sound = λ k v. elim (Bool-cases (contains s.visited k)) [
            | inl old ↦ h.sound k old
            | inr new ↦
                go (h.sound (id_of x) (h.queued (id_of x) at_head))
                  (ground (arith, now k, new, follows x k))
          ];
          closed = λ u v m edge. elim (Bool-cases (id_of x == u)) [
            | inl same ↦ inr (
                ground (
                  arith,
                  now v,
                  follows x v,
                  ap step ((nat_eq_iff (id_of x) u).0 same),
                  ap (λ l. contains l v) (ap step ((nat_eq_iff (id_of x) u).0 same)),
                ))
            | inr other ↦ ground (arith, now u, now v, added u, later u, tail u, h.closed u v)
          ];
        }

    pub complete :
        (s : Loop X A)
        → IsSearching s
        → s.queue ≡ []
        → {k : ObjectId} → Leads step start k
        → contains s.visited k ≡ true
    complete s h e stay = h.source
    complete s h e (go {b} {c} walk edge) = elim (h.closed b c (complete s h e walk) edge) [
      | inl waiting ↦ ground (arith, ap (λ q. contains (map id_of q) b) e, waiting)
      | inr seen ↦ seen
    ]

    -- When the loop has ended, exactly what can be reached was visited.
    pub search_reaches :
        (fuel : ℕ) (s : Loop X A)
        → IsSearching s
        → (search id_of next note fuel s).queue ≡ []
        → (k : ObjectId)
        → (contains (search id_of next note fuel s).visited k ≡ true) ↔ Leads step start k
    search_reaches fuel s h e k =
        let last = search_rule IsSearching round-IsSearching fuel s h in
        (last.sound k, complete (search id_of next note fuel s) last e)

    -- The loop starts with the first id visited and its followers, or the id itself, in the queue.
    pub seed-IsSearching :
        (x : X) (found : A)
        → id_of x ≡ start
        → IsSearching record { visited = start ∷ []; queue = x ∷ []; found = found }
    seed-IsSearching x found e = record {
      source = ground (arith, nat_eq_iff start start);
      queued = λ k q. ground (arith, ap (λ i. i == k) e);
      sound = λ k v. rw (sym ((nat_eq_iff start k).0 (ground (arith, v)))) stay;
      closed = λ u v m edge. inl (ground (arith, ap (λ i. i == u) e));
    }
