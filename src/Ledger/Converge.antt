-- ===== src/Ledger/Converge.antt =====
-- crates/wll-ledger/src/replay.rs and projection.rs: replays from the first receipt, from a snapshot,
-- and the projection of the latest state.
use wll.Base.{
  ℕ, zero, suc, ◌+◌, ◌-◌, ◌≤◌, ◌≡◌, ◌⊎◌, inl, inr, refl, sym, subst, ◌∙◌, eq_nat, Bool, true, false,
  List, [], ◌∷◌, none, some, drop, get_elem?, contains, arith,
}
use native.Mathlib.Decide.{dec_lt}
use native.Mathlib.Nat.{zero-add}
use wll.Base.Maps.{BTreeMap}
use wll.Base.Result.{Result, ok, err, Result-cases}
use wll.Types.Commitment.{WorldlineId}
use wll.Ledger.Codec.{Codec}
use wll.Ledger.Memory.{InMemoryLedger, new, stream_of}
use wll.Ledger.Reader.{read_all}
use wll.Ledger.Records.{LedgerError, Receipt, snapshot, SnapshotReceipt, receipt_hash}
use wll.Ledger.Validation.{Seen, unseen, note, is_anchored, check_receipt, check_receipts}
use wll.Ledger.Reports.{check_receipt-Passes}
use wll.Ledger.Integrity.{read_all-healthy}
use wll.Ledger.Run.{Call, run, run-Grows, run-poisoned, new-IsValid}
use wll.Ledger.Replay.{
  ReplayResult, LatestStateProjection, Replay, apply_from, apply_receipts, position,
  replay_from_genesis, replay_from_snapshot, verify_snapshot_convergence, latest_state,
}
use wll.Ledger.Folds.{
  drop-drop, get_elem?-drop_add, project_from-apply_from, evaluated-apply_from, first-eq,
  apply_from-reset, position-found, is_anchored-snapshot, seen-note,
}

module _ {V : Type 0} (codec : Codec V) (s : SnapshotReceipt V) where
  -- What `anchor-place` says, of the variables before a list.
  abbrev Placed : Seen → List (Receipt V) → ℕ → Type 0
  Placed v xs i =
      (contains v.seen_receipt_hashes s.anchored_receipt_hash ≡ true)
      ⊎ ((k : ℕ) × (r : Receipt V) × (k ≤ i)
          × (get_elem? xs k ≡ some r)
          × (receipt_hash r ≡ s.anchored_receipt_hash))

  anchor-place-step :
      (v : Seen) (x : Receipt V) (xs : List (Receipt V)) (i : ℕ)
      → is_anchored v x ≡ true
      → get_elem? (x ∷ xs) i ≡ some (snapshot s)
      → ((j : ℕ) → get_elem? xs j ≡ some (snapshot s) → Placed (note v x) xs j)
      → Placed v (x ∷ xs) i
  anchor-place-step v x xs zero a p ih =
      elim (is_anchored-snapshot v s (subst (λ t. is_anchored v t ≡ true) (first-eq p) a)) [
        | inl before ↦ inl before
        | inr itself ↦ inr (0, snapshot s, omega arith, p, itself)
      ]
  anchor-place-step v x xs (suc i) a p ih = elim (ih i p) [
    | inr (k, r, le, q, h) ↦ inr (suc k, r, omega arith, q, h)
    | inl seen ↦ elim (seen-note v x s.anchored_receipt_hash seen) [
      | inl before ↦ inl before
      | inr here ↦ inr (0, x, omega arith, refl, here)
    ]
  ]

  -- In a stream that passes the checks, a snapshot's anchor was seen before, or stands at its place or
  -- in front of it.
  anchor-place :
      (v v' : Seen) (xs : List (Receipt V)) (i : ℕ)
      → check_receipts codec v xs ≡ ok v'
      → get_elem? xs i ≡ some (snapshot s)
      → Placed v xs i
  unfolding check_receipts
  anchor-place v v' [] i e p = ground arith
  anchor-place v v' (x ∷ xs) i e p = elim (Result-cases (check_receipt codec v x)) [
    | inr (err_x, q) ↦ absurd (ground arith)
    | inl (u, q) ↦
        let (passes, next) = check_receipt-Passes codec v u x q in
        let rest : check_receipts codec (note v x) xs ≡ ok v' =
          subst (λ t. check_receipts codec t xs ≡ ok v') next (rw q at e) in
        anchor-place-step v x xs i passes.anchored p (λ j. anchor-place (note v x) v' xs j rest)
  ]

  abbrev from_state : BTreeMap V → Replay V
  from_state state = record { applied_outcomes = 0; evaluated_receipts = 0; state = state }

  tail-agrees_at :
      (xs : List (Receipt V)) (i j : ℕ)
      → get_elem? xs i ≡ some (snapshot s)
      → j ≤ i
      → (apply_from (from_state []) xs).state
        ≡ (apply_from (from_state s.state) (drop (j + 1) xs)).state
  tail-agrees_at xs i j p le = elim (dec_lt j i) [
    | no same ↦
        let e : j + 1 ≡ suc i = omega arith in
        rw e (apply_from-reset s (from_state []) (from_state s.state) xs i p refl)
    | yes before ↦
        let k : ℕ = i - (j + 1) in
        let e : j + 1 + k ≡ i = omega arith in
        let e' : j + 1 + suc k ≡ suc i = omega arith in
        apply_from-reset s (from_state []) (from_state s.state) xs i p refl
        ∙ sym (
            apply_from-reset s (from_state s.state) (from_state s.state) (drop (j + 1) xs) k
              (get_elem?-drop_add (j + 1) k xs
                ∙ subst (λ n. get_elem? xs n ≡ some (snapshot s)) (sym e) p)
              refl
            ∙ rw (drop-drop, e'))
  ]

  -- The replay from a recorded snapshot ends where the replay of the whole stream does.
  tail-agrees :
      (v' : Seen) (xs : List (Receipt V)) (i : ℕ)
      → check_receipts codec unseen xs ≡ ok v'
      → get_elem? xs i ≡ some (snapshot s)
      → (j : ℕ) × (position s.anchored_receipt_hash xs ≡ some j)
        × ((apply_receipts s.worldline [] xs 0).state
            ≡ (apply_receipts s.worldline s.state xs (j + 1)).state)
  unfolding apply_receipts
  tail-agrees v' xs i e p = elim (anchor-place unseen v' xs i e p) [
    | inl never ↦ cc
    | inr (k, r, le, q, h) ↦
        let (j, found, le_k) = position-found s.anchored_receipt_hash xs k r q h in
        (j, found, tail-agrees_at xs i j p (omega arith))
  ]

-- The state and the number of receipts of a projection, and of a replay.
abbrev pub projected :
    {V : Type 0}
    → Result LedgerError (LatestStateProjection V)
    → Result LedgerError (BTreeMap V × ℕ)
projected (ok p) = ok (p.state, p.trajectory_length)
projected (err e) = err e

abbrev pub replayed :
    {V : Type 0} → Result LedgerError (ReplayResult V) → Result LedgerError (BTreeMap V × ℕ)
replayed (ok r) = ok (r.state, r.evaluated_receipts)
replayed (err e) = err e

-- The state and the length that the projection gives are those of a replay from the first receipt,
-- and an error of one is that of the other.
pub latest_state-replay :
    {V : Type 0} (w : WorldlineId) (l : InMemoryLedger V)
    → projected (latest_state w l) ≡ replayed (replay_from_genesis w l)
unfolding latest_state replay_from_genesis apply_receipts
latest_state-replay {V} w l = elim (Result-cases (read_all w l)) [
  | inr (x, q) ↦ rw q
  | inl (rs, q) ↦ rw (
    q,
    project_from-apply_from (record { state = []; latest_commitment = none; last_updated = none })
        (record { applied_outcomes = 0; evaluated_receipts = 0; state = [] }) rs refl,
    evaluated-apply_from,
    zero-add,
  )
]

-- After any calls of a new ledger's writer, every snapshot that stands in its stream passes
-- `verify_snapshot_convergence`, whatever state it holds: the replay from the first receipt takes the
-- snapshot's state too when it comes to it.
pub verify_snapshot_convergence-run :
    {V : Type 0} (codec : Codec V) (state_eq : BTreeMap V → BTreeMap V → Bool)
    → ((m : BTreeMap V) → state_eq m m ≡ true)
    → (node_id : ℕ) (calls : List (Call V)) (s : SnapshotReceipt V) (rs : List (Receipt V)) (i : ℕ)
    → read_all s.worldline (run codec calls (new node_id)) ≡ ok rs
    → get_elem? rs i ≡ some (snapshot s)
    → verify_snapshot_convergence state_eq s (run codec calls (new node_id)) ≡ ok true
unfolding verify_snapshot_convergence replay_from_genesis replay_from_snapshot
verify_snapshot_convergence-run {V} codec state_eq same node_id calls s rs i e p =
    let l : InMemoryLedger V = run codec calls (new node_id) in
    let healthy : l.poisoned ≡ false = run-poisoned codec calls (new node_id) in
    let valid = (run-Grows codec calls (new node_id) (new-IsValid codec node_id)).valid in
    let stream : rs ≡ stream_of s.worldline l.inner =
      ground (arith, read_all-healthy s.worldline l healthy) in
    let (j, found, agree) =
      tail-agrees codec s _ (stream_of s.worldline l.inner) i (valid.checked s.worldline)
        (subst (λ xs. get_elem? xs i ≡ some (snapshot s)) stream p) in
    rw (read_all-healthy s.worldline l healthy, found, agree, same)
