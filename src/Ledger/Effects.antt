-- ===== src/Ledger/Effects.antt =====
-- crates/wll-ledger/src/memory.rs: what successful calls of `append_outcome` and
-- `append_rejection_outcome` have done.
use wll.Base.{
  ℕ, ◌==◌, ◌≡◌, refl, sym, subst, eq_nat, Bool, true, false, inl, inr, List, [], ◌∷◌, ◌++◌, some,
  String, if◌then◌else◌, get_elem?, arith, Bool-cases,
}
use wll.Base.Maps
use wll.Base.Result.{Result, ok, err, Result-cases}
use wll.Base.Exec.{Exec, lift, ◌>>=◌, bind-lift-state}
use wll.Types.Commitment.{Hash, WorldlineId, Decision, is_accepted, is_rejected}
use wll.Ledger.Codec.{outcome_hash, Codec, hash_json, recompute_receipt_hash}
use wll.Ledger.Records.{
  Receipt, LedgerError, CommitmentReceipt, OutcomeRecord, OutcomeReceipt, commitment, outcome,
  set_receipt_hash,
}
use wll.Ledger.Memory.{
  LedgerState, InMemoryLedger, new, write_lock, stream_of, stream_position, find_commitment_by_hash,
  append_receipt, push_receipt, entry_or_default, expect_outcome,
}
use wll.Ledger.Writer.{
  new_outcome, new_rejection, rejection_metadata, outcome_body, rejection_body, append_outcome,
  append_rejection_outcome,
}
use wll.Ledger.Invariant.{IsValid}
use wll.Ledger.Pushed.{Fits, stream_of-push_receipt, stream_of-entry_or_default}
use wll.Ledger.Append.{append_result, append_receipt_lem}
use wll.Ledger.Found.{find_commitment_by_hash-found}
use wll.Ledger.Run.{Call, run, run-Grows, new-IsValid}
use wll.Ledger.Bodies.{outcome-Fits}

bind-lift-ok :
    {S E A B : Type 0} (m : Exec S E A) (f : A → Result E B) (s : S) (b : B)
    → ((m >>= λ a. lift (f a)) s).0 ≡ ok b
    → (a : A) × ((m s).0 ≡ ok a) × (f a ≡ ok b)
bind-lift-ok m f s b e = elim (Result-cases (m s).0) [
  | inl (a, q) ↦ (a, q, rw q at e)
  | inr (x, q) ↦ cc (rw q at e)
]

-- The streams of `t` are those of `s`, with `r` at the end of the one of `w`.
abbrev pub GrownBy : {V : Type 0} → LedgerState V → WorldlineId → Receipt V → LedgerState V → Type 0
GrownBy s w r t =
    (v : WorldlineId) → stream_of v t ≡ (if w == v then stream_of w s ++ r ∷ [] else stream_of v s)

module _ {V : Type 0} (codec : Codec V) where
  append_result-ok :
      (m : Result LedgerError Hash) (w : WorldlineId) (r r' : Receipt V) (s : LedgerState V)
      → (append_result codec m w r s).0 ≡ ok r'
      → (h : Hash) × (r' ≡ set_receipt_hash h r)
        × ((append_result codec m w r s).1 ≡ push_receipt codec w r' s)
  unfolding append_result
  append_result-ok (err x) w r r' s e = cc
  append_result-ok (ok h) w r r' s e = elim (Bool-cases (Maps.contains_key h s.hash_index)) [
    | inl known ↦ absurd (ground arith)
    | inr fresh ↦
        let same : set_receipt_hash h r ≡ r' = ground arith in (h, sym same, rw (fresh, same))
  ]

  append_receipt-ok :
      (w : WorldlineId) (r r' : Receipt V) (s : LedgerState V)
      → Fits s w r
      → (append_receipt codec w r s).0 ≡ ok r'
      → (h : Hash) × (r' ≡ set_receipt_hash h r) × GrownBy s w r' (append_receipt codec w r s).1
  append_receipt-ok w r r' s fits e =
      let (h, same, grown) =
        append_result-ok (recompute_receipt_hash codec r) w r r' (entry_or_default w s)
          (rw (append_receipt_lem codec w r s fits) at e) in
      (
        h,
        same,
        λ v. rw (
          append_receipt_lem codec w r s fits,
          grown,
          stream_of-push_receipt,
          stream_of-entry_or_default,
          stream_of-entry_or_default,
        ),
      )

  pub append_then-ok :
      {A : Type 0} (w : WorldlineId) (r : Receipt V) (f : Receipt V → Result LedgerError A)
      (s : LedgerState V) (b : A)
      → Fits s w r
      → ((append_receipt codec w r >>= λ a. lift (f a)) s).0 ≡ ok b
      → (h : Hash) × (f (set_receipt_hash h r) ≡ ok b)
        × GrownBy s w (set_receipt_hash h r) ((append_receipt codec w r >>= λ a. lift (f a)) s).1
  append_then-ok w r f s b fits e =
      let (r', appended, result) = bind-lift-ok (append_receipt codec w r) f s b e in
      let (h, same, grown) = append_receipt-ok w r r' s fits appended in
      (
        h,
        subst (λ t. f t ≡ ok b) same result,
        subst (GrownBy s w (set_receipt_hash h r))
            (sym (bind-lift-state (append_receipt codec w r) f s))
            (subst (λ t. GrownBy s w t (append_receipt codec w r s).1) same grown),
      )

-- The outcome `out`, asked for with the hash `h`, answers a commitment with a wanted decision that
-- stands in the stream of the same worldline before; and that stream has grown by the outcome alone.
pub record Answers {V : Type 0} (want : Decision → Bool) (h : Hash) (out : OutcomeReceipt V)
    (s t : LedgerState V) : Type 0 where
  pub answered : CommitmentReceipt
  pub index : ℕ
  pub stands : get_elem? (stream_of out.worldline s) index ≡ some (commitment answered)
  pub hashed : answered.receipt_hash ≡ h
  pub decided : want answered.decision ≡ true
  pub refers : out.commitment_receipt_hash ≡ h
  pub grown : GrownBy s out.worldline (outcome out) t

module _ {V : Type 0} (codec : Codec V) (node_id now_ms : ℕ) (s : LedgerState V)
    (valid : IsValid codec s) where
  outcome_body-Answers :
      (h : Hash) (o : OutcomeRecord V) (out : OutcomeReceipt V)
      → (outcome_body codec node_id now_ms h o s).0 ≡ ok out
      → Answers is_accepted h out s (outcome_body codec node_id now_ms h o s).1
        × (out.accepted ≡ true)
        × (out.state_updates ≡ o.state_updates)
  unfolding outcome_body new_outcome
  outcome_body-Answers h o out e = elim (Result-cases (find_commitment_by_hash h s)) [
    | inr (x, q) ↦ cc (rw q at e)
    | inl (c, q) ↦ elim (Bool-cases (is_accepted c.decision)) [
      | inr bad ↦ cc (rw (q, bad) at e)
      | inl good ↦
          let (i, place, hash) = find_commitment_by_hash-found valid h c q in
          let r =
            new_outcome c.worldline h o (outcome_hash codec o)
              (stream_position now_ms c.worldline node_id s) in
          let fits : Fits s c.worldline (outcome r) =
            outcome-Fits codec node_id now_ms s c r i place (sym hash) refl refl in
          let (g, same, grown) =
            append_then-ok codec c.worldline (outcome r) expect_outcome s out fits
              (rw (q, good) at e) in
          let eqv : record r { receipt_hash = g } ≡ out = cc in
          rw (q, good)
            (subst
              (λ (x : OutcomeReceipt V).
                Answers is_accepted h x s
                  ((append_receipt codec c.worldline (outcome r) >>= λ a. lift (expect_outcome a))
                    s).1
                × (x.accepted ≡ true)
                × (x.state_updates ≡ o.state_updates))
              eqv
              (
                record {
                  answered = c;
                  index = i;
                  stands = place;
                  hashed = hash;
                  decided = good;
                  refers = refl;
                  grown = grown;
                },
                refl,
                refl,
              ))
    ]
  ]

  rejection_body-Answers :
      (h : Hash) (reason : String) (out : OutcomeReceipt V)
      → (rejection_body codec node_id now_ms h reason s).0 ≡ ok out
      → Answers is_rejected h out s (rejection_body codec node_id now_ms h reason s).1
        × (out.accepted ≡ false)
        × (out.state_updates ≡ [])
  unfolding rejection_body new_rejection
  rejection_body-Answers h reason out e = elim (Result-cases (find_commitment_by_hash h s)) [
    | inr (x, q) ↦ cc (rw q at e)
    | inl (c, q) ↦ elim (Bool-cases (is_rejected c.decision)) [
      | inr bad ↦ cc (rw (q, bad) at e)
      | inl good ↦
          elim (Result-cases (hash_json codec (codec.metadata_json (rejection_metadata reason)))) [
            | inr (x, k) ↦ cc (rw (q, good, k) at e)
            | inl (d, k) ↦
                let (i, place, hash) = find_commitment_by_hash-found valid h c q in
                let r =
                  new_rejection {V = V} c.worldline h (rejection_metadata reason) d
                    (stream_position now_ms c.worldline node_id s) in
                let fits : Fits s c.worldline (outcome r) =
                  outcome-Fits codec node_id now_ms s c r i place (sym hash) refl refl in
                let (g, same, grown) =
                  append_then-ok codec c.worldline (outcome r) expect_outcome s out fits
                    (rw (q, good, k) at e) in
                let eqv : record r { receipt_hash = g } ≡ out = cc in
                rw (q, good, k)
                  (subst
                    (λ (x : OutcomeReceipt V).
                      Answers is_rejected h x s
                        ((append_receipt codec c.worldline (outcome r) >>= λ a.
                            lift (expect_outcome a))
                          s).1
                      × (x.accepted ≡ false)
                      × (x.state_updates ≡ []))
                    eqv
                    (
                      record {
                        answered = c;
                        index = i;
                        stands = place;
                        hashed = hash;
                        decided = good;
                        refers = refl;
                        grown = grown;
                      },
                      refl,
                      refl,
                    ))
          ]
    ]
  ]

pub write_lock-ok :
    {V A : Type 0} (body : Exec (LedgerState V) LedgerError A) (l : InMemoryLedger V) (a : A)
    → (write_lock body l).0 ≡ ok a
    → ((body l.inner).0 ≡ ok a) × ((write_lock body l).1.inner ≡ (body l.inner).1)
unfolding write_lock
write_lock-ok body l a e = elim (Bool-cases l.poisoned) [
  | inl bad ↦ cc (rw bad at e)
  | inr good ↦ rw good (rw good at e, refl)
]

module _ {V : Type 0} (codec : Codec V) (node_id : ℕ) (calls : List (Call V)) (now_ms : ℕ) where
  run-IsValid : IsValid codec (run codec calls (new node_id)).inner
  run-IsValid = (run-Grows codec calls (new node_id) (new-IsValid codec node_id)).valid

  -- After any calls of a new ledger's writer, a successful `append_outcome` answers an accepted
  -- commitment with that hash in the stream of the same worldline, carries the given updates, and is the
  -- one receipt by which the streams have grown.
  pub append_outcome-Answers :
      (h : Hash) (o : OutcomeRecord V) (out : OutcomeReceipt V)
      → (append_outcome codec now_ms h o (run codec calls (new node_id))).0 ≡ ok out
      → Answers is_accepted h out
          (run codec calls (new node_id)).inner
          (append_outcome codec now_ms h o (run codec calls (new node_id))).1.inner
        × (out.accepted ≡ true)
        × (out.state_updates ≡ o.state_updates)
  unfolding append_outcome
  append_outcome-Answers h o out e =
      let l : InMemoryLedger V = run codec calls (new node_id) in
      let (done, state) = write_lock-ok (outcome_body codec l.node_id now_ms h o) l out e in
      rw state (outcome_body-Answers codec l.node_id now_ms l.inner run-IsValid h o out done)

  -- After any calls of a new ledger's writer, a successful `append_rejection_outcome` answers a
  -- rejected commitment with that hash in the stream of the same worldline, carries no update, and is the
  -- one receipt by which the streams have grown.
  pub append_rejection_outcome-Answers :
      (h : Hash) (reason : String) (out : OutcomeReceipt V)
      → (append_rejection_outcome codec now_ms h reason (run codec calls (new node_id))).0 ≡ ok out
      → Answers is_rejected h out
          (run codec calls (new node_id)).inner
          (append_rejection_outcome codec now_ms h reason (run codec calls (new node_id))).1.inner
        × (out.accepted ≡ false)
        × (out.state_updates ≡ [])
  unfolding append_rejection_outcome
  append_rejection_outcome-Answers h reason out e =
      let l : InMemoryLedger V = run codec calls (new node_id) in
      let (done, state) = write_lock-ok (rejection_body codec l.node_id now_ms h reason) l out e in
      rw state (rejection_body-Answers codec l.node_id now_ms l.inner run-IsValid h reason out done)
