-- ===== src/Ledger/Commits.antt =====
-- crates/wll-ledger/src/memory.rs: what a successful call of `append_commitment` has done.
use wll.Base.{ℕ, ◌+◌, ◌≡◌, refl, subst, List, length, eq_nat, inl, inr}
use wll.Base.Result.{ok, Result-cases}
use wll.Base.Exec.{lift, ◌>>=◌}
use wll.Types.Commitment.{Hash, Decision}
use wll.Ledger.Codec.{Codec, hash_json}
use wll.Ledger.Records.{CommitmentProposal, CommitmentReceipt, commitment}
use wll.Ledger.Memory.{
  LedgerState, InMemoryLedger, new, stream_of, last_hash, stream_position, append_receipt,
  expect_commitment,
}
use wll.Ledger.Writer.{new_commitment, commitment_body, append_commitment}
use wll.Ledger.Run.{Call, run}
use wll.Ledger.Bodies.{new_commitment-Fits}
use wll.Ledger.Effects.{GrownBy, append_then-ok, write_lock-ok}

-- The receipt `c` carries the proposal and the decision, takes the next place of its worldline's stream
-- behind the last hash there, and is the one receipt by which the streams grow.
pub record Commits {V : Type 0} (p : CommitmentProposal) (d : Decision) (ph : Hash)
    (c : CommitmentReceipt) (s t : LedgerState V) : Type 0 where
  pub worldline_kept : c.worldline ≡ p.worldline
  pub id_kept : c.commitment_id ≡ p.commitment_id
  pub intent_kept : c.intent ≡ p.intent
  pub class_kept : c.class ≡ p.class
  pub decided : c.decision ≡ d
  pub under : c.policy_hash ≡ ph
  pub next_seq : c.seq ≡ length (stream_of p.worldline s) + 1
  pub linked : c.prev_hash ≡ last_hash (stream_of p.worldline s)
  pub grown : GrownBy s p.worldline (commitment c) t

module _ {V : Type 0} (codec : Codec V) (node_id now_ms : ℕ) (s : LedgerState V) where
  commitment_body-Commits :
      (p : CommitmentProposal) (d : Decision) (ph : Hash) (c : CommitmentReceipt)
      → (commitment_body codec node_id now_ms p d ph s).0 ≡ ok c
      → Commits p d ph c s (commitment_body codec node_id now_ms p d ph s).1
  unfolding commitment_body new_commitment stream_position
  commitment_body-Commits p d ph c e =
      elim (Result-cases (hash_json codec (codec.proposal_json p))) [
        | inr (x, q) ↦ cc (rw q at e)
        | inl (h, q) ↦
            let r = new_commitment p d ph h (stream_position now_ms p.worldline node_id s) in
            let (g, same, grown) =
              append_then-ok codec p.worldline (commitment r) expect_commitment s c
                (new_commitment-Fits codec node_id now_ms s p d ph h) (rw q at e) in
            let eqv : record r { receipt_hash = g } ≡ c = cc in
            rw q (
              subst
                (λ (x : CommitmentReceipt).
                  Commits p d ph x s
                    ((append_receipt codec p.worldline (commitment r) >>= λ a.
                        lift (expect_commitment a))
                      s).1)
                eqv
                (record {
                  worldline_kept = refl;
                  id_kept = refl;
                  intent_kept = refl;
                  class_kept = refl;
                  decided = refl;
                  under = refl;
                  next_seq = refl;
                  linked = refl;
                  grown = grown;
                }))
      ]

-- After any calls of a new ledger's writer, a successful `append_commitment` gives a receipt with the
-- proposal's worldline, id, intent and class, the decision and the policy hash; it takes the next
-- sequence number behind the last hash of its stream, and is the one receipt by which the streams grow.
pub append_commitment-Commits :
    {V : Type 0} (codec : Codec V) (node_id : ℕ) (calls : List (Call V)) (now_ms : ℕ)
    (p : CommitmentProposal) (d : Decision) (ph : Hash) (c : CommitmentReceipt)
    → (append_commitment codec now_ms p d ph (run codec calls (new node_id))).0 ≡ ok c
    → Commits p d ph c
        (run codec calls (new node_id)).inner
        (append_commitment codec now_ms p d ph (run codec calls (new node_id))).1.inner
unfolding append_commitment
append_commitment-Commits {V} codec node_id calls now_ms p d ph c e =
    let l : InMemoryLedger V = run codec calls (new node_id) in
    let (done, state) = write_lock-ok (commitment_body codec l.node_id now_ms p d ph) l c e in
    rw state (commitment_body-Commits codec l.node_id now_ms l.inner p d ph c done)
