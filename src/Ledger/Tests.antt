-- ===== src/Ledger/Tests.antt =====
-- Runs of the in-memory ledger with a small codec in place of BLAKE3 and JSON.
use wll.Base.{
  ℕ, ◌+◌, ◌-◌, ◌*◌, ◌%◌, ◌==◌, ◌&&◌, ◌≡◌, ◌↔◌, refl, Bool, true, false, String, List, [], ◌∷◌, ◌++◌,
  Option, none, some, foldl, arith, eq_nat, eq_string, nat_eq_iff, get_elem?, ltb, if◌then◌else◌,
}
use wll.Base.Maps
use wll.Base.Maps.{BTreeMap}
use wll.Base.Result.{ok}
use wll.Types.Commitment.{Hash, accepted, rejected, is_accepted, is_rejected, CommitmentClass}
use wll.Ledger.Codec.{Codec, Bytes, hash_json, outcome_hash, recompute_receipt_hash}
use wll.Ledger.Records.{
  Receipt, commitment, snapshot, receipt_hash, OutcomeReceipt, SnapshotReceipt, CommitmentProposal,
  CommitmentReceipt, OutcomeRecord, StateUpdate, seq, prev_hash, worldline,
}
use wll.Ledger.Memory.{
  InMemoryLedger, new, stream_of, write_lock, stream_position, next_anchor, find_commitment_by_hash,
  append_receipt, push_receipt, entry_or_default,
}
use wll.Ledger.Writer.{
  append_commitment, append_snapshot, commitment_body, outcome_body, rejection_body, snapshot_body,
  new_commitment, new_outcome, new_rejection, new_snapshot, append_outcome,
  append_rejection_outcome, rejection_metadata,
}
use wll.Ledger.Reader.{read_all, read_range, get_by_hash}
use wll.Ledger.Validation.{validate_stream, stream_report, report_of, no_findings}
use wll.Ledger.Reports.{Encodable}
use wll.Ledger.Run.{perform, Call, commit, record_outcome, reject, take_snapshot, run, run-poisoned}
use wll.Ledger.Replay.{latest_state, replay_from_genesis, verify_snapshot_convergence}
use wll.Ledger.Integrity.{
  validate_stream-run, stream_report-validated, validate_stream-reported, read_all-run,
  read_all-healthy,
}
use wll.Ledger.Lookup.{get_by_hash-run, read_range-places}
use wll.Ledger.Converge.{projected, replayed, latest_state-replay, verify_snapshot_convergence-run}
use wll.Ledger.Commits.{Commits, append_commitment-Commits}
use wll.Ledger.Effects.{Answers, append_outcome-Answers, append_rejection_outcome-Answers}

abbrev digest : Bytes → Hash
digest bytes = foldl (λ h b. (h * 31 + b) % 1000003) 7 bytes

abbrev prev_code : Option Hash → ℕ
prev_code none = 0
prev_code (some h) = h + 1

abbrev codec : Codec ℕ
codec = record {
  blake3 = digest;
  receipt_json = λ r. ok (seq r ∷ worldline r ∷ prev_code (prev_hash r) ∷ []);
  proposal_json = λ p. ok (p.nonce ∷ []);
  metadata_json = λ m. ok [];
  state_json = λ m. ok [];
  outcome_json = λ o. ok [];
}

abbrev proposal : ℕ → CommitmentProposal
proposal nonce = record {
  worldline = 5;
  commitment_id = nonce;
  class = CommitmentClass.content_update;
  intent = "change";
  requested_caps = [];
  targets = [];
  evidence = record { references = []; digest = 0 };
  nonce = nonce;
}

abbrev update_record : OutcomeRecord ℕ
update_record = record {
  effects = [];
  proofs = [];
  state_updates = record { key = "k"; value = 3 } ∷ [];
  metadata = [];
}

abbrev two_commits : List (Call ℕ)
two_commits = commit 10 (proposal 1) accepted 0 ∷ commit 11 (proposal 2) (rejected "late") 0 ∷ []

abbrev after : InMemoryLedger ℕ
unfolding run
after = run codec two_commits (new 1)

abbrev snapped : List (Call ℕ)
snapped =
    commit 10 (proposal 1) accepted 0
    ∷ record_outcome 12 403212 update_record
    ∷ take_snapshot 13
        (record { worldline = 5; anchored_receipt_hash = 403212; state = ("other", 9) ∷ [] })
    ∷ []

abbrev first_receipt : Receipt ℕ
first_receipt = commitment (record {
  worldline = 5;
  seq = 1;
  receipt_hash = 403212;
  prev_hash = none;
  timestamp = record { physical_ms = 10; logical = 0; node_id = 1 };
  proposal_hash = 218;
  commitment_id = 1;
  class = CommitmentClass.content_update;
  intent = "change";
  requested_caps = [];
  evidence = record { references = []; digest = 0 };
  decision = accepted;
  policy_hash = 0;
})

-- The third receipt, of `append_outcome` or of `append_rejection_outcome`.
abbrev third_outcome : Hash → Bool → List (StateUpdate ℕ) → BTreeMap String → OutcomeReceipt ℕ
third_outcome answered agreed state_updates metadata = record {
  worldline = 5;
  seq = 3;
  receipt_hash = 212518;
  prev_hash = some 807386;
  timestamp = record { physical_ms = 30; logical = 0; node_id = 1 };
  commitment_receipt_hash = answered;
  outcome_hash = 7;
  accepted = agreed;
  effects = [];
  proofs = [];
  state_updates = state_updates;
  metadata = metadata;
}

abbrev third_snapshot : SnapshotReceipt ℕ
third_snapshot = record {
  worldline = 5;
  seq = 3;
  receipt_hash = 212518;
  prev_hash = some 807386;
  timestamp = record { physical_ms = 13; logical = 0; node_id = 1 };
  anchored_receipt_hash = 403212;
  state_hash = 7;
  state = ("other", 9) ∷ [];
}

abbrev same_state : BTreeMap ℕ → BTreeMap ℕ → Bool
same_state [] [] = true
same_state ((k, v) ∷ m) ((j, w) ∷ n) = (k == j && v == w) && same_state m n
same_state _ _ = false

same_state_refl : (m : BTreeMap ℕ) → same_state m m ≡ true
same_state_refl [] = refl
same_state_refl ((k, v) ∷ m) =
    ground (arith, eq_string.same_iff k k, nat_eq_iff v v, same_state_refl m)

outcome_appended :
    (append_outcome codec 30 403212 update_record (run codec two_commits (new 1))).0
    ≡ ok (third_outcome 403212 true (update_record.state_updates) [])
unfolding run perform append_commitment append_outcome append_rejection_outcome append_snapshot
    write_lock commitment_body outcome_body rejection_body snapshot_body new_commitment new_outcome
    new_rejection new_snapshot stream_position next_anchor stream_of find_commitment_by_hash
    hash_json outcome_hash recompute_receipt_hash append_receipt push_receipt entry_or_default
    Maps.get Maps.insert Maps.contains_key Maps.insert_sorted
outcome_appended = refl

rejection_appended :
    (append_rejection_outcome codec 30 807386 "late" (run codec two_commits (new 1))).0
    ≡ ok (third_outcome 807386 false [] (rejection_metadata "late"))
unfolding run perform append_commitment append_outcome append_rejection_outcome append_snapshot
    write_lock commitment_body outcome_body rejection_body snapshot_body new_commitment new_outcome
    new_rejection new_snapshot stream_position next_anchor stream_of find_commitment_by_hash
    hash_json outcome_hash recompute_receipt_hash append_receipt push_receipt entry_or_default
    Maps.get Maps.insert Maps.contains_key Maps.insert_sorted
rejection_appended = refl

snapshot_recorded :
    get_elem? (stream_of 5 (run codec snapped (new 1)).inner) 2 ≡ some (snapshot third_snapshot)
unfolding run perform append_commitment append_outcome append_rejection_outcome append_snapshot
    write_lock commitment_body outcome_body rejection_body snapshot_body new_commitment new_outcome
    new_rejection new_snapshot stream_position next_anchor stream_of find_commitment_by_hash
    hash_json outcome_hash recompute_receipt_hash append_receipt push_receipt entry_or_default
    Maps.get Maps.insert Maps.contains_key Maps.insert_sorted
snapshot_recorded = refl

two_commits-Encodable : Encodable codec (stream_of 5 (run codec two_commits (new 1)).inner)
unfolding run perform append_commitment append_outcome append_rejection_outcome append_snapshot
    write_lock commitment_body outcome_body rejection_body snapshot_body new_commitment new_outcome
    new_rejection new_snapshot stream_position next_anchor stream_of find_commitment_by_hash
    hash_json outcome_hash recompute_receipt_hash append_receipt push_receipt entry_or_default
    Maps.get Maps.insert Maps.contains_key Maps.insert_sorted
two_commits-Encodable = ((403212, refl), ((807386, refl), tt))

validate_stream-run_example : validate_stream codec 5 (run codec two_commits (new 1)) ≡ ok tt
validate_stream-run_example = validate_stream-run codec 1 two_commits 5

read_all-run_example :
    (rs : List (Receipt ℕ)) × (zs : List (Receipt ℕ)) × (read_all 5 (run codec two_commits (new 1))
      ≡ ok rs)
    × (read_all 5 (run codec (reject 40 807386 "late" ∷ []) (run codec two_commits (new 1)))
        ≡ ok (rs ++ zs))
read_all-run_example = read_all-run codec 1 two_commits (reject 40 807386 "late" ∷ []) 5

get_by_hash-run_example :
    (get_by_hash 403212 (run codec two_commits (new 1)) ≡ ok (some first_receipt)) ↔ (
      (i : ℕ) × (rs : List (Receipt ℕ)) × (read_all 5 (run codec two_commits (new 1)) ≡ ok rs)
      × (get_elem? rs i ≡ some first_receipt)
      × (receipt_hash first_receipt ≡ 403212))
get_by_hash-run_example = get_by_hash-run codec 1 two_commits 403212 first_receipt

read_range-places_example :
    (rs : List (Receipt ℕ)) × (read_range 5 1 2 after ≡ ok rs)
    × (get_elem? rs 1
        ≡ (if ltb 1 (2 + 1 - 1) then get_elem? (stream_of 5 after.inner) (1 - 1 + 1) else none))
unfolding after
read_range-places_example =
    read_range-places 5 1 2 1 after (run-poisoned codec two_commits (new 1)) (omega arith)
      (omega arith)

append_outcome-Answers_example :
    Answers is_accepted 403212
      (third_outcome 403212 true (update_record.state_updates) [])
      (run codec two_commits (new 1)).inner
      (append_outcome codec 30 403212 update_record (run codec two_commits (new 1))).1.inner
    × (true ≡ true)
    × (update_record.state_updates ≡ update_record.state_updates)
append_outcome-Answers_example =
    append_outcome-Answers codec 1 two_commits 30 403212 update_record
      (third_outcome 403212 true (update_record.state_updates) []) outcome_appended

append_rejection_outcome-Answers_example :
    Answers is_rejected 807386
      (third_outcome 807386 false [] (rejection_metadata "late"))
      (run codec two_commits (new 1)).inner
      (append_rejection_outcome codec 30 807386 "late" (run codec two_commits (new 1))).1.inner
    × (false ≡ false)
    × ((third_outcome 807386 false [] []).state_updates ≡ [])
append_rejection_outcome-Answers_example =
    append_rejection_outcome-Answers codec 1 two_commits 30 807386 "late"
      (third_outcome 807386 false [] (rejection_metadata "late")) rejection_appended

stream_report-validated_example :
    stream_report codec 5 (run codec two_commits (new 1))
    ≡ ok (report_of 5 (stream_of 5 (run codec two_commits (new 1)).inner) no_findings)
stream_report-validated_example =
    stream_report-validated codec 5 (run codec two_commits (new 1))
      (run-poisoned codec two_commits (new 1)) (validate_stream-run codec 1 two_commits 5)

validate_stream-reported_example : validate_stream codec 5 (run codec two_commits (new 1)) ≡ ok tt
unfolding report_of
validate_stream-reported_example =
    validate_stream-reported codec 5 (run codec two_commits (new 1))
      (report_of 5 (stream_of 5 (run codec two_commits (new 1)).inner) no_findings)
      two_commits-Encodable
      (stream_report-validated codec 5 (run codec two_commits (new 1))
        (run-poisoned codec two_commits (new 1)) (validate_stream-run codec 1 two_commits 5))
      refl

latest_state-replay_example :
    projected (latest_state 5 (run codec snapped (new 1)))
    ≡ replayed (replay_from_genesis 5 (run codec snapped (new 1)))
latest_state-replay_example = latest_state-replay 5 (run codec snapped (new 1))

verify_snapshot_convergence-run_example :
    verify_snapshot_convergence same_state third_snapshot (run codec snapped (new 1)) ≡ ok true
verify_snapshot_convergence-run_example =
    verify_snapshot_convergence-run codec same_state same_state_refl 1 snapped third_snapshot
      (stream_of 5 (run codec snapped (new 1)).inner) 2
      (read_all-healthy 5 (run codec snapped (new 1)) (run-poisoned codec snapped (new 1)))
      snapshot_recorded

-- The third receipt, of `append_commitment`.
abbrev third_commitment : CommitmentReceipt
third_commitment = record {
  worldline = 5;
  seq = 3;
  receipt_hash = 212518;
  prev_hash = some 807386;
  timestamp = record { physical_ms = 30; logical = 0; node_id = 1 };
  proposal_hash = 220;
  commitment_id = 3;
  class = CommitmentClass.content_update;
  intent = "change";
  requested_caps = [];
  evidence = record { references = []; digest = 0 };
  decision = accepted;
  policy_hash = 4;
}

commitment_appended :
    (append_commitment codec 30 (proposal 3) accepted 4 (run codec two_commits (new 1))).0
    ≡ ok third_commitment
unfolding run perform append_commitment append_outcome append_rejection_outcome append_snapshot
    write_lock commitment_body outcome_body rejection_body snapshot_body new_commitment new_outcome
    new_rejection new_snapshot stream_position next_anchor stream_of find_commitment_by_hash
    hash_json outcome_hash recompute_receipt_hash append_receipt push_receipt entry_or_default
    Maps.get Maps.insert Maps.contains_key Maps.insert_sorted
commitment_appended = refl

append_commitment-Commits_example :
    Commits
      (proposal 3)
      accepted
      4
      third_commitment
      (run codec two_commits (new 1)).inner
      (append_commitment codec 30 (proposal 3) accepted 4 (run codec two_commits (new 1))).1.inner
append_commitment-Commits_example =
    append_commitment-Commits codec 1 two_commits 30 (proposal 3) accepted 4 third_commitment
      commitment_appended
