-- ===== src/Types/Commitment.antt =====
-- crates/wll-types/src/commitment.rs, receipt.rs, evidence.rs, identity.rs and object.rs: identifiers,
-- classes, decisions and capabilities. The 32 bytes of a hash are read as one big-endian number, so
-- that the order of the arrays is the order of the numbers; a UUID likewise.
use wll.Base.{ℕ, ◌/◌, ◌^◌, Bool, true, false, String, List, ◌==◌, eq_nat, eq_string}
use wll.Types.Temporal.{TemporalAnchor}

abbrev pub Hash : Type 0
Hash = ℕ

abbrev pub WorldlineId : Type 0
WorldlineId = Hash

abbrev pub ObjectId : Type 0
ObjectId = Hash

abbrev pub CommitmentId : Type 0
CommitmentId = ℕ

-- `ObjectId::null()`
abbrev pub null : ObjectId
null = 0

abbrev pub is_null : ObjectId → Bool
is_null id = id == 0

-- The first four bytes, which `short_id` prints in hexadecimal digits of fixed width.
abbrev pub short_id : WorldlineId → ℕ
short_id w = w / 2 ^ 224

pub data ReceiptKind : Type 0 where
  commitment outcome snapshot : ReceiptKind

pub data CommitmentClass : Type 0 where
  read_only content_update structural_change policy_change identity_operation : CommitmentClass
  custom : String → CommitmentClass

unfoldable pub risk_level : CommitmentClass → ℕ
risk_level read_only = 0
risk_level content_update = 1
risk_level structural_change = 2
risk_level policy_change = 3
risk_level identity_operation = 4
risk_level (custom _) = 2

pub data Decision : Type 0 where
  accepted : Decision
  rejected : String → Decision
  deferred : TemporalAnchor → String → Decision

abbrev pub is_accepted : Decision → Bool
is_accepted accepted = true
is_accepted _ = false

abbrev pub is_rejected : Decision → Bool
is_rejected (rejected _) = true
is_rejected _ = false

pub record EvidenceBundle : Type 0 where
  pub references : List String
  pub digest : Hash
