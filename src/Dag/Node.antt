-- ===== src/Dag/Node.antt =====
-- crates/wll-dag/src/node.rs, audit.rs and error.rs: the nodes of the graph, its reports and errors.
use wll.Base.{ℕ, String, Bool, List, [], map, Option, none, is_empty, eq_nat}
use wll.Types.Temporal.{TemporalAnchor}
use wll.Types.Commitment.{ObjectId, WorldlineId, ReceiptKind, short_id}

pub data CausalRelation : Type 0 where
  sequential commitment_to_outcome evidence_link cross_worldline merge snapshot_anchor :
      CausalRelation

pub record ParentRef : Type 0 where
  pub target : ObjectId
  pub relation : CausalRelation

abbrev pub sequential_parent : ObjectId → ParentRef
sequential_parent target = record { target = target; relation = sequential }

abbrev pub cross_worldline_parent : ObjectId → ParentRef
cross_worldline_parent target = record { target = target; relation = cross_worldline }

pub record DagNodeMetadata : Type 0 where
  pub description : Option String
  pub tags : List String
  pub content_hash : Option ObjectId

abbrev pub empty_metadata : DagNodeMetadata
empty_metadata = record { description = none; tags = []; content_hash = none }

pub record DagNode : Type 0 where
  pub id : ObjectId
  pub worldline : WorldlineId
  pub seq : ℕ
  pub kind : ReceiptKind
  pub timestamp : TemporalAnchor
  pub parents : List ParentRef
  pub metadata : DagNodeMetadata

abbrev pub is_root : DagNode → Bool
is_root node = is_empty node.parents

abbrev pub targets : List ParentRef → List ObjectId
targets = map (λ p. p.target)

abbrev pub parent_ids : DagNode → List ObjectId
parent_ids node = targets node.parents

-- The parts that `summary` prints, each by a fixed format.
pub record Summary : Type 0 where
  pub kind : ReceiptKind
  pub seq : ℕ
  pub worldline : ℕ
  pub id : ℕ

abbrev pub summary : DagNode → Summary
summary node = record {
  kind = node.kind;
  seq = node.seq;
  worldline = short_id node.worldline;
  id = short_id node.id;
}

pub record AuditEntry : Type 0 where
  pub node : ObjectId
  pub relation : CausalRelation
  pub worldline : WorldlineId
  pub timestamp : TemporalAnchor
  pub summary_of : Summary

pub record AuditTrail : Type 0 where
  pub commitment : ObjectId
  pub chain : List AuditEntry

abbrev pub new_trail : ObjectId → AuditTrail
new_trail commitment = record { commitment = commitment; chain = [] }

pub record ImpactReport : Type 0 where
  pub origin : ObjectId
  pub affected_worldlines : List WorldlineId
  pub downstream_receipts : ℕ
  pub cascade_depth : ℕ
  pub critical_paths : List (List ObjectId)

abbrev pub new_report : ObjectId → ImpactReport
new_report origin = record {
  origin = origin;
  affected_worldlines = [];
  downstream_receipts = 0;
  cascade_depth = 0;
  critical_paths = [];
}

pub data DagError : Type 0 where
  node_not_found : ObjectId → DagError
  -- the node, the missing parent
  dangling_parent : ObjectId → ObjectId → DagError
  duplicate_node : ObjectId → DagError
  cycle_detected : ObjectId → DagError
  -- the child, the parent
  temporal_violation : ObjectId → ObjectId → DagError
  serialization : String → DagError
  storage : String → DagError
