-- ===== src/Sync/Negotiation.antt =====
-- crates/wll-sync/src/negotiation.rs and types.rs: what to fetch.
use Prim.Native.String.{String}
use wll.Base.{
  ap, ◌≡◌, refl, inl, inr, arith, Bool-cases, nat_eq_iff, ◌&&◌, Bool, true, false, not, List, [],
  ◌∷◌, map, contains, ◌==◌, eq_nat, if◌then◌else◌,
}
use wll.Types.Commitment.{Hash, ObjectId}

abbrev pub Refs : Type 0
Refs = List (String × Hash)

pub record Negotiation : Type 0 where
  pub wants : List ObjectId
  pub haves : List ObjectId
  pub common : List ObjectId

-- the hashes of a reference list that are, or are not, among the local ones
unfoldable pub select : Bool → List Hash → Refs → List ObjectId
select wanted local [] = []
select wanted local ((name, h) ∷ refs) =
    let rest = select wanted local refs in
    if contains local h
    then (if wanted then rest else h ∷ rest)
    else (if wanted then h ∷ rest else rest)

abbrev pub hashes : Refs → List Hash
hashes = map (λ r. r.1)

unfoldable pub compute_wants : Refs → Refs → List ObjectId
compute_wants local remote = select true (hashes local) remote

unfoldable pub compute_haves : Refs → List ObjectId
compute_haves local = hashes local

unfoldable pub negotiate : Refs → Refs → Negotiation
negotiate local remote = record {
  wants = compute_wants local remote;
  haves = compute_haves local;
  common = select false (hashes local) remote;
}

contains-select :
    (wanted : Bool) (local : List Hash) (refs : Refs) (h : ObjectId)
    → contains (select wanted local refs) h
      ≡ (contains (hashes refs) h && (if wanted then not (contains local h) else contains local h))
unfolding select
contains-select wanted local [] h = refl
contains-select wanted local ((name, g) ∷ refs) h = elim (Bool-cases (g == h)) [
  | inl same ↦
      ground
        (arith, contains-select wanted local refs h, ap (contains local) ((nat_eq_iff g h).0 same))
  | inr other ↦ ground (arith, contains-select wanted local refs h)
]

-- Wanted is exactly what the remote refers to and the local side does not, common what both refer to.
pub negotiate_lem :
    (local remote : Refs) (h : ObjectId)
    → (contains (negotiate local remote).wants h
        ≡ (contains (hashes remote) h && not (contains (hashes local) h)))
      × (contains (negotiate local remote).common h
          ≡ (contains (hashes remote) h && contains (hashes local) h))
unfolding negotiate compute_wants
negotiate_lem local remote h =
    (contains-select true (hashes local) remote h, contains-select false (hashes local) remote h)
