-- ===== src/Client/Records/Defs.antt =====
-- The client's requests and membership proofs in
-- `nightfall_client/src/driven/db/mongo.rs`: collections are lists of documents, whose calls succeed.
use Prim.Native.String.{String}
use text.Mathlib.Text.{◌==◌}
use nightfall_4_ce.Common.{
  ℕ, Bool, true, false, List, [], ◌∷◌, ◌++◌, map, Option, none, some, if◌then◌else◌,
}
use nightfall_4_ce.Field.{Fr254}
use nightfall_4_ce.Trees.Types.{
  Directions, hash_with_this_node_on_left, hash_with_this_node_on_right,
}
use nightfall_4_ce.Client.Entities.Defs.{RequestStatus}

pub record Request : Type 0 where
  pub status : RequestStatus
  pub uuid : String

unfoldable pub store_request : String → RequestStatus → List Request → List Request
store_request request_id status requests =
    requests ++ record { status = status; uuid = request_id } ∷ []

unfoldable pub get_request : String → List Request → Option Request
get_request request_id [] = none
get_request request_id (r ∷ rs) =
    let rest = get_request request_id rs in if r.uuid == request_id then some r else rest

-- `update_one`: the first request with the id, if there is one.
unfoldable pub update_request : String → RequestStatus → List Request → List Request
update_request request_id status [] = []
update_request request_id status (r ∷ rs) =
    let rest = update_request request_id status rs in
    if r.uuid == request_id then record r { status = status } ∷ rs else r ∷ rest

pub record RequestCommitmentMapping : Type 0 where
  pub request_id : String
  pub commitment_hash : String

unfoldable pub add_mapping :
    String → String → List RequestCommitmentMapping → List RequestCommitmentMapping
add_mapping request_id commitment_hash ms =
    ms ++ record { request_id = request_id; commitment_hash = commitment_hash } ∷ []

unfoldable pub get_requests_by_commitment : String → List RequestCommitmentMapping → List String
get_requests_by_commitment hash [] = []
get_requests_by_commitment hash (m ∷ ms) =
    let rest = get_requests_by_commitment hash ms in
    if m.commitment_hash == hash then m.request_id ∷ rest else rest

unfoldable pub get_commitments_by_request : String → List RequestCommitmentMapping → List String
get_commitments_by_request request_id [] = []
get_commitments_by_request request_id (m ∷ ms) =
    let rest = get_commitments_by_request request_id ms in
    if m.request_id == request_id then m.commitment_hash ∷ rest else rest

-- `MembershipProof` and `PathElement` of the tree library, of which the source names these fields.
pub record PathElement : Type 0 where
  pub direction : Directions
  pub value : Fr254

pub record MembershipProof : Type 0 where
  pub node_value : Fr254
  pub sibling_path : List PathElement
  pub leaf_index : ℕ

pub record DbMembershipProof : Type 0 where
  pub node_value : Fr254
  pub sibling_path : List Bool
  pub sibling_values : List Fr254
  pub leaf_index : ℕ

unfoldable pub bool_of_direction : Directions → Bool
bool_of_direction hash_with_this_node_on_left = false
bool_of_direction hash_with_this_node_on_right = true

unfoldable pub direction_of_bool : Bool → Directions
direction_of_bool false = hash_with_this_node_on_left
direction_of_bool true = hash_with_this_node_on_right

unfoldable pub db_proof_of : MembershipProof → DbMembershipProof
unfolding bool_of_direction
db_proof_of proof = record {
  node_value = proof.node_value;
  sibling_path = map (λ (e : PathElement). bool_of_direction e.direction) proof.sibling_path;
  sibling_values = map (λ (e : PathElement). e.value) proof.sibling_path;
  leaf_index = proof.leaf_index;
}

-- The two lists zipped: the longer one is cut.
unfoldable pub zip_path : List Bool → List Fr254 → List PathElement
unfolding direction_of_bool
zip_path [] vs = []
zip_path (b ∷ bs) [] = []
zip_path (b ∷ bs) (v ∷ vs) = record { direction = direction_of_bool b; value = v } ∷ zip_path bs vs

unfoldable pub proof_of_db : DbMembershipProof → MembershipProof
unfolding zip_path
proof_of_db proof = record {
  node_value = proof.node_value;
  sibling_path = zip_path proof.sibling_path proof.sibling_values;
  leaf_index = proof.leaf_index;
}
