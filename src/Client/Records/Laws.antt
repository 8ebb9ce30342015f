-- ===== src/Client/Records/Laws.antt =====
-- Requests and membership proofs survive the way into the database and back:
-- `nightfall_client/src/driven/db/mongo.rs`.
use Prim.Native.String.{String}
use text.Mathlib.Text.{◌==◌}
use nightfall_4_ce.Common.{◌≡◌, refl, List, [], ◌∷◌, map, none, some, Bool-cases, inl, inr}
use nightfall_4_ce.Trees.Types.{
  Directions, hash_with_this_node_on_left, hash_with_this_node_on_right,
}
use nightfall_4_ce.Client.Entities.Defs.{RequestStatus}
use nightfall_4_ce.Client.Records.Defs.{
  Request, get_request, update_request, PathElement, MembershipProof, bool_of_direction,
  direction_of_bool, db_proof_of, zip_path, proof_of_db,
}

direction_back : (d : Directions) → direction_of_bool (bool_of_direction d) ≡ d
unfolding direction_of_bool bool_of_direction
direction_back hash_with_this_node_on_left = refl
direction_back hash_with_this_node_on_right = refl

zip_back :
    (es : List PathElement)
    → zip_path
        (map (λ (e : PathElement). bool_of_direction e.direction) es)
        (map (λ (e : PathElement). e.value) es)
      ≡ es
unfolding zip_path
zip_back [] = refl
zip_back (e ∷ es) = rw (direction_back e.direction, zip_back es) refl

-- A membership proof comes back from its form in the database.
proof_of_db-db_proof_of : (proof : MembershipProof) → proof_of_db (db_proof_of proof) ≡ proof
unfolding proof_of_db db_proof_of
proof_of_db-db_proof_of proof = rw (zip_back proof.sibling_path) refl

-- After an update of a request that is stored, the same request is found with the new status; an update
-- of one that is not stored changes nothing that is found under its id.
pub get_request-update_request :
    (request_id : String) (status : RequestStatus) (rs : List Request)
    → get_request request_id (update_request request_id status rs)
      ≡ elim (get_request request_id rs) [
        | none ↦ none
        | some r ↦ some (record r { status = status })
      ]
unfolding get_request update_request
get_request-update_request request_id status [] = refl
get_request-update_request request_id status (r ∷ rs) = elim (Bool-cases (r.uuid == request_id)) [
  | inl same ↦ rw (same, get_request, same) refl
  | inr other ↦ rw (other, get_request, other) (get_request-update_request request_id status rs)
]
