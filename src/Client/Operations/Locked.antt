-- ===== src/Client/Operations/Locked.antt =====
-- Commitments that were chosen for a request stay pending, however it ends:
-- `nightfall_client/src/drivers/rest/client_nf_3.rs`.
use Prim.Native.String.{String}
use nightfall_4_ce.Common.{
  List, [], ◌∷◌, ◌++◌, Option, none, some, ◌≡◌, refl, ap, inl, inr, Bool-cases, Option-cases,
  Result, Result-cases, ok, err, ◌==◌, ==→≡, if◌then◌else◌,
}
use nightfall_4_ce.Field.{Fr254}
use nightfall_4_ce.Client.Entities.Defs.{Preimage, pending_spend, hash_preimage}
use nightfall_4_ce.Client.Commitments.Store.{
  CommitmentEntry, is_in, get_commitment, mark_commitments_pending_spend, store_commitment,
  insert_many, store_commitments, usable, find_usable_commitments,
}
use nightfall_4_ce.Client.Selection.Defs.{SelectionError}
use nightfall_4_ce.Client.Events.Defs.{ClientState}
use nightfall_4_ce.Client.Operations.Service.{Setting}
use nightfall_4_ce.Client.Operations.Handlers.{Randomness}
use nightfall_4_ce.Client.Operations.Requests.{TransactionRequest, handle_request}
use nightfall_4_ce.Client.Operations.Keeps.{IsKept, handle_request-Keeps}

-- The commitment is stored, and pending.
abbrev pub IsPending : Fr254 → List CommitmentEntry → Type 0
IsPending k db = (c : CommitmentEntry) × (get_commitment k db ≡ some c) × (c.status ≡ pending_spend)

get_commitment-append :
    (k : Fr254) (db cs : List CommitmentEntry) (c : CommitmentEntry)
    → get_commitment k db ≡ some c
    → get_commitment k (db ++ cs) ≡ some c
unfolding get_commitment
get_commitment-append k [] cs c e = cc
get_commitment-append k (d ∷ db) cs c e = elim (Bool-cases (d.key == k)) [
  | inl here ↦ rw here (rw here at e)
  | inr away ↦ rw away (get_commitment-append k db cs c (rw away at e))
]

store_commitment-append :
    (c : CommitmentEntry) (db db' : List CommitmentEntry)
    → store_commitment c db ≡ some db'
    → db' ≡ db ++ c ∷ []
unfolding store_commitment
store_commitment-append c db db' e = elim (Option-cases (get_commitment c.key db)) [
  | inl new ↦ (let e' : some (db ++ c ∷ []) ≡ some db' = rw (store_commitment, new) at e in cc)
  | inr (old, found) ↦ (let e' : none ≡ some db' = rw (store_commitment, found) at e in cc)
]

store_commitment-IsPending :
    (k : Fr254) (c : CommitmentEntry) (db db' : List CommitmentEntry)
    → store_commitment c db ≡ some db'
    → IsPending k db
    → IsPending k db'
store_commitment-IsPending k c db db' e (d, found, pending) = (
  d,
  rw (store_commitment-append c db db' e) (get_commitment-append k db (c ∷ []) d found),
  pending,
)

insert_many-IsPending :
    (k : Fr254) (cs db : List CommitmentEntry) → IsPending k db → IsPending k (insert_many cs db).1
unfolding insert_many
insert_many-IsPending k [] db h = h
insert_many-IsPending k (c ∷ cs) db h = elim (Option-cases (store_commitment c db)) [
  | inl refused ↦ rw (insert_many, refused) h
  | inr (db', stored) ↦
      rw (insert_many, stored)
        (insert_many-IsPending k cs db' (store_commitment-IsPending k c db db' stored h))
]

pub get_commitment-key :
    (k : Fr254) (db : List CommitmentEntry) (c : CommitmentEntry)
    → get_commitment k db ≡ some c
    → c.key ≡ k
unfolding get_commitment
get_commitment-key k [] c e = cc
get_commitment-key k (d ∷ db) c e = elim (Bool-cases (d.key == k)) [
  | inl here ↦
      (let same : some d ≡ some c = rw here at e in let at : d.key ≡ k = ==→≡ d.key k here in cc)
  | inr away ↦ get_commitment-key k db c (rw away at e)
]

unfoldable pub marked : List Fr254 → CommitmentEntry → CommitmentEntry
marked keys c = if is_in c.key keys then record c { status = pending_spend } else c

marked-key : (keys : List Fr254) (c : CommitmentEntry) → (marked keys c).key ≡ c.key
unfolding marked
marked-key keys c = elim (Bool-cases (is_in c.key keys)) [
  | inl hit ↦ rw hit refl
  | inr miss ↦ rw miss refl
]

map_marked : List Fr254 → Option CommitmentEntry → Option CommitmentEntry
map_marked keys none = none
map_marked keys (some c) = some (marked keys c)

pub get_commitment-mark :
    (k : Fr254) (keys : List Fr254) (db : List CommitmentEntry) (c : CommitmentEntry)
    → get_commitment k db ≡ some c
    → get_commitment k (mark_commitments_pending_spend keys db) ≡ some (marked keys c)
unfolding get_commitment mark_commitments_pending_spend marked map_marked
get_commitment-mark k keys [] c e = cc
get_commitment-mark k keys (d ∷ db) c e = elim (Bool-cases (d.key == k)) [
  | inl here ↦
      let same : some d ≡ some c = rw here at e in
      rw (marked-key keys d, here) (ap (λ (o : Option CommitmentEntry). map_marked keys o) same)
  | inr away ↦ rw (marked-key keys d, away) (get_commitment-mark k keys db c (rw away at e))
]

mark-IsPending :
    (k : Fr254) (keys : List Fr254) (db : List CommitmentEntry)
    → IsPending k db
    → IsPending k (mark_commitments_pending_spend keys db)
unfolding marked
mark-IsPending k keys db (c, found, pending) = (
  marked keys c,
  get_commitment-mark k keys db c found,
  elim (Bool-cases (is_in c.key keys)) [ inl hit ↦ rw hit refl | inr miss ↦ rw miss pending ],
)

-- How the choice of commitments ends: with an error, or with two whose hashes are the marked keys.
pub data Chosen (env : Setting) (db : List CommitmentEntry)
    : Result SelectionError (Preimage × Preimage) × List CommitmentEntry → Type 0 where
  not_chosen : (e : SelectionError) → Chosen env db (err e, db)
  chosen :
      (a b : Preimage) (key_a key_b : Fr254)
      → hash_preimage env.hash a ≡ some key_a
      → hash_preimage env.hash b ≡ some key_b
      → Chosen env db (ok (a, b), mark_commitments_pending_spend (key_a ∷ key_b ∷ []) db)

pub find_usable_commitments-Chosen :
    (env : Setting) (token target : Fr254) (db : List CommitmentEntry)
    → Chosen env db (find_usable_commitments env.hash env.default_point token target db)
unfolding find_usable_commitments
find_usable_commitments-Chosen env token target db =
    elim (Result-cases (usable env.hash env.default_point token target db)) [
      | inl (e, none_found) ↦ rw (find_usable_commitments, none_found) (not_chosen e)
      | inr ((a, b), found) ↦ elim (Option-cases (hash_preimage env.hash a)) [
        | inl bad ↦ rw (find_usable_commitments, found, find_usable_commitments, bad) (not_chosen _)
        | inr (key_a, ha) ↦ elim (Option-cases (hash_preimage env.hash b)) [
          | inl bad ↦
              rw (find_usable_commitments, found, find_usable_commitments, ha, bad) (not_chosen _)
          | inr (key_b, hb) ↦
              rw (find_usable_commitments, found, find_usable_commitments, ha, hb)
                (chosen a b key_a key_b ha hb)
        ]
      ]
    ]

Chosen-IsPending :
    (env : Setting) (db : List CommitmentEntry)
    (o : Result SelectionError (Preimage × Preimage) × List CommitmentEntry) (k : Fr254)
    → Chosen env db o
    → IsPending k db
    → IsPending k o.1
Chosen-IsPending env db o k (not_chosen e) h = h
Chosen-IsPending env db o k (chosen a b key_a key_b ha hb) h =
    mark-IsPending k (key_a ∷ key_b ∷ []) db h

-- Every commitment that is pending before is pending after.
abbrev pub StaysPending : ClientState → ClientState → Type 0
StaysPending s t = (k : Fr254) → IsPending k s.entries → IsPending k t.entries

pub StaysPending-IsKept : (env : Setting) (id : String) → IsKept env id StaysPending
unfolding store_commitments
StaysPending-IsKept env id = record {
  same = λ s k h. h;
  chain = λ s t u first second k h. second k (first k h);
  stores_request = λ s k h. h;
  updates_request = λ status s k h. h;
  maps = λ text s k h. h;
  stores =
      λ entry entries s stored k h. store_commitment-IsPending k entry s.entries entries stored h;
  stores_all = λ cs s k h. insert_many-IsPending k cs s.entries h;
  selects = λ token target s k h.
      Chosen-IsPending env s.entries _ k (find_usable_commitments-Chosen env token target s.entries)
        h;
}

-- However the handler of a deposit, a transfer or a withdrawal ends, every stored commitment that
-- was pending before it is stored and pending after it.
pub handle_request-StaysPending :
    (env : Setting) (req : TransactionRequest) (r : Randomness) (id : String) (s : ClientState)
    → StaysPending s (handle_request env req r id s).1
handle_request-StaysPending env req r id =
    handle_request-Keeps env id StaysPending (StaysPending-IsKept env id) req r
