-- ===== src/Client/Commitments/Laws.antt =====
-- The collection of commitments of `nightfall_client/src/driven/db/mongo.rs`: what the marks do to the
-- available commitments, and which insertions are lost.
use nightfall_4_ce.Common.{
  ◌≡◌, ◌≢◌, refl, ap, arith, Bool, false, List, [], ◌∷◌, ◌++◌, map, Option, none, some, ◌==◌,
  if◌then◌else◌, Bool-cases, Option-cases, Result-cases, inl, inr, ok,
}
use nightfall_4_ce.Field.{Fr254}
use nightfall_4_ce.Client.Entities.Defs.{
  Preimage, Point, CommitmentStatus, pending_spend, spent, hash_preimage,
}
use nightfall_4_ce.Client.Commitments.Store.{
  CommitmentEntry, is_unspent, is_in, find_available, get_commitment,
  mark_commitments_pending_spend, mark_commitments_spent, store_commitment, insert_many,
  store_commitments, usable, find_usable_commitments,
}

abbrev pub remove_if : (CommitmentEntry → Bool) → List CommitmentEntry → List CommitmentEntry
remove_if p [] = []
remove_if p (c ∷ cs) = let rest = remove_if p cs in if p c then rest else c ∷ rest

abbrev mark : CommitmentStatus → (CommitmentEntry → Bool) → CommitmentEntry → CommitmentEntry
mark s p c = if p c then record c { status = s } else c

find_available-mark :
    (token : Fr254) (s : CommitmentStatus) (p : CommitmentEntry → Bool) (db : List CommitmentEntry)
    → is_unspent s ≡ false
    → find_available token (map (mark s p) db) ≡ remove_if p (find_available token db)
unfolding find_available
find_available-mark token s p [] h = refl
find_available-mark token s p (c ∷ cs) h =
    let rest = find_available-mark token s p cs h in
    elim (Bool-cases (p c)) [
      | inl hit ↦
          let marked : mark s p c ≡ record c { status = s } = rw hit refl in
          elim (Bool-cases (c.preimage.nf_token_id == token)) [
            | inl ours ↦ elim (Bool-cases (is_unspent c.status)) [
              | inl free ↦ rw (marked, ours, h, free, hit) rest
              | inr taken ↦ rw (marked, ours, h, taken) rest
            ]
            | inr theirs ↦ rw (marked, theirs) rest
          ]
      | inr miss ↦
          let kept : mark s p c ≡ c = rw miss refl in
          elim (Bool-cases (c.preimage.nf_token_id == token)) [
            | inl ours ↦ elim (Bool-cases (is_unspent c.status)) [
              | inl free ↦
                  rw (kept, ours, free, miss) (ap (λ (t : List CommitmentEntry). c ∷ t) rest)
              | inr taken ↦ rw (kept, ours, taken) rest
            ]
            | inr theirs ↦ rw (kept, theirs) rest
          ]
    ]

-- After a mark as spent by nullifiers, the available commitments of a token are those of before
-- whose nullifiers are not among the given.
find_available-mark_commitments_spent :
    (token : Fr254) (nullifiers : List Fr254) (db : List CommitmentEntry)
    → find_available token (mark_commitments_spent nullifiers db)
      ≡ remove_if (λ (c : CommitmentEntry). is_in c.nullifier nullifiers) (find_available token db)
unfolding mark_commitments_spent is_unspent
find_available-mark_commitments_spent token nullifiers db =
    find_available-mark token spent (λ (c : CommitmentEntry). is_in c.nullifier nullifiers) db refl

module _ (hash : List Fr254 → Option Fr254) (point : Point) where
  -- A successful choice of commitments to spend takes the entries with the hashes of the two out of
  -- the available ones, of every token, and takes out nothing else.
  pub find_usable_commitments_lem :
      (token target : Fr254) (db : List CommitmentEntry) (a b : Preimage)
      → (find_usable_commitments hash point token target db).0 ≡ ok (a, b)
      → (key_a : Fr254) × (key_b : Fr254) × (hash_preimage hash a ≡ some key_a)
        × (hash_preimage hash b ≡ some key_b)
        × ((other : Fr254)
            → find_available other (find_usable_commitments hash point token target db).1
              ≡ remove_if
                  (λ (c : CommitmentEntry). is_in c.key (key_a ∷ key_b ∷ []))
                  (find_available other db))
  unfolding find_usable_commitments mark_commitments_pending_spend is_unspent
  find_usable_commitments_lem token target db a b =
      elim (Result-cases (usable hash point token target db)) [
        | inl (e, stuck) ↦ rw (stuck, find_usable_commitments) (λ h. cc)
        | inr (found, chosen) ↦ elim (Option-cases (hash_preimage hash found.0)) [
          | inl bad ↦ rw (chosen, find_usable_commitments, bad, find_usable_commitments) (λ h. cc)
          | inr (key_a, good_a) ↦ elim (Option-cases (hash_preimage hash found.1)) [
            | inl bad ↦
                rw
                  (
                    chosen, find_usable_commitments, good_a, find_usable_commitments, bad,
                    find_usable_commitments,
                  )
                  (λ h. cc)
            | inr (key_b, good_b) ↦
                rw
                  (
                    chosen, find_usable_commitments, good_a, find_usable_commitments, good_b,
                    find_usable_commitments,
                  )
                  (λ h.
                    let first : a ≡ found.0 = cc h in
                    let second : b ≡ found.1 = cc h in
                    (
                      key_a,
                      key_b,
                      rw first good_a,
                      rw second good_b,
                      λ other.
                          find_available-mark other pending_spend
                            (λ (c : CommitmentEntry). is_in c.key (key_a ∷ key_b ∷ [])) db refl,
                    ))
          ]
        ]
      ]

found_last :
    (c : CommitmentEntry) (db : List CommitmentEntry)
    → get_commitment c.key db ≡ none
    → get_commitment c.key (db ++ c ∷ []) ≡ some c
unfolding get_commitment
found_last c [] fresh = ground arith
found_last c (d ∷ db) fresh = ground (arith, found_last c db)

found_other :
    (c : CommitmentEntry) (db : List CommitmentEntry) (k : Fr254)
    → k ≢ c.key
    → get_commitment k (db ++ c ∷ []) ≡ get_commitment k db
unfolding get_commitment
found_other c [] k other = ground arith
found_other c (d ∷ db) k other = ground (arith, found_other c db k other)

-- An entry whose key is new is stored: it is found under its key, and under any other key what was
-- found before.
store_commitment_lem :
    (c : CommitmentEntry) (db : List CommitmentEntry) (k : Fr254)
    → get_commitment c.key db ≡ none
    → k ≢ c.key
    → (db' : List CommitmentEntry) × (store_commitment c db ≡ some db')
      × (get_commitment c.key db' ≡ some c)
      × (get_commitment k db' ≡ get_commitment k db)
unfolding store_commitment
store_commitment_lem c db k fresh other = (
  db ++ c ∷ [],
  rw (fresh, store_commitment) refl,
  found_last c db fresh,
  found_other c db k other,
)

-- Without the check for duplicates, where the first entry has a key that is stored already, it and
-- the entries behind it are dropped, and the call reports success.
store_commitments_dropped :
    (cs : List CommitmentEntry) (c stored : CommitmentEntry) (db : List CommitmentEntry)
    → get_commitment c.key db ≡ some stored
    → store_commitments (c ∷ cs) false db ≡ (some tt, db)
unfolding store_commitments insert_many store_commitment
store_commitments_dropped cs c stored db found =
    rw (store_commitments, insert_many, store_commitment, found) refl
