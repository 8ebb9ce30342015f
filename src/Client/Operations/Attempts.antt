-- ===== src/Client/Operations/Attempts.antt =====
-- The attempts of `send_to_proposer_with_retry`, in
-- `nightfall_client/src/drivers/rest/client_operation.rs`.
use nightfall_4_ce.Common.{
  ℕ, zero, suc, ◌+◌, ◌*◌, ◌-◌, ◌^◌, ◌%◌, ◌≤◌, ◌<◌, ◌≡◌, ◌⊎◌, refl, arith, Bool, true, false, ◌&&◌,
  some, inl, inr, Bool-cases, ltb, ltb-false, lt→ltb,
}
use mathlib.Core.Path.{subst}
use native.Mathlib.Nat.{pow-suc, pow-le-pow_right, mod-eq_of_lt}
use native.Mathlib.Decide.{dec_lt}
use nightfall_4_ce.Client.Operations.Send.{
  Answer, Sent, is_temporary, outcome_of, attempts, send_to_proposer_with_retry,
}

module _ (is_success : ℕ → Bool) (answer : ℕ → Answer) where
  -- The attempts from `first` to at most `last` end with the one numbered `tries`: the ones before it had
  -- temporary failures, it is the last one or had none, and its answer decides. The sleeps double.
  pub record IsSent (first last backoff : ℕ) (sent : Sent) : Type 0 where
    pub tries : ℕ
    pub begun : first ≤ tries
    pub bounded : tries ≤ last
    pub before : (j : ℕ) → first ≤ j → j < tries → is_temporary is_success (answer j) ≡ true
    pub ended : (tries ≡ last) ⊎ (is_temporary is_success (answer tries) ≡ false)
    pub decided : sent.result ≡ outcome_of is_success (answer tries)
    pub posted : sent.posts + first ≡ tries + 1
    pub waited : sent.slept + backoff * 2 ^ (first - 1) ≡ backoff * 2 ^ (tries - 1)

  again : (i : ℕ) → 1 ≤ i → i + 1 - 1 ≡ suc (i - 1)
  again i h = omega arith

  doubled :
      (backoff i : ℕ)
      → 1 ≤ i
      → backoff * 2 ^ (i + 1 - 1) ≡ backoff * 2 ^ (i - 1) + backoff * 2 ^ (i - 1)
  doubled backoff i h = rw (again i h, pow-suc 2 (i - 1)) (omega arith)

  last-IsSent :
      (first last backoff rounds : ℕ)
      → 1 ≤ first
      → first ≤ last
      → (first ≡ last) ⊎ (is_temporary is_success (answer first) ≡ false)
      → is_temporary is_success (answer first) && ltb first last ≡ false
      → IsSent first last backoff (attempts is_success answer last backoff (suc rounds) first)
  unfolding attempts
  last-IsSent first last backoff rounds positive inside ended stops =
      rw (attempts, stops)
        (record {
          tries = first;
          begun = omega arith;
          bounded = inside;
          before = λ j above below. absurd (omega arith);
          ended = ended;
          decided = refl;
          posted = omega arith;
          waited = omega arith;
        })

  -- Two to the exponents that are reached is a `u32`.
  unwrapped : (i : ℕ) → i < 32 → 2 ^ i % 2 ^ 32 ≡ 2 ^ i
  unwrapped i h =
      mod-eq_of_lt
        (omega (arith, pow-le-pow_right {n = 2} (omega arith) {i = i} {j = 31} (omega arith)))

  more-IsSent :
      (first last backoff rounds : ℕ)
      → 1 ≤ first
      → is_temporary is_success (answer first) ≡ true
      → first < last
      → last ≤ 33
      → IsSent (first + 1) last backoff (attempts is_success answer last backoff rounds (first + 1))
      → IsSent first last backoff (attempts is_success answer last backoff (suc rounds) first)
  unfolding attempts
  more-IsSent first last backoff rounds positive temporary inside fits d =
      rw (attempts, temporary, lt→ltb first last inside)
        (record {
          tries = d.tries;
          begun = omega (arith, d.begun);
          bounded = d.bounded;
          before = λ j above below. elim (dec_lt first j) [
            | yes later ↦ d.before j (omega arith) below
            | no now ↦
                subst (λ (i : ℕ). is_temporary is_success (answer i) ≡ true) (omega arith) temporary
          ];
          ended = d.ended;
          decided = d.decided;
          posted = omega (arith, d.posted);
          waited =
              rw (unwrapped (first - 1) (omega arith))
                (omega (arith, d.waited, doubled backoff first positive));
        })

  attempts-IsSent :
      (backoff rounds first last : ℕ)
      → last ≤ 33
      → 1 ≤ first
      → first + rounds ≡ last
      → IsSent first last backoff (attempts is_success answer last backoff (suc rounds) first)
  attempts-IsSent backoff zero first last fits positive counted =
      last-IsSent first last backoff zero positive (omega arith) (inl (omega arith))
        (elim (Bool-cases (is_temporary is_success (answer first))) [
          | inr final ↦ rw final refl
          | inl temporary ↦ rw (temporary, ltb-false first last (omega arith)) refl
        ])
  attempts-IsSent backoff (suc rounds) first last fits positive counted =
      elim (Bool-cases (is_temporary is_success (answer first))) [
        | inr final ↦
            last-IsSent first last backoff (suc rounds) positive (omega arith) (inr final)
              (rw final refl)
        | inl temporary ↦
            more-IsSent first last backoff (suc rounds) positive temporary (omega arith) fits
              (attempts-IsSent backoff rounds (first + 1) last fits (omega arith) (omega arith))
      ]

  -- With a valid URL, at least one and at most 33 attempts allowed, and a backoff of less than two
  -- to the 33 seconds, the sending ends with an attempt within the limit: the ones before it had
  -- temporary failures, it is the last one allowed or had none, its answer is the outcome, there
  -- were as many posts as attempts, and the sleeps, which double from the initial backoff, add up
  -- to the backoff times one less than two to the number of attempts before it.
  pub send_to_proposer_with_retry-IsSent :
      (last backoff : ℕ)
      → 1 ≤ last
      → last ≤ 33
      → backoff < 1000 * 2 ^ 33
      → IsSent 1 last backoff (send_to_proposer_with_retry is_success (some answer) last backoff)
  unfolding send_to_proposer_with_retry
  send_to_proposer_with_retry-IsSent zero backoff positive fits short = absurd (omega arith)
  send_to_proposer_with_retry-IsSent (suc last) backoff positive fits short =
      attempts-IsSent backoff last 1 (suc last) fits (omega arith) (omega arith)
