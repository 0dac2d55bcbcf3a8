-- ===== src/Bff/Retry.antt =====
-- What the retry loop sends and answers (apps/storefront/src/lib/bff.ts).
use ecomerce_microservices_o.Prelude.{
  ℕ, zero, suc, ◌+◌, ◌≤◌, ◌<◌, ◌≡◌, refl, inl, inr, true, false, String, Option, none, ◌==◌, arith,
  Bool-cases,
}
use ecomerce_microservices_o.Bff.Call.{
  Result, Problem, Fetched, CallOptions, once, max_attempts, is_transient, retry, call, is_get,
}

module _ {A : Type 0} where
  -- The loop answers what its last request was answered with; every request before it failed in a
  -- way that may be retried; and it stops early only at an answer that may not be retried.
  pub retry_lem :
      (send : ℕ → Result A) (left attempt : ℕ)
      → ((retry send left attempt).0 ≡ send (retry send left attempt).1)
        × (attempt ≤ (retry send left attempt).1)
        × ((retry send left attempt).1 ≤ attempt + left)
        × ((n : ℕ) → attempt ≤ n → n < (retry send left attempt).1 → is_transient (send n) ≡ true)
        × ((retry send left attempt).1 < attempt + left
            → is_transient (send (retry send left attempt).1) ≡ false)
  unfolding retry
  retry_lem send zero attempt =
      (refl, omega arith, omega arith, (λ n h k. absurd (omega arith)), λ h. absurd (omega arith))
  retry_lem send (suc left) attempt = elim (Bool-cases (is_transient (send attempt))) [
    | inl again ↦
        let (same, low, high, before, last) = retry_lem send left (suc attempt) in
        rw again (same, omega arith, omega arith, all_before again before, λ h. last (omega arith))
    | inr stop ↦
        rw stop (refl, omega arith, omega arith, (λ n h k. absurd (omega arith)), λ h. stop)
  ]
    where
      all_before :
          is_transient (send attempt) ≡ true
          → ((n : ℕ)
              → suc attempt ≤ n
              → n < (retry send left (suc attempt)).1
              → is_transient (send n) ≡ true)
          → (n : ℕ) → attempt ≤ n
          → n < (retry send left (suc attempt)).1
          → is_transient (send n) ≡ true
      all_before now later n h k = elim (Bool-cases (n == attempt)) [
        | inl same ↦ rw (eq_of_test n same) now
        | inr other ↦ later n (ground arith) k
      ]
        where
          eq_of_test : (m : ℕ) → (m == attempt) ≡ true → m ≡ attempt
          eq_of_test m e = ground arith

module _ {J A : Type 0} (problem_details : J → Option Problem) (opts : CallOptions J A)
    (request_id : String) (network : ℕ → Fetched J) where
  -- A request that is neither a GET nor carries an idempotency key is sent once, whatever the
  -- network answers.
  pub call_unsafe_once :
      is_get opts.method ≡ false
      → opts.idempotency_key ≡ none
      → call problem_details opts true request_id network
        ≡ (once problem_details opts request_id (network 1), 1)
  unfolding call max_attempts retry
  call_unsafe_once not_get no_key = rw not_get (rw no_key)

  -- When at least one attempt is allowed, a request is answered by its last attempt, of which there
  -- are at least one and at most those allowed; every attempt before it failed in a way that may be
  -- retried, and if it is not the last one allowed, its own answer may not be retried.
  pub call_attempts :
      (m : ℕ)
      → max_attempts opts ≡ suc m
      → let (result, sent) = call problem_details opts true request_id network in
        (result ≡ once problem_details opts request_id (network sent))
        × (1 ≤ sent)
        × (sent ≤ suc m)
        × ((n : ℕ)
            → 1 ≤ n
            → n < sent
            → is_transient (once problem_details opts request_id (network n)) ≡ true)
        × (sent < suc m
            → is_transient (once problem_details opts request_id (network sent)) ≡ false)
  unfolding call
  call_attempts m e =
      let (same, low, high, before, last) =
        retry_lem (λ n. once problem_details opts request_id (network n)) m 1 in
      rw e (same, low, omega arith, before, λ h. last (omega arith))
