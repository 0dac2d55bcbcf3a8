-- ===== src/Breaker/Probe.antt =====
-- The probe of a half-open breaker (services/cart-service/src/circuit-breaker.ts).
use ecomerce_microservices_o.Prelude.{
  ℕ, suc, ◌+◌, ◌≤◌, ◌<◌, ◌≡◌, refl, ◌≢◌, false, List, [], ◌∷◌, Option, none, some, arith, ltb,
  if◌then◌else◌,
}
use ecomerce_microservices_o.Breaker.{
  closed, open_, half_open, Options, Breaker, allow, record_outcome, calculate,
}

-- How many of the calls that ask at the given times are let through, when none of them is answered.
unfoldable pub admitted : Options → List ℕ → Breaker → ℕ
admitted o [] b = 0
admitted o (t ∷ ts) b =
    let (allowed, b') = allow o t b in
    let rest = admitted o ts b' in if allowed then suc rest else rest

admitted_half_open :
    (o : Options) (ts : List ℕ) (b : Breaker) → b.state ≡ half_open → admitted o ts b ≡ 0
unfolding admitted allow
admitted_half_open o [] b h = refl
admitted_half_open o (t ∷ ts) b h = ground (arith, admitted_half_open o ts b)

-- Once the breaker is not closed, at most one call is let through until an outcome is recorded,
-- however many ask and whenever they do.
pub admitted-le : (o : Options) (ts : List ℕ) (b : Breaker) → b.state ≢ closed → admitted o ts b ≤ 1
unfolding admitted allow
admitted-le o [] b h = omega arith
admitted-le o (t ∷ ts) b h =
    ground (arith, admitted-le o ts b, admitted_half_open o ts (record b { state = half_open }))

-- An open breaker lets no call through before the probe delay has passed.
pub admitted_early :
    (o : Options) (t : ℕ) (b : Breaker)
    → b.state ≡ open_
    → t < b.opened_at + o.probe_after_ms
    → allow o t b ≡ (false, b)
unfolding allow
admitted_early o t b h early = ground arith

not_early :
    (o : Options) (now : ℕ) (b : Breaker)
    → b.opened_at + o.probe_after_ms ≤ now
    → ltb now (b.opened_at + o.probe_after_ms) ≡ false
not_early o now b due = ground arith

-- A call to pricing-engine through a breaker that was open and whose probe is due, with no other
-- outcome in between, returns what the engine answered; an answer closes the breaker with an empty
-- window, and a failure opens it again from the time of the failure.
pub calculate_probe :
    {A : Type 0} (o : Options) (now later : ℕ) (res : Option A) (b : Breaker)
    → b.state ≡ open_
    → b.opened_at + o.probe_after_ms ≤ now
    → calculate o now later (λ x. x) res b ≡ (
      res,
      elim res [
        | some _ ↦ record b { state = closed; failures = [] }
        | none ↦ record b { state = open_; opened_at = later }
      ],
    )
unfolding calculate allow record_outcome
calculate_probe o now later none b h due = rw h (rw (not_early o now b due) refl)
calculate_probe o now later (some a) b h due = rw h (rw (not_early o now b due) refl)
