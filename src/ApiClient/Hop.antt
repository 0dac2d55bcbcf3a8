-- ===== src/ApiClient/Hop.antt =====
-- An error of a service on its way through a route of the storefront to the browser
-- (apps/storefront/src/app/api/bff/_problem.ts and src/lib/api-client.ts).
use ecomerce_microservices_o.Prelude.{
  ℕ, ◌≤◌, ◌≡◌, refl, true, false, ◌||◌, String, Option, none, some, ◌==◌, leb, if◌then◌else◌,
  str_eq, arith,
}
use ecomerce_microservices_o.Bff.Call.{
  Problem, BffError, bff, Message, Response, is_ok, is_retriable,
}
use ecomerce_microservices_o.ApiClient.{
  ApiError, retriable, response, err, Reader, to_api_error, of_problem, api_fetch, problem_response,
  hop_status, id_or, may_have_body, HttpProblem, rendered,
}

-- The response that a browser gets, with the body as JSON.
abbrev pub received : {J : Type 0} → (Problem → J) → HttpProblem → Response J
received to_json p = record {
  status = p.status;
  request_id = some p.request_id;
  body = some (to_json p.body);
}

rendered-fields :
    (status : ℕ) (id : String) (e : BffError) (message : String) (p : Option Problem)
    → let r = rendered status id e message p in
      (r.status ≡ status) × (r.code ≡ e.code) × (r.request_id ≡ id)
rendered-fields status id e message none = (refl, refl, refl)
rendered-fields status id e message (some p) = (refl, refl, refl)

-- Up to 504, what is worth a retry behind the hop is worth one before it.
retriable-hop :
    (n : ℕ)
    → n ≤ 504
    → ((hop_status n == 0) || leb 502 (hop_status n)) ≡ (n == 0 || n == 502 || n == 503 || n == 504)
retriable-hop n low = ground arith

hop_low : (n : ℕ) → n ≤ 504 → hop_status n ≤ 504
hop_low n low = ground arith

is_ok-error : (n : ℕ) → 400 ≤ n → is_ok n ≡ false
is_ok-error n high = ground arith

may_have_body-error : (n : ℕ) → 400 ≤ n → n ≤ 504 → may_have_body n ≡ true
may_have_body-error n high low = ground arith

same_id : (a b : String) → a ≡ b → (if str_eq a "" then b else a) ≡ b
same_id a b e = rw e (ground arith)

-- An error of a service with a status from 400 to 504, or of one that cannot be reached, is rendered by
-- a route of the storefront as a problem, and when the browser's schema reads that one problem back, it
-- reaches the browser's caller with its code, its status (502 for an unreachable service) and its
-- request id or the one drawn for it, and is worth a retry there exactly when it was worth one in the
-- storefront's client.
pub api_fetch-problem :
    {J A : Type 0} (reader : Reader J) (to_json : Problem → J) (parse : Option J → Option A)
    (text_of : Message → String) (drawn : String) (e : BffError)
    → ((p : HttpProblem)
        → problem_response text_of drawn (bff e) ≡ some p
        → reader.problem_details (to_json p.body) ≡ some p.body)
    → 400 ≤ hop_status e.status
    → e.status ≤ 504
    → (p : HttpProblem) × (a : ApiError) × (problem_response text_of drawn (bff e) ≡ some p)
      × (api_fetch reader parse (response (received to_json p)) ≡ err a)
      × (a.status ≡ hop_status e.status)
      × (a.code ≡ e.code)
      × (a.request_id ≡ id_or e.request_id drawn)
      × (retriable a ≡ is_retriable e)
unfolding api_fetch retriable is_retriable to_api_error
api_fetch-problem reader to_json parse text_of drawn e reads high low =
    let id = id_or e.request_id drawn in
    let p = rendered (hop_status e.status) id e (text_of e.message) e.problem in
    let answer : HttpProblem = record { status = hop_status e.status; body = p; request_id = id } in
    let (same_status, same_code, same_request) =
      rendered-fields (hop_status e.status) id e (text_of e.message) e.problem in
    let answered : problem_response text_of drawn (bff e) ≡ some answer =
      unfold problem_response in
      rw (may_have_body-error (hop_status e.status) high (hop_low e.status low)) refl in
    let bad = is_ok-error (hop_status e.status) high in
    (
      answer,
      of_problem p id (reader.retry_after (to_json p)),
      answered,
      rw bad (rw (reads answer answered) refl),
      same_status,
      same_code,
      same_id p.request_id id same_request,
      rw same_status (retriable-hop e.status low),
    )
