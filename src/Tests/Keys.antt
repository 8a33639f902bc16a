-- ===== src/Tests/Keys.antt =====
-- Runs of the idempotency guard at concrete inputs: a counter that each fresh call raises.
use pay_kh.Prelude.{
  ℕ, ◌+◌, ◌≡◌, ◌≢◌, refl, true, false, List, [], ◌∷◌, Result, ok, err, ApiErrorCode,
}
use pay_kh.Idempotency.{Slot, IdempotencyRecord, Response, default_ttl_ms, find, replay, execute}
use pay_kh.Idempotency.Once.{
  Request, RanOnce, state_after, serve, serve_all, times_run, Agreeing, work_at_most_once,
  stored_response_stands, answers_agree,
}

abbrev slot : Slot
slot = record { scope_id = 7; endpoint = 1; key = 99 }

abbrev count_up : ℕ → Result (ℕ × ℕ × ℕ)
count_up n = ok (n + 1, 201, n + 1)

-- Two calls that overlap, and one that comes later.
abbrev three_requests : List (Request ℕ ℕ)
three_requests =
    record { request_hash = 5; run = count_up; now = 10; sees = false }
    ∷ record { request_hash = 5; run = count_up; now = 11; sees = false }
    ∷ record { request_hash = 5; run = count_up; now = 50; sees = true }
    ∷ []

one_answer :
    serve_all slot three_requests 0 []
    ≡ ok (record { resource = 1; status = 201; replayed = false })
      ∷ ok (record { resource = 1; status = 201; replayed = true })
      ∷ ok (record { resource = 1; status = 201; replayed = true })
      ∷ []
unfolding serve_all execute find replay
one_answer = refl

work_at_most_once_example :
    RanOnce three_requests 0
      (times_run (serve_all slot three_requests 0 []))
      (state_after slot three_requests 0 [])
work_at_most_once_example = work_at_most_once slot three_requests 0 []

answers_agree_example : Agreeing (serve_all slot three_requests 0 [])
answers_agree_example = answers_agree slot three_requests 0 []

abbrev stored : IdempotencyRecord ℕ
stored = record {
  slot = slot;
  request_hash = 5;
  response_status = 201;
  response_body = 1;
  expires_at = 10 + default_ttl_ms;
}

abbrev retry : Request ℕ ℕ
retry = record { request_hash = 5; run = count_up; now = 11; sees = false }

stored_response_stands_run :
    let e = serve slot retry 1 (stored ∷ []) in
    (e.state ≡ 1)
    × (e.records ≡ stored ∷ [])
    × (stored.request_hash ≢ 5 → (c : ApiErrorCode) × (e.result ≡ err c))
    × ((r : Response ℕ)
        → e.result ≡ ok r
        → (r.resource ≡ 1) × (r.status ≡ 201) × (r.replayed ≡ true))
unfolding find
stored_response_stands_run = stored_response_stands slot retry 1 (stored ∷ []) {w = stored} refl
