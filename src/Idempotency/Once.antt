-- ===== src/Idempotency/Once.antt =====
-- Concurrent requests with one idempotency key
-- (`IdempotencyService.execute` of apps/api/src/idempotency/idempotency.module.ts).
use mathlib.Core.Path.{subst}
use pay_kh.Prelude.{
  ℕ, ◌+◌, ◌∙◌, ◌≡◌, ◌≢◌, refl, sym, ◌⊎◌, inl, inr, Bool, true, false, none, some, List, [], ◌∷◌,
  Result, ok, err, ApiErrorCode, idempotency_conflict, arith, if◌then◌else◌, Option-cases,
  Bool-cases, Result-cases,
}
use pay_kh.Idempotency.{
  Slot, IdempotencyRecord, Response, Executed, same_slot, find, replay, execute, default_ttl_ms,
}

-- A request: its body's hash, its work, and whether its pre-check ran late enough to see a
-- record that is there.
pub record Request (S R : Type 0) : Type 0 where
  pub request_hash : ℕ
  pub run : S → Result (R × ℕ × S)
  pub now : ℕ
  pub sees : Bool

same_slot_refl : (slot : Slot) → same_slot slot slot ≡ true
same_slot_refl slot = ground arith

module _ {R : Type 0} where
  -- Whether the work of this call took effect.
  abbrev pub is_fresh : Result (Response R) → ℕ
  is_fresh (ok r) = if r.replayed then 0 else 1
  is_fresh (err e) = 0

  abbrev pub times_run : List (Result (Response R)) → ℕ
  times_run [] = 0
  times_run (r ∷ rs) = is_fresh r + times_run rs

  -- Every success in the list has this response.
  abbrev pub Agree : R → ℕ → List (Result (Response R)) → Type 0
  Agree body status [] = Unit
  Agree body status (ok r ∷ rs) = (r.resource ≡ body) × (r.status ≡ status) × Agree body status rs
  Agree body status (err e ∷ rs) = Agree body status rs

  -- All the successes in the list have one response.
  abbrev pub Agreeing : List (Result (Response R)) → Type 0
  Agreeing [] = Unit
  Agreeing (ok r ∷ rs) = Agree r.resource r.status rs
  Agreeing (err e ∷ rs) = Agreeing rs

  trans_Agree :
      (b b' : R) (n n' : ℕ) (rs : List (Result (Response R)))
      → b ≡ b'
      → n ≡ n'
      → Agree b n rs
      → Agree b' n' rs
  trans_Agree b b' n n' rs p q h = rw (← p, ← q) h

  Agreeing-of : (b : R) (n : ℕ) (rs : List (Result (Response R))) → Agree b n rs → Agreeing rs
  Agreeing-of b n [] h = tt
  Agreeing-of b n (ok r ∷ rs) (p, q, h) = trans_Agree b r.resource n r.status rs (sym p) (sym q) h
  Agreeing-of b n (err e ∷ rs) h = Agreeing-of b n rs h

module _ {S R : Type 0} where
  unfoldable pub serve : Slot → Request S R → S → List (IdempotencyRecord R) → Executed S R
  serve slot q s records =
      execute q.run q.now (some slot) q.request_hash (if q.sees then find slot records else none) s
        records

  -- The requests in the order of their transactions: their results.
  unfoldable pub serve_all :
      Slot → List (Request S R) → S → List (IdempotencyRecord R) → List (Result (Response R))
  unfolding serve
  serve_all slot [] s records = []
  serve_all slot (q ∷ qs) s records =
      let e = serve slot q s records in e.result ∷ serve_all slot qs e.state e.records

  -- The state that the requests leave.
  unfoldable pub state_after : Slot → List (Request S R) → S → List (IdempotencyRecord R) → S
  unfolding serve
  state_after slot [] s records = s
  state_after slot (q ∷ qs) s records =
      let e = serve slot q s records in state_after slot qs e.state e.records

  -- Whether a state is what the work of one of the requests makes of another.
  abbrev pub MadeByOne : List (Request S R) → S → S → Type 0
  MadeByOne [] s s' = ⊥
  MadeByOne (q ∷ qs) s s' =
      ((body : R) × (status : ℕ) × (q.run s ≡ ok (body, status, s'))) ⊎ MadeByOne qs s s'

  -- No work took effect, or that of one request did.
  abbrev pub RanOnce : List (Request S R) → S → ℕ → S → Type 0
  RanOnce qs s times s' = ((times ≡ 0) × (s' ≡ s)) ⊎ ((times ≡ 1) × MadeByOne qs s s')

  stored_stands :
      (slot : Slot) (q : Request S R) (s : S) (records : List (IdempotencyRecord R))
      {w : IdempotencyRecord R}
      → find slot records ≡ some w
      → let e = serve slot q s records in
        (e.state ≡ s)
        × (e.records ≡ records)
        × ((e.result ≡ replay w q.request_hash) ⊎ ((c : ApiErrorCode) × (e.result ≡ err c)))
  unfolding serve execute
  stored_stands slot q s records found = elim (Bool-cases q.sees) [
    | inl late ↦ (ground arith, ground arith, inl (ground arith))
    | inr early ↦ elim (Result-cases (q.run s)) [
      | inl (c, failed) ↦ (ground arith, ground arith, inr (c, ground arith))
      | inr (a, done) ↦ (ground arith, ground arith, inl (ground arith))
    ]
  ]

  -- Once a response is stored under the key, a request changes neither the state nor the records;
  -- one with another body fails, and one that succeeds gets the stored response.
  pub stored_response_stands :
      (slot : Slot) (q : Request S R) (s : S) (records : List (IdempotencyRecord R))
      {w : IdempotencyRecord R}
      → find slot records ≡ some w
      → let e = serve slot q s records in
        (e.state ≡ s)
        × (e.records ≡ records)
        × (w.request_hash ≢ q.request_hash → (c : ApiErrorCode) × (e.result ≡ err c))
        × ((r : Response R)
            → e.result ≡ ok r
            → (r.resource ≡ w.response_body) × (r.status ≡ w.response_status) × (r.replayed ≡ true))
  unfolding replay
  stored_response_stands slot q s records {w} found =
      let (same_state, same_records, answer) = stored_stands slot q s records found in
      (same_state, same_records, other answer, λ r h. ground arith)
    where
      other :
          ((serve slot q s records).result ≡ replay w q.request_hash)
            ⊎ ((c : ApiErrorCode) × ((serve slot q s records).result ≡ err c))
          → w.request_hash ≢ q.request_hash
          → (c : ApiErrorCode) × ((serve slot q s records).result ≡ err c)
      other (inl e) ne = (idempotency_conflict, ground arith)
      other (inr failed) ne = failed

  after_stored :
      (slot : Slot) (qs : List (Request S R)) (s : S) (records : List (IdempotencyRecord R))
      {w : IdempotencyRecord R}
      → find slot records ≡ some w
      → Agree w.response_body w.response_status (serve_all slot qs s records)
  unfolding serve_all
  after_stored slot [] s records found = tt
  after_stored slot (q ∷ qs) s records {w} found =
      let e = serve slot q s records in
      let (_, same, _, answer) = stored_response_stands slot q s records found in
      agree_cons e.result (serve_all slot qs e.state e.records) answer
        (after_stored slot qs e.state e.records {w = w} (rw same found))
    where
      agree_cons :
          (res : Result (Response R)) (rest : List (Result (Response R)))
          → ((r : Response R)
              → res ≡ ok r
              → (r.resource ≡ w.response_body)
                × (r.status ≡ w.response_status)
                × (r.replayed ≡ true))
          → Agree w.response_body w.response_status rest
          → Agree w.response_body w.response_status (res ∷ rest)
      agree_cons (ok r) rest h tail = ((h r refl).0, (h r refl).1, tail)
      agree_cons (err c) rest h tail = tail

  -- A call that succeeds leaves its response under the key; one that fails leaves the records.
  served :
      (slot : Slot) (q : Request S R) (s : S) (records : List (IdempotencyRecord R))
      → find slot records ≡ none
      → let e = serve slot q s records in
        (r : Response R)
        → e.result ≡ ok r
        → (w : IdempotencyRecord R) × (find slot e.records ≡ some w)
          × (w.response_body ≡ r.resource)
          × (w.response_status ≡ r.status)
  unfolding serve execute
  served slot q s records empty r h = elim (Result-cases (q.run s)) [
    | inl (c, failed) ↦ absurd (ground arith)
    | inr ((body, status, s'), done) ↦ (
      record {
        slot = slot;
        request_hash = q.request_hash;
        response_status = status;
        response_body = body;
        expires_at = q.now + default_ttl_ms;
      },
      ground (arith, same_slot_refl slot),
      ground arith,
      ground arith,
    )
  ]

  failed_leaves :
      (slot : Slot) (q : Request S R) (s : S) (records : List (IdempotencyRecord R))
      {c : ApiErrorCode}
      → find slot records ≡ none
      → (serve slot q s records).result ≡ err c
      → (serve slot q s records).records ≡ records
  unfolding serve execute
  failed_leaves slot q s records empty h = ground arith

  agree_from :
      (slot : Slot) (qs : List (Request S R)) (s : S) (records : List (IdempotencyRecord R))
      → find slot records ≡ none
      → Agreeing (serve_all slot qs s records)
  unfolding serve_all
  agree_from slot [] s records empty = tt
  agree_from slot (q ∷ qs) s records empty =
      let e = serve slot q s records in
      elim (Result-cases e.result) [
        | inl (c, failed) ↦
            let same : e.records ≡ records = failed_leaves slot q s records empty failed in
            let tail = agree_from slot qs e.state e.records (rw same empty) in rw failed tail
        | inr (r, done) ↦
            let (w, found, body, status) = served slot q s records empty r done in
            let tail = after_stored slot qs e.state e.records found in
            rw done (rw (← body, ← status) tail)
      ]

  -- However requests with one key overlap, and whatever their work would return, all those that
  -- succeed return one and the same response.
  pub answers_agree :
      (slot : Slot) (qs : List (Request S R)) (s : S) (records : List (IdempotencyRecord R))
      → Agreeing (serve_all slot qs s records)
  answers_agree slot qs s records = elim (Option-cases (find slot records)) [
    | inl empty ↦ agree_from slot qs s records empty
    | inr (w, found) ↦
        Agreeing-of w.response_body w.response_status (serve_all slot qs s records)
          (after_stored slot qs s records found)
  ]

  -- A call with the key still free fails and leaves the state, or its work takes effect.
  fresh_or_failed :
      (slot : Slot) (q : Request S R) (s : S) (records : List (IdempotencyRecord R))
      → find slot records ≡ none
      → let e = serve slot q s records in
        ((is_fresh e.result ≡ 0) × (e.state ≡ s) × (find slot e.records ≡ none))
        ⊎ ((is_fresh e.result ≡ 1)
            × ((body : R) × (status : ℕ) × (q.run s ≡ ok (body, status, e.state)))
            × (w : IdempotencyRecord R) × (find slot e.records ≡ some w))
  unfolding serve execute
  fresh_or_failed slot q s records empty = elim (Result-cases (q.run s)) [
    | inl (c, failed) ↦ inl (ground arith, ground arith, ground arith)
    | inr ((body, status, s'), done) ↦
        let stored : IdempotencyRecord R = record {
          slot = slot;
          request_hash = q.request_hash;
          response_status = status;
          response_body = body;
          expires_at = q.now + default_ttl_ms;
        } in
        let there : (serve slot q s records).state ≡ s' = ground arith in
        inr
          (ground arith, (body, status, rw there done), stored, ground (arith, same_slot_refl slot))
  ]

  nothing_runs :
      (slot : Slot) (qs : List (Request S R)) (s : S) (records : List (IdempotencyRecord R))
      {w : IdempotencyRecord R}
      → find slot records ≡ some w
      → (times_run (serve_all slot qs s records) ≡ 0) × (state_after slot qs s records ≡ s)
  unfolding serve_all state_after
  nothing_runs slot [] s records found = (refl, refl)
  nothing_runs slot (q ∷ qs) s records {w} found =
      let e = serve slot q s records in
      let (same_state, same_records, _, answer) = stored_response_stands slot q s records found in
      let (none_run, at) = nothing_runs slot qs e.state e.records {w = w} (rw same_records found) in
      let replays : is_fresh e.result ≡ 0 = elim (Result-cases e.result) [
        | inl (c, failed) ↦ rw failed refl
        | inr (r, done) ↦ rw (done, (answer r done).2) refl
      ] in
      (omega arith, at ∙ same_state)

  -- However requests with one key overlap: either no work took effect and the state is as it was,
  -- or that of exactly one request did, and the state is what this work alone makes of it.
  pub work_at_most_once :
      (slot : Slot) (qs : List (Request S R)) (s : S) (records : List (IdempotencyRecord R))
      → RanOnce qs s (times_run (serve_all slot qs s records)) (state_after slot qs s records)
  unfolding serve_all state_after
  work_at_most_once slot qs s records = elim (Option-cases (find slot records)) [
    | inr (w, found) ↦ inl (nothing_runs slot qs s records found)
    | inl empty ↦ first_runs qs s records empty
  ]
    where
      first_runs :
          (qs : List (Request S R)) (s : S) (records : List (IdempotencyRecord R))
          → find slot records ≡ none
          → RanOnce qs s (times_run (serve_all slot qs s records)) (state_after slot qs s records)
      first_runs [] s records empty = inl (refl, refl)
      first_runs (q ∷ qs) s records empty =
          let e = serve slot q s records in
          elim (fresh_or_failed slot q s records empty) [
            | inl (failed, same, free) ↦ elim (first_runs qs e.state e.records free) [
              | inl (times, at) ↦ inl (omega arith, at ∙ same)
              | inr (times, made) ↦ inr (
                omega arith,
                inr (subst (λ t. MadeByOne qs t (state_after slot qs e.state e.records)) same made),
              )
            ]
            | inr (fresh, (body, status, works), w, stored) ↦
                let (none_run, at) = nothing_runs slot qs e.state e.records {w = w} stored in
                inr (omega arith, inl (body, status, rw at works))
          ]

  -- The first call with a key, whose work succeeds.
  pub execute_first :
      (run : S → Result (R × ℕ × S)) (now : ℕ) (slot : Slot) (request_hash : ℕ) (s : S)
      (records : List (IdempotencyRecord R)) {body : R} {status : ℕ} {s' : S}
      → find slot records ≡ none
      → run s ≡ ok (body, status, s')
      → let e = execute run now (some slot) request_hash none s records in
        (e.result ≡ ok (record { resource = body; status = status; replayed = false }))
        × (e.state ≡ s')
        × (w : IdempotencyRecord R) × (find slot e.records ≡ some w)
        × (w.response_body ≡ body)
        × (w.request_hash ≡ request_hash)
  unfolding execute find
  execute_first run now slot request_hash s records {body} {status} empty works =
      let stored : IdempotencyRecord R = record {
        slot = slot;
        request_hash = request_hash;
        response_status = status;
        response_body = body;
        expires_at = now + default_ttl_ms;
      } in
      (ground arith, ground arith, stored, ground (arith, same_slot_refl slot), refl, refl)
