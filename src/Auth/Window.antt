-- ===== src/Auth/Window.antt =====
-- The rate limit of src/opspilot/auth.py over time.
use opspilot_sre_incident_re.Prelude.{
  ℕ, ◌+◌, ◌≤◌, String, Option, none, some, List, [], ◌∷◌, ◌++◌, ltb, leb, str_eq, length,
  length-append, All, All-append, Bool-cases, inl, inr, arith,
}
use opspilot_sre_incident_re.Config.{Settings}
use opspilot_sre_incident_re.Auth.{
  RequestLog, expire, set_bucket, check_rate_limit, require_api_key,
}

-- The times stand in order, and none lies behind the clock.
abbrev pub IsSorted : List ℕ → Type 0
IsSorted [] = Unit
IsSorted (t ∷ bucket) = All (λ u. t ≤ u) bucket × IsSorted bucket

-- A bucket in order, with no more than the allowed number of requests, none in the future.
abbrev pub IsBucket : Settings → ℕ → List ℕ → Type 0
IsBucket settings now bucket =
    IsSorted bucket × All (λ t. t ≤ now) bucket × (length bucket ≤ settings.rate_limit_max_requests)

abbrev pub IsLog : Settings → ℕ → RequestLog → Type 0
IsLog settings now requests = (identity : String) → IsBucket settings now (requests identity)

pub All-weaken : (P Q : ℕ → Type 0) (xs : List ℕ) → ((x : ℕ) → P x → Q x) → All P xs → All Q xs
All-weaken P Q [] f h = tt
All-weaken P Q (x ∷ xs) f (h, k) = (f x h, All-weaken P Q xs f k)

module _ (now window : ℕ) where
  pub expire-IsSorted : (bucket : List ℕ) → IsSorted bucket → IsSorted (expire now window bucket)
  expire-IsSorted [] h = tt
  expire-IsSorted (t ∷ bucket) (h, k) = elim (Bool-cases (ltb (t + window) now)) [
    | inl old ↦ rw old (expire-IsSorted bucket k)
    | inr new ↦ rw new (h, k)
  ]

  pub expire-All :
      (P : ℕ → Type 0) (bucket : List ℕ) → All P bucket → All P (expire now window bucket)
  expire-All P [] h = tt
  expire-All P (t ∷ bucket) (h, k) = elim (Bool-cases (ltb (t + window) now)) [
    | inl old ↦ rw old (expire-All P bucket k)
    | inr new ↦ rw new (h, k)
  ]

  expire-length : (bucket : List ℕ) → length (expire now window bucket) ≤ length bucket
  expire-length [] = ground arith
  expire-length (t ∷ bucket) = elim (Bool-cases (ltb (t + window) now)) [
    | inl old ↦ rw old (let h = expire-length bucket in ground arith)
    | inr new ↦ rw new (ground arith)
  ]

  -- In a sorted bucket all that is left lies in the window.
  pub expire-recent :
      (bucket : List ℕ) → IsSorted bucket → All (λ t. now ≤ t + window) (expire now window bucket)
  expire-recent [] h = tt
  expire-recent (t ∷ bucket) (h, k) = elim (Bool-cases (ltb (t + window) now)) [
    | inl old ↦ rw old (expire-recent bucket k)
    | inr new ↦ rw new (
        let first : now ≤ t + window = ground arith in
        (
          first,
          All-weaken (λ u. t ≤ u) (λ u. now ≤ u + window) bucket (λ u le. omega (arith, le, first))
              h,
        ))
  ]

snoc-IsSorted :
    (now : ℕ) (bucket : List ℕ)
    → IsSorted bucket
    → All (λ t. t ≤ now) bucket
    → IsSorted (bucket ++ now ∷ [])
snoc-IsSorted now [] h k = (tt, tt)
snoc-IsSorted now (t ∷ bucket) (h, hs) (k, ks) =
    (All-append (λ u. t ≤ u) bucket (now ∷ []) h (k, tt), snoc-IsSorted now bucket hs ks)

module _ (settings : Settings) where
  pub later-IsLog :
      (before now : ℕ) (requests : RequestLog)
      → before ≤ now
      → IsLog settings before requests
      → IsLog settings now requests
  later-IsLog before now requests le h identity =
      let (sorted, past, few) = h identity in
      (
        sorted,
        All-weaken (λ t. t ≤ before) (λ t. t ≤ now) (requests identity)
            (λ t k. omega (arith, le, k)) past,
        few,
      )

  set-IsLog :
      (now : ℕ) (identity : String) (bucket : List ℕ) (requests : RequestLog)
      → IsBucket settings now bucket
      → IsLog settings now requests
      → IsLog settings now (set_bucket identity bucket requests)
  set-IsLog now identity bucket requests b h other = elim (Bool-cases (str_eq other identity)) [
    | inl same ↦ rw same b
    | inr different ↦ rw different (h other)
  ]

  pub check-IsLog :
      (now : ℕ) (identity : String) (requests : RequestLog)
      → IsLog settings now requests
      → IsLog settings now (check_rate_limit settings now identity requests).1
  unfolding check_rate_limit
  check-IsLog now identity requests h =
      let w = settings.rate_limit_window_seconds in
      let bucket = expire now w (requests identity) in
      let (sorted, past, few) = h identity in
      let sorted' : IsSorted bucket = expire-IsSorted now w (requests identity) sorted in
      let past' : All (λ t. t ≤ now) bucket =
        expire-All now w (λ t. t ≤ now) (requests identity) past in
      let few' : length bucket ≤ settings.rate_limit_max_requests =
        omega (arith, expire-length now w (requests identity), few) in
      elim (Bool-cases (leb settings.rate_limit_max_requests (length bucket))) [
        | inl full ↦ rw full (set-IsLog now identity bucket requests (sorted', past', few') h)
        | inr room ↦ rw room (
            set-IsLog now identity (bucket ++ now ∷ []) requests
              (
                snoc-IsSorted now bucket sorted' past',
                All-append (λ t. t ≤ now) bucket (now ∷ []) past' (ground arith, tt),
                (let n = length-append bucket (now ∷ []) in ground arith),
              )
              h)
      ]

  -- A log with at most the allowed number of requests per key, in order, stays one through a request
  -- at any later time.
  pub require_api_key-IsLog :
      (before now : ℕ) (key : Option String) (requests : RequestLog)
      → before ≤ now
      → IsLog settings before requests
      → IsLog settings now (require_api_key settings now key requests).1
  unfolding require_api_key
  require_api_key-IsLog before now none requests le h = later-IsLog before now requests le h
  require_api_key-IsLog before now (some key) requests le h =
      elim (Bool-cases (str_eq key settings.api_key)) [
        | inl known ↦ rw known (check-IsLog now key requests (later-IsLog before now requests le h))
        | inr other ↦ rw other (later-IsLog before now requests le h)
      ]
