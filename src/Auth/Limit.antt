-- ===== src/Auth/Limit.antt =====
-- The sliding window that the rate limit of src/opspilot/auth.py stands for.
use opspilot_sre_incident_re.Prelude.{
  ℕ, ◌+◌, ◌≤◌, ◌<◌, ◌≡◌, ◌↔◌, refl, sym, ◌∙◌, subst, String, true, false, Option, none, some, List,
  [], ◌∷◌, ◌++◌, ◌&&◌, ltb, leb, str_eq, if◌then◌else◌, length, All, Bool-cases, inl, inr, arith,
  eq_iff,
}
use text.Mathlib.TextPositions.{eq_refl}
use opspilot_sre_incident_re.Config.{Settings}
use opspilot_sre_incident_re.Auth.{
  RequestLog, Verdict, unauthorized, too_many, allowed, expire, check_rate_limit, require_api_key,
}
use opspilot_sre_incident_re.Auth.Window.{IsSorted, IsLog, All-weaken, later-IsLog, check-IsLog}

-- How many of the times lie in the window that ends at time `at`.
abbrev pub in_window : ℕ → ℕ → List ℕ → ℕ
in_window window at [] = 0
in_window window at (t ∷ times) =
    (if leb t at && leb at (t + window) then 1 else 0) + in_window window at times

module _ (window : ℕ) where
  in_window-append :
      (at : ℕ) (xs ys : List ℕ)
      → in_window window at (xs ++ ys) ≡ in_window window at xs + in_window window at ys
  in_window-append at [] ys = omega arith
  in_window-append at (x ∷ xs) ys = omega (arith, in_window-append at xs ys)

  in_window-le : (at : ℕ) (xs : List ℕ) → in_window window at xs ≤ length xs
  in_window-le at [] = omega arith
  in_window-le at (x ∷ xs) = let h = in_window-le at xs in ground (arith, h)

  -- What has left the window at one time is not in it later.
  in_window-expire :
      (now at : ℕ) (xs : List ℕ)
      → now ≤ at
      → in_window window at (expire now window xs) ≡ in_window window at xs
  in_window-expire now at [] le = refl
  in_window-expire now at (t ∷ xs) le = elim (Bool-cases (ltb (t + window) now)) [
    | inl old ↦
        let gone : leb at (t + window) ≡ false = ground (arith, old, le) in
        let h = in_window-expire now at xs le in rw old (ground (arith, gone, h))
    | inr new ↦ rw new refl
  ]

  All-in_window :
      (now : ℕ) (xs : List ℕ)
      → All (λ t. t ≤ now) xs
      → All (λ t. now ≤ t + window) xs
      → length xs ≡ in_window window now xs
  All-in_window now [] h k = refl
  All-in_window now (t ∷ xs) (h, hs) (k, ks) =
      let e = All-in_window now xs hs ks in
      let first : leb t now ≡ true = ground (arith, h) in
      let second : leb now (t + window) ≡ true = ground (arith, k) in
      rw first (rw second (omega (arith, e)))

  -- What is left of a bucket in order is what lies in the window.
  expire-in_window :
      (now : ℕ) (bucket : List ℕ)
      → IsSorted bucket
      → All (λ t. t ≤ now) bucket
      → length (expire now window bucket) ≡ in_window window now bucket
  expire-in_window now [] h k = refl
  expire-in_window now (t ∷ bucket) (h, hs) (k, ks) = elim (Bool-cases (ltb (t + window) now)) [
    | inl old ↦
        let gone : leb now (t + window) ≡ false = ground (arith, old) in
        let e = expire-in_window now bucket hs ks in rw old (ground (arith, gone, e))
    | inr new ↦
        let first : now ≤ t + window = ground (arith, new) in
        rw new (
          All-in_window now (t ∷ bucket) (k, ks)
            (
              first,
              All-weaken (λ u. t ≤ u) (λ u. now ≤ u + window) bucket
                  (λ u le. omega (arith, le, first)) h,
            ))
  ]

module _ (settings : Settings) where
  abbrev window_of : ℕ
  window_of = settings.rate_limit_window_seconds

  -- A request is allowed exactly if it carries the configured key and fewer than the allowed number
  -- of this key's logged requests lie in the window that ends now, for a log in order, at a time that
  -- is no earlier than the log.
  pub require_api_key-allowed :
      (before now : ℕ) (key : String) (requests : RequestLog)
      → before ≤ now
      → IsLog settings before requests
      → ((require_api_key settings now (some key) requests).0 ≡ allowed) ↔ (
          (key ≡ settings.api_key)
          × (in_window settings.rate_limit_window_seconds now (requests key)
              < settings.rate_limit_max_requests))
  unfolding require_api_key check_rate_limit
  require_api_key-allowed before now key requests le h =
      let n = length (expire now window_of (requests key)) in
      let log = later-IsLog settings before now requests le h key in
      let e : n ≡ in_window window_of now (requests key) =
        expire-in_window window_of now (requests key) log.0 log.1 in
      (
        λ ok. elim (Bool-cases (str_eq key settings.api_key)) [
          | inl known ↦ elim (Bool-cases (leb settings.rate_limit_max_requests n)) [
            | inl full ↦
                let f : (require_api_key settings now (some key) requests).0 ≡ too_many =
                  rw known (rw full refl) in
                absurd (ground (arith, f, ok))
            | inr room ↦ ((eq_iff key settings.api_key).0 known, ground (arith, room, e))
          ]
          | inr other ↦
              let f : (require_api_key settings now (some key) requests).0 ≡ unauthorized =
                rw other refl in
              absurd (ground (arith, f, ok))
        ],
        λ (same, few).
            let known : str_eq key settings.api_key ≡ true = (eq_iff key settings.api_key).1 same in
            let lt : n < settings.rate_limit_max_requests = omega (arith, e, few) in
            let room : leb settings.rate_limit_max_requests n ≡ false = ground (arith, lt) in
            rw known (rw room refl),
      )

  -- The times of the allowed requests, newest first, behind one with that verdict.
  abbrev noted : Verdict → ℕ → List ℕ → List ℕ
  noted allowed now history = now ∷ history
  noted _ now history = history

  -- Requests one after another, each with its time and the key that it carries, if it carries one.
  -- What comes out is the times of those that were allowed, newest first.
  abbrev pub granted : List ℕ → List (ℕ × Option String) → RequestLog → List ℕ
  granted history [] requests = history
  granted history ((now, key) ∷ more) requests =
      let (verdict, requests') = require_api_key settings now key requests in
      granted (noted verdict now history) more requests'

  -- The times of the requests never go back.
  abbrev pub InOrder : ℕ → List (ℕ × Option String) → Type 0
  InOrder before [] = Unit
  InOrder before ((now, key) ∷ more) = (before ≤ now) × InOrder now more

  -- What the log and the history have in common: from now on, the key's bucket stands for the
  -- history, and no window holds too much of it.
  record Keeps (before : ℕ) (history : List ℕ) (requests : RequestLog) : Type 0 where
    log : IsLog settings before requests
    stands :
        (at : ℕ)
        → before ≤ at
        → in_window window_of at history ≡ in_window window_of at (requests settings.api_key)
    few : (at : ℕ) → in_window window_of at history ≤ settings.rate_limit_max_requests

  later-Keeps :
      (before now : ℕ) (history : List ℕ) (requests : RequestLog)
      → before ≤ now
      → Keeps before history requests
      → Keeps now history requests
  later-Keeps before now history requests le k = record {
    log = later-IsLog settings before now requests le k.log;
    stands = λ at later. k.stands at (omega (arith, le, later));
    few = k.few;
  }

  -- A request with the key.
  checked-Keeps :
      (now : ℕ) (history : List ℕ) (requests : RequestLog)
      → Keeps now history requests
      → let (verdict, requests') = check_rate_limit settings now settings.api_key requests in
        IsLog settings now requests' → Keeps now (noted verdict now history) requests'
  unfolding check_rate_limit
  checked-Keeps now history requests k =
      let key = settings.api_key in
      let bucket = expire now window_of (requests key) in
      let stood : (at : ℕ)
          → now ≤ at
          → in_window window_of at history ≡ in_window window_of at bucket =
        λ at later.
          k.stands at later ∙ sym (in_window-expire window_of now at (requests key) later) in
      elim (Bool-cases (leb settings.rate_limit_max_requests (length bucket))) [
        | inl full ↦ rw full (λ log. record {
          log = log;
          stands = λ at later. rw (eq_refl key) (stood at later);
          few = k.few;
        })
        | inr room ↦ rw room (λ log. record {
          log = log;
          stands = λ at later.
              rw (eq_refl key)
                (omega (arith, stood at later, in_window-append window_of at bucket (now ∷ [])));
          few = λ at. elim (Bool-cases (leb now at)) [
            | inl later ↦
                let le : now ≤ at = ground (arith, later) in
                let bound = in_window-le window_of at bucket in
                let same = stood at le in
                let less : length bucket < settings.rate_limit_max_requests =
                  ground (arith, room) in
                let one = in_window-le window_of at (now ∷ []) in
                omega (arith, bound, same, less, one)
            | inr earlier ↦ rw earlier (omega (arith, k.few at))
          ];
        })
      ]

  request-Keeps :
      (now : ℕ) (key : Option String) (history : List ℕ) (requests : RequestLog)
      → Keeps now history requests
      → let (verdict, requests') = require_api_key settings now key requests in
        Keeps now (noted verdict now history) requests'
  unfolding require_api_key
  request-Keeps now none history requests k = k
  request-Keeps now (some key) history requests k =
      elim (Bool-cases (str_eq key settings.api_key)) [
        | inl known ↦
            let e : settings.api_key ≡ key = sym ((eq_iff key settings.api_key).0 known) in
            subst
              (λ x.
                let (verdict, requests') = require_api_key settings now (some x) requests in
                Keeps now (noted verdict now history) requests')
              e
              (rw (eq_refl settings.api_key) (
                checked-Keeps now history requests k
                  (check-IsLog settings now settings.api_key requests k.log)))
        | inr other ↦ rw other k
      ]

  granted-few :
      (before : ℕ) (history : List ℕ) (served : List (ℕ × Option String)) (requests : RequestLog)
      (at : ℕ)
      → InOrder before served
      → Keeps before history requests
      → in_window window_of at (granted history served requests) ≤ settings.rate_limit_max_requests
  granted-few before history [] requests at ordered k = k.few at
  granted-few before history ((now, key) ∷ more) requests at (le, ordered) k =
      let (verdict, requests') = require_api_key settings now key requests in
      granted-few now (noted verdict now history) more requests' at ordered
        (request-Keeps now key history requests (later-Keeps before now history requests le k))

  -- The rate limit limits: from an empty log, over any sequence of requests with any keys, whose times
  -- never go back, no window of the configured length holds more than the allowed number of the
  -- requests that were let through, whenever it ends.
  pub granted-in_window :
      (served : List (ℕ × Option String)) (at : ℕ)
      → InOrder 0 served
      → in_window settings.rate_limit_window_seconds at (granted [] served (λ _. []))
        ≤ settings.rate_limit_max_requests
  granted-in_window served at ordered =
      granted-few 0 [] served (λ _. []) at ordered
        (record {
          log = λ _. (tt, tt, omega arith);
          stands = λ at later. refl;
          few = λ at. omega arith;
        })
