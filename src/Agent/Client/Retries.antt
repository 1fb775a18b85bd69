-- ===== src/Agent/Client/Retries.antt =====
-- `call_with_retries` of src/opspilot/agent/client.py ends, and makes at most `max_retries` + 1 calls.
use opspilot_sre_incident_re.Prelude.{
  ℕ, zero, suc, ◌+◌, ◌*◌, ◌≤◌, ◌<◌, ◌≡◌, refl, String, Option, some, List, [], ◌∷◌, arith, ltb,
  Bool-cases, ◌⊎◌, inl, inr,
}
use opspilot_sre_incident_re.Agent.Client.{
  Attempt, response, transient, failure, ChatFn, ChatRequest, slept, after_attempt, call_loop,
  call_with_retries,
}

module _ {S : Type 0} (chat_fn : ChatFn S) (request : ChatRequest) where
  -- `n` calls in a row that fail transiently, from one provider state to another.
  pub data Failures : ℕ → S → S → Type 0 where
    done : {s : S} → Failures zero s s
    again :
        {n : ℕ} {s t u : S} (e : String)
        → chat_fn request s ≡ (transient e, t)
        → Failures n t u
        → Failures (suc n) s u

-- The pauses before `n` further attempts, the first of them after `attempt` failures and one more.
pub pauses : ℕ → ℕ → ℕ → List ℕ
pauses backoff attempt zero = []
pauses backoff attempt (suc n) = backoff * (attempt + 1) ∷ pauses backoff (attempt + 1) n

-- An outcome that no retry follows.
abbrev pub IsFinal : Attempt → Type 0
IsFinal (transient e) = ⊥
IsFinal _ = Unit

-- How a run of the loop went: `failed` transient failures, and then the attempt that ended it.
pub record Ended {S : Type 0} (chat_fn : ChatFn S) (max_retries backoff : ℕ) (request : ChatRequest)
    (attempt : ℕ) (s : S) (result : Option (Attempt × List ℕ × S)) : Type 0 where
  pub failed : ℕ
  pub before : S
  pub after : S
  pub outcome : Attempt
  pub failures : Failures chat_fn request failed s before
  pub last : chat_fn request before ≡ (outcome, after)
  pub few : attempt + failed ≤ max_retries
  pub returned : result ≡ some (outcome, pauses backoff attempt failed, after)
  pub exhausted : IsFinal outcome ⊎ (attempt + failed ≡ max_retries)

module _ {S : Type 0} (chat_fn : ChatFn S) (max_retries backoff : ℕ) (request : ChatRequest) where
  abbrev EndsFrom : ℕ → ℕ → S → Type 0
  EndsFrom fuel attempt s =
      Ended chat_fn max_retries backoff request attempt s
        (call_loop chat_fn max_retries backoff request fuel attempt s)

  -- One more failure in front of a run that ended.
  again-Ended :
      (attempt : ℕ) (s t : S) (e : String) (r : Option (Attempt × List ℕ × S))
      → chat_fn request s ≡ (transient e, t)
      → Ended chat_fn max_retries backoff request (attempt + 1) t r
      → Ended chat_fn max_retries backoff request attempt s (slept (backoff * (attempt + 1)) r)
  unfolding slept pauses
  again-Ended attempt s t e r call h = record {
    failed = suc h.failed;
    before = h.before;
    after = h.after;
    outcome = h.outcome;
    failures = again e call h.failures;
    last = h.last;
    few = omega (arith, h.few);
    returned = rw (h.returned);
    exhausted = elim h.exhausted [ inl final ↦ inl final | inr w ↦ inr (omega (arith, w)) ];
  }

  -- An attempt that is not retried ends the run.
  stops-Ended :
      (attempt : ℕ) (s t : S) (o : Attempt)
      → attempt ≤ max_retries
      → IsFinal o ⊎ (attempt ≡ max_retries)
      → chat_fn request s ≡ (o, t)
      → Ended chat_fn max_retries backoff request attempt s (some (o, [], t))
  unfolding pauses
  stops-Ended attempt s t o few last_one call = record {
    failed = 0;
    before = s;
    after = t;
    outcome = o;
    failures = done;
    last = call;
    few = omega arith;
    returned = refl;
    exhausted = elim last_one [ inl final ↦ inl final | inr w ↦ inr (omega (arith, w)) ];
  }

  after_attempt-Ended :
      (attempt : ℕ) (s t : S) (o : Attempt) (retry : S → Option (Attempt × List ℕ × S))
      → attempt ≤ max_retries
      → chat_fn request s ≡ (o, t)
      → (attempt + 1 ≤ max_retries
          → Ended chat_fn max_retries backoff request (attempt + 1) t (retry t))
      → Ended chat_fn max_retries backoff request attempt s
          (after_attempt chat_fn max_retries backoff request attempt retry o t)
  unfolding after_attempt
  after_attempt-Ended attempt s t (response r) retry few call next =
      stops-Ended attempt s t (response r) few (inl tt) call
  after_attempt-Ended attempt s t (failure e) retry few call next =
      stops-Ended attempt s t (failure e) few (inl tt) call
  after_attempt-Ended attempt s t (transient e) retry few call next =
      elim (Bool-cases (ltb max_retries (attempt + 1))) [
        | inl last ↦ rw last (stops-Ended attempt s t (transient e) few (inr (ground arith)) call)
        | inr more ↦ rw more (again-Ended attempt s t e (retry t) call (next (ground arith)))
      ]

  loop-Ended :
      (fuel attempt : ℕ) (s : S)
      → attempt ≤ max_retries
      → max_retries < attempt + fuel
      → EndsFrom fuel attempt s
  unfolding call_loop
  loop-Ended zero attempt s few enough = absurd (omega arith)
  loop-Ended (suc fuel) attempt s few enough =
      let (o, t) = chat_fn request s in
      after_attempt-Ended attempt s t o
        (call_loop chat_fn max_retries backoff request fuel (attempt + 1)) few refl
        (λ more. loop-Ended fuel (attempt + 1) t more (omega arith))

  -- From every provider state the retry loop ends within its `max_retries` + 1 rounds: `failed`
  -- transient failures, at most `max_retries` of them and with a linearly growing pause behind
  -- each, and one more attempt, whose outcome is returned as it is. That outcome is itself a
  -- transient failure only when all `max_retries` retries are used up.
  pub call_with_retries-Ended :
      (s : S)
      → Ended chat_fn max_retries backoff request 0 s
          (call_with_retries chat_fn max_retries backoff request s)
  unfolding call_with_retries
  call_with_retries-Ended s = loop-Ended (suc max_retries) 0 s (omega arith) (omega arith)
