-- ===== src/Usage/Fetch/Retry.antt =====
-- How often an adapter is asked.
use quotio_cli.Base.{
  ℕ, suc, zero, ◌+◌, ◌≤◌, ◌<◌, ◌≡◌, ◌≢◌, ◌⊎◌, refl, Bool, true, false, arith, ok, err, Bool-cases,
  inl, inr, ap, sym, ◌∙◌,
}
use quotio_cli.Accounts.Credential.{transient}
use quotio_cli.Usage.{Float}
use quotio_cli.Usage.Fetch.{Answer, work, attempts, is_retried}

module _ {Fl : Float} (idempotent : Bool) (fetch : ℕ → Answer Fl) where
  -- From attempt `first` on there were `n` attempts, at most `most`, the last with answer `r`.
  pub record IsStopped (first most n : ℕ) (r : Answer Fl) : Type 0 where
    pub some_attempt : 1 ≤ n
    pub few : n ≤ most
    pub last : (k : ℕ) → k + 1 ≡ n → r ≡ fetch (first + k)
    pub again : (k : ℕ) → k + 1 < n → (idempotent ≡ true) × (fetch (first + k) ≡ err transient)
    pub enough : n < most → (idempotent ≡ false) ⊎ (r ≢ err transient)

  fetch_at : (first k m : ℕ) → m ≡ first + k → fetch m ≡ fetch (first + k)
  fetch_at first k m h = ap fetch h

  one-IsStopped :
      (attempt most : ℕ)
      → 1 ≤ most
      → (1 < most → (idempotent ≡ false) ⊎ (fetch attempt ≢ err transient))
      → IsStopped attempt most 1 (fetch attempt)
  one-IsStopped attempt most h enough = record {
    some_attempt = omega arith;
    few = h;
    last = λ k e. fetch_at attempt k attempt (omega arith);
    again = λ k e. absurd (omega arith);
    enough = enough;
  }

  module _ (attempt most n : ℕ) (r : Answer Fl) (h : IsStopped (attempt + 1) most n r) where
    next-last : (k : ℕ) → k + 1 ≡ n + 1 → r ≡ fetch (attempt + k)
    next-last zero e = absurd (omega (arith, h.some_attempt))
    next-last (suc k) e = h.last k (omega arith) ∙ fetch_at attempt (suc k) _ (omega arith)

    next-again :
        idempotent ≡ true
        → fetch attempt ≡ err transient
        → (k : ℕ) → k + 1 < n + 1
        → (idempotent ≡ true) × (fetch (attempt + k) ≡ err transient)
    next-again can failed zero e = (can, sym (fetch_at attempt 0 attempt (omega arith)) ∙ failed)
    next-again can failed (suc k) e =
        let (again, f) = h.again k (omega arith) in
        (again, sym (fetch_at attempt (suc k) _ (omega arith)) ∙ f)

    -- One more attempt before the others.
    next-IsStopped :
        (every : ℕ)
        → every ≡ most + 1
        → idempotent ≡ true
        → fetch attempt ≡ err transient
        → IsStopped attempt every (n + 1) r
    next-IsStopped every same can failed = record {
      some_attempt = omega arith;
      few = omega (arith, h.few);
      last = next-last;
      again = next-again can failed;
      enough = λ e. h.enough (omega arith);
    }

  not_retried :
      (attempt : ℕ) (r : Answer Fl)
      → attempt < 2
      → is_retried idempotent attempt r ≡ false
      → (idempotent ≡ false) ⊎ (r ≢ err transient)
  not_retried attempt r small h = elim (Bool-cases idempotent) [
    | inr once ↦ inl once
    | inl can ↦ inr (λ failed. absurd (ground (arith, rw (can, failed) at h)))
  ]

  can_retry :
      (attempt : ℕ) → is_retried idempotent attempt (fetch attempt) ≡ true → idempotent ≡ true
  can_retry attempt h = ground arith

  failed_at :
      (attempt : ℕ) (r : Answer Fl) → is_retried idempotent attempt r ≡ true → r ≡ err transient
  failed_at attempt (err transient) h = refl
  failed_at attempt (err e) h = absurd (ground arith)
  failed_at attempt (ok u) h = absurd (ground arith)

  attempts-IsStopped :
      (left attempt : ℕ)
      → left + attempt ≡ 2
      → let (r, n) = attempts idempotent fetch left attempt in IsStopped attempt (1 + left) n r
  unfolding attempts
  attempts-IsStopped zero attempt h =
      one-IsStopped attempt 1 (omega arith) (λ e. absurd (omega arith))
  attempts-IsStopped (suc left) attempt h =
      elim (Bool-cases (is_retried idempotent attempt (fetch attempt))) [
        | inr stop ↦ rw stop (
            one-IsStopped attempt _ (omega arith)
              (λ e. not_retried attempt (fetch attempt) (omega arith) stop))
        | inl go ↦ rw go (
            next-IsStopped attempt (1 + left) _ _
              (attempts-IsStopped left (attempt + 1) (omega arith)) _ (omega arith)
              (can_retry attempt go) (failed_at attempt (fetch attempt) go))
      ]

  -- The loop of a provider asks its adapter from once to three times, and gives the last answer.
  -- Each answer before it was a transient failure of an idempotent adapter; and if there were
  -- fewer than three, the adapter is not idempotent or the last answer is not a transient
  -- failure.
  pub work-stops :
      let (r, n) = work idempotent fetch in
      (1 ≤ n)
      × (n ≤ 3)
      × ((k : ℕ) → k + 1 ≡ n → r ≡ fetch k)
      × ((k : ℕ) → k + 1 < n → (idempotent ≡ true) × (fetch k ≡ err transient))
      × (n < 3 → (idempotent ≡ false) ⊎ (r ≢ err transient))
  unfolding work
  work-stops =
      let h = attempts-IsStopped 2 0 (omega arith) in
      (
        h.some_attempt,
        h.few,
        λ k e. h.last k e ∙ sym (fetch_at 0 k k (omega arith)),
        λ k e. ((h.again k e).0, fetch_at 0 k k (omega arith) ∙ (h.again k e).1),
        h.enough,
      )
