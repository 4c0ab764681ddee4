-- ===== src/Connection/Backoff.antt =====
-- The retry loop of peat-sapient/src/connection.rs: when it returns, and how long it sleeps.
use peat_sapient.Base.{
  ℕ, zero, suc, ◌+◌, ◌*◌, ◌^◌, ◌<◌, ◌≡◌, ◌⊎◌, inl, inr, ◌∙◌, refl, some, List, [], ◌∷◌, arith, ltb,
  if◌then◌else◌, ap,
}
use peat_sapient.Error.{SapientError, Result, ok, err}
use peat_sapient.Connection.{
  Outcome, done, failed, duration_end, ReconnectConfig, connected, retrying, connect, slept,
  next_delay, retry_loop, connect_with_retry,
}
use native.Mathlib.Nat.{pow-suc}

abbrev pub min : ℕ → ℕ → ℕ
min a b = if ltb b a then b else a

-- The sleep after the `n`-th failure: the initial delay doubled each time, up to the maximum; the
-- first one is not bounded by the maximum.
abbrev pub wait : ReconnectConfig → ℕ → ℕ
wait config zero = config.initial_delay
wait config (suc n) = min (config.initial_delay * 2 ^ suc n) config.max_delay

-- The sleeps after the failures from the `n`-th on, `k` of them.
abbrev pub waits : ReconnectConfig → ℕ → ℕ → List ℕ
waits config n zero = []
waits config n (suc k) = wait config n ∷ waits config (suc n) k

abbrev pub Fits : ReconnectConfig → Type 0
Fits config = (config.initial_delay * 2 < duration_end) × (config.max_delay * 2 < duration_end)

min_double : (a m : ℕ) → min (min a m * 2) m ≡ min (a * 2) m
min_double a m = ground arith

double : (i p : ℕ) → i * (p * 2) ≡ i * p * 2
double i p = grind arith

pow_step : (i n : ℕ) → i * 2 ^ suc n ≡ i * 2 ^ n * 2
pow_step i n = rw (pow-suc 2 n) (double i (2 ^ n))

next_delay-wait :
    (config : ReconnectConfig) (n : ℕ)
    → Fits config
    → next_delay config (wait config n) ≡ some (wait config (suc n))
unfolding next_delay
next_delay-wait config zero h = ground arith
next_delay-wait config (suc n) h =
    rw (pow_step config.initial_delay (suc n))
      (ground (arith, min_double (config.initial_delay * 2 ^ suc n) config.max_delay))

abbrev pub IsErr : {A : Type 0} → Result A → Type 0
IsErr (ok a) = ⊥
IsErr (err e) = Unit

Result-cases :
    {A : Type 0} (r : Result A) → ((a : A) × (r ≡ ok a)) ⊎ ((e : SapientError) × (r ≡ err e))
Result-cases (ok a) = inl (a, refl)
Result-cases (err e) = inr (e, refl)

module _ {A : Type 0} (config : ReconnectConfig) (attempt : ℕ → Result A) where
  failing_round :
      (fuel i n : ℕ)
      → Fits config
      → IsErr (attempt i)
      → retry_loop config attempt (suc fuel) i (wait config n)
        ≡ slept (wait config n) (retry_loop config attempt fuel (i + 1) (wait config (suc n)))
  unfolding retry_loop
  failing_round fuel i n h f = elim (Result-cases (attempt i)) [
    | inl (a, e) ↦ absurd (rw e at f)
    | inr (x, e) ↦ rw (retry_loop, e) (rw (next_delay-wait config n h))
  ]

  retry_loop_returns :
      (framed : A) (k fuel i n : ℕ)
      → Fits config
      → ((j : ℕ) → j < k → IsErr (attempt (i + j)))
      → attempt (i + k) ≡ ok framed
      → k < fuel
      → retry_loop config attempt fuel i (wait config n) ≡ connected framed (waits config n k)
  unfolding slept retry_loop
  retry_loop_returns framed k zero i n h before returns more = elim more [ ]
  retry_loop_returns framed zero (suc fuel) i n h before returns more =
      let here : i + 0 ≡ i = omega arith in
      let now : attempt i ≡ ok framed = rw here at returns in rw (retry_loop, now)
  retry_loop_returns framed (suc k) (suc fuel) i n h before returns more =
      let here : i + 0 ≡ i = omega arith in
      let failing : IsErr (attempt i) = rw here at (before 0 (omega arith)) in
      let later : (j : ℕ) → j < k → IsErr (attempt (i + 1 + j)) = λ j l.
        let e : i + suc j ≡ i + 1 + j = omega arith in rw e at (before (suc j) (omega arith)) in
      let e : i + suc k ≡ i + 1 + k = omega arith in
      let last : attempt (i + 1 + k) ≡ ok framed = rw e at returns in
      failing_round fuel i n h failing
      ∙ ap (slept (wait config n))
          (retry_loop_returns framed k fuel (i + 1) (suc n) h later last (omega arith))
      ∙ refl

  -- While every attempt fails the loop goes on, whatever its fuel, and sleeps as long each time.
  retry_loop_goes_on :
      (fuel i n : ℕ)
      → Fits config
      → ((j : ℕ) → IsErr (attempt j))
      → retry_loop config attempt fuel i (wait config n) ≡ retrying (waits config n fuel)
  unfolding retry_loop slept
  retry_loop_goes_on zero i n h failing = refl
  retry_loop_goes_on (suc fuel) i n h failing =
      failing_round fuel i n h (failing i)
      ∙ ap (slept (wait config n)) (retry_loop_goes_on fuel (i + 1) (suc n) h failing)

abbrev pub IsFailed : {A : Type 0} → Outcome A → Type 0
IsFailed (done a) = ⊥
IsFailed (failed e) = Unit

IsFailed-connect : {A : Type 0} (o : Outcome A) → IsFailed o → IsErr (connect o)
unfolding connect
IsFailed-connect (done _) h = elim h [ ]
IsFailed-connect (failed e) h = tt

module _ {A : Type 0} where
  -- Where the first `k` dials fail and the next succeeds, and doubling the delays of the policy does
  -- not overflow, more than `k` rounds of `connect_with_retry` are enough: it returns that
  -- connection, after one sleep for each failure, the initial delay first and then the initial delay
  -- doubled as often as there were failures before, up to the maximum.
  pub connect_with_retry-returns :
      (dial : ℕ → Outcome A) (config : ReconnectConfig) (k fuel : ℕ) (stream : A)
      → Fits config
      → ((j : ℕ) → j < k → IsFailed (dial j))
      → dial k ≡ done stream
      → k < fuel
      → connect_with_retry dial config fuel ≡ connected stream (waits config 0 k)
  unfolding connect_with_retry connect
  connect_with_retry-returns dial config k fuel stream h before returns more =
      let zero_add : (j : ℕ) → 0 + j ≡ j = λ j. omega arith in
      retry_loop_returns config (λ i. connect (dial i)) stream k fuel 0 0 h
        (λ j l. IsFailed-connect (dial (0 + j)) (rw (zero_add j) (before j l)))
        (rw (zero_add k, returns)) more
