-- ===== src/RateLimit/Burst.antt =====
-- How many detections the limiter of peat-sapient/src/rate_limit.rs lets through at once.
use peat_sapient.Base.{
  ℕ, zero, suc, ◌-◌, ◌^◌, ◌≤◌, ◌<◌, String, Bool, true, false, ◌≡◌, refl, sym, ap, ◌∙◌, ◌⊎◌, List,
  [], ◌∷◌, arith, leb, All, le→leb, eq_refl, none, some, if◌then◌else◌, Bool-cases, inl, inr,
}
use native.Mathlib.Nat.{le_refl}
use peat_sapient.Float.{Float}
use peat_sapient.RateLimit.{
  RateLimitConfig, TokenBucket, DetectionLimiter, new_bucket, refilled, try_consume, new, check,
}
use peat_sapient.RateLimit.Isolation.{Check, answers, private_answers, calls_of, answers-isolated}

-- What IEEE 754 says of the doubles of integers below 2^32: they are exact, and so are the sums,
-- differences, products and orders of them that a bucket computes while no time passes.
pub record ExactIntegers (fl : Float) (rate : fl.F64) : Type 0 where
  pub no_time : fl.as_secs_f64 0 ≡ fl.decimal 0 0
  pub no_refill : fl.mul (fl.decimal 0 0) rate ≡ fl.decimal 0 0
  pub add_zero : (n : ℕ) → n < 2 ^ 32 → fl.add (fl.decimal n 0) (fl.decimal 0 0) ≡ fl.decimal n 0
  pub sub_one :
      (n : ℕ) → suc n < 2 ^ 32 → fl.sub (fl.decimal (suc n) 0) (fl.decimal 1 0) ≡ fl.decimal n 0
  pub min_le :
      (m n : ℕ) → m ≤ n → n < 2 ^ 32 → fl.min (fl.decimal m 0) (fl.decimal n 0) ≡ fl.decimal m 0
  pub le_one : (n : ℕ) → n < 2 ^ 32 → fl.le (fl.decimal 1 0) (fl.decimal n 0) ≡ leb 1 n

-- `n` times yes, then no.
abbrev pub first : ℕ → ℕ → List Bool
first n zero = []
first zero (suc k) = false ∷ first zero k
first (suc n) (suc k) = true ∷ first n k

-- `k` calls for one node at one time.
abbrev pub calls_at : ℕ → String → ℕ → List Check
calls_at t j zero = []
calls_at t j (suc k) = record { made = t; now = t; node_id = j } ∷ calls_at t j k

module _ (fl : Float) (rate : fl.F64) (exact : ExactIntegers fl rate) (cap : ℕ)
    (small : cap < 2 ^ 32) where
  -- A bucket of `n` tokens that was last read at `t`.
  bucket : ℕ → ℕ → TokenBucket fl
  bucket t n = record {
    tokens = fl.decimal n 0;
    capacity = fl.decimal cap 0;
    refill_rate = rate;
    last_check = t;
  }

  refilled-now : (t n : ℕ) → n ≤ cap → refilled fl t (bucket t n) ≡ fl.decimal n 0
  unfolding refilled bucket
  refilled-now t n h =
      let e : t - t ≡ 0 = omega arith in
      rw (refilled, e, exact.no_time, exact.no_refill, exact.add_zero n (omega arith))
        (exact.min_le n cap h small)

  try_consume-zero : (t : ℕ) → try_consume fl t (bucket t 0) ≡ (bucket t 0, false)
  unfolding try_consume bucket
  try_consume-zero t = rw (refilled-now t 0 (omega arith), exact.le_one 0 (omega arith))

  try_consume-suc :
      (t n : ℕ) → suc n ≤ cap → try_consume fl t (bucket t (suc n)) ≡ (bucket t n, true)
  unfolding try_consume bucket
  try_consume-suc t n h = rw (
    refilled-now t (suc n) h,
    exact.le_one (suc n) (omega arith),
    le→leb 1 (suc n) (omega arith),
    exact.sub_one n (omega arith),
  )

  private-first :
      (config : RateLimitConfig fl) (t : ℕ) (j : String) (k n : ℕ)
      → n ≤ cap
      → private_answers fl config (some (bucket t n)) (calls_at t j k) ≡ first n k
  unfolding private_answers
  private-first config t j zero n h = refl
  private-first config t j (suc k) zero h =
      rw (try_consume-zero t) (ap (◌∷◌ false) (private-first config t j k zero h))
  private-first config t j (suc k) (suc n) h =
      rw (try_consume-suc t n h) (ap (◌∷◌ true) (private-first config t j k n (omega arith)))

calls_of-calls_at : (t : ℕ) (j : String) (k : ℕ) → calls_of j (calls_at t j k) ≡ calls_at t j k
calls_of-calls_at t j zero = refl
calls_of-calls_at t j (suc k) =
    rw (eq_refl j) (ap (◌∷◌ (record { made = t; now = t; node_id = j })) (calls_of-calls_at t j k))

module _ (fl : Float) where
  answers-off :
      (j : String) (l : DetectionLimiter fl) (cs : List Check)
      → l.enabled ≡ false
      → All (λ b. b ≡ true) (answers fl j l cs)
  unfolding answers check
  answers-off j l [] off = tt
  answers-off j l (c ∷ cs) off =
      let pass : check fl c.made c.now c.node_id l ≡ (l, true) = ground arith in
      ground (arith, pass, answers-off j l cs off)

  fresh-first :
      (config : RateLimitConfig fl) (t : ℕ) (j : String) (k : ℕ)
      → ExactIntegers fl config.max_per_second
      → config.burst_size < 2 ^ 32
      → private_answers fl config none (calls_at t j k) ≡ first config.burst_size k
  unfolding private_answers new_bucket bucket
  fresh-first config t j zero exact small = refl
  fresh-first config t j (suc k) exact small =
      private-first fl config.max_per_second exact config.burst_size small config t j (suc k)
        config.burst_size (le_refl config.burst_size)

  off-first :
      (t : ℕ) (j : String) (l : DetectionLimiter fl) (k : ℕ)
      → l.enabled ≡ false
      → answers fl j l (calls_at t j k) ≡ first k k
  unfolding answers check
  off-first t j l zero off = refl
  off-first t j l (suc k) off =
      let pass : check fl t t j l ≡ (l, true) = ground arith in
      rw (pass, eq_refl j) (ap (◌∷◌ true) (off-first t j l k off))

  -- Calls for one node that was not heard of before, while no time passes: where the limiter is
  -- enabled, exactly the first `burst_size` detections get through, and where it is not, all do. The
  -- burst is below 2^32, and the numbers are exact on the integers below it.
  pub answers-burst :
      (config : RateLimitConfig fl) (t : ℕ) (j : String) (k : ℕ)
      → ExactIntegers fl config.max_per_second
      → config.burst_size < 2 ^ 32
      → answers fl j (new fl config) (calls_at t j k)
        ≡ (if (new fl config).enabled then first config.burst_size k else first k k)
  answers-burst config t j k exact small = elim (Bool-cases (new fl config).enabled) [
    | inl on ↦
        answers-isolated fl config j (calls_at t j k) on
        ∙ rw (calls_of-calls_at t j k) (fresh-first config t j k exact small)
        ∙ sym (ap (λ (b : Bool). if b then first config.burst_size k else first k k) on)
    | inr off ↦
        off-first t j (new fl config) k off
        ∙ sym (ap (λ (b : Bool). if b then first config.burst_size k else first k k) off)
  ]

  -- A rate that is not above zero, or a burst of zero, lets every detection of every node through.
  pub answers-disabled :
      (config : RateLimitConfig fl) (j : String) (cs : List Check)
      → (fl.lt (fl.decimal 0 0) config.max_per_second ≡ false) ⊎ (config.burst_size ≡ 0)
      → All (λ b. b ≡ true) (answers fl j (new fl config) cs)
  unfolding new
  answers-disabled config j cs off = answers-off j (new fl config) cs (ground arith)
