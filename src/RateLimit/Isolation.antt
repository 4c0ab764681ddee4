-- ===== src/RateLimit/Isolation.antt =====
-- The buckets of peat-sapient/src/rate_limit.rs do not influence one another.
use peat_sapient.Base.{
  ℕ, String, Bool, true, ◌≡◌, refl, ap, Option, none, some, List, [], ◌∷◌, arith, str_eq, eq_iff,
  if◌then◌else◌, unwrap_or, inl, inr, Bool-cases,
}
use peat_sapient.Base.Dict
use peat_sapient.Base.Dict.{get-insert}
use peat_sapient.Float.{Float}
use peat_sapient.RateLimit.{
  RateLimitConfig, TokenBucket, DetectionLimiter, new_bucket, try_consume, new, check,
}

-- One call of `check`: the two readings of the clock, and the node.
pub record Check : Type 0 where
  pub made : ℕ
  pub now : ℕ
  pub node_id : String

abbrev pub calls_of : String → List Check → List Check
calls_of j [] = []
calls_of j (c ∷ cs) = if str_eq c.node_id j then c ∷ calls_of j cs else calls_of j cs

module _ (fl : Float) where
  -- The answers to the calls for node `j` among the calls of a history.
  unfoldable pub answers : String → DetectionLimiter fl → List Check → List Bool
  answers j l [] = []
  answers j l (c ∷ cs) =
      let (l', forward) = check fl c.made c.now c.node_id l in
      let rest = answers j l' cs in if str_eq c.node_id j then forward ∷ rest else rest

  -- The answers of a bucket of its own, made at the first call.
  unfoldable pub private_answers :
      RateLimitConfig fl → Option (TokenBucket fl) → List Check → List Bool
  private_answers config b [] = []
  private_answers config b (c ∷ cs) =
      let (b', forward) = try_consume fl c.now (unwrap_or (new_bucket fl c.made config) b) in
      forward ∷ private_answers config (some b') cs

  check-effect :
      (made now : ℕ) (k : String) (l : DetectionLimiter fl)
      → l.enabled ≡ true
      → let b =
          try_consume fl now (unwrap_or (new_bucket fl made l.config) (Dict.get k l.buckets)) in
        let l' = (check fl made now k l).0 in
        ((check fl made now k l).1 ≡ b.1)
        × (l'.enabled ≡ true)
        × (l'.config ≡ l.config)
        × ((j : String)
            → Dict.get j l'.buckets ≡ (if str_eq k j then some b.0 else Dict.get j l.buckets))
  unfolding check
  check-effect made now k l on = (
    ground arith,
    ground arith,
    ground arith,
    λ j. ground (
      arith,
      get-insert j k
          (try_consume fl now (unwrap_or (new_bucket fl made l.config) (Dict.get k l.buckets))).0
          l.buckets,
    ),
  )

  private-next :
      (c : Check) (cs : List Check) (config config' : RateLimitConfig fl)
      (o o' : Option (TokenBucket fl))
      → config' ≡ config
      → let b = try_consume fl c.now (unwrap_or (new_bucket fl c.made config) o) in
        o' ≡ some b.0 → private_answers config o (c ∷ cs) ≡ b.1 ∷ private_answers config' o' cs
  unfolding private_answers
  private-next c cs config config' o o' same next = rw (same, next)

  answers-private :
      (j : String) (l : DetectionLimiter fl) (cs : List Check)
      → l.enabled ≡ true
      → answers j l cs ≡ private_answers l.config (Dict.get j l.buckets) (calls_of j cs)
  unfolding answers private_answers
  answers-private j l [] on = refl
  answers-private j l (c ∷ cs) on =
      let l' = (check fl c.made c.now c.node_id l).0 in
      let (forward, on', config, got) = check-effect c.made c.now c.node_id l on in
      let ih = answers-private j l' cs on' in
      elim (Bool-cases (str_eq c.node_id j)) [
        | inl e ↦ rw e (
            cc (
              forward,
              ih,
              ap (λ i. Dict.get i l.buckets) ((eq_iff c.node_id j).0 e),
              private-next c (calls_of j cs) l.config l'.config (Dict.get c.node_id l.buckets)
                  (Dict.get j l'.buckets) config (rw e at (got j)),
            ))
        | inr e ↦ rw e (cc (ih, config, rw e at (got j)))
      ]

  -- While limiting is on, the answers that a node gets in any history of calls are those of a bucket
  -- of its own that sees only its calls: no other node takes its tokens.
  pub answers-isolated :
      (config : RateLimitConfig fl) (j : String) (cs : List Check)
      → (new fl config).enabled ≡ true
      → answers j (new fl config) cs ≡ private_answers config none (calls_of j cs)
  unfolding new Dict.get
  answers-isolated config j cs on = answers-private j (new fl config) cs on
