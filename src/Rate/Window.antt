-- ===== src/Rate/Window.antt =====
-- How many calls are allowed while a counter lasts.
use arctic_rss.Prelude.{
  ℕ, suc, ◌+◌, ◌-◌, ◌≤◌, ◌<◌, ◌≡◌, refl, ◌∙◌, ap, subst, inl, inr, Bool, true, false, some, List,
  [], ◌∷◌, ◌&&◌, ◌||◌, if◌then◌else◌, ltb, ◌==◌, Text, text_eq, text_eq_sound, arith, branch,
  Bool-cases,
}
use arctic_rss.Rate.Rules.{Rule, rate_limit_rules}
use arctic_rss.Rate.{
  Commands, count_of, Fate, answered, not_run, unanswered, Attempt, RateLimitResult, allowed,
  limited, unavailable, identifier_unavailable, applicable_rules, increment_with_expiry,
  enforce_rules, enforce_rate_limit,
}
use arctic_rss.Rate.Store.{IsRedis, deadline_of}

abbrev is_allowed : RateLimitResult → Bool
is_allowed allowed = true
is_allowed _ = false

-- A rule of this limit counts under the key.
abbrev charges : ℕ → Text → List (Rule × Text) → Bool
charges limit k [] = false
charges limit k ((rule, key) ∷ rules) =
    (text_eq k key && rule.limit == limit) || charges limit k rules

-- Each time is not before the last one, and before the deadline.
abbrev pub IsWithin : ℕ → ℕ → List Attempt → Type 0
IsWithin t d [] = Unit
IsWithin t d (a ∷ rest) = (t ≤ a.now) × ((a.now < d) × IsWithin a.now d rest)

-- The rules that a call counts under.
abbrev pub rules_of : (Text → Text) → (Text → Text) → Attempt → List (Rule × Text)
rules_of to_lower_case hash_identifier a =
    applicable_rules to_lower_case hash_identifier a.input (rate_limit_rules a.input.action)

module _ (to_lower_case hash_identifier : Text → Text) (State : Type 0)
    (redis : Commands State) where
  -- The number of calls that are allowed among those that a rule of this limit counts under the key.
  abbrev pub allowed_calls : ℕ → Text → List Attempt → State → ℕ
  allowed_calls limit k [] s = 0
  allowed_calls limit k (a ∷ rest) s =
      let (after, r) = enforce_rate_limit to_lower_case hash_identifier State redis a s in
      (if charges limit k (rules_of to_lower_case hash_identifier a) && is_allowed r then 1 else 0)
      + allowed_calls limit k rest after

module _ (State : Type 0) (redis : Commands State) (laws : IsRedis State redis) where
  -- What a key with a deadline holds at a time.
  abbrev Holds : ℕ → Text → ℕ → ℕ → State → Type 0
  Holds now k count d s = redis.entry now k s ≡ some (record { count = count; deadline = some d })

  increment-same :
      (now : ℕ) (k : Text) (window c d : ℕ) (s : State)
      → 1 ≤ c
      → Holds now k c d s
      → (Holds now k (suc c) d (increment_with_expiry State redis now k window s).0)
        × ((increment_with_expiry State redis now k window s).1.0 ≡ suc c)
  unfolding increment_with_expiry
  increment-same now k window c d s positive h =
      let count : (redis.incr now k s).1 ≡ suc c =
        laws.incr_count now k s ∙ ap (λ o. suc (count_of o)) h in
      let old : ((redis.incr now k s).1 == 1) ≡ false = ground (arith, count, positive) in
      let holds : Holds now k (suc c) d (redis.incr now k s).0 =
        laws.incr_entry now k s
        ∙ ap (λ o. some (record { count = suc (count_of o); deadline = deadline_of o })) h in
      (rw old holds, count)

  increment-other :
      (now : ℕ) (k key : Text) (window c d : ℕ) (s : State)
      → text_eq k key ≡ false
      → Holds now k c d s
      → Holds now k c d (increment_with_expiry State redis now key window s).0
  unfolding increment_with_expiry
  increment-other now k key window c d s apart h =
      let counted = (redis.incr now key s).0 in
      let holds : Holds now k c d counted = laws.incr_other now key k s apart ∙ h in
      branch (λ x. Holds now k c d x) ((redis.incr now key s).1 == 1)
        (λ _. laws.pexpire_other now key k window counted apart ∙ holds) (λ _. holds)

  -- What a call leaves under the key, and what its being allowed says.
  record Left (now : ℕ) (k : Text) (c d limit : ℕ) (charged : Bool) (r : State × RateLimitResult)
      : Type 0 where
    pub count : ℕ
    pub holds : Holds now k count d r.0
    pub more : c ≤ count
    pub paid : charged ≡ true → is_allowed r.1 ≡ true → (suc c ≤ limit) × (suc c ≤ count)

  unpaid :
      (now : ℕ) (k : Text) (c d limit : ℕ) (charged : Bool) (s : State) (r : RateLimitResult)
      (count : ℕ)
      → Holds now k count d s
      → c ≤ count
      → is_allowed r ≡ false
      → Left now k c d limit charged (s, r)
  unpaid now k c d limit charged s r count h more refused = record {
    count = count;
    holds = h;
    more = more;
    paid = λ _ allows. absurd (ground (arith, allows, refused));
  }

  -- The three fates of one evaluation, and the two answers.
  round-Left :
      (now : ℕ) (k : Text) (c d limit : ℕ) (charged : Bool) (fate : Fate) (over : Bool)
      (x y z w : State × RateLimitResult)
      → Left now k c d limit charged x
      → Left now k c d limit charged y
      → (over ≡ true → Left now k c d limit charged z)
      → (over ≡ false → Left now k c d limit charged w)
      → Left now k c d limit charged (elim fate as (λ _. State × RateLimitResult) [
        | not_run ↦ x
        | unanswered ↦ y
        | answered ↦ if over then z else w
      ])
  round-Left now k c d limit charged not_run over x y z w a b f g = a
  round-Left now k c d limit charged unanswered over x y z w a b f g = b
  round-Left now k c d limit charged answered over x y z w a b f g =
      branch (Left now k c d limit charged) over f g

  enforce_rules-Left :
      (now : ℕ) (fates : ℕ → Fate) (i : ℕ) (rules : List (Rule × Text)) (k : Text) (c d limit : ℕ)
      (s : State)
      → 1 ≤ c
      → Holds now k c d s
      → Left now k c d limit (charges limit k rules) (enforce_rules State redis now fates i rules s)
  unfolding enforce_rules
  enforce_rules-Left now fates i [] k c d limit s positive h = record {
    count = c;
    holds = h;
    more = omega arith;
    paid = λ charged _. cc;
  }
  enforce_rules-Left now fates i ((rule, key) ∷ rules) k c d limit s positive h =
      let after = (increment_with_expiry State redis now key rule.window_ms s).0 in
      let count = (increment_with_expiry State redis now key rule.window_ms s).1.0 in
      elim (Bool-cases (text_eq k key)) [
        | inl same ↦
            let k_key = text_eq_sound k key same in
            let (holds, counted) =
              subst
                (λ q.
                  (Holds now k (suc c) d
                    (increment_with_expiry State redis now q rule.window_ms s).0)
                  × ((increment_with_expiry State redis now q rule.window_ms s).1.0 ≡ suc c))
                k_key (increment-same now k rule.window_ms c d s positive h) in
            let later =
              enforce_rules-Left now fates (i + 1) rules k (suc c) d limit after (omega arith)
                holds in
            let paid : ltb rule.limit count ≡ false
                → charges limit k ((rule, key) ∷ rules) ≡ true
                → is_allowed (enforce_rules State redis now fates (i + 1) rules after).1 ≡ true
                → (suc c ≤ limit) × (suc c ≤ later.count) =
              λ under charged allows. elim (Bool-cases (charges limit k rules)) [
                | inl again ↦
                    let (low, grown) = later.paid again allows in
                    (omega (arith, low), omega (arith, grown))
                | inr once ↦ (ground (arith, charged, once, under, counted), later.more)
              ] in
            round-Left now k c d limit _ (fates i) (ltb rule.limit count) _ _ _ _
              (unpaid now k c d limit _ s unavailable c h (omega arith) refl)
              (unpaid now k c d limit _ after unavailable (suc c) holds (omega arith) refl)
              (λ over.
                unpaid now k c d limit _ after (limited _ rule.scope) (suc c) holds (omega arith)
                  refl)
              (λ under. record {
                count = later.count;
                holds = later.holds;
                more = omega (arith, later.more);
                paid = paid under;
              })
        | inr other ↦
            let holds = increment-other now k key rule.window_ms c d s other h in
            let later =
              enforce_rules-Left now fates (i + 1) rules k c d limit after positive holds in
            round-Left now k c d limit _ (fates i) (ltb rule.limit count) _ _ _ _
              (unpaid now k c d limit _ s unavailable c h (omega arith) refl)
              (unpaid now k c d limit _ after unavailable c holds (omega arith) refl)
              (λ over.
                unpaid now k c d limit _ after (limited _ rule.scope) c holds (omega arith) refl)
              (λ under. record {
                count = later.count;
                holds = later.holds;
                more = later.more;
                paid = λ charged allows. later.paid (ground (arith, charged, other)) allows;
              })
      ]

  module _ (to_lower_case hash_identifier : Text → Text) where
    enforce_rate_limit-Left :
        (a : Attempt) (k : Text) (c d limit : ℕ) (s : State)
        → 1 ≤ c
        → Holds a.now k c d s
        → Left a.now k c d limit
            (charges limit k (rules_of to_lower_case hash_identifier a))
            (enforce_rate_limit to_lower_case hash_identifier State redis a s)
    unfolding enforce_rate_limit
    enforce_rate_limit-Left a k c d limit s positive h =
        go (rules_of to_lower_case hash_identifier a)
      where
        go :
            (rules : List (Rule × Text))
            → Left a.now k c d limit
                (charges limit k rules)
                (elim rules as (λ _. State × RateLimitResult) [
                  | [] ↦ (s, identifier_unavailable)
                  | r ∷ rs ↦ enforce_rules State redis a.now a.fates 0 (r ∷ rs) s
                ])
        go [] = record { count = c; holds = h; more = omega arith; paid = λ charged _. cc }
        go (r ∷ rs) = enforce_rules-Left a.now a.fates 0 (r ∷ rs) k c d limit s positive h

    -- While a counter that has been charged lasts, of the calls, one after the other, that a rule counts
    -- under its key, at most as many are allowed as its limit exceeds the count, whatever becomes of the
    -- evaluations, if the store behaves as documented.
    pub allowed_calls-bounded :
        (rest : List Attempt) (k : Text) (t c d limit : ℕ) (s : State)
        → 1 ≤ c
        → redis.entry t k s ≡ some (record { count = c; deadline = some d })
        → IsWithin t d rest
        → allowed_calls to_lower_case hash_identifier State redis limit k rest s ≤ limit - c
    allowed_calls-bounded [] k t c d limit s positive h w = omega arith
    allowed_calls-bounded (a ∷ rest) k t c d limit s positive h (since, (before, w)) =
        let now = laws.stays t a.now k c d s since before h in
        let left = enforce_rate_limit-Left a k c d limit s positive now in
        let after = (enforce_rate_limit to_lower_case hash_identifier State redis a s).0 in
        let later =
          allowed_calls-bounded rest k a.now left.count d limit after
            (omega (arith, positive, left.more)) left.holds w in
        elim (Bool-cases (
          charges limit k (rules_of to_lower_case hash_identifier a)
          && is_allowed (enforce_rate_limit to_lower_case hash_identifier State redis a s).1)) [
            | inl charged ↦
                let (low, grown) = left.paid (ground (arith, charged)) (ground (arith, charged)) in
                ground (arith, charged, later, low, grown)
            | inr other ↦ ground (arith, other, later, left.more)
          ]
