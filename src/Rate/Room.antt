-- ===== src/Rate/Room.antt =====
-- A call for which every counter has room.
use arctic_rss.Prelude.{
  ℕ, suc, ◌+◌, ◌<◌, ◌≡◌, refl, ◌∙◌, ap, false, List, [], ◌∷◌, ltb, ◌==◌, Text, text_eq, arith,
  branch,
}
use arctic_rss.Rate.Rules.{Rule}
use arctic_rss.Rate.{
  Commands, count_of, Fate, answered, Attempt, allowed, increment_with_expiry, enforce_rules,
  enforce_rate_limit,
}
use arctic_rss.Rate.Store.{IsRedis}
use arctic_rss.Rate.Window.{rules_of}

-- No rule of the list counts under the key.
abbrev IsApart : Text → List (Rule × Text) → Type 0
IsApart k [] = Unit
IsApart k ((rule, key) ∷ rules) = (text_eq key k ≡ false) × IsApart k rules

abbrev pub IsDistinct : List (Rule × Text) → Type 0
IsDistinct [] = Unit
IsDistinct ((rule, key) ∷ rules) = IsApart key rules × IsDistinct rules

module _ (State : Type 0) (redis : Commands State) where
  -- The count of each rule is below its limit.
  abbrev HasRoom : ℕ → List (Rule × Text) → State → Type 0
  HasRoom now [] s = Unit
  HasRoom now ((rule, key) ∷ rules) s =
      (count_of (redis.entry now key s) < rule.limit) × HasRoom now rules s

  module _ (laws : IsRedis State redis) where
    increment-apart :
        (now : ℕ) (k other : Text) (window : ℕ) (s : State)
        → text_eq other k ≡ false
        → redis.entry now other (increment_with_expiry State redis now k window s).0
          ≡ redis.entry now other s
    unfolding increment_with_expiry
    increment-apart now k other window s apart =
        let counted = (redis.incr now k s).0 in
        let same = laws.incr_other now k other s apart in
        branch (λ x. redis.entry now other x ≡ redis.entry now other s)
          ((redis.incr now k s).1 == 1)
          (λ _. laws.pexpire_other now k other window counted apart ∙ same) (λ _. same)

    increment-HasRoom :
        (now : ℕ) (k : Text) (window : ℕ) (rules : List (Rule × Text)) (s : State)
        → IsApart k rules
        → HasRoom now rules s
        → HasRoom now rules (increment_with_expiry State redis now k window s).0
    increment-HasRoom now k window [] s apart room = tt
    increment-HasRoom now k window ((rule, key) ∷ rules) s (apart, more) (room, rooms) =
        let same = ap count_of (increment-apart now k key window s apart) in
        (rw same room, increment-HasRoom now k window rules s more rooms)

    increment-count :
        (now : ℕ) (k : Text) (window : ℕ) (s : State)
        → (increment_with_expiry State redis now k window s).1.0
          ≡ suc (count_of (redis.entry now k s))
    unfolding increment_with_expiry
    increment-count now k window s = laws.incr_count now k s

    enforce_rules-allowed :
        (now : ℕ) (fates : ℕ → Fate) (i : ℕ) (rules : List (Rule × Text)) (s : State)
        → ((j : ℕ) → fates j ≡ answered)
        → IsDistinct rules
        → HasRoom now rules s
        → (enforce_rules State redis now fates i rules s).1 ≡ allowed
    unfolding enforce_rules
    enforce_rules-allowed now fates i [] s all_answered distinct room = refl
    enforce_rules-allowed now fates i ((rule, key) ∷ rules) s all_answered (apart, distinct)
          (room, rooms) =
        let after = (increment_with_expiry State redis now key rule.window_ms s).0 in
        let count = increment-count now key rule.window_ms s in
        let under : ltb rule.limit (increment_with_expiry State redis now key rule.window_ms s).1.0
            ≡ false =
          ground (arith, count, room) in
        let later =
          enforce_rules-allowed now fates (i + 1) rules after all_answered distinct
            (increment-HasRoom now key rule.window_ms rules s apart rooms) in
        rw (enforce_rules, all_answered i, under) later

    -- A call that some rule applies to is allowed, if the rules count under different keys, each count is
    -- below the limit, every evaluation is answered, and the store behaves as documented.
    pub enforce_rate_limit-allowed :
        (to_lower_case hash_identifier : Text → Text) (a : Attempt) (s : State) (r : Rule × Text)
        (rs : List (Rule × Text))
        → rules_of to_lower_case hash_identifier a ≡ r ∷ rs
        → ((j : ℕ) → a.fates j ≡ answered)
        → IsDistinct (r ∷ rs)
        → HasRoom a.now (r ∷ rs) s
        → (enforce_rate_limit to_lower_case hash_identifier State redis a s).1 ≡ allowed
    unfolding enforce_rate_limit
    enforce_rate_limit-allowed to_lower_case hash_identifier a s r rs e all_answered distinct room =
        rw (enforce_rate_limit, e)
          (enforce_rules-allowed a.now a.fates 0 (r ∷ rs) s all_answered distinct room)
