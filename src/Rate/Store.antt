-- ===== src/Rate/Store.antt =====
-- The documented behaviour of the commands, and a store that has it.
use arctic_rss.Prelude.{
  ℕ, suc, ◌+◌, ◌-◌, ◌≤◌, ◌<◌, ◌≡◌, refl, inl, inr, Bool, true, false, Option, none, some,
  if◌then◌else◌, ltb, Text, text_eq, text_eq_refl, arith, Bool-cases,
}
use arctic_rss.Rate.{Counter, Commands, count_of}

abbrev pub deadline_of : Option Counter → Option ℕ
deadline_of none = none
deadline_of (some c) = c.deadline

-- INCR counts from nothing or on, and keeps the expiry; PEXPIRE sets the expiry of a key that is there;
-- neither touches another key. A key that does not expire before a time stays until then.
pub record IsRedis (State : Type 0) (redis : Commands State) : Type 0 where
  pub incr_count :
      (now : ℕ) (k : Text) (s : State)
      → (redis.incr now k s).1 ≡ suc (count_of (redis.entry now k s))
  pub incr_entry :
      (now : ℕ) (k : Text) (s : State)
      → redis.entry now k (redis.incr now k s).0
        ≡ some (record {
          count = suc (count_of (redis.entry now k s));
          deadline = deadline_of (redis.entry now k s);
        })
  pub incr_other :
      (now : ℕ) (k other : Text) (s : State)
      → text_eq other k ≡ false
      → redis.entry now other (redis.incr now k s).0 ≡ redis.entry now other s
  pub pexpire_entry :
      (now : ℕ) (k : Text) (ms count : ℕ) (d : Option ℕ) (s : State)
      → 1 ≤ ms
      → redis.entry now k s ≡ some (record { count = count; deadline = d })
      → redis.entry now k (redis.pexpire now k ms s)
        ≡ some (record { count = count; deadline = some (now + ms) })
  pub pexpire_other :
      (now : ℕ) (k other : Text) (ms : ℕ) (s : State)
      → text_eq other k ≡ false
      → redis.entry now other (redis.pexpire now k ms s) ≡ redis.entry now other s
  pub stays :
      (now later : ℕ) (k : Text) (count d : ℕ) (s : State)
      → now ≤ later
      → later < d
      → redis.entry now k s ≡ some (record { count = count; deadline = some d })
      → redis.entry later k s ≡ some (record { count = count; deadline = some d })

-- The map from keys to counters, of which those past their deadline count as gone.
abbrev pub Table : Type 0
Table = Text → Option Counter

abbrev is_live : ℕ → Option Counter → Bool
is_live now none = false
is_live now (some c) = elim c.deadline [ none ↦ true | some d ↦ ltb now d ]

abbrev live : ℕ → Option Counter → Option Counter
live now o = if is_live now o then o else none

abbrev write : Text → Option Counter → Table → Table
write k o s = λ h. if text_eq h k then o else s h

abbrev counted : Option Counter → Counter
counted o = record { count = suc (count_of o); deadline = deadline_of o }

abbrev expiring : ℕ → Option Counter → Option Counter
expiring d none = none
expiring d (some c) = some (record c { deadline = some d })

abbrev pub table_commands : Commands Table
table_commands = record {
  entry = λ now k s. live now (s k);
  incr = λ now k s. (write k (some (counted (live now (s k)))) s, suc (count_of (live now (s k))));
  pexpire = λ now k ms s. write k (expiring (now + ms) (live now (s k))) s;
  pttl = λ now k s. elim (deadline_of (live now (s k))) [ none ↦ 0 | some d ↦ d - now ];
}

live-live :
    (now : ℕ) (o : Option Counter)
    → live now (some (counted (live now o))) ≡ some (counted (live now o))
live-live now none = refl
live-live now (some c) = elim (Bool-cases (is_live now (some c))) [
  | inl here ↦ rw (here, here) refl
  | inr gone ↦ rw gone refl
]

live-some : (now : ℕ) (o : Option Counter) (c : Counter) → live now o ≡ some c → o ≡ some c
live-some now o c e = elim (Bool-cases (is_live now o)) [
  | inl here ↦ rw here at e
  | inr gone ↦ ground (arith, e, gone)
]

pub table-IsRedis : IsRedis Table table_commands
table-IsRedis = record {
  incr_count = λ now k s. refl;
  incr_entry = λ now k s. rw (text_eq_refl k) (live-live now (s k));
  incr_other = λ now k other s apart. rw apart refl;
  pexpire_entry = λ now k ms count d s positive e.
      let whole : live now (some (record { count = count; deadline = some (now + ms) }))
          ≡ some (record { count = count; deadline = some (now + ms) }) =
        let before : ltb now (now + ms) ≡ true = ground (arith, positive) in rw before refl in
      rw (text_eq_refl k, e) whole;
  pexpire_other = λ now k other ms s apart. rw apart refl;
  stays = λ now later k count d s le lt e.
      let there = live-some now (s k) (record { count = count; deadline = some d }) e in
      let before : ltb later d ≡ true = ground (arith, lt) in rw (there, before) refl;
}
