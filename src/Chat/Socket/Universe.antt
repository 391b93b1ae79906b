-- ===== src/Chat/Socket/Universe.antt =====
-- The rooms that a socket can come to hold: those it holds and those that it is about to join.
use arctic_rss.Prelude.{
  ℕ, zero, suc, ◌+◌, ◌-◌, ◌≤◌, ◌<◌, ◌≡◌, inl, inr, String, true, false, some, List, [], ◌∷◌, ◌++◌,
  length, arith, Option-cases, Bool-cases, str_eq,
}
use arctic_rss.Chat.Abuse.{AbuseSettings, has, is_room_limit_reached}
use arctic_rss.Chat.Socket.{
  Pending, SocketState, pick, add, delete, limited, resolving, clearing, checking, serving, joining,
  leaving,
}
use arctic_rss.Chat.Socket.Rooms.{
  IsDistinct, IsWithin, add-IsDistinct, delete-IsDistinct, add-IsWithin, delete-IsWithin,
  has-concat, length-concat, str_eq_sound, str_eq_refl,
}

-- The rooms that operations are about to join.
abbrev pub joining_rooms : List Pending → List String
joining_rooms [] = []
joining_rooms (joining room ∷ ps) = room ∷ joining_rooms ps
joining_rooms (_ ∷ ps) = joining_rooms ps

length-joining_rooms : (ps : List Pending) → length (joining_rooms ps) ≤ length ps
length-joining_rooms [] = omega arith
length-joining_rooms (p ∷ ps) = ground (arith, length-joining_rooms ps)

pub has-pick :
    (i : ℕ) (ps : List Pending) (r : String) {p : Pending} {rest : List Pending}
    → pick i ps ≡ some (p, rest)
    → has r (joining_rooms (p ∷ rest)) ≡ true
    → has r (joining_rooms ps) ≡ true
unfolding pick
has-pick i [] r h k = cc
has-pick zero (p ∷ ps) r h k = ground arith
has-pick (suc i) (p ∷ ps) r h k = elim (Option-cases (pick i ps)) [
  | inl e ↦ ground arith
  | inr ((q, qs), e) ↦ let l = has-pick i ps r e in ground (arith, l)
]

-- The rooms of the socket, and those about to be joined, are among a bounded number of rooms.
pub record IsBounded (settings : AbuseSettings) (joins rooms : List String) : Type 0 where
  pub universe : List String
  pub distinct : IsDistinct rooms
  pub rooms_within : IsWithin rooms universe
  pub joins_within : IsWithin joins universe
  pub bound :
      length universe ≤ settings.max_rooms_per_socket + (settings.max_outstanding_operations - 1)

abbrev pub IsBoundedState : AbuseSettings → SocketState → Type 0
IsBoundedState settings s = IsBounded settings (joining_rooms s.pending) s.subscribed_room_ids

cons-IsWithin :
    (x : String) (xs ys : List String) → has x ys ≡ true → IsWithin xs ys → IsWithin (x ∷ xs) ys
cons-IsWithin x xs ys h w r k = elim (Bool-cases (str_eq r x)) [
  | inl same ↦ rw (str_eq_sound r x same) h
  | inr other ↦ w r (ground arith)
]

-- A room is let in by the check: it stands in the set, or the set is below its limit.
pub enter-IsBounded :
    (settings : AbuseSettings) (room : String) (ps : List Pending) (rooms : List String)
    → suc (length ps) ≤ settings.max_outstanding_operations
    → is_room_limit_reached settings room rooms ≡ false
    → IsBounded settings (joining_rooms ps) rooms
    → IsBounded settings (room ∷ joining_rooms ps) rooms
enter-IsBounded settings room ps rooms l check b = elim (Bool-cases (has room rooms)) [
  | inl there ↦ record {
    universe = b.universe;
    distinct = b.distinct;
    rooms_within = b.rooms_within;
    joins_within = cons-IsWithin room _ _ (b.rooms_within room there) b.joins_within;
    bound = b.bound;
  }
  | inr new ↦
      let joins = room ∷ joining_rooms ps in
      let few : length rooms < settings.max_rooms_per_socket = ground arith in
      record {
        universe = rooms ++ joins;
        distinct = b.distinct;
        rooms_within = λ r h. ground (arith, has-concat r rooms joins, h);
        joins_within = λ r h. ground (arith, has-concat r rooms joins, h);
        bound = omega (arith, length-concat rooms joins, length-joining_rooms ps, few, l);
      }
]

pub leave_op-IsBounded :
    (settings : AbuseSettings) (p : Pending) (ps : List Pending) (rooms : List String)
    → IsBounded settings (joining_rooms (p ∷ ps)) rooms
    → IsBounded settings (joining_rooms ps) rooms
leave_op-IsBounded settings (joining room) ps rooms b = record {
  universe = b.universe;
  distinct = b.distinct;
  rooms_within = b.rooms_within;
  joins_within = λ r h. b.joins_within r (ground (arith, h));
  bound = b.bound;
}
leave_op-IsBounded settings (limited _) ps rooms b = b
leave_op-IsBounded settings resolving ps rooms b = b
leave_op-IsBounded settings clearing ps rooms b = b
leave_op-IsBounded settings checking ps rooms b = b
leave_op-IsBounded settings serving ps rooms b = b
leave_op-IsBounded settings (leaving _) ps rooms b = b

pub join-IsBounded :
    (settings : AbuseSettings) (room : String) (joins rooms : List String)
    → IsBounded settings (room ∷ joins) rooms
    → IsBounded settings joins (add room rooms)
join-IsBounded settings room joins rooms b = record {
  universe = b.universe;
  distinct = add-IsDistinct room rooms b.distinct;
  rooms_within =
      add-IsWithin room rooms b.universe b.rooms_within
        (b.joins_within room (ground (arith, str_eq_refl room)));
  joins_within = λ r h. b.joins_within r (ground (arith, h));
  bound = b.bound;
}

pub leave-IsBounded :
    (settings : AbuseSettings) (room : String) (joins rooms : List String)
    → IsBounded settings joins rooms
    → IsBounded settings joins (delete room rooms)
leave-IsBounded settings room joins rooms b = record {
  universe = b.universe;
  distinct = delete-IsDistinct room rooms b.distinct;
  rooms_within = delete-IsWithin room rooms b.universe b.rooms_within;
  joins_within = b.joins_within;
  bound = b.bound;
}
