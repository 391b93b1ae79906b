-- ===== src/Chat/Abuse.antt =====
-- The limits on one socket (createChatSocketAbuseControls in services/chat-gateway/abuse.ts). The
-- closures share two counters; a set of rooms is the list of its members.
use arctic_rss.Prelude.{
  ℕ, ◌+◌, ◌-◌, ◌*◌, String, Bool, true, false, List, any, length, leb, not, ◌&&◌, str_eq,
  if◌then◌else◌,
}

pub record AbuseSettings : Type 0 where
  pub max_event_payload_bytes : ℕ
  pub max_malformed_events : ℕ
  pub max_outstanding_operations : ℕ
  pub max_rooms_per_socket : ℕ

abbrev default_abuse_settings : AbuseSettings
default_abuse_settings = record {
  max_event_payload_bytes = 64 * 1024;
  max_malformed_events = 5;
  max_outstanding_operations = 8;
  max_rooms_per_socket = 20;
}

-- The counters, and whether the controls have asked for the socket to be disconnected.
pub record Controls : Type 0 where
  pub malformed_event_count : ℕ
  pub outstanding_operations : ℕ
  pub disconnect_asked : Bool

abbrev pub new_controls : Controls
new_controls = record {
  malformed_event_count = 0;
  outstanding_operations = 0;
  disconnect_asked = false;
}

abbrev pub has : String → List String → Bool
has room rooms = any (str_eq room) rooms

abbrev pub finish_operation : Controls → Controls
finish_operation c = record c { outstanding_operations = c.outstanding_operations - 1 }

abbrev pub is_room_limit_reached : AbuseSettings → String → List String → Bool
is_room_limit_reached s room rooms =
    not (has room rooms) && leb s.max_rooms_per_socket (length rooms)

abbrev pub record_malformed_event : AbuseSettings → Controls → Controls
record_malformed_event s c =
    let count = c.malformed_event_count + 1 in
    record c {
      malformed_event_count = count;
      disconnect_asked = if leb s.max_malformed_events count then true else c.disconnect_asked;
    }

abbrev pub try_start_operation : AbuseSettings → Controls → Bool × Controls
try_start_operation s c =
    if leb s.max_outstanding_operations c.outstanding_operations
    then (false, c)
    else (true, record c { outstanding_operations = c.outstanding_operations + 1 })
