-- ===== src/Traffic.antt =====
-- src/traffic.rs: the bytes that clients send and get, over all and by session, in buckets of a second.
-- `now` is the clock's reading in seconds; a count stops at the largest 64-bit number.
pub mod Bounds
use llm_provider_router.Prelude.{
  ℕ, zero, suc, ◌+◌, ◌-◌, ◌%◌, ◌^◌, min, Text, Bool, true, false, not, ◌&&◌, Option, none, some,
  List, [], ◌∷◌, ltb, leb, nat_beq, length, ◌==◌, text_equality, if◌then◌else◌,
}
use llm_provider_router.Prelude.Dict.{Dict, lookup, insert, remove, contains_key}

abbrev pub slots : ℕ
slots = 64

abbrev pub max_traffic_sessions : ℕ
max_traffic_sessions = 512

-- `a.saturating_add(b)`
abbrev pub saturating_add : ℕ → ℕ → ℕ
saturating_add a b = min (a + b) (2 ^ 64 - 1)

-- One index of the three arrays of `Buckets`.
pub record Slot : Type 0 where
  pub sec : ℕ
  pub up : ℕ
  pub down : ℕ

abbrev pub Buckets : Type 0
Buckets = List Slot

replicate : ℕ → Slot → Buckets
replicate zero s = []
replicate (suc n) s = s ∷ replicate n s

unfoldable pub new_buckets : Buckets
unfolding replicate
new_buckets = replicate slots (record { sec = 0; up = 0; down = 0 })

unfoldable pub count_slot : ℕ → ℕ → ℕ → Slot → Slot
count_slot now up down s =
    let reused : Slot = record { sec = now; up = 0; down = 0 } in
    let t = if nat_beq s.sec now then s else reused in
    record t { up = saturating_add t.up up; down = saturating_add t.down down }

unfoldable pub update_at : ℕ → (Slot → Slot) → Buckets → Buckets
update_at i f [] = []
update_at zero f (s ∷ b) = f s ∷ b
update_at (suc i) f (s ∷ b) = s ∷ update_at i f b

unfoldable pub add : ℕ → ℕ → ℕ → Buckets → Buckets
unfolding update_at count_slot
add now up down b = update_at (now % slots) (count_slot now up down) b

-- The bytes of the slots within the last `secs` seconds, `acc` those counted before.
unfoldable pub window_from : ℕ × ℕ → ℕ → ℕ → Buckets → ℕ × ℕ
window_from acc now secs [] = acc
window_from acc now secs (s ∷ b) =
    let counts = not (nat_beq s.sec 0) && (ltb now (s.sec + secs) && leb s.sec now) in
    window_from (if counts then (saturating_add acc.0 s.up, saturating_add acc.1 s.down) else acc)
      now secs b

unfoldable pub window : ℕ → ℕ → Buckets → ℕ × ℕ
unfolding window_from
window now secs b = window_from (0, 0) now secs b

pub record SessionTraffic : Type 0 where
  pub buckets : Buckets
  pub total_up : ℕ
  pub total_down : ℕ
  pub last_activity : ℕ

abbrev pub Sessions : Type 0
Sessions = Dict Text SessionTraffic

pub record Traffic : Type 0 where
  pub sessions : Sessions
  pub global_buckets : Buckets
  pub global_total_up : ℕ
  pub global_total_down : ℕ

unfoldable pub new : Traffic
unfolding new_buckets
new = record {
  sessions = [];
  global_buckets = new_buckets;
  global_total_up = 0;
  global_total_down = 0;
}

-- `iter().min_by_key(|(_, e)| e.last_activity)`
unfoldable pub least_active : Sessions → Option (Text × SessionTraffic)
least_active [] = none
least_active ((k, e) ∷ m) = elim (least_active m) [
  | none ↦ some (k, e)
  | some (j, f) ↦ if leb e.last_activity f.last_activity then some (k, e) else some (j, f)
]

abbrev pub without : Sessions → Option (Text × SessionTraffic) → Sessions
without m none = m
without m (some (k, e)) = remove k m

-- The table with room for the session.
unfoldable pub with_room : Text → Sessions → Sessions
unfolding contains_key least_active remove
with_room sid m =
    if not (contains_key sid m) && leb max_traffic_sessions (length m)
    then without m (least_active m)
    else m

unfoldable pub touched : ℕ → Option SessionTraffic → SessionTraffic
unfolding new_buckets
touched now none = record {
  buckets = new_buckets;
  total_up = 0;
  total_down = 0;
  last_activity = now;
}
touched now (some e) = e

-- `touch_session`, and what the caller makes of the entry.
unfoldable pub touch_session : (SessionTraffic → SessionTraffic) → Text → ℕ → Sessions → Sessions
unfolding with_room touched insert lookup
touch_session count sid now m =
    let room = with_room sid m in insert sid (count (touched now (lookup sid room))) room

-- `session.filter(|s| !s.is_empty())`
unfoldable pub by_session :
    (SessionTraffic → SessionTraffic) → Option Text → ℕ → Sessions → Sessions
unfolding touch_session
by_session count none now m = m
by_session count (some sid) now m = if sid == [] then m else touch_session count sid now m

unfoldable pub up_counted : ℕ → ℕ → SessionTraffic → SessionTraffic
unfolding add
up_counted now bytes e = record e {
  total_up = saturating_add e.total_up bytes;
  buckets = add now bytes 0 e.buckets;
}

unfoldable pub down_counted : ℕ → ℕ → SessionTraffic → SessionTraffic
unfolding add
down_counted now bytes e = record e {
  total_down = saturating_add e.total_down bytes;
  buckets = add now 0 bytes e.buckets;
}

unfoldable pub record_up : ℕ → Option Text → ℕ → Traffic → Traffic
unfolding add by_session up_counted
record_up now session bytes t = if nat_beq bytes 0 then t else record {
  global_total_up = saturating_add t.global_total_up bytes;
  global_total_down = t.global_total_down;
  global_buckets = add now bytes 0 t.global_buckets;
  sessions = by_session (up_counted now bytes) session now t.sessions;
}

unfoldable pub record_down_chunk : ℕ → Option Text → ℕ → Traffic → Traffic
unfolding add by_session down_counted
record_down_chunk now session bytes t = if nat_beq bytes 0 then t else record {
  global_total_up = t.global_total_up;
  global_total_down = saturating_add t.global_total_down bytes;
  global_buckets = add now 0 bytes t.global_buckets;
  sessions = by_session (down_counted now bytes) session now t.sessions;
}
