-- ===== src/MediaRetry.antt =====
-- whatsapp-bridge/media_retry_cooldown.go: which messages the sender's phone is not to be asked
-- about again yet. The Go map is a list of its rows, in the order in which it is walked; times count
-- nanoseconds, and 0 is Go's zero time.
pub mod Bounds
pub mod Memory
mod Examples
use whatsapp_mcp.Prelude.{
  ℕ, ◌+◌, ◌*◌, String, str_eq, Bool, true, false, not, ◌&&◌, ◌||◌, Option, none, some, List, [],
  ◌∷◌, length, ltb, leb, ◌==◌, if◌then◌else◌,
}

-- An error with what it wraps, as `errors.As` and `errors.Is` walk it.
pub data Fault : Type 0 where
  plain : String → Fault
  media_unavailable : Fault
  not_sent phone_answer : Fault → Fault
  backoff : ℕ → Fault → Fault

-- An answer of the phone, or the file is gone for good.
unfoldable pub is_final : Fault → Bool
is_final (plain message) = false
is_final media_unavailable = true
is_final (not_sent e) = is_final e
is_final (phone_answer e) = true
is_final (backoff until e) = is_final e

unfoldable pub answered_cooldown : ℕ
answered_cooldown = 604800 * 1000000000

unfoldable pub unanswered_cooldown : ℕ
unanswered_cooldown = 3600 * 1000000000

unfoldable pub cooldown_max : ℕ
cooldown_max = 4096

pub record Key : Type 0 where
  pub chat : String
  pub id : String

pub record Row : Type 0 where
  pub key : Key
  pub until : ℕ
  pub failure : Fault

abbrev pub Cooldown : Type 0
Cooldown = List Row

unfoldable pub same_key : Key → Key → Bool
same_key a b = str_eq a.chat b.chat && str_eq a.id b.id

unfoldable pub find : Key → Cooldown → Option Row
find k [] = none
find k (r ∷ rs) = let rest = find k rs in if same_key r.key k then some r else rest

unfoldable pub delete : Key → Cooldown → Cooldown
delete k [] = []
delete k (r ∷ rs) = let rest = delete k rs in if same_key r.key k then rest else r ∷ rest

abbrev pub is_found : Option Row → Bool
is_found none = false
is_found (some r) = true

-- What `active` answers, and the rows it leaves.
unfoldable pub answer_of : Key → ℕ → Cooldown → Option Row → Option Fault × Cooldown
answer_of k now c none = (none, c)
answer_of k now c (some r) =
    if not (ltb now r.until) then (none, delete k c) else (some (backoff r.until r.failure), c)

unfoldable pub active : Key → ℕ → Cooldown → Option Fault × Cooldown
unfolding answer_of
active k now c = answer_of k now c (find k c)

-- The row due soonest so far; a time of 0 says that there is none yet.
pub record Soonest : Type 0 where
  pub key : Key
  pub at : ℕ

abbrev pub no_row : Soonest
no_row = record { key = record { chat = ""; id = "" }; at = 0 }

unfoldable pub sooner : Soonest → Row → Soonest
sooner s r = if s.at == 0 || ltb r.until s.at then record { key = r.key; at = r.until } else s

unfoldable pub unexpired : ℕ → Cooldown → Cooldown
unexpired now [] = []
unexpired now (r ∷ rs) =
    let rest = unexpired now rs in if not (ltb now r.until) then rest else r ∷ rest

-- The walk of `evictLocked` over the rows that stay.
unfoldable pub soonest_of : Soonest → Cooldown → Soonest
soonest_of s [] = s
soonest_of s (r ∷ rs) = soonest_of (sooner s r) rs

-- `evictLocked`
unfoldable pub evict : ℕ → Cooldown → Cooldown
evict now c =
    let kept = unexpired now c in
    if leb cooldown_max (length kept) then delete (soonest_of no_row kept).key kept else kept

unfoldable pub wait_of : Fault → ℕ
unfolding is_final
wait_of e = if is_final e then answered_cooldown else unanswered_cooldown

unfoldable pub row_of : Key → Fault → ℕ → Row
row_of k e now = record { key = k; until = now + wait_of e; failure = e }

unfoldable pub make_room : Key → ℕ → Cooldown → Cooldown
make_room k now c =
    if not (is_found (find k c)) && leb cooldown_max (length c) then evict now c else c

-- `note`
unfoldable pub note : Key → Fault → ℕ → Cooldown → Fault × Cooldown
unfolding make_room row_of
note k e now c = (backoff (now + wait_of e) e, row_of k e now ∷ delete k (make_room k now c))

-- `forget`
unfoldable pub forget : Key → Cooldown → Cooldown
forget k c = delete k c

-- The calls of the callers, in the order in which `mu` lets them in.
pub data Call : Type 0 where
  ask : Key → ℕ → Call
  fail : Key → Fault → ℕ → Call
  bring : Key → Call

unfoldable pub step : Call → Cooldown → Cooldown
step (ask k now) c = (active k now c).1
step (fail k e now) c = (note k e now c).1
step (bring k) c = forget k c

unfoldable pub run : List Call → Cooldown → Cooldown
run [] c = c
run (e ∷ es) c = run es (step e c)
