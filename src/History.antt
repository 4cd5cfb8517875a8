-- ===== src/History.antt =====
-- whatsapp-bridge/history_limits.go: what a pairing asks for, the progress of the sync, and the age
-- guard over a chunk of history. Rows of the protocol are what the guard reads of them.
pub mod Progress
pub mod Age
pub mod Share
mod Examples
use whatsapp_mcp.Prelude.{
  ℕ, zero, suc, ◌+◌, ◌-◌, min, max, String, Bool, true, false, not, ◌&&◌, ◌||◌, Option, none, some,
  List, [], ◌∷◌, ◌++◌, length, ltb, leb, ◌==◌, if◌then◌else◌,
}

-- `max_age` in seconds, 0 where it is not set.
pub record HistoryLimits : Type 0 where
  pub days : ℕ
  pub size_mb : ℕ
  pub quota_mb : ℕ
  pub max_age : ℕ

unfoldable pub pairing_configured : HistoryLimits → Bool
pairing_configured l = not (l.days == 0) || (not (l.size_mb == 0) || not (l.quota_mb == 0))

-- True is the error that the flag and the settings exclude each other.
unfoldable pub validate_flag : Bool → HistoryLimits → Bool
validate_flag full l = full && pairing_configured l

-- The fields of `DeviceProps` that are written; `none` keeps the default of whatsmeow.
pub record DeviceProps : Type 0 where
  pub require_full_sync : Bool
  pub days_limit : Option ℕ
  pub size_limit : Option ℕ
  pub storage_quota : Option ℕ

unfoldable pub set_limit : ℕ → Option ℕ → Option ℕ
set_limit n old = if not (n == 0) then some n else old

unfoldable pub full_limits : HistoryLimits → HistoryLimits
full_limits l = record l { days = 3650; size_mb = 102400; quota_mb = 102400 }

unfoldable pub write_limits : HistoryLimits → DeviceProps → DeviceProps
write_limits l p = record p {
  require_full_sync = true;
  days_limit = set_limit l.days p.days_limit;
  size_limit = set_limit l.size_mb p.size_limit;
  storage_quota = set_limit l.quota_mb p.storage_quota;
}

-- `apply`
unfoldable pub apply_limits : Bool → Bool → HistoryLimits → DeviceProps → DeviceProps
apply_limits paired full l p =
    if paired || (not full && not (pairing_configured l))
    then p
    else write_limits (if full then full_limits l else l) p

pub data SyncState : Type 0 where
  idle syncing complete : SyncState

pub record HistoryStatus : Type 0 where
  pub state : SyncState
  pub progress : ℕ
  pub conversations : ℕ
  pub messages : ℕ

pub data SyncType : Type 0 where
  initial_bootstrap recent full other_type : SyncType

abbrev pub counts_progress : SyncType → Bool
counts_progress other_type = false
counts_progress _ = true

abbrev pub is_complete : SyncState → Bool
is_complete complete = true
is_complete _ = false

unfoldable pub note_progress : ℕ → HistoryStatus → HistoryStatus
note_progress progress s = if is_complete s.state then s else record s {
  state = if leb 100 progress then complete else syncing;
  progress = max s.progress (min progress 100);
}

-- `historyProgress.update`
unfoldable pub update_status : SyncType → ℕ → ℕ → ℕ → HistoryStatus → HistoryStatus
update_status kind progress conversations messages s =
    let seen = if counts_progress kind then note_progress progress s else s in
    record seen {
      conversations = seen.conversations + conversations;
      messages = seen.messages + messages;
    }

-- `message_time` is `none` where the row or its message is nil.
pub record Row : Type 0 where
  pub id : String
  pub message_time : Option ℕ

pub record Conversation : Type 0 where
  pub name : String
  pub rows : List Row

unfoldable pub is_old_time : ℕ → Option ℕ → Bool
is_old_time cutoff none = false
is_old_time cutoff (some t) = ltb 0 t && ltb t cutoff

-- The rows of one batch that stay, and how many are dropped.
unfoldable pub scan : ℕ → List Row → List Row × ℕ
scan cutoff [] = ([], 0)
scan cutoff (r ∷ rs) =
    let rest = scan cutoff rs in
    if is_old_time cutoff r.message_time then (rest.0, rest.1 + 1) else (r ∷ rest.0, rest.1)

unfoldable pub take_rows : ℕ → List Row → List Row
take_rows n [] = []
take_rows n (r ∷ rs) = let rest = take_rows (n - 1) rs in if n == 0 then [] else r ∷ rest

unfoldable pub drop_rows : ℕ → List Row → List Row
drop_rows n [] = []
drop_rows n (r ∷ rs) = let rest = drop_rows (n - 1) rs in if n == 0 then r ∷ rs else rest

abbrev pub join_scans : List Row × ℕ → List Row × ℕ → List Row × ℕ
join_scans a b = (a.0 ++ b.0, b.1 + a.1)

abbrev pub is_none_left : List Row → Bool
is_none_left [] = true
is_none_left (r ∷ rs) = false

-- The loop over the batches of a conversation; the fuel is its number of rows.
unfoldable pub scan_batches : ℕ → ℕ → ℕ → List Row → List Row × ℕ
scan_batches batch cutoff zero rows = ([], 0)
scan_batches batch cutoff (suc n) rows =
    let rest = scan_batches batch cutoff n (drop_rows batch rows) in
    if is_none_left rows then ([], 0) else join_scans (scan cutoff (take_rows batch rows)) rest

unfoldable pub add_conversation :
    Conversation → List Row × ℕ → List Conversation × ℕ → List Conversation × ℕ
add_conversation c ([], dropped) rest = (rest.0, rest.1 + dropped)
add_conversation c (r ∷ rs, dropped) rest = (record c { rows = r ∷ rs } ∷ rest.0, rest.1 + dropped)

-- The loop over the conversations, `none` where one is nil; the count is what the metric grows by.
unfoldable pub scan_conversations : ℕ → ℕ → List (Option Conversation) → List Conversation × ℕ
scan_conversations batch cutoff [] = ([], 0)
scan_conversations batch cutoff (none ∷ cs) = scan_conversations batch cutoff cs
scan_conversations batch cutoff (some c ∷ cs) =
    add_conversation c (scan_batches batch cutoff (length c.rows) c.rows)
      (scan_conversations batch cutoff cs)

unfoldable pub history_batch : ℕ
history_batch = 500

-- `boundedHistory`, with `now` in seconds: `none` is the data as it came, where there is no age
-- limit. A cutoff before 1970 is 0.
unfoldable pub bounded_history :
    HistoryLimits → ℕ → List (Option Conversation) → Option (List Conversation × ℕ)
bounded_history l now cs =
    if l.max_age == 0 then none else some (scan_conversations history_batch (now - l.max_age) cs)
