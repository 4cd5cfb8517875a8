-- ===== src/SendLimits/State.antt =====
-- The stored counters of whatsapp-bridge/send_limits.go and `readSendState`. A time is a count of
-- nanoseconds since 1970 and a UTC day the number of its midnight. `tokens` is the float64 column
-- times the nanoseconds of a minute, so every refill and every charge is a whole number. The float64
-- rounds: it may decide a test per minute otherwise where the two differ in the last place only.
use whatsapp_mcp.Prelude.{
  ℕ, ◌+◌, ◌-◌, ◌*◌, ◌/◌, String, Bool, false, ◌||◌, Option, none, some, List, ltb, ◌==◌,
  if◌then◌else◌, ◌>>◌, unless,
}
use whatsapp_mcp.Prelude.Int.{ℤ, pos, ◌+ℤ◌, min_ℤ}

abbrev pub second_ns : ℕ
second_ns = 1000000000

abbrev pub minute_ns : ℕ
minute_ns = 60 * second_ns

abbrev pub day_ns : ℕ
day_ns = 1440 * minute_ns

-- The four runtime settings; 0 switches a limit off.
pub record Limits : Type 0 where
  pub minute_limit : ℕ
  pub day_limit : ℕ
  pub new_chats_limit : ℕ
  pub min_interval_ms : ℕ

abbrev pub no_limits : Limits
no_limits = record { minute_limit = 0; day_limit = 0; new_chats_limit = 0; min_interval_ms = 0 }

unfoldable pub send_limits_enabled : Limits → Bool
send_limits_enabled l =
    ltb 0 l.minute_limit
    || (ltb 0 l.day_limit || (ltb 0 l.new_chats_limit || ltb 0 l.min_interval_ms))

-- The row of `send_usage`; `day` is `none` for the empty text.
pub record UsageRow : Type 0 where
  pub day : Option ℕ
  pub today : ℕ
  pub new_chats : ℕ
  pub refusals : ℕ
  pub tokens : ℤ
  pub rate : ℕ
  pub refill : ℕ
  pub last : ℕ

-- What `Scan` leaves when there is no row: the zero value.
abbrev pub zero_row : UsageRow
zero_row = record {
  day = none;
  today = 0;
  new_chats = 0;
  refusals = 0;
  tokens = pos 0;
  rate = 0;
  refill = 0;
  last = 0;
}

pub record SendState : Type 0 where
  pub row : UsageRow
  pub limits : Limits
  pub resets_at : ℕ

pub data Reason : Type 0 where
  limit_exceeds_batch per_day new_chats_per_day per_minute min_interval : Reason

-- The tables that one reservation reads and writes.
pub record SendDb : Type 0 where
  pub usage : Option UsageRow
  pub contacts : List String
  pub message_chats : List String
  pub refusal_totals : Reason → ℕ

-- The statements that may fail.
pub data Stmt : Type 0 where
  begin_tx read_usage read_settings insert_refusal write_usage commit_tx : Stmt
  check_exists insert_contact delete_contact : String → Stmt

-- What `lookupAltJID` answers: no LID store, another error, or the twin's text (empty if unknown).
pub data AltLookup : Type 0 where
  unavailable failure : AltLookup
  found : String → AltLookup

-- What a call meets: the clock, the settings (`none` without runtime settings), the statements that
-- fail, and two calls of the WhatsApp library, `types.ParseJID` (the server) and the LID store.
pub record Env : Type 0 where
  pub now : ℕ
  pub settings : Option Limits
  pub fails : Stmt → Bool
  pub parse_server : String → Option String
  pub alt_jid : String → AltLookup

abbrev pub date_of : ℕ → ℕ
date_of now = now / day_ns

unfoldable pub same_day : Option ℕ → ℕ → Bool
same_day none d = false
same_day (some e) d = e == d

-- A new day clears the counters of the day.
unfoldable pub roll_day : ℕ → UsageRow → UsageRow
roll_day now r =
    if same_day r.day (date_of now)
    then r
    else record r { day = some (date_of now); today = 0; new_chats = 0; refusals = 0 }

-- The bucket fills by `rate` tokens a minute up to the limit; a bucket never filled starts full.
unfoldable pub refilled : ℕ → ℕ → UsageRow → ℤ
refilled limit now r =
    min_ℤ
      (if r.refill == 0 || r.rate == 0
        then pos (limit * minute_ns)
        else r.tokens +ℤ pos ((now - r.refill) * r.rate))
      (pos (limit * minute_ns))

unfoldable pub live_limits : Env → Limits
live_limits env = elim env.settings [ none ↦ no_limits | some l ↦ l ]

unfoldable pub state_of : Env → UsageRow → SendState
state_of env r = record {
  row = record (roll_day env.now r) {
    tokens = refilled (live_limits env).minute_limit env.now r;
    rate = (live_limits env).minute_limit;
    refill = env.now;
  };
  limits = live_limits env;
  resets_at = (date_of env.now + 1) * day_ns;
}

abbrev pub stored_row : SendDb → UsageRow
stored_row db = elim db.usage [ none ↦ zero_row | some r ↦ r ]

-- Without runtime settings nothing but the row is read.
settings_fail : Env → Bool
settings_fail env = elim env.settings [ none ↦ false | some l ↦ env.fails read_settings ]

unfoldable pub read_send_state : Env → SendDb → Option SendState
unfolding settings_fail
read_send_state env db = do
  unless (env.fails read_usage)
  unless (settings_fail env)
  some (state_of env (stored_row db))
