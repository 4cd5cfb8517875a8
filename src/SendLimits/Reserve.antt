-- ===== src/SendLimits/Reserve.antt =====
-- `reserveSend` of whatsapp-bridge/send_limits.go: one write transaction under `sendMu`, so calls
-- run one after the other. `unique` is a Go map there; here its keys are met newest first.
pub mod Cases
pub mod Daily
pub mod Bucket
pub mod Refusal
use whatsapp_mcp.Prelude.{
  ℕ, ◌+◌, ◌-◌, ◌*◌, ◌/◌, max, String, str_eq, Bool, true, not, ◌&&◌, ◌||◌, Option, none, some, List,
  [], ◌∷◌, length, contains, ltb, if◌then◌else◌, ◌>>=◌, ◌>>◌, unless,
}
use whatsapp_mcp.Prelude.Int.{ℤ, pos, pos_part, ◌-ℤ◌, ltb_ℤ}
use whatsapp_mcp.SendLimits.State.{
  Limits, send_limits_enabled, UsageRow, SendState, Reason, limit_exceeds_batch, per_day,
  new_chats_per_day, per_minute, min_interval, SendDb, begin_tx, insert_refusal, write_usage,
  commit_tx, check_exists, insert_contact, AltLookup, unavailable, failure, found, Env, second_ns,
  minute_ns, read_send_state,
}

-- The receipt of a granted reservation, which `releaseSend` takes back.
pub record Receipt : Type 0 where
  pub active : Bool
  pub day : Option ℕ
  pub count : ℕ
  pub fresh : ℕ
  pub last : ℕ
  pub previous_last : ℕ
  pub contacts : List String

-- `failed (some e)` is a `sendReservationFailure`: the limits were read, and `e` says if one is on.
pub data Outcome : Type 0 where
  failed : Option Bool → Outcome
  refused : Reason → ℕ → Outcome
  reserved : Receipt → Outcome

-- The loop over the targets: each person counts once, under any of the known identities.
pub record Seen : Type 0 where
  pub unique : List String
  pub identities : List String
  pub fresh : ℕ

is_user_server : String → Bool
is_user_server s = str_eq s "s.whatsapp.net" || str_eq s "lid"

alt_text : AltLookup → Option String
alt_text unavailable = some ""
alt_text failure = none
alt_text (found t) = some t

unfoldable pub twin_of : Env → String → Option String
unfolding is_user_server alt_text
twin_of env target = elim (env.parse_server target) [
  | none ↦ some ""
  | some s ↦ if is_user_server s then alt_text (env.alt_jid target) else some ""
]

-- The query over `messages` and `send_contacts`.
unfoldable pub is_known : SendDb → String → String → Bool
is_known db target twin =
    (contains db.message_chats target || contains db.message_chats twin)
    || (contains db.contacts target || contains db.contacts twin)

unfoldable pub visit_twin : Env → SendDb → Seen → String → String → Option Seen
visit_twin env db seen target twin =
    if contains seen.identities target || (not (str_eq twin "") && contains seen.identities twin)
    then some (record seen { unique = target ∷ seen.unique })
    else do
      unless (env.fails (check_exists target))
      some (record {
        unique = target ∷ seen.unique;
        identities =
            if str_eq twin "" then target ∷ seen.identities else twin ∷ target ∷ seen.identities;
        fresh = if is_known db target twin then seen.fresh else seen.fresh + 1;
      })

unfoldable pub visit : Env → SendDb → Seen → String → Option Seen
unfolding twin_of visit_twin
visit env db seen target =
    if contains seen.unique target
    then some seen
    else do twin ← twin_of env target; visit_twin env db seen target twin

unfoldable pub visit_all : Env → SendDb → Seen → List String → Option Seen
visit_all env db seen [] = some seen
visit_all env db seen (t ∷ ts) = do next ← visit env db seen t; visit_all env db next ts

abbrev pub nothing_seen : Seen
nothing_seen = record { unique = []; identities = []; fresh = 0 }

abbrev pub ceil_div : ℕ → ℕ → ℕ
ceil_div a b = (a + b - 1) / b

abbrev pub delay_of : ℕ → ℕ
delay_of seconds = max 1 seconds

unfoldable pub per_minute_delay : ℕ → ℕ → ℤ → ℕ
unfolding ◌-ℤ◌
per_minute_delay limit count tokens =
    delay_of (ceil_div (pos_part (pos (count * minute_ns) -ℤ tokens)) (second_ns * limit))

-- The tests of `reserveSend`, in its order.
unfoldable pub exceeds_batch : Limits → ℕ → ℕ → Bool
exceeds_batch l count fresh =
    (ltb 0 l.day_limit && ltb l.day_limit count)
    || ((ltb 0 l.minute_limit && ltb l.minute_limit count)
        || (ltb 0 l.new_chats_limit && ltb l.new_chats_limit fresh))

unfoldable pub over_day : SendState → ℕ → Bool
over_day s count = ltb 0 s.limits.day_limit && ltb s.limits.day_limit (s.row.today + count)

unfoldable pub over_new_chats : SendState → ℕ → Bool
over_new_chats s fresh =
    ltb 0 s.limits.new_chats_limit && ltb s.limits.new_chats_limit (s.row.new_chats + fresh)

unfoldable pub over_minute : SendState → ℕ → Bool
over_minute s count = ltb 0 s.limits.minute_limit && ltb_ℤ s.row.tokens (pos (count * minute_ns))

-- The end of the pause after the last send; no time is after it where there was none.
abbrev pub pause_end : SendState → ℕ
pause_end s = s.limits.min_interval_ms * 1000000 + s.row.last

unfoldable pub too_soon : ℕ → SendState → Bool
too_soon now s = (ltb 0 s.limits.min_interval_ms && ltb 0 s.row.last) && ltb now (pause_end s)

-- The first limit that refuses, and the seconds of its `Retry-After`.
unfoldable pub verdict : ℕ → SendState → ℕ → ℕ → Option (Reason × ℕ)
verdict now s count fresh =
    if exceeds_batch s.limits count fresh
    then some (limit_exceeds_batch, 0)
    else if over_day s count
    then some (per_day, delay_of (ceil_div (s.resets_at - now) second_ns))
    else if over_new_chats s fresh
    then some (new_chats_per_day, delay_of (ceil_div (s.resets_at - now) second_ns))
    else if over_minute s count
    then some (per_minute, per_minute_delay s.limits.minute_limit count s.row.tokens)
    else if too_soon now s
    then some (min_interval, delay_of (ceil_div (pause_end s - now) second_ns))
    else none

-- `INSERT OR IGNORE` for each target; the inserted ones go on the receipt.
unfoldable pub insert_contacts :
    Env → List String → List String → Option (List String × List String)
insert_contacts env [] known = some (known, [])
insert_contacts env (t ∷ ts) known = do
  unless (env.fails (insert_contact t))
  rest ← insert_contacts env ts (if contains known t then known else t ∷ known)
  some (rest.0, if contains known t then rest.1 else t ∷ rest.1)

unfoldable pub same_reason : Reason → Reason → Bool
same_reason limit_exceeds_batch limit_exceeds_batch = true
same_reason per_day per_day = true
same_reason new_chats_per_day new_chats_per_day = true
same_reason per_minute per_minute = true
same_reason min_interval min_interval = true
same_reason _ _ = Bool.false

unfoldable pub charged_row : ℕ → UsageRow → ℕ → ℕ → UsageRow
charged_row now r count fresh = record r {
  today = r.today + count;
  new_chats = r.new_chats + fresh;
  tokens = r.tokens -ℤ pos (count * minute_ns);
  last = max now (r.last + 1);
}

unfoldable pub receipt_of : Env → SendState → ℕ → Seen → List String → Receipt
receipt_of env s count seen inserted = record {
  active = true;
  day = s.row.day;
  count = count;
  fresh = seen.fresh;
  last = (charged_row env.now s.row count seen.fresh).last;
  previous_last = s.row.last;
  contacts = inserted;
}

abbrev pub charged_db : Env → SendDb → SendState → ℕ → Seen → List String → SendDb
charged_db env db s count seen known = record db {
  usage = some (charged_row env.now s.row count seen.fresh);
  contacts = known;
}

unfoldable pub charge : Env → SendDb → SendState → ℕ → Seen → Option (Outcome × SendDb)
charge env db s count seen = do
  done ← insert_contacts env seen.unique db.contacts
  unless (env.fails write_usage)
  unless (env.fails commit_tx)
  some (reserved (receipt_of env s count seen done.1), charged_db env db s count seen done.0)

unfoldable pub refused_db : SendDb → SendState → Reason → SendDb
unfolding same_reason
refused_db db s reason = record db {
  usage = some (record (s.row) { refusals = s.row.refusals + 1 });
  refusal_totals =
      λ q. if same_reason q reason then db.refusal_totals q + 1 else db.refusal_totals q;
}

unfoldable pub refuse : Env → SendDb → SendState → Reason → ℕ → Option (Outcome × SendDb)
refuse env db s reason delay = do
  unless (env.fails insert_refusal)
  unless (env.fails write_usage)
  unless (env.fails commit_tx)
  some (refused reason delay, refused_db db s reason)

unfoldable pub conclude :
    Env → SendDb → SendState → ℕ → Seen → Option (Reason × ℕ) → Option (Outcome × SendDb)
conclude env db s count seen none = charge env db s count seen
conclude env db s count seen (some (reason, delay)) = refuse env db s reason delay

unfoldable pub reserve_tx : Env → SendDb → SendState → List String → Option (Outcome × SendDb)
unfolding conclude
reserve_tx env db s targets = do
  seen ← visit_all env db nothing_seen targets
  conclude env db s (length targets) seen (verdict env.now s (length targets) seen.fresh)

-- An error rolls the transaction back.
abbrev pub settle : SendDb → Option Bool → Option (Outcome × SendDb) → Outcome × SendDb
settle db known none = (failed known, db)
settle db known (some r) = r

unfoldable pub reserve_send : Env → SendDb → List String → Outcome × SendDb
reserve_send env db targets =
    if env.fails begin_tx then (failed none, db) else elim (read_send_state env db) [
      | none ↦ (failed none, db)
      | some s ↦ settle db (some (send_limits_enabled s.limits)) (reserve_tx env db s targets)
    ]
