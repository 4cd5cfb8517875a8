-- ===== src/Connection/State.antt =====
-- The fields of `Bridge` that connection_problem.go guards with `connectionMu`, and its operations.
-- `connectionPersistMu` lets one of them run at a time. A problem is compared by its pointer, so
-- each one stored has a number of its own.
pub mod Restriction
pub mod Memory
pub mod History
pub mod Gate
use whatsapp_mcp.Prelude.{
  ℕ, ◌+◌, ◌-◌, String, Bool, true, false, not, ◌&&◌, ◌||◌, Option, none, some, str_eq, ltb, ◌==◌,
  if◌then◌else◌,
}
use whatsapp_mcp.Prelude.Int.{ℤ}
use whatsapp_mcp.Connection.Problem.{
  Problem, Kind, other, banned, locked, client_outdated, classify, restricts_account, is_unlinked,
  unlink_only,
}

pub record Ref : Type 0 where
  pub number : ℕ
  pub value : Problem

abbrev pub value_of : Option Ref → Option Problem
value_of none = none
value_of (some r) = some r.value

-- `saved` is the file `.connection-problem`, `changes` counts what `connectionChanged` signals, and
-- `client_retired` says that the operator has retired the current client.
pub record Conn : Type 0 where
  pub problem : Option Ref
  pub pairing_state : String
  pub persistence_failed : Bool
  pub saved : Option Problem
  pub has_store_root : Bool
  pub operator_logout : Bool
  pub client_retired : Bool
  pub device_id : Option String
  pub temp_bans : ℕ → ℕ
  pub changes : ℕ
  pub next_number : ℕ

-- What a call meets: the clock, the running build, whether the file can be written and removed.
pub record World : Type 0 where
  pub now : ℕ
  pub build : String
  pub write_fails : Bool
  pub remove_fails : Bool

pub record Report : Type 0 where
  pub code : ℕ
  pub reason : ℕ
  pub expire : ℤ
  pub active : Bool
  pub persistent : Bool

abbrev plain_problem : ℕ → ℕ → Problem
plain_problem code now = record {
  unlinked_at = none;
  revoked_device = "";
  session_removed = false;
  kind = other;
  code = code;
  temp_ban_reason = 0;
  expires_at = none;
  since = now;
  build_version = "";
}

-- A report that is not persistent is a diagnostic and restricts nothing.
unfoldable pub reported : World → Report → Problem
unfolding classify
reported w r =
    if r.persistent
    then classify w.build r.code r.reason r.expire w.now
    else plain_problem r.code w.now

-- What is to become of the stored problem: it stays, or another takes its place.
pub data Update : Type 0 where
  keep : Update
  replace : Problem → Update

abbrev marked_at : Option ℕ → ℕ → Option ℕ
marked_at none since = some since
marked_at (some t) since = some t

-- The mark of an earlier revocation goes over to the new problem.
unfoldable pub carry_unlink : Problem → Problem → Problem
carry_unlink previous next = record next {
  unlinked_at = marked_at previous.unlinked_at previous.since;
  revoked_device = previous.revoked_device;
  session_removed = previous.session_removed;
}

abbrev pub device_text : Option String → String
device_text none = ""
device_text (some d) = d

unfoldable pub mark_revoked : World → Conn → Report → Problem → Problem
mark_revoked w c r next =
    if r.code == 401 && r.persistent
    then record next {
      unlinked_at = some w.now;
      session_removed = false;
      revoked_device = device_text c.device_id;
    }
    else next

-- The part after the restriction is settled: `next` may inherit a revocation.
unfoldable pub settle_unlink : World → Conn → Report → Option Problem → Problem → Update
settle_unlink w c r none next = replace (mark_revoked w c r next)
settle_unlink w c r (some previous) next =
    if (not (r.code == 401) || not r.persistent) && is_unlinked (some previous)
    then (if not (restricts_account (some next)) && c.client_retired
        then keep
        else replace (mark_revoked w c r (carry_unlink previous next)))
    else replace (mark_revoked w c r next)

-- A restriction outlasts every report that brings none; only a 401 is noted beside it.
unfoldable pub update_of : World → Conn → Report → Option Problem → Update
update_of w c r none = settle_unlink w c r none (reported w r)
update_of w c r (some previous) =
    if not (restricts_account (some (reported w r))) && restricts_account (some previous)
    then (if not (r.code == 401) then keep else settle_unlink w c r (some previous) previous)
    else settle_unlink w c r (some previous) (reported w r)

abbrev pub stored : Conn → Problem → Conn
stored c p = record c {
  problem = some (record { number = c.next_number; value = p });
  next_number = c.next_number + 1;
  changes = c.changes + 1;
}

-- Reasons that the program does not know are counted under 0.
unfoldable pub ban_bucket : ℕ → ℕ
ban_bucket reason =
    if (reason == 101 || reason == 102) || ((reason == 103 || reason == 104) || reason == 106)
    then reason
    else 0

unfoldable pub count_ban : Report → Conn → Conn
unfolding ban_bucket
count_ban r c =
    if r.code == 402 && r.persistent
    then record c {
      temp_bans = λ k. if k == ban_bucket r.reason then c.temp_bans k + 1 else c.temp_bans k;
    }
    else c

unfoldable pub persist_snapshot : World → Problem → Conn → Conn
persist_snapshot w p c =
    if w.write_fails
    then record c { persistence_failed = true }
    else record c { persistence_failed = false; saved = some p }

unfoldable pub persist_if : Bool → World → Problem → Conn → Conn
persist_if wanted w p c = if wanted && c.has_store_root then persist_snapshot w p c else c

unfoldable pub apply_update : World → Report → Update → Conn → Conn
unfolding count_ban persist_if persist_snapshot
apply_update w r keep c = c
apply_update w r (replace p) c = persist_if r.persistent w p (count_ban r (stored c p))

-- `recordConnectionProblemStateIf`
unfoldable pub record_problem : World → Report → Conn → Conn
record_problem w r c =
    if r.active then apply_update w r (update_of w c r (value_of c.problem)) c else c

abbrev pub refers : Option Ref → Option ℕ → Bool
refers none none = true
refers (some r) (some n) = r.number == n
refers _ _ = false

-- `persistConnectionProblemIf`. Where the pointers agree the expected problem is the stored one.
unfoldable pub persist_problem_if : World → ℕ → Conn → Conn
unfolding persist_if persist_snapshot
persist_problem_if w expected c = elim c.problem [
  | none ↦ c
  | some r ↦ if r.number == expected then persist_if true w r.value c else c
]

-- `clearConnectionSnapshot`
unfoldable pub clear_snapshot : World → Bool → Conn → Conn
clear_snapshot w keep_operator_idle c =
    if c.has_store_root && w.remove_fails
    then record c { persistence_failed = true }
    else record c {
      saved = if c.has_store_root then none else c.saved;
      problem = none;
      pairing_state =
          if not keep_operator_idle || not c.operator_logout then "" else c.pairing_state;
      persistence_failed = false;
      changes = c.changes + 1;
    }

-- `clearConnectionProblem`
unfoldable pub clear_problem : World → Conn → Conn
clear_problem w c = if c.client_retired then c else clear_snapshot w true c

-- `clearConnectionProblemIf` with the number of the expected problem, `none` for nil.
unfoldable pub clear_problem_if : World → Option ℕ → Conn → Conn
clear_problem_if w expected c = if refers c.problem expected then clear_snapshot w false c else c

-- An acknowledged problem leaves the mark of a revocation, in the file first.
unfoldable pub resolve_unlinked : World → Problem → Conn → Conn
resolve_unlinked w p c =
    if c.has_store_root && w.write_fails
    then record c { persistence_failed = true }
    else stored
        (if c.has_store_root
          then record c { persistence_failed = false; saved = some (unlink_only p) }
          else c)
        (unlink_only p)

unfoldable pub resolve_stored : World → Option ℕ → Conn → Option Problem → Conn
resolve_stored w expected c none = clear_problem_if w expected c
resolve_stored w expected c (some p) =
    if is_unlinked (some p) then resolve_unlinked w p c else clear_problem_if w expected c

-- `resolveConnectionProblemIf`. Where the pointers differ neither branch changes anything.
unfoldable pub resolve_problem_if : World → Option ℕ → Conn → Conn
unfolding resolve_stored
resolve_problem_if w expected c =
    if not (refers c.problem expected) then c else resolve_stored w expected c (value_of c.problem)

-- `setPairingState`
unfoldable pub set_pairing_state : String → Conn → Conn
set_pairing_state state c =
    if c.operator_logout then c else record c { pairing_state = state; changes = c.changes + 1 }

-- What one round of `waitConnectionAllowedContext` decides. `others` is what the other goroutines
-- do after the round has taken its snapshot.
pub data Decision : Type 0 where
  stopped allowed retry_write blocked : Decision
  wait_for : ℕ → Decision

unfoldable pub blocking_kind : Kind → Bool
blocking_kind banned = true
blocking_kind locked = true
blocking_kind client_outdated = true
blocking_kind _ = false

unfoldable pub blocks : Option Problem → String → Bool
unfolding blocking_kind
blocks none state = not (str_eq state "")
blocks (some p) state = not (str_eq state "") || blocking_kind p.kind

unfoldable pub retry_save : World → Option Ref → Conn → Conn
retry_save w none c = c
retry_save w (some r) c =
    if c.persistence_failed && (restricts_account (some r.value) && c.has_store_root)
    then persist_problem_if w r.number c
    else c

unfoldable pub term_left : World → Option Problem → Decision
term_left w none = allowed
term_left w (some p) = elim p.expires_at [
  | none ↦ allowed
  | some until ↦ if ltb w.now until then wait_for (until - w.now) else allowed
]

unfoldable pub decide : World → Option Problem → String → Conn → Decision
decide w p state c =
    if c.persistence_failed && restricts_account (value_of c.problem)
    then retry_write
    else if blocks p state
    then blocked
    else term_left w p

unfoldable pub wait_round : World → Bool → (Conn → Conn) → Conn → Decision × Conn
wait_round w cancelled others c =
    if cancelled
    then (stopped, c)
    else let after = retry_save w c.problem (others c) in
      (decide w (value_of c.problem) c.pairing_state after, after)
