-- ===== src/Connection/Startup.antt =====
-- `readConnectionProblem` and `clearOutdatedBuildProblem` of whatsapp-bridge/connection_problem.go:
-- what a restart accepts from the file. Opening the file and decoding JSON are not code of the
-- program; a decoded file is a `Problem`. `is_jid` is the round trip through `types.ParseJID`.
pub mod Restart
use whatsapp_mcp.Prelude.{
  ℕ, String, Bool, true, false, not, ◌&&◌, ◌||◌, ◌≡◌, refl, sym, subst, ap, ◌∙◌, Option, none, some,
  arith, str_eq, ltb, ◌==◌, if◌then◌else◌, if_both, Bool-cases, inl, inr,
}
use whatsapp_mcp.Prelude.Int.{ℤ, pos}
use whatsapp_mcp.Connection.Problem.{
  Problem, Kind, other, unlinked, temporarily_banned, locked, client_outdated, banned, server_error,
  kind_of_code, classify, restricts_account, restricting, is_unlinked, is_kind_unlinked,
  is_kind_temporary, is_set, unlink_only,
}
use whatsapp_mcp.Connection.State.{
  Ref, value_of, Conn, World, Report, reported, Update, keep, replace, carry_unlink, mark_revoked,
  settle_unlink, update_of, apply_update, record_problem, count_ban, persist_if, persist_snapshot,
  stored,
}

-- What the file holds when it is opened.
pub data SavedFile : Type 0 where
  absent unreadable : SavedFile
  decoded : Problem → SavedFile

pub data Loaded : Type 0 where
  refused : Loaded
  loaded : Option Problem → Loaded

unfoldable pub same_kind : Kind → Kind → Bool
same_kind other other = true
same_kind unlinked unlinked = true
same_kind temporarily_banned temporarily_banned = true
same_kind locked locked = true
same_kind client_outdated client_outdated = true
same_kind banned banned = true
same_kind server_error server_error = true
same_kind _ _ = false

abbrev pub is_zero_time : Option ℕ → Bool
is_zero_time none = false
is_zero_time (some t) = t == 0

unfoldable pub bad_device : (String → Bool) → String → Bool
bad_device is_jid d = not (str_eq d "") && not (is_jid d)

unfoldable pub is_kind_outdated : Kind → Bool
is_kind_outdated client_outdated = true
is_kind_outdated _ = false

-- An update of the program releases the refusal of the old build, never the mark of a revocation.
unfoldable pub clear_outdated : String → Bool → Bool → Problem → Loaded
unfolding is_kind_outdated
clear_outdated build write_fails remove_fails p =
    if is_kind_outdated p.kind && not (str_eq p.build_version build)
    then (if is_unlinked (some p)
        then (if write_fails then refused else loaded (some (unlink_only p)))
        else if remove_fails
        then refused
        else loaded none)
    else loaded (some p)

unfoldable pub is_refused : (String → Bool) → Problem → Bool
is_refused is_jid p =
    (p.since == 0 || is_zero_time p.unlinked_at)
    || (bad_device is_jid p.revoked_device
        || (not (same_kind p.kind (kind_of_code p.code))
            || is_kind_temporary p.kind && not (is_set p.expires_at)))

unfoldable pub read_problem : (String → Bool) → String → Bool → Bool → SavedFile → Loaded
read_problem is_jid build write_fails remove_fails absent = loaded none
read_problem is_jid build write_fails remove_fails unreadable = refused
read_problem is_jid build write_fails remove_fails (decoded p) =
    if is_refused is_jid p then refused else clear_outdated build write_fails remove_fails p

pub same_kind_refl : (k : Kind) → same_kind k k ≡ true
unfolding same_kind
same_kind_refl other = refl
same_kind_refl unlinked = refl
same_kind_refl temporarily_banned = refl
same_kind_refl locked = refl
same_kind_refl client_outdated = refl
same_kind_refl banned = refl
same_kind_refl server_error = refl
