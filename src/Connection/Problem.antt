-- ===== src/Connection/Problem.antt =====
-- `ConnectionProblem` and its classification (whatsapp-bridge/connection_problem.go). Times count
-- nanoseconds since 1970, and 0 is Go's zero time.
use whatsapp_mcp.Prelude.{
  ℕ, ◌+◌, ◌*◌, String, Bool, true, false, not, ◌&&◌, ◌||◌, Option, none, some, ltb, leb, ◌==◌,
  if◌then◌else◌,
}
use whatsapp_mcp.Prelude.Int.{ℤ, pos, pos_part, ltb_ℤ}

abbrev pub hour_ns : ℕ
hour_ns = 3600 * 1000000000

pub data Kind : Type 0 where
  other unlinked temporarily_banned locked client_outdated banned server_error : Kind

pub record Problem : Type 0 where
  pub unlinked_at : Option ℕ
  pub revoked_device : String
  pub session_removed : Bool
  pub kind : Kind
  pub code : ℕ
  pub temp_ban_reason : ℕ
  pub expires_at : Option ℕ
  pub since : ℕ
  pub build_version : String

unfoldable pub kind_of_code : ℕ → Kind
kind_of_code code =
    if code == 401
    then unlinked
    else if code == 402
    then temporarily_banned
    else if code == 403
    then locked
    else if code == 405
    then client_outdated
    else if code == 406
    then banned
    else if leb 500 code && ltb code 600
    then server_error
    else other

-- A ban with no term of its own lasts an hour.
abbrev ban_term : ℤ → ℕ
ban_term expire = if ltb_ℤ (pos 0) expire then pos_part expire else hour_ns

-- `build` is what `connectionBuildVersion` returns.
unfoldable pub classify : String → ℕ → ℕ → ℤ → ℕ → Problem
classify build code reason expire now = record {
  unlinked_at = none;
  revoked_device = "";
  session_removed = false;
  kind = kind_of_code code;
  code = code;
  temp_ban_reason = reason;
  expires_at = if code == 402 then some (now + ban_term expire) else none;
  since = now;
  build_version = if code == 405 then build else "";
}

unfoldable pub restricting : Kind → Bool
restricting temporarily_banned = true
restricting banned = true
restricting locked = true
restricting client_outdated = true
restricting _ = false

unfoldable pub restricts_account : Option Problem → Bool
unfolding restricting
restricts_account none = false
restricts_account (some p) = restricting p.kind

unfoldable pub is_kind_temporary : Kind → Bool
is_kind_temporary temporarily_banned = true
is_kind_temporary _ = false

unfoldable pub is_kind_unlinked : Kind → Bool
is_kind_unlinked unlinked = true
is_kind_unlinked _ = false

unfoldable pub not_expired : Option ℕ → ℕ → Bool
not_expired none now = true
not_expired (some until) now = ltb now until

unfoldable pub restricts_account_at : Option Problem → ℕ → Bool
unfolding restricts_account is_kind_temporary not_expired
restricts_account_at none now = false
restricts_account_at (some p) now =
    restricts_account (some p) && (not (is_kind_temporary p.kind) || not_expired p.expires_at now)

abbrev pub is_set : Option ℕ → Bool
is_set none = false
is_set (some t) = true

unfoldable pub is_unlinked : Option Problem → Bool
unfolding is_kind_unlinked
is_unlinked none = false
is_unlinked (some p) = is_kind_unlinked p.kind || is_set p.unlinked_at

abbrev since_of : Option ℕ → ℕ → ℕ
since_of none s = s
since_of (some t) s = t

unfoldable pub unlink_only : Problem → Problem
unlink_only p = record p {
  kind = unlinked;
  code = 401;
  temp_ban_reason = 0;
  expires_at = none;
  build_version = "";
  since = since_of p.unlinked_at p.since;
}
