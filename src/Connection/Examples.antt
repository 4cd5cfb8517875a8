-- ===== src/Connection/Examples.antt =====
-- Runs of the connection problems: a temporary ban, and the reports that follow it.
use whatsapp_mcp.Prelude.{ℕ, ◌≡◌, refl, true, false, none, some, ◌+◌}
use whatsapp_mcp.Prelude.Int.{pos}
use whatsapp_mcp.Connection.Problem.{
  Problem, temporarily_banned, hour_ns, restricts_account, kind_of_code,
}
use whatsapp_mcp.Connection.State.{
  Conn, World, Report, value_of, reported, record_problem, update_of, settle_unlink, mark_revoked,
  replace, wait_round, decide, blocks, term_left, allowed, retry_save, set_pairing_state,
}
use whatsapp_mcp.Connection.State.Restriction.{restriction-Lasts, Lasts}
use whatsapp_mcp.Connection.State.Memory.{IsRemembered, report, step, step-IsRemembered}
use whatsapp_mcp.Connection.Startup.{read_problem, decoded, clear_outdated, bad_device}
use whatsapp_mcp.Connection.Startup.Restart.{restart-report, IsSound}

abbrev world : World
world = record { now = 1000; build = "1"; write_fails = false; remove_fails = false }

abbrev ban : Problem
ban = record {
  unlinked_at = none;
  revoked_device = "";
  session_removed = false;
  kind = temporarily_banned;
  code = 402;
  temp_ban_reason = 101;
  expires_at = some (1000 + hour_ns);
  since = 1000;
  build_version = "";
}

abbrev fresh : Conn
fresh = record {
  problem = none;
  pairing_state = "";
  persistence_failed = false;
  saved = none;
  has_store_root = true;
  operator_logout = false;
  client_retired = false;
  device_id = some "1:2@s.whatsapp.net";
  temp_bans = λ k. 0;
  changes = 0;
  next_number = 1;
}

abbrev under_ban : Conn
under_ban = record fresh { problem = some (record { number = 0; value = ban }); saved = some ban }

abbrev a_report : ℕ → Report
a_report code = record {
  code = code;
  reason = 101;
  expire = pos 0;
  active = true;
  persistent = true;
}

ban_report : update_of world fresh (a_report 402) none ≡ replace ban
unfolding update_of settle_unlink mark_revoked reported kind_of_code
ban_report = refl

fresh-IsRemembered : IsRemembered fresh
unfolding restricts_account
fresh-IsRemembered = record { on_disk = λ a b c. refl; termed = tt }

under_ban-IsRemembered : IsRemembered under_ban
under_ban-IsRemembered = record { on_disk = λ a b c. refl; termed = λ h. refl }

restriction-Lasts_example :
    Lasts ban
      (reported world (a_report 503))
      (value_of (record_problem world (a_report 503) under_ban).problem)
unfolding restricts_account
restriction-Lasts_example = restriction-Lasts world (a_report 503) under_ban ban refl refl refl

step-IsRemembered_example : IsRemembered (step (report world (a_report 402)) fresh)
step-IsRemembered_example = step-IsRemembered (report world (a_report 402)) fresh fresh-IsRemembered

-- The ban has run out, and another report arrives during the round.
abbrev later : World
later = record world { now = 1000 + hour_ns }

expired_allowed : (wait_round later false (set_pairing_state "") under_ban).0 ≡ allowed
unfolding wait_round retry_save set_pairing_state decide blocks term_left
expired_allowed = refl

fresh-IsSound : IsSound (λ d. true) fresh
unfolding bad_device
fresh-IsSound = record { marks = tt; kinds = tt; device = refl }

restart-report_example :
    ((record_problem world (a_report 402) fresh).saved ≡ some ban)
    × (value_of (record_problem world (a_report 402) fresh).problem ≡ some ban)
    × (read_problem (λ d. true) "1" false false (decoded ban) ≡ clear_outdated "1" false false ban)
restart-report_example =
    restart-report (λ d. true) world (a_report 402) fresh ban "1" false false fresh-IsSound refl
      refl refl refl refl ban_report
