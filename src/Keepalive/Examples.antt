-- ===== src/Keepalive/Examples.antt =====
-- A loop of three passes: a first blip, one that is not due, and one whose end fails.
use whatsapp_mcp.Prelude.{ℕ, Bool, true, false, ◌≡◌, inl, refl, List, [], ◌∷◌, if◌then◌else◌}
use whatsapp_mcp.Prelude.{◌*◌, Option, some, none, if◌then◌else◌}
use whatsapp_mcp.Prelude.Int.{ℤ, pos}
use whatsapp_mcp.Prelude.Text.{Text, codes, text_eq, trim_space, trim_left, trim_right, is_space}
use whatsapp_mcp.Keepalive.Hours.{hour_ns, resolve_hours, parsed_hours, hours_of}
use whatsapp_mcp.Keepalive.{
  Settings, sent, send_failed, Round, available_sent, unavailable_sent, unavailable_failed, Loop,
  mark_unavailable, forget_future, note_ready, too_early, blip_sent, finish_blip, named, blip,
  undo_failed, attempt, work, pass,
}
use whatsapp_mcp.Keepalive.Mark.{
  mark_of, after_failed, unclear, tried_off, Settled, run, next_pass, Settled-run,
}
use whatsapp_mcp.Keepalive.Due.{loop_of}

abbrev settings : Settings
settings = record { keepalive = 100; settle = 0; retry = 20 }

abbrev round_at : ℕ → Bool → Round
round_at now fails = record {
  polled = true;
  now = now;
  is_ready = true;
  available = sent;
  unavailable_fails = fails;
  cancelled = false;
  holds = true;
  write_fails = false;
}

abbrev start : Loop
start = record {
  last_blip = 0;
  ready_since = 0;
  not_before = 0;
  no_name_since = 0;
  no_name_warned = false;
  pending_off = false;
  saved = 0;
  keepalives = 0;
  presences = [];
}

abbrev rounds : List Round
rounds = round_at 10 false ∷ round_at 60 false ∷ round_at 130 true ∷ []

end_marked :
    (loop_of (run settings rounds start)).presences
    ≡ unavailable_failed ∷ available_sent 130 ∷ unavailable_sent ∷ available_sent 10 ∷ []
unfolding run next_pass pass work attempt too_early note_ready forget_future blip named finish_blip
    blip_sent mark_unavailable
end_marked = refl

Settled-run_example : Settled (run settings rounds start)
unfolding mark_of
Settled-run_example = Settled-run settings rounds start (inl (refl, refl))

-- Both sends of a pass fail: nothing is pending, and the `available` may have gone out.
abbrev both_fail : List Round
both_fail = record (round_at 10 true) { available = send_failed } ∷ []

unremembered :
    (mark_of (loop_of (run settings both_fail start)).presences ≡ unclear)
    × ((loop_of (run settings both_fail start)).pending_off ≡ false)
    × (tried_off (loop_of (run settings both_fail start)).presences ≡ true)
unfolding run next_pass pass work attempt too_early note_ready forget_future blip named undo_failed
    mark_unavailable mark_of after_failed tried_off
unremembered = (refl, refl, refl)

-- A reader that knows one number.
abbrev reads_twelve : Text → Option ℤ
reads_twelve t = if text_eq t (codes "12") then some (pos 12) else none

abbrev weekly : ℕ
weekly = 168

twelve_hours : resolve_hours reads_twelve (codes " 12") hour_ns weekly ≡ some (12 * hour_ns)
unfolding resolve_hours parsed_hours hours_of trim_space trim_left trim_right is_space text_eq
twelve_hours = refl
