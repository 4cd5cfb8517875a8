-- ===== src/Keepalive.antt =====
-- `runSessionKeepalive` of whatsapp-bridge/session_keepalive.go: the loop that marks the linked
-- device as in use for a moment. A round is one pass of the loop; the clock, the session, the two
-- sends and the stop of the bridge are the round's environment. 0 is Go's zero time.
pub mod Mark
pub mod Due
pub mod Spacing
pub mod Hours
mod Examples
use whatsapp_mcp.Prelude.{
  ℕ, ◌+◌, Bool, true, false, not, ◌&&◌, ◌||◌, List, [], ◌∷◌, ltb, leb, ◌==◌, if◌then◌else◌,
}

-- The settings of the bridge that the loop reads.
pub record Settings : Type 0 where
  pub keepalive : ℕ
  pub settle : ℕ
  pub retry : ℕ

-- How the send of `available` ended; without a push name whatsmeow refuses before it sends.
pub data Available : Type 0 where
  sent no_push_name send_failed : Available

-- What one pass of the loop meets. `polled` is what the sleep before it returns, `holds` the sleep
-- while the device is available, `cancelled` whether the bridge is stopped after a failed send.
pub record Round : Type 0 where
  pub polled : Bool
  pub now : ℕ
  pub is_ready : Bool
  pub available : Available
  pub unavailable_fails : Bool
  pub cancelled : Bool
  pub holds : Bool
  pub write_fails : Bool

-- The presences that were sent or tried, the latest first. A failed one may have gone out.
pub data Presence : Type 0 where
  available_sent : ℕ → Presence
  available_failed unavailable_sent unavailable_failed : Presence

pub record Loop : Type 0 where
  pub last_blip : ℕ
  pub ready_since : ℕ
  pub not_before : ℕ
  pub no_name_since : ℕ
  pub no_name_warned : Bool
  pub pending_off : Bool
  pub saved : ℕ
  pub keepalives : ℕ
  pub presences : List Presence

-- A pass goes on with the loop or leaves it.
pub data Pass : Type 0 where
  goes_on returns : Loop → Pass

-- `markUnavailable`
unfoldable pub mark_unavailable : Round → Loop → Loop
mark_unavailable w l = record l {
  presences = (if w.unavailable_fails then unavailable_failed else unavailable_sent) ∷ l.presences;
}

unfoldable pub retry_off : Round → Loop → Loop
retry_off w l = record (mark_unavailable w l) { pending_off = w.unavailable_fails }

-- What a clock that stepped back leaves of the marks.
unfoldable pub forget_future : Settings → ℕ → Loop → Loop
forget_future s now l = record l {
  last_blip = if ltb now l.last_blip then 0 else l.last_blip;
  ready_since = if ltb now l.ready_since then 0 else l.ready_since;
  not_before = if ltb (now + s.retry) l.not_before then 0 else l.not_before;
}

unfoldable pub note_ready : ℕ → Loop → Loop
note_ready now l = record l { ready_since = if l.ready_since == 0 then now else l.ready_since }

unfoldable pub too_early : Settings → ℕ → Loop → Bool
too_early s now l =
    ltb now (l.ready_since + s.settle)
    || (not (l.last_blip == 0) && ltb now (l.last_blip + s.keepalive) || ltb now l.not_before)

unfoldable pub await_name : Settings → ℕ → Loop → Loop
await_name s now l =
    let since = if l.no_name_since == 0 then now else l.no_name_since in
    record l {
      no_name_since = since;
      no_name_warned = l.no_name_warned || leb (since + s.retry) now;
    }

unfoldable pub undo_failed : Settings → Round → Loop → Pass
undo_failed s w l =
    let off = mark_unavailable w (record l { presences = available_failed ∷ l.presences }) in
    if w.cancelled then returns off else goes_on (record off { not_before = w.now + s.retry })

-- The blip went out: the hold, the way back, and the file.
unfoldable pub blip_sent : Round → Loop → Loop
blip_sent w l =
    record (mark_unavailable w (record l {
      last_blip = w.now;
      keepalives = l.keepalives + 1;
      presences = available_sent w.now ∷ l.presences;
    })) { saved = if w.write_fails then l.saved else w.now }

unfoldable pub finish_blip : Round → Loop → Pass
finish_blip w l =
    if not w.holds
    then returns l
    else goes_on (record l { pending_off = if w.unavailable_fails then true else l.pending_off })

unfoldable pub named : Loop → Loop
named l = record l { no_name_since = 0; no_name_warned = false }

unfoldable pub blip : Settings → Round → Loop → Available → Pass
blip s w l no_push_name = goes_on (await_name s w.now l)
blip s w l send_failed = undo_failed s w (named l)
blip s w l sent = finish_blip w (blip_sent w (named l))

unfoldable pub attempt : Settings → Round → Loop → Pass
attempt s w l = if too_early s w.now l then goes_on l else blip s w l w.available

unfoldable pub work : Settings → Round → Loop → Pass
work s w l =
    let seen = forget_future s w.now l in
    if not w.is_ready
    then goes_on (record seen { ready_since = 0 })
    else attempt s w (note_ready w.now seen)

-- One pass of the `for` loop.
unfoldable pub pass : Settings → Round → Loop → Pass
pass s w l =
    if not w.polled
    then returns (if l.pending_off then mark_unavailable w l else l)
    else if l.pending_off
    then goes_on (retry_off w l)
    else work s w l
