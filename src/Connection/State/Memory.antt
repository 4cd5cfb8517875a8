-- ===== src/Connection/State/Memory.antt =====
-- A restart never forgets a restriction: what the file holds, under every operation.
use whatsapp_mcp.Prelude.{
  ℕ, String, Bool, true, false, not, ◌≡◌, refl, subst, ap, Option, none, some, List, [], ◌∷◌, arith,
  Bool-cases, if_both, inl, inr,
}
use whatsapp_mcp.Connection.State.Restriction.{after_update}
use whatsapp_mcp.Connection.Problem.{
  Problem, restricts_account, is_unlinked, is_kind_temporary, is_set, kind_of_code, unlink_only,
}
use whatsapp_mcp.Connection.State.{
  value_of, Conn, World, Report, reported, Update, keep, replace, carry_unlink, mark_revoked,
  settle_unlink, update_of, apply_update, record_problem, persist_problem_if, clear_problem,
  clear_problem_if, resolve_problem_if, resolve_unlinked, resolve_stored, refers, set_pairing_state,
  clear_snapshot,
}

-- A temporary ban has an end.
abbrev pub HasTerm : Option Problem → Type 0
HasTerm none = Unit
HasTerm (some p) = is_kind_temporary p.kind ≡ true → is_set p.expires_at ≡ true

-- A restriction in force is in the file, or the failure to write it is known.
pub record IsRemembered (c : Conn) : Type 0 where
  pub on_disk :
      c.has_store_root ≡ true
      → c.persistence_failed ≡ false
      → restricts_account (value_of c.problem) ≡ true
      → c.saved ≡ value_of c.problem
  pub termed : HasTerm (value_of c.problem)

pub data Event : Type 0 where
  report : World → Report → Event
  persist : World → ℕ → Event
  clear : World → Event
  clear_if : World → Option ℕ → Event
  resolve : World → Option ℕ → Event
  set_state : String → Event

unfoldable pub step : Event → Conn → Conn
step (report w r) c = record_problem w r c
step (persist w n) c = persist_problem_if w n c
step (clear w) c = clear_problem w c
step (clear_if w n) c = clear_problem_if w n c
step (resolve w n) c = resolve_problem_if w n c
step (set_state s) c = set_pairing_state s c

reported-HasTerm : (w : World) (r : Report) → HasTerm (some (reported w r))
unfolding reported kind_of_code is_kind_temporary
reported-HasTerm w r = ground arith

clear_snapshot-IsRemembered :
    (w : World) (k : Bool) (c : Conn) → IsRemembered c → IsRemembered (clear_snapshot w k c)
unfolding clear_snapshot
clear_snapshot-IsRemembered w k c v = ground arith

pub persist-IsRemembered :
    (w : World) (n : ℕ) (c : Conn) → IsRemembered c → IsRemembered (persist_problem_if w n c)
unfolding persist_problem_if
persist-IsRemembered w n c v = ground arith

resolve_unlinked-IsRemembered :
    (w : World) (p : Problem) (c : Conn) → IsRemembered c → IsRemembered (resolve_unlinked w p c)
unfolding resolve_unlinked unlink_only restricts_account is_kind_temporary
resolve_unlinked-IsRemembered w p c v = ground arith

carry_same :
    (p : Problem)
    → restricts_account (some p) ≡ true
    → is_unlinked (some p) ≡ true
    → carry_unlink p p ≡ p
unfolding carry_unlink restricts_account is_unlinked
carry_same p h u = ground arith

settle_HasTerm :
    (w : World) (c : Conn) (r : Report) (previous : Option Problem) (next : Problem)
    → HasTerm previous
    → HasTerm (some next)
    → HasTerm (after_update previous (settle_unlink w c r previous next))
unfolding settle_unlink mark_revoked carry_unlink
settle_HasTerm w c r none next hp h = ground arith
settle_HasTerm w c r (some p) next hp h = ground arith

update_HasTerm :
    (w : World) (c : Conn) (r : Report) (previous : Option Problem)
    → HasTerm previous
    → HasTerm (after_update previous (update_of w c r previous))
unfolding update_of
update_HasTerm w c r none hp = settle_HasTerm w c r none (reported w r) hp (reported-HasTerm w r)
update_HasTerm w c r (some p) hp = ground (
  arith,
  settle_HasTerm w c r (some p) p hp hp,
  settle_HasTerm w c r (some p) (reported w r) hp (reported-HasTerm w r),
)

settle_plain :
    (w : World) (c : Conn) (r : Report) (q next p : Problem)
    → r.persistent ≡ false
    → restricts_account (some next) ≡ false
    → settle_unlink w c r (some q) next ≡ replace p
    → restricts_account (some p) ≡ false
unfolding settle_unlink mark_revoked carry_unlink restricts_account
settle_plain w c r q next p np b e = ground arith

settle_self :
    (w : World) (c : Conn) (r : Report) (q p : Problem)
    → r.persistent ≡ false
    → restricts_account (some q) ≡ true
    → settle_unlink w c r (some q) q ≡ replace p
    → q ≡ p
unfolding settle_unlink mark_revoked
settle_self w c r q p np b e = ground (arith, carry_same q)

reported_plain :
    (w : World) (r : Report)
    → r.persistent ≡ false
    → restricts_account (some (reported w r)) ≡ false
unfolding reported restricts_account
reported_plain w r np = ground arith

diagnostic_first :
    (w : World) (c : Conn) (r : Report) (p : Problem)
    → r.persistent ≡ false
    → update_of w c r none ≡ replace p
    → restricts_account (some p) ≡ false
unfolding update_of settle_unlink mark_revoked reported restricts_account
diagnostic_first w c r p np e = ground arith

diagnostic_next :
    (w : World) (c : Conn) (r : Report) (q p : Problem)
    → r.persistent ≡ false
    → update_of w c r (some q) ≡ replace p
    → restricts_account (some p) ≡ true
    → q ≡ p
unfolding update_of
diagnostic_next w c r q p np e h = ground (
  arith,
  reported_plain w r np,
  settle_plain w c r q (reported w r) p np (reported_plain w r np),
  settle_self w c r q p np,
)

-- A diagnostic stores a restriction only where that restriction was stored before.
diagnostic_same :
    (w : World) (c : Conn) (r : Report) (previous : Option Problem) (p : Problem)
    → r.persistent ≡ false
    → update_of w c r previous ≡ replace p
    → restricts_account (some p) ≡ true
    → previous ≡ some p
diagnostic_same w c r none p np e h = cc (diagnostic_first w c r p np e)
diagnostic_same w c r (some q) p np e h = ap some (diagnostic_next w c r q p np e h)

apply_update-IsRemembered :
    (w : World) (r : Report) (u : Update) (c : Conn)
    → update_of w c r (value_of c.problem) ≡ u
    → IsRemembered c
    → IsRemembered (apply_update w r u c)
unfolding apply_update
apply_update-IsRemembered w r keep c e v = v
apply_update-IsRemembered w r (replace p) c e v =
    let t =
      subst (λ k. HasTerm (after_update (value_of c.problem) k)) e
        (update_HasTerm w c r (value_of c.problem) v.termed) in
    elim (Bool-cases r.persistent) [
      | inl b ↦ ground arith
      | inr b ↦ ground (arith, diagnostic_same w c r (value_of c.problem) p b e)
    ]

record_problem-IsRemembered :
    (w : World) (r : Report) (c : Conn) → IsRemembered c → IsRemembered (record_problem w r c)
unfolding record_problem
record_problem-IsRemembered w r c v =
    if_both IsRemembered r.active _ c
      (λ b. apply_update-IsRemembered w r (update_of w c r (value_of c.problem)) c refl v) (λ b. v)

clear_if-IsRemembered :
    (w : World) (n : Option ℕ) (c : Conn) → IsRemembered c → IsRemembered (clear_problem_if w n c)
unfolding clear_problem_if
clear_if-IsRemembered w n c v =
    if_both IsRemembered (refers c.problem n) _ c (λ b. clear_snapshot-IsRemembered w false c v)
      (λ b. v)

resolve_stored-IsRemembered :
    (w : World) (n : Option ℕ) (c : Conn) (o : Option Problem)
    → IsRemembered c
    → IsRemembered (resolve_stored w n c o)
unfolding resolve_stored
resolve_stored-IsRemembered w n c none v = clear_if-IsRemembered w n c v
resolve_stored-IsRemembered w n c (some p) v =
    if_both IsRemembered (is_unlinked (some p)) _ _ (λ b. resolve_unlinked-IsRemembered w p c v)
      (λ b. clear_if-IsRemembered w n c v)

resolve-IsRemembered :
    (w : World) (n : Option ℕ) (c : Conn) → IsRemembered c → IsRemembered (resolve_problem_if w n c)
unfolding resolve_problem_if
resolve-IsRemembered w n c v =
    if_both IsRemembered (not (refers c.problem n)) c _ (λ b. v)
      (λ b. resolve_stored-IsRemembered w n c (value_of c.problem) v)

-- Whatever is reported, written again, cleared, acknowledged or paired, and whichever writes and
-- removals fail: with a store, a restriction in force is in the file or its failed write is flagged,
-- and a temporary ban has an end.
pub step-IsRemembered : (e : Event) (c : Conn) → IsRemembered c → IsRemembered (step e c)
unfolding step clear_problem set_pairing_state
step-IsRemembered (report w r) c v = record_problem-IsRemembered w r c v
step-IsRemembered (persist w n) c v = persist-IsRemembered w n c v
step-IsRemembered (clear w) c v = ground (arith, clear_snapshot-IsRemembered w true c v)
step-IsRemembered (clear_if w n) c v = clear_if-IsRemembered w n c v
step-IsRemembered (resolve w n) c v = resolve-IsRemembered w n c v
step-IsRemembered (set_state s) c v = ground arith

unfoldable pub run : List Event → Conn → Conn
run [] c = c
run (e ∷ es) c = run es (step e c)

-- So after any history of such events.
pub run-IsRemembered : (es : List Event) (c : Conn) → IsRemembered c → IsRemembered (run es c)
unfolding run
run-IsRemembered [] c v = v
run-IsRemembered (e ∷ es) c v = run-IsRemembered es (step e c) (step-IsRemembered e c v)
