-- ===== src/Connection/Startup/Restart.antt =====
-- Every problem that a report writes to the file is accepted by the next start.
use whatsapp_mcp.Prelude.{
  ℕ, String, Bool, true, false, not, ◌&&◌, ◌≡◌, refl, subst, ap, ◌∙◌, Option, none, some, arith,
  ◌==◌, if◌then◌else◌, if_both,
}
use whatsapp_mcp.Prelude.Int.{ℤ}
use whatsapp_mcp.Connection.Problem.{
  Problem, kind_of_code, classify, restricts_account, is_kind_temporary, is_set,
}
use whatsapp_mcp.Connection.State.{
  value_of, Conn, World, Report, reported, replace, carry_unlink, mark_revoked, settle_unlink,
  update_of, apply_update, record_problem, device_text,
}
use whatsapp_mcp.Connection.State.Restriction.{after_update, value_of-apply_update}
use whatsapp_mcp.Connection.Startup.{
  same_kind, same_kind_refl, is_zero_time, bad_device, is_refused, clear_outdated, read_problem,
  decoded,
}

record FreshFields (w : World) (p : Problem) : Type 0 where
  since_is : p.since ≡ w.now
  unlinked_is : p.unlinked_at ≡ none
  device_is : p.revoked_device ≡ ""

reported-FreshFields : (w : World) (r : Report) → FreshFields w (reported w r)
unfolding reported
reported-FreshFields w r = ground arith

bad_device-empty : (is_jid : String → Bool) → bad_device is_jid "" ≡ false
unfolding bad_device
bad_device-empty is_jid = refl

-- A restriction has the kind of its code, and a temporary one an end.
abbrev pub HasKind : Option Problem → Type 0
HasKind none = Unit
HasKind (some p) =
    restricts_account (some p) ≡ true
    → (same_kind p.kind (kind_of_code p.code) ≡ true)
      × ((is_kind_temporary p.kind && not (is_set p.expires_at)) ≡ false)

module _ (is_jid : String → Bool) where
  -- The times of a problem are set, and its device is one that parses.
  abbrev pub HasMarks : Option Problem → Type 0
  HasMarks none = Unit
  HasMarks (some p) =
      ((p.since == 0) ≡ false)
      × (is_zero_time p.unlinked_at ≡ false)
      × (bad_device is_jid p.revoked_device ≡ false)

  pub record IsSound (c : Conn) : Type 0 where
    pub marks : HasMarks (value_of c.problem)
    pub kinds : HasKind (value_of c.problem)
    pub device : bad_device is_jid (device_text c.device_id) ≡ false

  reported-HasMarks :
      (w : World) (r : Report) → (w.now == 0) ≡ false → HasMarks (some (reported w r))
  reported-HasMarks w r h =
      let f = reported-FreshFields w r in
      (
        ap (λ t. t == 0) f.since_is ∙ h,
        ap is_zero_time f.unlinked_is,
        ap (bad_device is_jid) f.device_is ∙ bad_device-empty is_jid,
      )

  settle_HasMarks :
      (w : World) (c : Conn) (r : Report) (o : Option Problem) (next : Problem)
      → (w.now == 0) ≡ false
      → bad_device is_jid (device_text c.device_id) ≡ false
      → HasMarks o
      → HasMarks (some next)
      → HasMarks (after_update o (settle_unlink w c r o next))
  unfolding settle_unlink mark_revoked carry_unlink
  settle_HasMarks w c r none next t d ho h = ground arith
  settle_HasMarks w c r (some p) next t d ho h = ground arith

  update_HasMarks :
      (w : World) (c : Conn) (r : Report) (o : Option Problem)
      → (w.now == 0) ≡ false
      → bad_device is_jid (device_text c.device_id) ≡ false
      → HasMarks o
      → HasMarks (after_update o (update_of w c r o))
  unfolding update_of
  update_HasMarks w c r none t d h =
      settle_HasMarks w c r none (reported w r) t d h (reported-HasMarks w r t)
  update_HasMarks w c r (some p) t d h = ground (
    arith,
    settle_HasMarks w c r (some p) p t d h h,
    settle_HasMarks w c r (some p) (reported w r) t d h (reported-HasMarks w r t),
  )

-- The kind that `readConnectionProblem` expects.
abbrev pub Expected : Problem → Type 0
Expected p =
    (same_kind p.kind (kind_of_code p.code) ≡ true)
    × ((is_kind_temporary p.kind && not (is_set p.expires_at)) ≡ false)

kind_term :
    (code t : ℕ)
    → (is_kind_temporary (kind_of_code code) && not (is_set (if code == 402 then some t else none)))
      ≡ false
unfolding kind_of_code is_kind_temporary
kind_term code t = ground arith

classify-Expected :
    (build : String) (code reason : ℕ) (expire : ℤ) (now : ℕ)
    → Expected (classify build code reason expire now)
unfolding classify
classify-Expected build code reason expire now =
    (same_kind_refl (kind_of_code code), kind_term code _)

reported-Expected : (w : World) (r : Report) → r.persistent ≡ true → Expected (reported w r)
unfolding reported
reported-Expected w r h =
    if_both Expected r.persistent _ _
      (λ b. classify-Expected w.build r.code r.reason r.expire w.now) (λ b. cc)

settle_Expected :
    (w : World) (c : Conn) (r : Report) (o : Option Problem) (next p : Problem)
    → Expected next
    → settle_unlink w c r o next ≡ replace p
    → Expected p
unfolding settle_unlink mark_revoked carry_unlink
settle_Expected w c r none next p h e = ground arith
settle_Expected w c r (some q) next p h e = ground arith

update_Expected :
    (w : World) (c : Conn) (r : Report) (o : Option Problem) (p : Problem)
    → r.persistent ≡ true
    → HasKind o
    → update_of w c r o ≡ replace p
    → Expected p
unfolding update_of
update_Expected w c r none p on h e =
    settle_Expected w c r none (reported w r) p (reported-Expected w r on) e
update_Expected w c r (some q) p on h e = ground (
  arith,
  settle_Expected w c r (some q) q p,
  settle_Expected w c r (some q) (reported w r) p (reported-Expected w r on),
)

accepted :
    (is_jid : String → Bool) (p : Problem)
    → HasMarks is_jid (some p)
    → Expected p
    → is_refused is_jid p ≡ false
unfolding is_refused
accepted is_jid p m h = ground arith

written :
    (w : World) (r : Report) (p : Problem) (c : Conn)
    → r.persistent ≡ true
    → c.has_store_root ≡ true
    → w.write_fails ≡ false
    → (apply_update w r (replace p) c).saved ≡ some p
unfolding apply_update
written w r p c on root ok = ground arith

record_problem-replace :
    (w : World) (r : Report) (p : Problem) (c : Conn)
    → r.active ≡ true
    → update_of w c r (value_of c.problem) ≡ replace p
    → record_problem w r c ≡ apply_update w r (replace p) c
unfolding record_problem
record_problem-replace w r p c on e = ground arith

read_accepted :
    (is_jid : String → Bool) (p : Problem) (build : String) (wf rf : Bool)
    → is_refused is_jid p ≡ false
    → read_problem is_jid build wf rf (decoded p) ≡ clear_outdated build wf rf p
unfolding read_problem
read_accepted is_jid p build wf rf h = rw h

-- What an active, persistent report stores while the file can be written is in the file, word for
-- word, and the next start accepts it: it is refused neither for its times, nor for its device, its
-- kind or its term. The start then only releases a refusal of an old build.
pub restart-report :
    (is_jid : String → Bool) (w : World) (r : Report) (c : Conn) (p : Problem) (build : String)
    (wf rf : Bool)
    → IsSound is_jid c
    → (w.now == 0) ≡ false
    → r.active ≡ true
    → r.persistent ≡ true
    → c.has_store_root ≡ true
    → w.write_fails ≡ false
    → update_of w c r (value_of c.problem) ≡ replace p
    → ((record_problem w r c).saved ≡ some p)
      × (value_of (record_problem w r c).problem ≡ some p)
      × (read_problem is_jid build wf rf (decoded p) ≡ clear_outdated build wf rf p)
restart-report is_jid w r c p build wf rf v t on pe root ok e =
    let marks =
      subst (λ u. HasMarks is_jid (after_update (value_of c.problem) u)) e
        (update_HasMarks is_jid w c r (value_of c.problem) t v.device v.marks) in
    let good =
      accepted is_jid p marks (update_Expected w c r (value_of c.problem) p pe v.kinds e) in
    let same = record_problem-replace w r p c on e in
    (
      ap (λ (k : Conn). k.saved) same ∙ written w r p c pe root ok,
      ap (λ (k : Conn). value_of k.problem) same ∙ value_of-apply_update w r (replace p) c,
      read_accepted is_jid p build wf rf good,
    )
