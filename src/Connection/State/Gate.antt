-- ===== src/Connection/State/Gate.antt =====
-- The gate before a dial: `waitConnectionAllowedContext`.
use whatsapp_mcp.Prelude.{
  String, str_eq, Bool, true, false, ◌&&◌, ◌≡◌, refl, Option, none, some, arith, if_both, eq_iff,
}
use whatsapp_mcp.Connection.Problem.{Problem, restricts_account, restricts_account_at}
use whatsapp_mcp.Connection.State.{
  Ref, value_of, Conn, World, allowed, blocks, retry_save, term_left, decide, wait_round,
}
use whatsapp_mcp.Connection.State.Memory.{HasTerm, IsRemembered, persist-IsRemembered}

-- What the gate has seen when it lets a dial through.
record Open (w : World) (p : Option Problem) (state : String) (c : Conn) : Type 0 where
  saved_ok : (c.persistence_failed && restricts_account (value_of c.problem)) ≡ false
  unblocked : blocks p state ≡ false
  term_over : term_left w p ≡ allowed

decide-Open :
    (w : World) (p : Option Problem) (state : String) (c : Conn)
    → decide w p state c ≡ allowed
    → Open w p state c
unfolding decide
decide-Open w p state c h = ground arith

unrestricted :
    (w : World) (p : Option Problem) (state : String)
    → HasTerm p
    → blocks p state ≡ false
    → term_left w p ≡ allowed
    → (restricts_account_at p w.now ≡ false) × (str_eq state "" ≡ true)
unfolding restricts_account_at blocks term_left
unrestricted w none state t b e = ground arith
unrestricted w (some p) state t b e = ground arith

retry_save-IsRemembered :
    (w : World) (r : Option Ref) (c : Conn) → IsRemembered c → IsRemembered (retry_save w r c)
unfolding retry_save
retry_save-IsRemembered w none c v = v
retry_save-IsRemembered w (some r) c v =
    if_both IsRemembered
      (c.persistence_failed && (restricts_account (some r.value) && c.has_store_root)) _ c
      (λ b. persist-IsRemembered w r.number c v) (λ b. v)

remembered_on_disk :
    (c : Conn)
    → IsRemembered c
    → (c.persistence_failed && restricts_account (value_of c.problem)) ≡ false
    → c.has_store_root ≡ true
    → restricts_account (value_of c.problem) ≡ true
    → c.saved ≡ value_of c.problem
remembered_on_disk c v h root on = v.on_disk root (ground arith) on

round_allowed :
    (w : World) (cancelled : Bool) (others : Conn → Conn) (c : Conn)
    → (wait_round w cancelled others c).0 ≡ allowed
    → (cancelled ≡ false)
      × (decide w (value_of c.problem) c.pairing_state (retry_save w c.problem (others c))
          ≡ allowed)
      × ((wait_round w cancelled others c).1 ≡ retry_save w c.problem (others c))
unfolding wait_round
round_allowed w true others c h = cc
round_allowed w false others c h = (refl, h, refl)

-- The gate lets a dial through only if the bridge is not shutting down, no restriction was in force
-- at the clock when the round looked, no pairing was under way, and, whatever the other goroutines
-- did meanwhile, a restriction stored at the end of the round is in the file.
dial_allowed :
    (w : World) (cancelled : Bool) (others : Conn → Conn) (c : Conn)
    → IsRemembered c
    → IsRemembered (others c)
    → (wait_round w cancelled others c).0 ≡ allowed
    → let after = (wait_round w cancelled others c).1 in
      (cancelled ≡ false)
      × (restricts_account_at (value_of c.problem) w.now ≡ false)
      × (c.pairing_state ≡ "")
      × (after.has_store_root ≡ true
          → restricts_account (value_of after.problem) ≡ true
          → after.saved ≡ value_of after.problem)
dial_allowed w cancelled others c v vo h =
    let (running, d, left) = round_allowed w cancelled others c h in
    let o =
      decide-Open w (value_of c.problem) c.pairing_state (retry_save w c.problem (others c)) d in
    let u = unrestricted w (value_of c.problem) c.pairing_state v.termed o.unblocked o.term_over in
    (
      running,
      u.0,
      (eq_iff c.pairing_state "").0 u.1,
      rw left (
          remembered_on_disk (retry_save w c.problem (others c))
            (retry_save-IsRemembered w c.problem (others c) vo) o.saved_ok),
    )
