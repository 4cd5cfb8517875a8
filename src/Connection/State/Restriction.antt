-- ===== src/Connection/State/Restriction.antt =====
-- An account restriction is lifted by nobody but an operator or a working connection.
use whatsapp_mcp.Prelude.{
  true, false, not, ◌&&◌, ◌||◌, ◌≡◌, refl, sym, subst, Option, none, some, arith, ◌==◌,
  if◌then◌else◌, Bool-cases, inl, inr,
}
use whatsapp_mcp.Connection.Problem.{Problem, restricts_account, is_unlinked}
use whatsapp_mcp.Connection.State.{
  value_of, Conn, World, Report, reported, Update, keep, replace, carry_unlink, mark_revoked,
  settle_unlink, update_of, apply_update, record_problem,
}

-- The problem that is stored after an update.
abbrev pub after_update : Option Problem → Update → Option Problem
after_update previous keep = previous
after_update previous (replace p) = some p

pub value_of-apply_update :
    (w : World) (r : Report) (u : Update) (c : Conn)
    → value_of (apply_update w r u c).problem ≡ after_update (value_of c.problem) u
unfolding apply_update
value_of-apply_update w r keep c = refl
value_of-apply_update w r (replace p) c = ground arith

pub value_of-record_problem :
    (w : World) (r : Report) (c : Conn)
    → value_of (record_problem w r c).problem ≡ (
        if r.active
        then after_update (value_of c.problem) (update_of w c r (value_of c.problem))
        else value_of c.problem)
unfolding record_problem
value_of-record_problem w r c =
    ground (arith, value_of-apply_update w r (update_of w c r (value_of c.problem)) c)

-- What an update may do to a problem: the restriction of `previous` is kept word for word, or
-- another restriction takes its place.
abbrev pub SameTerms : Problem → Problem → Type 0
SameTerms p q =
    (q.kind ≡ p.kind)
    × (q.code ≡ p.code)
    × (q.temp_ban_reason ≡ p.temp_ban_reason)
    × (q.expires_at ≡ p.expires_at)
    × (q.since ≡ p.since)
    × (q.build_version ≡ p.build_version)

abbrev pub Lasts : Problem → Problem → Option Problem → Type 0
Lasts p fresh none = ⊥
Lasts p fresh (some q) = if restricts_account (some fresh) then SameTerms fresh q else SameTerms p q

mark_revoked-SameTerms :
    (w : World) (c : Conn) (r : Report) (p : Problem) → SameTerms p (mark_revoked w c r p)
unfolding mark_revoked
mark_revoked-SameTerms w c r p = ground arith

carry-SameTerms :
    (w : World) (c : Conn) (r : Report) (p next : Problem)
    → SameTerms next (mark_revoked w c r (carry_unlink p next))
unfolding mark_revoked carry_unlink
carry-SameTerms w c r p next = ground arith

abbrev TermsOf : Problem → Update → Type 0
TermsOf p keep = ⊥
TermsOf p (replace q) = SameTerms p q

settle_unlink-TermsOf :
    (w : World) (c : Conn) (r : Report) (p next : Problem)
    → restricts_account (some next) ≡ true
    → TermsOf next (settle_unlink w c r (some p) next)
unfolding settle_unlink
settle_unlink-TermsOf w c r p next h =
    elim (Bool-cases ((not (r.code == 401) || not r.persistent) && is_unlinked (some p))) [
      | inl b ↦ rw (b, h) (carry-SameTerms w c r p next)
      | inr b ↦ rw b (mark_revoked-SameTerms w c r next)
    ]

Lasts-replaced :
    (p fresh : Problem) (u : Update)
    → restricts_account (some fresh) ≡ true
    → TermsOf fresh u
    → Lasts p fresh (after_update (some p) u)
Lasts-replaced p fresh keep b t = absurd t
Lasts-replaced p fresh (replace q) b t = rw b t

Lasts-kept :
    (p fresh : Problem) (u : Update)
    → restricts_account (some fresh) ≡ false
    → TermsOf p u
    → Lasts p fresh (after_update (some p) u)
Lasts-kept p fresh keep b t = absurd t
Lasts-kept p fresh (replace q) b t = rw b t

Lasts-update :
    (w : World) (r : Report) (c : Conn) (p : Problem)
    → restricts_account (some p) ≡ true
    → Lasts p (reported w r) (after_update (some p) (update_of w c r (some p)))
unfolding update_of
Lasts-update w r c p h = elim (Bool-cases (restricts_account (some (reported w r)))) [
  | inl b ↦
      subst
        (λ k. Lasts p (reported w r) (
          after_update (some p) (
            if not k && restricts_account (some p)
            then (if not (r.code == 401) then keep else settle_unlink w c r (some p) p)
            else settle_unlink w c r (some p) (reported w r))))
        (sym b)
        (Lasts-replaced p (reported w r) _ b (settle_unlink-TermsOf w c r p (reported w r) b))
  | inr b ↦ elim (Bool-cases (r.code == 401)) [
    | inl k ↦
        subst (λ u. Lasts p (reported w r) (after_update (some p) u)) (sym (kept_beside b k))
          (Lasts-kept p (reported w r) _ b (settle_unlink-TermsOf w c r p p h))
    | inr k ↦
        subst (λ u. Lasts p (reported w r) (after_update (some p) u)) (sym (kept_alone b k))
          (rw b (refl, refl, refl, refl, refl, refl))
  ]
]
  where
    kept_beside :
        restricts_account (some (reported w r)) ≡ false
        → (r.code == 401) ≡ true
        → update_of w c r (some p) ≡ settle_unlink w c r (some p) p
    kept_beside b k = rw (b, h, k)

    kept_alone :
        restricts_account (some (reported w r)) ≡ false
        → (r.code == 401) ≡ false
        → update_of w c r (some p) ≡ keep
    kept_alone b k = rw (b, h, k)

replaced_problem :
    (w : World) (r : Report) (c : Conn) (p : Problem)
    → value_of c.problem ≡ some p
    → r.active ≡ true
    → value_of (record_problem w r c).problem ≡ after_update (some p) (update_of w c r (some p))
replaced_problem w r c p e on = ground (arith, value_of-record_problem w r c)

-- After a report that finds a restriction in force, the restriction of the report takes its place
-- if the report brings one, and otherwise the one in force stands: kind, code, reason, term, start
-- and build are unchanged.
pub restriction-Lasts :
    (w : World) (r : Report) (c : Conn) (p : Problem)
    → value_of c.problem ≡ some p
    → restricts_account (some p) ≡ true
    → r.active ≡ true
    → Lasts p (reported w r) (value_of (record_problem w r c).problem)
restriction-Lasts w r c p e h on =
    subst (Lasts p (reported w r)) (sym (replaced_problem w r c p e on)) (Lasts-update w r c p h)
