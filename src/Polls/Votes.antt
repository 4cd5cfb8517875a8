-- ===== src/Polls/Votes.antt =====
-- The latest vote of a voter is the one that the table keeps.
use whatsapp_mcp.Prelude.{
  ℕ, ◌≡◌, refl, ap, sym, ◌∙◌, String, str_eq, eq_iff, true, false, ◌&&◌, Option, none, some, List,
  [], ◌∷◌, ltb, if◌then◌else◌, arith, Bool-cases, inl, inr,
}
use whatsapp_mcp.Polls.{Vote, same_voter, upsert_vote, store_votes}

-- What counts of a vote.
pub record Ballot : Type 0 where
  pub selected : Option (List String)
  pub at : ℕ

abbrev pub ballot : Vote → Ballot
ballot v = record { selected = v.selected; at = v.at }

unfoldable pub ballot_of : Vote → List Vote → Option Ballot
ballot_of k [] = none
ballot_of k (v ∷ vs) = let rest = ballot_of k vs in if same_voter v k then some (ballot v) else rest

-- Of two ballots, the later one, and of equals the one that came last.
abbrev pub later_ballot : Ballot → Option Ballot → Ballot
later_ballot a none = a
later_ballot a (some b) = if ltb b.at a.at then a else b

-- The latest of the votes of one voter on one poll.
unfoldable pub latest : Vote → List Vote → Option Ballot
latest k [] = none
latest k (v ∷ vs) =
    let rest = latest k vs in if same_voter v k then some (later_ballot (ballot v) rest) else rest

abbrev merge : Option Ballot → Option Ballot → Option Ballot
merge none b = b
merge (some a) b = some (later_ballot a b)

same_voter_to :
    (v w : Vote)
    → same_voter v w ≡ true
    → (v.poll ≡ w.poll) × ((v.chat ≡ w.chat) × (v.voter ≡ w.voter))
same_voter_to v w h = (
  (eq_iff v.poll w.poll).0 (ground arith),
  ((eq_iff v.chat w.chat).0 (ground arith), (eq_iff v.voter w.voter).0 (ground arith)),
)

same_voters : (v w k : Vote) → same_voter v w ≡ true → same_voter v k ≡ same_voter w k
same_voters v w k h =
    let e = same_voter_to v w h in
    ap (λ p. str_eq p k.poll && (str_eq v.chat k.chat && str_eq v.voter k.voter)) (e.0)
    ∙ (ap (λ c. str_eq w.poll k.poll && (str_eq c k.chat && str_eq v.voter k.voter)) ((e.1).0)
        ∙ ap (λ u. str_eq w.poll k.poll && (str_eq w.chat k.chat && str_eq u k.voter)) ((e.1).1))

other_voters : (v w k : Vote) → same_voter v w ≡ false → (same_voter v k && same_voter w k) ≡ false
other_voters v w k h = elim (Bool-cases (same_voter v k && same_voter w k)) [
  | inl both ↦
      let a = same_voter_to v k (ground arith) in
      let b = same_voter_to w k (ground arith) in
      let p : str_eq v.poll w.poll ≡ true = (eq_iff v.poll w.poll).1 (a.0 ∙ sym (b.0)) in
      let c : str_eq v.chat w.chat ≡ true = (eq_iff v.chat w.chat).1 ((a.1).0 ∙ sym ((b.1).0)) in
      let u : str_eq v.voter w.voter ≡ true =
        (eq_iff v.voter w.voter).1 ((a.1).1 ∙ sym ((b.1).1)) in
      ground (arith, h, p, c, u)
  | inr n ↦ n
]

ballot_of-upsert_vote :
    (k new : Vote) (table : List Vote)
    → ballot_of k (upsert_vote new table) ≡ (
        if same_voter new k
        then merge (ballot_of k table) (some (ballot new))
        else ballot_of k table)
unfolding ballot_of upsert_vote
ballot_of-upsert_vote k new [] = refl
ballot_of-upsert_vote k new (v ∷ vs) = elim (Bool-cases (same_voter v new)) [
  | inl h ↦ ground (arith, h, same_voters v new k h)
  | inr h ↦ ground (arith, h, other_voters v new k h, ballot_of-upsert_vote k new vs)
]

merge-some :
    (o b : Option Ballot) (a : Ballot)
    → merge (merge o (some a)) b ≡ merge o (some (later_ballot a b))
merge-some none b a = refl
merge-some (some c) none a = refl
merge-some (some c) (some b) a = ground arith

merge-none : (o : Option Ballot) → merge o none ≡ o
merge-none none = refl
merge-none (some a) = refl

ballot_of-store_all :
    (k : Vote) (vs table : List Vote)
    → ballot_of k (store_votes vs table) ≡ merge (ballot_of k table) (latest k vs)
unfolding store_votes latest
ballot_of-store_all k [] table = sym (merge-none (ballot_of k table))
ballot_of-store_all k (v ∷ vs) table =
    ballot_of-store_all k vs (upsert_vote v table)
    ∙ (ap (λ o. merge o (latest k vs)) (ballot_of-upsert_vote k v table)
        ∙ elim (Bool-cases (same_voter v k)) [
          | inl h ↦ ground (arith, h, merge-some (ballot_of k table) (latest k vs) (ballot v))
          | inr h ↦ ground (arith, h)
        ])

-- Whatever votes come in, in whatever order: for each voter of a poll the table has the selection and
-- the time of the latest of the voter's votes, of those of one time the one that came last, and no row
-- where the voter cast none.
pub ballot_of-store_votes :
    (k : Vote) (vs : List Vote) → ballot_of k (store_votes vs []) ≡ latest k vs
unfolding ballot_of
ballot_of-store_votes k vs = ballot_of-store_all k vs []
