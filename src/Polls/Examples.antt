-- ===== src/Polls/Examples.antt =====
-- A poll on lunch with three voters.
use whatsapp_mcp.Prelude.{
  ℕ, ◌+◌, ◌≡◌, refl, arith, String, true, false, List, [], ◌∷◌, ◌++◌, length, contains, Option,
  none, some, if◌then◌else◌,
}
use whatsapp_mcp.Prelude.Text.{Text, codes, text_eq, has}
use whatsapp_mcp.Polls.{
  Vote, upsert_vote, store_votes, Work, Turn, observed, released, turns, poll_results, count_rows,
  choose_all, choose, blank, has_name,
}
use whatsapp_mcp.Polls.Votes.{ballot_of, latest, ballot_of-store_votes}
use whatsapp_mcp.Polls.Tally.{count_for, chosen_times, voters_of, all_named, poll_results-counts}
use whatsapp_mcp.Polls.Names.{all_in}
use whatsapp_mcp.Polls.Pending.{
  has_number, all_observed, is_not_later, is_earlier, idle, latest-unsuperseded,
}
use whatsapp_mcp.Polls.Overtaken.{is_held, none_is, overtaken-superseded}

abbrev vote : String → Option (List String) → ℕ → Vote
vote voter selected at = record {
  poll = "p";
  chat = "c";
  voter = voter;
  selected = selected;
  at = at;
}

abbrev cast : List Vote
cast =
    vote "ann" (some ("pizza" ∷ [])) 10
    ∷ vote "bob" none 12
    ∷ vote "ann" (some ("soup" ∷ "pizza" ∷ [])) 14
    ∷ vote "ann" (some []) 9
    ∷ vote "eve" (some ("soup" ∷ [])) 14
    ∷ []

ballot_of-store_votes_example :
    ballot_of (vote "ann" none 0) (store_votes cast []) ≡ latest (vote "ann" none 0) cast
ballot_of-store_votes_example = ballot_of-store_votes (vote "ann" none 0) cast

abbrev lunch : List String
lunch = "pizza" ∷ "soup" ∷ "salad" ∷ []

poll_results-counts_example :
    (count_for "soup" (poll_results lunch (store_votes cast [])).options
      ≡ (if contains lunch "soup" then chosen_times "soup" (store_votes cast []) else 0))
    × ((all_named (poll_results lunch (store_votes cast [])).options ≡ true)
        × (((poll_results lunch (store_votes cast [])).total_voters
              ≡ voters_of (store_votes cast []))
            × ((poll_results lunch (store_votes cast [])).undecodable
                  + length (poll_results lunch (store_votes cast [])).votes
                ≡ length (store_votes cast []))))
poll_results-counts_example = poll_results-counts lunch (store_votes cast []) "soup"

two_soups : count_for "soup" (poll_results lunch (store_votes cast [])).options ≡ 2
unfolding count_for poll_results count_rows choose_all choose blank has_name store_votes upsert_vote
two_soups = refl

abbrev names : List Text
names = codes "pizza" ∷ codes "soup" ∷ []

soup_in : all_in names (codes "soup" ∷ []) ≡ true
unfolding all_in has text_eq
soup_in = refl

abbrev work : ℕ → String → ℕ → Work
work number key at = record { number = number; key = key; at = at }

abbrev before : List Turn
before = observed true (work 1 "ann" 5) ∷ observed true (work 2 "bob" 9) ∷ []

abbrev after : List Turn
after = released (work 2 "bob" 9 ∷ []) ∷ observed false (work 4 "ann" 4) ∷ []

before_ok : all_observed (is_not_later (work 3 "ann" 5)) before ≡ true
unfolding all_observed
before_ok = refl

after_ok : all_observed (is_earlier (work 3 "ann" 5)) after ≡ true
unfolding all_observed
after_ok = refl

latest-unsuperseded_example :
    has_number 3 (turns (before ++ observed true (work 3 "ann" 5) ∷ after) idle).superseded ≡ false
latest-unsuperseded_example =
    latest-unsuperseded (work 3 "ann" 5) true before after before_ok after_ok

held_ok : is_held 1 (released (work 2 "bob" 9 ∷ []) ∷ []) ≡ true
unfolding is_held none_is
held_ok = refl

overtaken-superseded_example :
    has_number 1
      (turns
        (observed true (work 1 "ann" 5) ∷ (released (work 2 "bob" 9 ∷ []) ∷ [])
          ++ observed false (work 4 "ann" 5) ∷ [])
        idle).superseded
    ≡ true
overtaken-superseded_example =
    overtaken-superseded (work 1 "ann" 5) (work 4 "ann" 5) false
      (released (work 2 "bob" 9 ∷ []) ∷ []) idle held_ok refl (omega arith)
