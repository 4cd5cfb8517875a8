-- ===== src/Polls.antt =====
-- whatsapp-bridge/polls.go: the votes of native polls. The table holds one row for each voter; a vote
-- whose payload could not be decrypted has no selection; and a vote of the history that waits for its
-- secret does not come before one that arrived later. The hash of an option, SHA-256, is an argument. No
-- statement fails.
pub mod Votes
pub mod Tally
pub mod Names
pub mod Pending
pub mod Overtaken
mod Examples
use whatsapp_mcp.Prelude.{
  ℕ, zero, suc, ◌+◌, String, str_eq, Bool, true, false, not, ◌&&◌, ◌||◌, Option, none, some, List,
  [], ◌∷◌, ◌++◌, length, ltb, leb, ◌==◌, if◌then◌else◌,
}
use whatsapp_mcp.Prelude.Text.{Text, text_eq}

-- A row of `poll_votes`; the selection is none where `selected_json` is NULL.
pub record Vote : Type 0 where
  pub poll : String
  pub chat : String
  pub voter : String
  pub selected : Option (List String)
  pub at : ℕ

abbrev pub same_voter : Vote → Vote → Bool
same_voter v w = str_eq v.poll w.poll && (str_eq v.chat w.chat && str_eq v.voter w.voter)

-- `upsertPollVote`
unfoldable pub upsert_vote : Vote → List Vote → List Vote
upsert_vote new [] = new ∷ []
upsert_vote new (v ∷ vs) =
    let rest = upsert_vote new vs in
    if same_voter v new
    then (if not (ltb new.at v.at) then record v { selected = new.selected; at = new.at } else v)
      ∷ vs
    else v ∷ rest

-- `StorePollVote` and `StoreUndecodablePollVote`, one after the other.
unfoldable pub store_votes : List Vote → List Vote → List Vote
store_votes [] table = table
store_votes (v ∷ vs) table = store_votes vs (upsert_vote v table)

module _ (hash : Text → Text) where
  -- The name that `byHash` has for a hash: of two options with one hash, the last.
  unfoldable pub name_of : List Text → Text → Option Text
  name_of [] key = none
  name_of (name ∷ names) key = elim (name_of names key) [
    | some found ↦ some found
    | none ↦ if text_eq (hash name) key then some name else none
  ]

  abbrev pub first_codes : ℕ → Text → Text
  first_codes zero t = []
  first_codes (suc n) [] = []
  first_codes (suc n) (c ∷ cs) = c ∷ first_codes n cs

  abbrev pub shown : Option Text → Text → List Text
  shown (some name) key = name ∷ []
  shown none key = if leb 8 (length key) then (63 ∷ first_codes 8 key) ∷ [] else []

  -- `optionNamesForHashes`, over the hashes in hexadecimal.
  unfoldable pub option_names_for_hashes : List Text → List Text → List Text
  option_names_for_hashes options [] = []
  option_names_for_hashes options (key ∷ keys) =
      shown (name_of options key) key ++ option_names_for_hashes options keys

-- `PollOptionTally`
pub record OptionTally : Type 0 where
  pub name : String
  pub count : ℕ
  pub voters : List String

-- `PollVoteEntry`
pub record Entry : Type 0 where
  pub voter : String
  pub chosen : List String
  pub at : ℕ

-- `PollResultsResponse`
pub record Results : Type 0 where
  pub total_voters : ℕ
  pub undecodable : ℕ
  pub options : List OptionTally
  pub votes : List Entry

unfoldable pub blank : List String → List OptionTally
blank [] = []
blank (name ∷ names) = record { name = name; count = 0; voters = [] } ∷ blank names

unfoldable pub has_name : String → List OptionTally → Bool
has_name name [] = false
has_name name (t ∷ ts) = str_eq t.name name || has_name name ts

-- One choice of a voter; of two options with one name, `tally` holds the last.
unfoldable pub choose : String → String → List OptionTally → List OptionTally
choose voter name [] = []
choose voter name (t ∷ ts) =
    let rest = choose voter name ts in
    if str_eq t.name name && not (has_name name ts)
    then record t { count = suc t.count; voters = t.voters ++ voter ∷ [] } ∷ ts
    else t ∷ rest

unfoldable pub choose_all : String → List String → List OptionTally → List OptionTally
choose_all voter [] ts = ts
choose_all voter (name ∷ names) ts = choose_all voter names (choose voter name ts)

abbrev pub counts_one : List String → ℕ
counts_one [] = 0
counts_one (n ∷ ns) = 1

abbrev pub add_selection : Vote → Option (List String) → Results → Results
add_selection v none r = record r { undecodable = suc r.undecodable }
add_selection v (some names) r = record {
  total_voters = r.total_voters + counts_one names;
  undecodable = r.undecodable;
  options = choose_all v.voter names r.options;
  votes = r.votes ++ record { voter = v.voter; chosen = names; at = v.at } ∷ [];
}

-- The loop of `PollResults` over the rows that the query returns, in their order.
unfoldable pub count_rows : List Vote → Results → Results
count_rows [] r = r
count_rows (v ∷ vs) r = count_rows vs (add_selection v v.selected r)

unfoldable pub poll_results : List String → List Vote → Results
poll_results options rows =
    count_rows rows
      (record { total_voters = 0; undecodable = 0; options = blank options; votes = [] })

-- `historyVoteWork`: the number is its address; `key` is its client, chat, poll and voter.
pub record Work : Type 0 where
  pub number : ℕ
  pub key : String
  pub at : ℕ

-- `historyPendingVotes`, and the numbers of the votes with the flag `superseded`.
pub record Waiting : Type 0 where
  pub pending : List Work
  pub superseded : List ℕ

unfoldable pub pending_of : String → List Work → Option Work
pending_of key [] = none
pending_of key (w ∷ ws) = let rest = pending_of key ws in if str_eq w.key key then some w else rest

unfoldable pub drop_key : String → List Work → List Work
drop_key key [] = []
drop_key key (w ∷ ws) = let rest = drop_key key ws in if str_eq w.key key then rest else w ∷ rest

abbrev pub register_if : Bool → Work → Waiting → Waiting
register_if register v s =
    if register then record s { pending = v ∷ drop_key v.key s.pending } else s

abbrev pub settle : Bool → Work → Option Work → Waiting → Waiting
settle register v none s = register_if register v s
settle register v (some previous) s =
    if ltb v.at previous.at
    then record s { superseded = v.number ∷ s.superseded }
    else register_if register v
        (record { pending = drop_key v.key s.pending; superseded = previous.number ∷ s.superseded })

-- `observeHistoryVote`
unfoldable pub observe_vote : Bool → Work → Waiting → Waiting
observe_vote register v s = settle register v (pending_of v.key s.pending) s

abbrev pub is_same : Work → Option Work → Bool
is_same v none = false
is_same v (some w) = w.number == v.number

-- `releaseHistoryVotes`
unfoldable pub release_votes : List Work → Waiting → Waiting
release_votes [] s = s
release_votes (v ∷ vs) s = release_votes vs (
    if is_same v (pending_of v.key s.pending)
    then record s { pending = drop_key v.key s.pending }
    else s)

pub data Turn : Type 0 where
  observed : Bool → Work → Turn
  released : List Work → Turn

unfoldable pub turn : Turn → Waiting → Waiting
turn (observed register v) s = observe_vote register v s
turn (released vs) s = release_votes vs s

unfoldable pub turns : List Turn → Waiting → Waiting
turns [] s = s
turns (t ∷ ts) s = turns ts (turn t s)
