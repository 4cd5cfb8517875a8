-- ===== src/Polls/Tally.antt =====
-- The counts of a poll.
use whatsapp_mcp.Prelude.{
  ℕ, suc, ◌+◌, ◌≡◌, refl, ap, ◌∙◌, String, str_eq, eq_iff, Bool, true, ◌&&◌, Option, none, some,
  List, [], ◌∷◌, length, length-append, ◌==◌, contains, if◌then◌else◌, arith, Bool-cases, inl, inr,
}
use whatsapp_mcp.Polls.{
  Vote, OptionTally, Results, blank, has_name, choose, choose_all, counts_one, add_selection,
  count_rows, poll_results,
}

-- What the options of one name have together.
unfoldable pub count_for : String → List OptionTally → ℕ
count_for name [] = 0
count_for name (t ∷ ts) =
    let rest = count_for name ts in if str_eq t.name name then t.count + rest else rest

-- How often a name is chosen.
unfoldable pub times : String → List String → ℕ
times name [] = 0
times name (n ∷ ns) = let rest = times name ns in if str_eq n name then suc rest else rest

abbrev pub times_in : String → Option (List String) → ℕ
times_in name none = 0
times_in name (some ns) = times name ns

unfoldable pub chosen_times : String → List Vote → ℕ
chosen_times name [] = 0
chosen_times name (v ∷ vs) = times_in name v.selected + chosen_times name vs

abbrev pub nonempty : Option (List String) → ℕ
nonempty none = 0
nonempty (some ns) = counts_one ns

-- The voters with a selection that is not empty.
unfoldable pub voters_of : List Vote → ℕ
voters_of [] = 0
voters_of (v ∷ vs) = nonempty v.selected + voters_of vs

-- Whether each option has as many voters as its count.
unfoldable pub all_named : List OptionTally → Bool
all_named [] = true
all_named (t ∷ ts) = t.count == length t.voters && all_named ts

has_name-choose :
    (voter name other : String) (ts : List OptionTally)
    → has_name other (choose voter name ts) ≡ has_name other ts
unfolding has_name choose
has_name-choose voter name other [] = refl
has_name-choose voter name other (t ∷ ts) = ground (arith, has_name-choose voter name other ts)

same_text : (a b c : String) → str_eq a b ≡ true → str_eq a c ≡ str_eq b c
same_text a b c h = ap (λ x. str_eq x c) ((eq_iff a b).0 h)

count_for-choose :
    (voter name other : String) (ts : List OptionTally)
    → count_for other (choose voter name ts) ≡ (
        if str_eq name other && has_name other ts
        then suc (count_for other ts)
        else count_for other ts)
unfolding count_for choose has_name
count_for-choose voter name other [] = ground arith
count_for-choose voter name other (t ∷ ts) = elim (Bool-cases (str_eq name other)) [
  | inl e ↦
      let same : name ≡ other = (eq_iff name other).0 e in
      let listed : has_name name ts ≡ has_name other ts = ap (λ n. has_name n ts) same in
      let here : str_eq t.name name ≡ str_eq t.name other = ap (str_eq t.name) same in
      ground (arith, e, listed, here, count_for-choose voter name other ts)
  | inr e ↦ elim (Bool-cases (str_eq t.name name)) [
    | inl h ↦
        ground (arith, e, h, same_text t.name name other h, count_for-choose voter name other ts)
    | inr h ↦ ground (arith, e, h, count_for-choose voter name other ts)
  ]
]

count_for-choose_all :
    (voter other : String) (names : List String) (ts : List OptionTally)
    → count_for other (choose_all voter names ts)
      ≡ count_for other ts + (if has_name other ts then times other names else 0)
unfolding choose_all times
count_for-choose_all voter other [] ts = ground arith
count_for-choose_all voter other (n ∷ ns) ts = ground (
  arith,
  count_for-choose_all voter other ns (choose voter n ts),
  count_for-choose voter n other ts,
  has_name-choose voter n other ts,
)

has_name-choose_all :
    (voter other : String) (names : List String) (ts : List OptionTally)
    → has_name other (choose_all voter names ts) ≡ has_name other ts
unfolding choose_all
has_name-choose_all voter other [] ts = refl
has_name-choose_all voter other (n ∷ ns) ts =
    has_name-choose_all voter other ns (choose voter n ts) ∙ has_name-choose voter n other ts

all_named-choose :
    (voter name : String) (ts : List OptionTally)
    → all_named ts ≡ true
    → all_named (choose voter name ts) ≡ true
unfolding all_named choose
all_named-choose voter name [] h = refl
all_named-choose voter name (t ∷ ts) h =
    ground (arith, h, length-append t.voters (voter ∷ []), all_named-choose voter name ts)

all_named-choose_all :
    (voter : String) (names : List String) (ts : List OptionTally)
    → all_named ts ≡ true
    → all_named (choose_all voter names ts) ≡ true
unfolding choose_all
all_named-choose_all voter [] ts h = h
all_named-choose_all voter (n ∷ ns) ts h =
    all_named-choose_all voter ns (choose voter n ts) (all_named-choose voter n ts h)

-- The counts after some rows, from those before.
pub record Counted (other : String) (r s : Results) (vs : List Vote) : Type 0 where
  pub of_option :
      count_for other s.options
      ≡ count_for other r.options + (if has_name other r.options then chosen_times other vs else 0)
  pub of_voters : s.total_voters ≡ r.total_voters + voters_of vs
  pub of_rows : s.undecodable + length s.votes ≡ r.undecodable + length r.votes + length vs
  pub named : all_named s.options ≡ true

-- One row.
record Added (other : String) (sel : Option (List String)) (r s : Results) : Type 0 where
  of_option :
      count_for other s.options
      ≡ count_for other r.options + (if has_name other r.options then times_in other sel else 0)
  of_voters : s.total_voters ≡ r.total_voters + nonempty sel
  of_rows : s.undecodable + length s.votes ≡ suc (r.undecodable + length r.votes)
  named : all_named s.options ≡ true
  listed : has_name other s.options ≡ has_name other r.options

add_selection-Added :
    (other : String) (v : Vote) (sel : Option (List String)) (r : Results)
    → all_named r.options ≡ true
    → Added other sel r (add_selection v sel r)
add_selection-Added other v none r h = record {
  of_option = ground arith;
  of_voters = omega arith;
  of_rows = omega arith;
  named = h;
  listed = refl;
}
add_selection-Added other v (some ns) r h = record {
  of_option = count_for-choose_all v.voter other ns r.options;
  of_voters = refl;
  of_rows =
      omega
        (arith, length-append r.votes (record { voter = v.voter; chosen = ns; at = v.at } ∷ []));
  named = all_named-choose_all v.voter ns r.options h;
  listed = has_name-choose_all v.voter other ns r.options;
}

count_rows-Counted :
    (other : String) (vs : List Vote) (r : Results)
    → all_named r.options ≡ true
    → Counted other r (count_rows vs r) vs
unfolding count_rows chosen_times voters_of
count_rows-Counted other [] r h = record {
  of_option = ground arith;
  of_voters = omega arith;
  of_rows = omega arith;
  named = h;
}
count_rows-Counted other (v ∷ vs) r h =
    let a = add_selection-Added other v v.selected r h in
    let w = count_rows-Counted other vs (add_selection v v.selected r) a.named in
    record {
      of_option = ground (arith, w.of_option, a.of_option, a.listed);
      of_voters = omega (arith, w.of_voters, a.of_voters);
      of_rows = omega (arith, w.of_rows, a.of_rows);
      named = w.named;
    }

count_for-blank : (name : String) (options : List String) → count_for name (blank options) ≡ 0
unfolding count_for blank
count_for-blank name [] = refl
count_for-blank name (o ∷ os) = ground (arith, count_for-blank name os)

has_name-blank :
    (name : String) (options : List String) → has_name name (blank options) ≡ contains options name
unfolding has_name blank contains
has_name-blank name [] = refl
has_name-blank name (o ∷ os) = ground (arith, has_name-blank name os)

all_named-blank : (options : List String) → all_named (blank options) ≡ true
unfolding all_named blank
all_named-blank [] = refl
all_named-blank (o ∷ os) = ground (arith, all_named-blank os)

-- For every list of options and of rows: a name that is an option is counted as often as the decoded
-- votes choose it, a name that is none is not counted, each option lists as many voters as it counts,
-- the voters are the rows with a selection that is not empty, and each row is a vote or undecodable.
pub poll_results-counts :
    (options : List String) (rows : List Vote) (name : String)
    → (count_for name (poll_results options rows).options
        ≡ (if contains options name then chosen_times name rows else 0))
      × ((all_named (poll_results options rows).options ≡ true)
          × (((poll_results options rows).total_voters ≡ voters_of rows)
              × ((poll_results options rows).undecodable + length (poll_results options rows).votes
                  ≡ length rows)))
unfolding poll_results
poll_results-counts options rows name =
    let start : Results = record {
      total_voters = 0;
      undecodable = 0;
      options = blank options;
      votes = [];
    } in
    let w = count_rows-Counted name rows start (all_named-blank options) in
    (
      ground (arith, w.of_option, count_for-blank name options, has_name-blank name options),
      (w.named, (omega (arith, w.of_voters), omega (arith, w.of_rows))),
    )
