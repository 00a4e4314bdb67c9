-- ===== src/SignerApi/Casting.antt =====
-- How often a vote on a transaction is taken: the handler of stacks-signer-api/src/routes/vote.rs over
-- the tables.
use core_eng.Prelude.{
  ℕ, ◌+◌, ◌≤◌, ◌≡◌, refl, sym, ap, ◌∙◌, subst, List, [], ◌∷◌, Option, none, some, Bool, true, false,
  Text, text_eq, text_eq_iff, arith, ◌⊎◌, inl, inr, if◌then◌else◌,
}
use core_eng.Prelude.Outcome.{ok, err, panic, ok_or, ok-injective, bind-ok, ok_or-some}
use core_eng.SignerApi.Table.{first, replace, first-key, first-replace, first-replace_other}
use core_eng.SignerApi.Vote.{VoteChoice, VoteRequest, Vote, choice_from_str, choice_to_string}
use core_eng.SignerApi.Database.{
  malformed_data, row_not_found, foreign_key, Tables, VoteRow, vote_key, vote_row, vote_of,
  parse_choice, get_vote_by_id, add_vote, Reads,
}
use core_eng.SignerApi.Settings.{Secp, update_config as write_config}
use core_eng.SignerApi.Routes.{
  Request, vote_request, transactions_request, transaction_request, update_request, config_request,
  Reply, vote_reply, check_vote, check_found, check_pending, vote, cast, stored, store_vote,
  update_config, handle, serve,
}

abbrev choice_of : Option VoteRow → Option Text
choice_of none = none
choice_of (some row) = row.vote_choice

-- The choice that is stored for a transaction.
abbrev pub choice_in : Text → Tables → Option Text
choice_in txid s = choice_of (first vote_key txid s.votes)

-- Whether a vote on the transaction was answered with a VoteResponse, as a number.
abbrev pub is_accepted : {secp : Secp} → Text → Request secp → Reply secp → ℕ
is_accepted txid (vote_request q) (vote_reply a) = if text_eq q.txid txid then 1 else 0
is_accepted txid r a = 0

abbrev pub accepted : {secp : Secp} → Text → List (Request secp) → List (Reply secp) → ℕ
accepted txid (r ∷ rs) (a ∷ replies) = is_accepted txid r a + accepted txid rs replies
accepted txid rs replies = 0

parse_choice-some :
    (text : Text) (found : Option VoteChoice)
    → parse_choice (some text) ≡ ok found
    → (c : VoteChoice) × (found ≡ some c)
parse_choice-some text found h =
    let (c, m, k) =
      bind-ok (ok_or (choice_from_str text) malformed_data) (λ c. ok (some c)) found h in
    (c, ok-injective refl k)

vote_of-fields :
    (row : VoteRow) (v : Vote)
    → vote_of row ≡ ok v
    → (v.txid ≡ row.txid) × (parse_choice row.vote_choice ≡ ok v.vote_choice)
unfolding vote_of
vote_of-fields row v h = ground arith

parse_choice-none : (stored : Option Text) → parse_choice stored ≡ ok none → stored ≡ none
parse_choice-none none h = refl
parse_choice-none (some text) h =
    let (c, same) = parse_choice-some text none h in absurd (ground arith)

get_vote_by_id-row :
    (txid : Text) (s : Tables) (v : Vote)
    → get_vote_by_id txid s ≡ ok v
    → (row : VoteRow) × (first vote_key txid s.votes ≡ some row) × (vote_of row ≡ ok v)
unfolding get_vote_by_id
get_vote_by_id-row txid s v h =
    let (row, found, read) =
      bind-ok (ok_or (first vote_key txid s.votes) row_not_found) vote_of v h in
    (row, ok_or-some _ row_not_found row found, read)

check_pending-ready :
    (choice : VoteChoice) (v w : Vote) (earlier : Option VoteChoice)
    → check_pending choice v earlier ≡ inr w
    → (earlier ≡ none) × (w ≡ cast choice v)
check_pending-ready choice v w none h = ground arith
check_pending-ready choice v w (some e) h = absurd (ground arith)

check_found-ready :
    (choice : VoteChoice) (found : Reads Vote) (w : Vote)
    → check_found choice found ≡ inr w
    → (v : Vote) × (found ≡ ok v) × (v.vote_choice ≡ none) × (w ≡ cast choice v)
check_found-ready choice (ok v) w h =
    let (none_yet, same) = check_pending-ready choice v w v.vote_choice h in
    (v, refl, none_yet, same)
check_found-ready choice (err e) w h = absurd (ground arith)
check_found-ready choice panic w h = absurd (ground arith)

-- The vote that passes the checks is the stored one, without a choice before, and with the choice.
pub record IsReady (q : VoteRequest) (s : Tables) (w : Vote) : Type 0 where
  pub before : Vote
  pub row : VoteRow
  pub found : first vote_key q.txid s.votes ≡ some row
  pub read : vote_of row ≡ ok before
  pub open_yet : row.vote_choice ≡ none
  pub same_txid : w.txid ≡ q.txid
  pub after : w ≡ cast q.vote_choice before

pub check_vote-IsReady :
    (q : VoteRequest) (s : Tables) (w : Vote) → check_vote q s ≡ inr w → IsReady q s w
unfolding check_vote cast
check_vote-IsReady q s w h =
    let (v, read, none_yet, same) = check_found-ready q.vote_choice (get_vote_by_id q.txid s) w h in
    let (row, found, parsed) = get_vote_by_id-row q.txid s v read in
    let (txid, choice) = vote_of-fields row v parsed in
    record {
      before = v;
      row = row;
      found = found;
      read = parsed;
      open_yet = parse_choice-none row.vote_choice (choice ∙ ap (λ o. ok o) none_yet);
      same_txid = ap (λ x. x.txid) same ∙ txid ∙ first-key vote_key q.txid row s.votes found;
      after = same;
    }

-- What a request does to the stored vote on a transaction: nothing, or the first choice is stored.
record IsUntouched {secp : Secp} (txid : Text) (r : Request secp) (s : Tables) (a : Reply secp)
    (s' : Tables) : Type 0 where
  not_accepted : is_accepted txid r a ≡ 0
  same_row : first vote_key txid s'.votes ≡ first vote_key txid s.votes

record IsCast {secp : Secp} (txid : Text) (r : Request secp) (s : Tables) (a : Reply secp)
    (s' : Tables) : Type 0 where
  accepted_now : is_accepted txid r a ≡ 1
  no_choice : choice_in txid s ≡ none
  choice : Text
  stored : choice_in txid s' ≡ some choice

pub add_vote-cases :
    (w : Vote) (s : Tables)
    → (add_vote w s ≡ (ok tt, record s { votes = replace vote_key (vote_row w) s.votes }))
      ⊎ (add_vote w s ≡ (err foreign_key, s))
unfolding add_vote
add_vote-cases w s = ground arith

module _ (secp : Secp) where
  abbrev Cases : Text → Request secp → Tables → Reply secp × Tables → Type 0
  Cases txid r s out = IsUntouched txid r s out.0 out.1 ⊎ IsCast txid r s out.0 out.1

  -- A vote that is stored, by whether it is on the transaction.
  stored-Cases :
      (txid : Text) (q : VoteRequest) (s : Tables) (w : Vote) (same : Bool)
      → IsReady q s w
      → text_eq q.txid txid ≡ same
      → Cases txid (vote_request q) s (
        vote_reply (record { vote_choice = q.vote_choice; vote_tally = w.vote_tally }),
        record s { votes = replace vote_key (vote_row w) s.votes },
      )
  unfolding vote_row cast
  stored-Cases txid q s w true ready e =
      let on : q.txid ≡ txid = (text_eq_iff q.txid txid).0 e in
      inr (record {
        accepted_now = rw e refl;
        no_choice = ap (λ t. choice_in t s) (sym on) ∙ ap choice_of ready.found ∙ ready.open_yet;
        choice = choice_to_string q.vote_choice;
        stored =
            ap (λ t. choice_of (first vote_key t (replace vote_key (vote_row w) s.votes)))
              (sym on ∙ sym ready.same_txid)
            ∙ ap choice_of (first-replace vote_key (vote_row w) s.votes)
            ∙ ap (λ v. (vote_row v).vote_choice) ready.after;
      })
  stored-Cases txid q s w false ready e = inl (record {
    not_accepted = rw e refl;
    same_row =
        first-replace_other vote_key txid (vote_row w) s.votes
          (ap (λ t. text_eq t txid) ready.same_txid ∙ e);
  })

  store-Cases :
      (txid : Text) (q : VoteRequest) (s : Tables) (checked : ℕ ⊎ Vote)
      → check_vote q s ≡ checked
      → Cases txid (vote_request q) s (store_vote secp q.vote_choice checked s)
  store-Cases txid q s (inl code) h = inl (record { not_accepted = refl; same_row = refl })
  store-Cases txid q s (inr w) h = elim (add_vote-cases w s) [
    | inl e ↦
        subst (λ r. Cases txid (vote_request q) s (stored secp q.vote_choice w r)) (sym e)
          (stored-Cases txid q s w (text_eq q.txid txid) (check_vote-IsReady q s w h) refl)
    | inr e ↦
        subst (λ r. Cases txid (vote_request q) s (stored secp q.vote_choice w r)) (sym e)
          (inl (record { not_accepted = refl; same_row = refl }))
  ]

  handle-Cases : (txid : Text) (r : Request secp) (s : Tables) → Cases txid r s (handle secp r s)
  unfolding handle vote update_config write_config
  handle-Cases txid (vote_request q) s = store-Cases txid q s (check_vote q s) refl
  handle-Cases txid (transactions_request query) s =
      inl (record { not_accepted = refl; same_row = refl })
  handle-Cases txid (transaction_request id) s =
      inl (record { not_accepted = refl; same_row = refl })
  handle-Cases txid (update_request config) s =
      inl (record { not_accepted = refl; same_row = refl })
  handle-Cases txid config_request s = inl (record { not_accepted = refl; same_row = refl })

  -- Over requests one after the other, whatever they are, at most one vote on a transaction is
  -- answered as taken; if none is, then the row of its vote is what it was; and none is if a choice
  -- was stored for it before.
  pub serve-once :
      (txid : Text) (rs : List (Request secp)) (s : Tables)
      → (accepted txid rs (serve secp rs s).0 ≤ 1)
        × (accepted txid rs (serve secp rs s).0 ≡ 0
            → first vote_key txid (serve secp rs s).1.votes ≡ first vote_key txid s.votes)
        × ((choice : Text)
            → choice_in txid s ≡ some choice
            → accepted txid rs (serve secp rs s).0 ≡ 0)
  unfolding serve
  serve-once txid [] s = (omega arith, λ e. refl, λ choice h. refl)
  serve-once txid (r ∷ rs) s =
      let out = handle secp r s in
      let (few, kept, closed) = serve-once txid rs out.1 in
      elim (handle-Cases txid r s) [
        | inl u ↦
            let no : is_accepted txid r out.0 ≡ 0 = u.not_accepted in
            (
              omega (arith, few, no),
              λ e. kept (omega (arith, e, no)) ∙ u.same_row,
              λ choice h.
                  let later = closed choice (ap choice_of u.same_row ∙ h) in
                  omega (arith, later, no),
            )
        | inr c ↦
            let yes : is_accepted txid r out.0 ≡ 1 = c.accepted_now in
            let later = closed c.choice c.stored in
            (
              omega (arith, later, yes),
              λ e. absurd (omega (arith, e, yes)),
              λ choice h. let clash = sym c.no_choice ∙ h in absurd (ground (arith, clash)),
            )
      ]
