-- ===== src/Manager/Election/Candidacy.antt =====
-- What the handlers of an election do to the elections that a manager keeps.
use rust_accelerator_no_sql.Map
use rust_accelerator_no_sql.Manager.{Set, NodeId, State}
use rust_accelerator_no_sql.Manager.Election.{
  supersedes, add, is_unanimous, start_election, approved_epoch, mine, start_election_if_needed,
  handle_leader, other, Me, Election, count_vote, Elections, handle_vote_request,
  handle_vote_response, next_epoch,
}
use rust_accelerator_no_sql.Prelude.{
  refl, none, false, Option, ◌∙◌, [], ◌≢◌, inr, inl, Bool-cases, Option-cases, u64_mod, ◌<◌, ◌+◌,
  true, option_lt, some, ◌≡◌, ◌≤◌, ℕ, arith,
}
use rust_accelerator_no_sql.Map.{last_entry-get, get-last_entry, len-insert_single}
use rust_accelerator_no_sql.Manager.Election.Votes.{approved_epoch-mine, won}

-- One election at most is under way, and its epoch lies ahead of the state's.
pub record IsCurrent (state : State) (elections : Elections) : Type 0 where
  pub single : Map.len elections ≤ 1
  pub ahead :
      (epoch : ℕ) (election : Election)
      → Map.get elections epoch ≡ some election
      → option_lt state.epoch (some epoch) ≡ true

pub empty-IsCurrent : (state : State) → IsCurrent state Map.empty
unfolding Map.len Map.empty Map.get
empty-IsCurrent state = record {
  single = omega arith;
  ahead = λ epoch election h. absurd (ground (arith, Map.get-empty {0} {V = Election} epoch));
}

fresh-IsCurrent :
    (state : State) (e : ℕ) (x : Election)
    → option_lt state.epoch (some e) ≡ true
    → IsCurrent state (Map.insert Map.empty e x)
unfolding Map.len Map.empty Map.insert
fresh-IsCurrent state e x h = record {
  single = omega arith;
  ahead = λ epoch election k. ground (
    arith,
    Map.get-insert {0} {V = Election} Map.empty e epoch x,
    Map.get-empty {0} {V = Election} epoch,
  );
}

approve-IsCurrent :
    (state : State) (elections : Elections) (e : ℕ) (x y : Election)
    → Map.get elections e ≡ some x
    → IsCurrent state elections
    → IsCurrent state (Map.insert elections e y)
approve-IsCurrent state elections e x y found c = record {
  single = len-insert_single elections e y c.single found;
  ahead = λ epoch election k.
      ground (arith, Map.get-insert elections e epoch y, c.ahead e x found, c.ahead epoch election);
}

next_epoch_ahead :
    (state : State) (elections : Elections) (epoch : ℕ)
    → state.epoch ≡ some epoch
    → epoch + 1 < u64_mod
    → option_lt state.epoch (some (next_epoch elections epoch)) ≡ true
unfolding next_epoch
next_epoch_ahead state elections epoch e h = ground arith

count_vote-IsCurrent :
    (state : State) (elections : Elections) (epoch ts' : ℕ) (approvers : Set) (id : NodeId) (ts : ℕ)
    (me : Me)
    → Map.get elections epoch ≡ some (mine ts' approvers)
    → IsCurrent state elections
    → IsCurrent
        (count_vote state elections epoch ts' approvers id ts me).0
        (count_vote state elections epoch ts' approvers id ts me).1
unfolding count_vote
count_vote-IsCurrent state elections epoch ts' approvers id ts me found c =
    elim (Bool-cases (is_unanimous (add approvers id) state.nodes me)) [
      | inl all ↦ rw all (empty-IsCurrent (won state me epoch))
      | inr missing ↦ rw missing (
          approve-IsCurrent state elections epoch (mine ts' approvers) (mine ts' (add approvers id))
            found c)
    ]

pub vote_response-IsCurrent :
    (state : State) (id leader_id : NodeId) (ts : ℕ) (me : Me) (elections : Elections)
    → IsCurrent state elections
    → IsCurrent
        (handle_vote_response state id leader_id ts me elections).0
        (handle_vote_response state id leader_id ts me elections).1
unfolding handle_vote_response
vote_response-IsCurrent state id leader_id ts me elections c =
    elim (Option-cases (approved_epoch elections leader_id ts me)) [
      | inl e ↦ rw (e, handle_vote_response) (ground arith)
      | inr (epoch, e) ↦
          let (named, candidacy) = approved_epoch-mine elections leader_id ts me epoch e in
          let (approvers, last) = candidacy in
          let found : Map.get elections epoch ≡ some (mine ts approvers) =
            get-last_entry elections last in
          rw (e, handle_vote_response, found)
            (count_vote-IsCurrent state elections epoch ts approvers id ts me found c)
    ]

-- A vote request keeps at most one election under way, and that election's epoch ahead of the
-- state's, if that held before.
pub vote_request-IsCurrent :
    (state : State) (id : NodeId) (epoch ts : ℕ) (elections : Elections)
    → IsCurrent state elections
    → IsCurrent
        (handle_vote_request state id epoch ts elections).0
        (handle_vote_request state id epoch ts elections).1
unfolding handle_vote_request
vote_request-IsCurrent state id epoch ts elections c =
    ground (arith, fresh-IsCurrent state epoch (other ts id))

pub leader-IsCurrent :
    (state : State) (id : NodeId) (epoch ts : ℕ) (me : Me) (elections : Elections)
    → IsCurrent state elections
    → IsCurrent
        (handle_leader state id epoch ts me elections).0
        (handle_leader state id epoch ts me elections).1
unfolding handle_leader
leader-IsCurrent state id epoch ts me elections c =
    ground (arith, empty-IsCurrent (handle_leader state id epoch ts me elections).0)

-- Unless the epoch is at the end of the 64-bit range, starting an election keeps at most one under
-- way, with its epoch ahead of the state's, if that held before.
pub start_election-IsCurrent :
    (state : State) (elections : Elections) (me : Me) (random curr_ts : ℕ)
    → ((epoch : ℕ) → state.epoch ≡ some epoch → epoch + 1 < u64_mod)
    → IsCurrent state elections
    → IsCurrent
        (start_election_if_needed state elections me random curr_ts).0
        (start_election_if_needed state elections me random curr_ts).1
unfolding start_election_if_needed start_election
start_election-IsCurrent state elections me random curr_ts bound c =
    elim (Option-cases state.epoch) [
      | inl e ↦ ground (arith, e)
      | inr (epoch, e) ↦ ground (
        arith,
        fresh-IsCurrent state (next_epoch elections epoch) (mine curr_ts Map.empty)
            (next_epoch_ahead state elections epoch e (bound epoch e)),
      )
    ]

-- While the election under way is for another candidate, no vote changes the state.
other_candidate :
    (state : State) (elections : Elections) (e t : ℕ) (c id leader_id : NodeId) (ts : ℕ) (me : Me)
    → Map.last_entry elections ≡ some (e, other t c)
    → (handle_vote_response state id leader_id ts me elections).0 ≡ state
unfolding handle_vote_response approved_epoch
other_candidate state elections e t c id leader_id ts me h = ground arith

-- A request that is answered leaves an election for another candidate under way.
answered_request :
    (state : State) (id : NodeId) (epoch ts : ℕ) (elections : Elections)
    → IsCurrent state elections
    → (handle_vote_request state id epoch ts elections).2 ≢ []
    → (t : ℕ) × (c : NodeId) × (Map.last_entry (handle_vote_request state id epoch ts elections).1
        ≡ some (epoch, other t c))
unfolding handle_vote_request Map.last_entry Map.insert Map.empty Map.Entries.insert
answered_request state id epoch ts elections v h =
    elim (Bool-cases (supersedes elections epoch ts)) [
      | inl new ↦ (ts, id, ground arith)
      | inr old ↦ kept (Map.get elections epoch) old refl
    ]
  where
    kept :
        (found : Option Election)
        → supersedes elections epoch ts ≡ false
        → Map.get elections epoch ≡ found
        → (t : ℕ) × (c : NodeId) × (Map.last_entry
              (handle_vote_request state id epoch ts elections).1
            ≡ some (epoch, other t c))
    kept none old e = absurd (ground arith)
    kept (some (mine t approvers)) old e = absurd (ground arith)
    kept (some (other t c)) old e = (t, c, ground (arith, last_entry-get elections v.single e))

-- With at most one election under way, of an epoch ahead of the state's: a manager that has answered
-- a vote request is no longer a candidate, and whatever vote it receives next leaves its state as it
-- was.
pub answered_request_concedes :
    (state : State) (id : NodeId) (epoch ts : ℕ) (elections : Elections)
    → IsCurrent state elections
    → (handle_vote_request state id epoch ts elections).2 ≢ []
    → (voter leader_id : NodeId) (vote_ts : ℕ) (me : Me)
    → (handle_vote_response
        (handle_vote_request state id epoch ts elections).0
        voter
        leader_id
        vote_ts
        me
        (handle_vote_request state id epoch ts elections).1).0
      ≡ state
unfolding handle_vote_request
answered_request_concedes state id epoch ts elections v h voter leader_id vote_ts me =
    let (t, c, last) = answered_request state id epoch ts elections v h in
    other_candidate _ _ epoch t c voter leader_id vote_ts me last ∙ ground arith
