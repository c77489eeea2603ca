-- ===== src/Server/State/Views.antt =====
-- Who is in which channel, by the two records that src/server/state.rs keeps of it.
use rfircd.Prelude.{
  ◌≡◌, refl, sym, ◌∙◌, inl, inr, Bool, true, false, not, ◌&&◌, List, [], ◌∷◌, Option, none, some,
  Text, arith, Bool-cases, is_empty, subst,
}
use rfircd.Prelude.Assoc.{lookup, modify, is_some, Distinct, remove-Distinct, modify-Distinct}
use rfircd.Prelude.Assoc.Every.{Every, Every-remove, Every-modify}
use rfircd.Prelude.Assoc.Nested.{has, has-modify-remove, has-remove}
use rfircd.Prelude.Chars.{text_eq, text_beq, text_beq_iff}
use rfircd.Server.State.{
  UserId, user_id_eq, user_id_beq, User, Channel, State, MemberFlags, TextSet, drop_member, is_dead,
  reap_channel, leave_all,
}

-- A user is a member of a channel by the channel, and by the user.
abbrev pub member_of : State → UserId → Text → Bool
member_of s id key = has (λ (c : Channel). c.members) id (lookup key s.channels)

abbrev pub listed_in : State → UserId → Text → Bool
listed_in s id key = has (λ (u : User). u.channels) key (lookup id s.users)

-- No member stands twice in a channel, no channel twice at a user.
abbrev pub MembersDistinct : List (Text × Channel) → Type 0
MembersDistinct m = Every (λ (k : Text) (c : Channel). Distinct c.members) m

abbrev pub ListsDistinct : State → Type 0
ListsDistinct s = Every (λ (i : UserId) (u : User). Distinct u.channels) s.users

-- A channel that is removed for being empty had no member.
pub dead-has :
    (c : Option Channel) (j : UserId)
    → is_dead c ≡ true
    → has (λ (c : Channel). c.members) j c ≡ false
unfolding lookup
dead-has none j h = refl
dead-has (some c) j h = go c.members h
  where
    go :
        (m : List (UserId × MemberFlags))
        → (not c.configured && is_empty m) ≡ true
        → is_some (lookup j m) ≡ false
    go [] q = refl
    go (x ∷ m) q = absurd (ground arith)

pub member_of-reap_channel :
    (s : State) (key : Text) (j : UserId) (l : Text)
    → Distinct s.channels
    → member_of (reap_channel s key) j l ≡ member_of s j l
unfolding reap_channel
member_of-reap_channel s key j l d = elim (Bool-cases (is_dead (lookup key s.channels))) [
  | inr kept ↦ rw (reap_channel, kept) refl
  | inl dead ↦ elim (Bool-cases (text_beq key l)) [
    | inl same ↦
        let empty_at : has (λ (c : Channel). c.members) j (lookup l s.channels) ≡ false =
          subst (λ x. has (λ (c : Channel). c.members) j (lookup x s.channels) ≡ false)
            ((text_beq_iff key l).0 same) (dead-has (lookup key s.channels) j dead) in
        rw (reap_channel, dead)
          (has-remove (λ (c : Channel). c.members) key s.channels l j d
            ∙ rw (same) refl
            ∙ sym empty_at)
    | inr other ↦
        rw (reap_channel, dead)
          (has-remove (λ (c : Channel). c.members) key s.channels l j d ∙ rw (other) refl)
  ]
]

pub reap_channel-users : (s : State) (key : Text) → (reap_channel s key).users ≡ s.users
unfolding reap_channel
reap_channel-users s key = elim (Bool-cases (is_dead (lookup key s.channels))) [
  | inl dead ↦ rw (reap_channel, dead) refl
  | inr kept ↦ rw (reap_channel, kept) refl
]

pub reap_channel-nicks : (s : State) (key : Text) → (reap_channel s key).nicks ≡ s.nicks
unfolding reap_channel
reap_channel-nicks s key = elim (Bool-cases (is_dead (lookup key s.channels))) [
  | inl dead ↦ rw (reap_channel, dead) refl
  | inr kept ↦ rw (reap_channel, kept) refl
]

-- What is asked of the channels alone.
pub record IsRoster (m : List (Text × Channel)) : Type 0 where
  pub distinct : Distinct m
  pub members : MembersDistinct m

pub reap_channel-IsRoster :
    (s : State) (key : Text) → IsRoster s.channels → IsRoster ((reap_channel s key).channels)
unfolding reap_channel
reap_channel-IsRoster s key w = elim (Bool-cases (is_dead (lookup key s.channels))) [
  | inr kept ↦ rw (reap_channel, kept) w
  | inl dead ↦
      rw (reap_channel, dead)
        (record {
          distinct = remove-Distinct key s.channels w.distinct;
          members =
              Every-remove (λ (k : Text) (c : Channel). Distinct c.members) key s.channels
                w.distinct w.members;
        })
]

-- The channels without one member of one of them.
abbrev pub without : State → UserId → Text → State
without s id key = record s { channels = modify key (drop_member id) s.channels }

pub without-IsRoster :
    (s : State) (id : UserId) (key : Text)
    → IsRoster s.channels
    → IsRoster ((without s id key).channels)
without-IsRoster s id key w = record {
  distinct = modify-Distinct key (drop_member id) s.channels w.distinct;
  members =
      Every-modify (λ (k : Text) (c : Channel). Distinct c.members) key (drop_member id) s.channels
        w.members (λ c at d. remove-Distinct id c.members d);
}

pub member_of-without :
    (s : State) (id : UserId) (key : Text) (j : UserId) (l : Text)
    → IsRoster s.channels
    → member_of (without s id key) j l
      ≡ (not (text_beq key l && user_id_beq id j) && member_of s j l)
member_of-without s id key j l w =
    has-modify-remove (λ (c : Channel). c.members) key id (drop_member id) s.channels l j
      (λ c. refl) w.members

-- The loop over the channels of a user takes the user out of them, and nobody else.
pub member_of-leave_all :
    (s : State) (id : UserId) (keys : TextSet) (j : UserId) (l : Text)
    → IsRoster s.channels
    → member_of ((leave_all s id keys).0) j l
      ≡ (not (is_some (lookup l keys) && user_id_beq id j) && member_of s j l)
unfolding leave_all lookup
member_of-leave_all s id [] j l w = refl
member_of-leave_all s id ((key, u) ∷ keys) j l w =
    let next = without s id key in
    let gone = without-IsRoster s id key w in
    member_of-leave_all (reap_channel next key) id keys j l (reap_channel-IsRoster next key gone)
    ∙ ground (
      arith,
      member_of-reap_channel next key j l gone.distinct,
      member_of-without s id key j l w,
      text_beq_iff key l,
    )

pub leave_all-IsRoster :
    (s : State) (id : UserId) (keys : TextSet)
    → IsRoster s.channels
    → IsRoster (((leave_all s id keys).0).channels)
unfolding leave_all
leave_all-IsRoster s id [] w = w
leave_all-IsRoster s id ((key, u) ∷ keys) w =
    leave_all-IsRoster (reap_channel (without s id key) key) id keys
      (reap_channel-IsRoster (without s id key) key (without-IsRoster s id key w))

pub leave_all-users :
    (s : State) (id : UserId) (keys : TextSet) → ((leave_all s id keys).0).users ≡ s.users
unfolding leave_all
leave_all-users s id [] = refl
leave_all-users s id ((key, u) ∷ keys) =
    leave_all-users (reap_channel (without s id key) key) id keys
    ∙ reap_channel-users (without s id key) key

pub leave_all-nicks :
    (s : State) (id : UserId) (keys : TextSet) → ((leave_all s id keys).0).nicks ≡ s.nicks
unfolding leave_all
leave_all-nicks s id [] = refl
leave_all-nicks s id ((key, u) ∷ keys) =
    leave_all-nicks (reap_channel (without s id key) key) id keys
    ∙ reap_channel-nicks (without s id key) key
