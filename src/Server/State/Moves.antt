-- ===== src/Server/State/Moves.antt =====
-- The operations of src/server/state.rs against the plain account of them: a name for each user, and
-- for each user and channel whether the one is in the other.
use rfircd.Prelude.{
  ◌≡◌, refl, sym, ap, ◌∙◌, inl, inr, Bool, true, false, not, ◌&&◌, ◌||◌, List, Option, none, some,
  Text, arith, if◌then◌else◌, Option-cases, Bool-cases, subst, is_empty,
}
use rfircd.Prelude.Assoc.{
  lookup, modify, is_some, lookup-remove, lookup-modify, lookup-modify_other, modify-is_some,
}
use rfircd.Prelude.Assoc.Nested.{
  has, has-modify-insert, has-modify-remove, has-remove, has-modify_keys,
}
use rfircd.Prelude.Chars.{text_eq, text_beq, text_beq_iff}
use rfircd.Irc.Casemap.{lower}
use rfircd.Server.State.{
  UserId, user_id_eq, user_id_beq, user_id_beq_iff, User, Channel, State, is_other, add_member,
  drop_member, add_channel, drop_channel, set_nick, join, flags_for_parts, apply_intended_flags,
  set_flags, same_flags, merge_flags, part, remove_user,
}
use rfircd.Server.State.Names.{rename}
use rfircd.Server.State.Views.{
  member_of, listed_in, member_of-reap_channel, reap_channel-users, leave_all-users,
}
use rfircd.Server.State.Consistent.{IsConsistent, parted, gone, gone-agree, parted-IsConsistent}

pub data Command : Type 0 where
  renames : UserId → Text → Command
  enters : UserId → Text → Command
  leaves : UserId → Text → Command
  refreshes : UserId → Text → Command
  quits : UserId → Command

-- The operation, with whether it did what was asked.
unfoldable pub run : Command → State → State × Bool
unfolding set_nick join part apply_intended_flags remove_user
run (renames id nick) s = set_nick s id nick
run (enters id name) s = ((join s id name).0, is_some ((join s id name).1))
run (leaves id name) s = part s id name
run (refreshes id name) s =
    ((apply_intended_flags s id name).0, is_some ((apply_intended_flags s id name).1))
run (quits id) s = ((remove_user s id).0, is_some (lookup id s.users))

abbrev nick_of : Option User → Option Text
nick_of none = none
nick_of (some u) = some u.nick

-- The account: the name of a user, and whether a user is in a channel.
abbrev pub name_of : State → UserId → Option Text
name_of s id = nick_of (lookup id s.users)

-- What an operation does to the names, where `done` says that it did what was asked.
unfoldable pub name_after : Command → Bool → (UserId → Option Text) → UserId → Option Text
name_after (renames id nick) done name j = if done && user_id_beq id j then some nick else name j
name_after (enters id key) done name j = name j
name_after (leaves id key) done name j = name j
name_after (refreshes id key) done name j = name j
name_after (quits id) done name j = if user_id_beq id j then none else name j

-- And to who is where.
unfoldable pub member_after : Command → Bool → (UserId → Text → Bool) → UserId → Text → Bool
member_after (renames id nick) done member j l = member j l
member_after (enters id name) done member j l =
    (done && (text_beq (lower name) l && user_id_beq id j)) || member j l
member_after (leaves id name) done member j l =
    not (text_beq (lower name) l && user_id_beq id j) && member j l
member_after (refreshes id name) done member j l = member j l
member_after (quits id) done member j l = not (user_id_beq id j) && member j l

Refines : State → Command → UserId → Text → Type 0
unfolding run name_after member_after
Refines s c j l =
    (name_of ((run c s).0) j ≡ name_after c ((run c s).1) (name_of s) j)
    × (member_of ((run c s).0) j l ≡ member_after c ((run c s).1) (member_of s) j l)

nick_of-if :
    (b : Bool) (u : Option User) → nick_of (if b then none else u) ≡ (if b then none else nick_of u)
nick_of-if true u = refl
nick_of-if false u = refl

-- A change of the name.
name_of-rename :
    (m : List (UserId × User)) (id j : UserId) (nick : Text) {u : User}
    → lookup id m ≡ some u
    → nick_of (lookup j (modify id (rename nick) m))
      ≡ (if user_id_beq id j then some nick else nick_of (lookup j m))
name_of-rename m id j nick {u} here = elim (Bool-cases (user_id_beq id j)) [
  | inr apart ↦ ap nick_of (lookup-modify_other id j (rename nick) m apart) ∙ sym (rw (apart) refl)
  | inl it ↦
      let at_j : lookup j m ≡ some u =
        subst (λ x. lookup x m ≡ some u) ((user_id_beq_iff id j).0 it) here in
      ap nick_of (lookup-modify id j (rename nick) m) ∙ rw (it, at_j) refl
]

-- A user that is not there has no name, and is in no channel.
name_of-absent :
    (m : List (UserId × User)) (id j : UserId)
    → lookup id m ≡ none
    → nick_of (lookup j m) ≡ (if user_id_beq id j then none else nick_of (lookup j m))
name_of-absent m id j absent = elim (Bool-cases (user_id_beq id j)) [
  | inr apart ↦ sym (rw (apart) refl)
  | inl it ↦
      rw (it) (ap nick_of (subst (λ x. lookup x m ≡ none) ((user_id_beq_iff id j).0 it) absent))
]

listed_in-absent :
    (s : State) (id j : UserId) (l : Text)
    → lookup id s.users ≡ none
    → listed_in s j l ≡ (not (user_id_beq id j) && listed_in s j l)
listed_in-absent s id j l absent = elim (Bool-cases (user_id_beq id j)) [
  | inr apart ↦ sym (rw (apart) refl)
  | inl it ↦ rw (it) (
      ap (has (λ (u : User). u.channels) l)
        (subst (λ x. lookup x s.users ≡ none) ((user_id_beq_iff id j).0 it) absent))
]

-- A channel that is not there has no member.
member_of-absent :
    (s : State) (id j : UserId) (key l : Text)
    → lookup key s.channels ≡ none
    → member_of s j l ≡ (not (text_beq key l && user_id_beq id j) && member_of s j l)
member_of-absent s id j key l absent = elim (Bool-cases (text_beq key l)) [
  | inr apart ↦ sym (rw (apart) refl)
  | inl it ↦
      let none_in : member_of s j l ≡ false =
        ap (has (λ (c : Channel). c.members) j)
          (subst (λ x. lookup x s.channels ≡ none) ((text_beq_iff key l).0 it) absent) in
      ground (arith, none_in)
]

-- A change that keeps the name.
name_of-modify :
    (m : List (UserId × User)) (id j : UserId) (f : User → User)
    → ((u : User) → (f u).nick ≡ u.nick)
    → nick_of (lookup j (modify id f m)) ≡ nick_of (lookup j m)
name_of-modify m id j f keeps = elim (Bool-cases (user_id_beq id j)) [
  | inr apart ↦ ap nick_of (lookup-modify_other id j f m apart)
  | inl it ↦ elim (Option-cases (lookup j m)) [
    | inl absent ↦ ap nick_of (lookup-modify id j f m) ∙ rw (it, absent) refl
    | inr (v, there) ↦ ap nick_of (lookup-modify id j f m) ∙ rw (it, there) (ap some (keeps v))
  ]
]

module _ {s : State} (w : IsConsistent s) where
  run-renames :
      (id : UserId) (nick : Text) (j : UserId) (l : Text) → Refines s (renames id nick) j l
  unfolding Refines set_nick run name_after member_after
  run-renames id nick j l = elim (Option-cases (lookup id s.users)) [
    | inl absent ↦ rw (set_nick, absent) (refl, refl)
    | inr (u, here) ↦ elim (Bool-cases (is_other id (lookup (lower nick) s.nicks))) [
      | inl taken ↦ rw (set_nick, here, taken) (refl, refl)
      | inr free ↦ rw (set_nick, here, free) (name_of-rename s.users id j nick here, refl)
    ]
  ]

  run-enters : (id : UserId) (name : Text) (j : UserId) (l : Text) → Refines s (enters id name) j l
  unfolding Refines join run name_after member_after
  run-enters id name j l = elim (Option-cases (lookup id s.users)) [
    | inl absent ↦ rw (join, absent) (refl, refl)
    | inr (u, here) ↦ elim (Option-cases (lookup (lower name) s.channels)) [
      | inl absent ↦ rw (join, here, absent) (refl, refl)
      | inr (c, there) ↦ elim (Bool-cases (is_some (lookup id c.members))) [
        | inl member ↦ rw (join, here, there, member) (refl, refl)
        | inr outside ↦
            let flags = flags_for_parts s id c.rf (is_empty c.members) c.operators in
            rw (join, here, there, outside)
              (
                name_of-modify s.users id j (add_channel (lower name)) (λ u. refl),
                has-modify-insert (λ (c : Channel). c.members) (lower name) id flags
                    (add_member id flags) s.channels l j (λ c. refl) there,
              )
      ]
    ]
  ]

  run-leaves : (id : UserId) (name : Text) (j : UserId) (l : Text) → Refines s (leaves id name) j l
  unfolding Refines part run name_after member_after
  run-leaves id name j l = elim (Option-cases (lookup (lower name) s.channels)) [
    | inl absent ↦ rw (part, absent) (refl, member_of-absent s id j (lower name) l absent)
    | inr (c, there) ↦
        let t = parted s id (lower name) in
        rw (part, there)
          (
            ap (λ m. nick_of (lookup j m)) (reap_channel-users t (lower name))
                ∙ name_of-modify s.users id j (drop_channel (lower name)) (λ u. refl),
            member_of-reap_channel t (lower name) j l
                  (parted-IsConsistent w id (lower name)).roster.distinct
                ∙ has-modify-remove (λ (c : Channel). c.members) (lower name) id (drop_member id)
                    s.channels l j (λ c. refl) w.roster.members,
          )
  ]

  run-refreshes :
      (id : UserId) (name : Text) (j : UserId) (l : Text) → Refines s (refreshes id name) j l
  unfolding Refines apply_intended_flags run name_after member_after
  run-refreshes id name j l = elim (Option-cases (lookup (lower name) s.channels)) [
    | inl absent ↦ rw (apply_intended_flags, absent) (refl, refl)
    | inr (c, there) ↦ elim (Option-cases (lookup id c.members)) [
      | inl outside ↦ rw (apply_intended_flags, there, outside) (refl, refl)
      | inr (old, member) ↦
          let new = merge_flags (flags_for_parts s id c.rf false c.operators) old in
          elim (Bool-cases (same_flags old new)) [
            | inl same ↦ rw (apply_intended_flags, there, member, same) (refl, refl)
            | inr moved ↦
                rw (apply_intended_flags, there, member, moved)
                  (
                    refl,
                    has-modify_keys (λ (c : Channel). c.members) (lower name) (set_flags id new)
                        s.channels l j (λ x. modify-is_some id j (λ f. new) x.members),
                  )
          ]
    ]
  ]

  run-quits : (id : UserId) (j : UserId) (l : Text) → Refines s (quits id) j l
  unfolding Refines remove_user run name_after member_after
  run-quits id j l = elim (Option-cases (lookup id s.users)) [
    | inl absent ↦
        rw (remove_user, absent)
          (
            name_of-absent s.users id j absent,
            w.agree j l
                ∙ (listed_in-absent s id j l absent
                    ∙ ap (λ b. not (user_id_beq id j) && b) (sym (w.agree j l))),
          )
    | inr (u, here) ↦
        rw (remove_user, here)
          (
            ap (λ m. nick_of (lookup j m)) (leave_all-users (gone s id u) id u.channels)
                ∙ (ap nick_of (lookup-remove id j s.users w.named.users_distinct)
                    ∙ nick_of-if (user_id_beq id j) (lookup j s.users)),
            gone-agree w id u here j l
                ∙ (has-remove (λ (u : User). u.channels) id s.users j l w.named.users_distinct
                    ∙ ap (λ b. not (user_id_beq id j) && b) (sym (w.agree j l))),
          )
  ]

-- Every operation does to the state what the account says, and nothing else.
pub run-Refines :
    (c : Command) (s : State) (j : UserId) (l : Text)
    → IsConsistent s
    → (name_of ((run c s).0) j ≡ name_after c ((run c s).1) (name_of s) j)
      × (member_of ((run c s).0) j l ≡ member_after c ((run c s).1) (member_of s) j l)
unfolding Refines
run-Refines (renames id nick) s j l w = run-renames w id nick j l
run-Refines (enters id name) s j l w = run-enters w id name j l
run-Refines (leaves id name) s j l w = run-leaves w id name j l
run-Refines (refreshes id name) s j l w = run-refreshes w id name j l
run-Refines (quits id) s j l w = run-quits w id j l
