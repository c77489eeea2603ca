-- ===== src/Server/State/Consistent.antt =====
-- What src/server/state.rs keeps of its two records of who is in which channel, and of its names.
use rfircd.Prelude.{
  ℕ, ◌≡◌, refl, sym, ap, ◌∙◌, inl, inr, Bool, false, none, some, Text, arith, Option-cases,
  Bool-cases, subst, is_empty,
}
use rfircd.Prelude.Assoc.{
  lookup, remove, modify, is_some, Distinct, insert-Distinct, remove-Distinct, modify-Distinct,
  modify-is_some,
}
use rfircd.Prelude.Assoc.Every.{Every, Every-insert, Every-remove, Every-modify}
use rfircd.Prelude.Assoc.Nested.{
  has, has-modify-insert, has-modify-remove, has-remove, has-modify_keys, has-insert,
}
use rfircd.Prelude.Chars.{text_eq}
use rfircd.Irc.Casemap.{lower}
use rfircd.Server.State.{
  UserId, user_id_eq, user_id_beq, user_id_beq_iff, User, Channel, State, MemberFlags, is_other,
  add_member, drop_member, add_channel, drop_channel, new_user, new_channel, insert_user, set_nick,
  ensure_channel, join, flags_for_parts, apply_intended_flags, set_flags, same_flags, merge_flags,
  part, reap_channel, leave_all, remove_user,
}
use rfircd.Server.State.Names.{
  IsNamed, rename, rename-IsNamed, remove-IsNamed, insert-IsNamed, modify-IsNamed,
}
use rfircd.Server.State.Views.{
  member_of, listed_in, ListsDistinct, IsRoster, member_of-reap_channel, reap_channel-IsRoster,
  reap_channel-users, reap_channel-nicks, member_of-leave_all, leave_all-IsRoster, leave_all-users,
  leave_all-nicks,
}

pub record IsConsistent (s : State) : Type 0 where
  pub roster : IsRoster s.channels
  pub lists : ListsDistinct s
  pub named : IsNamed s.users s.nicks
  pub agree : (id : UserId) (key : Text) → member_of s id key ≡ listed_in s id key

-- The state after a successful join.
abbrev pub joined : State → UserId → Text → MemberFlags → State
joined s id key flags = record s {
  channels = modify key (add_member id flags) s.channels;
  users = modify id (add_channel key) s.users;
}

-- The state after a part, before the channel is reaped.
abbrev pub parted : State → UserId → Text → State
parted s id key = record s {
  channels = modify key (drop_member id) s.channels;
  users = modify id (drop_channel key) s.users;
}

-- The state without a user and its name, before the user is taken out of its channels.
abbrev pub gone : State → UserId → User → State
gone s id u = record s { users = remove id s.users; nicks = remove (lower u.nick) s.nicks }

module _ {s : State} (w : IsConsistent s) where
  pub joined-IsConsistent :
      (id : UserId) (key : Text) (flags : MemberFlags) {u : User} {c : Channel}
      → lookup id s.users ≡ some u
      → lookup key s.channels ≡ some c
      → IsConsistent (joined s id key flags)
  joined-IsConsistent id key flags {u} {c} here there = record {
    roster = record {
      distinct = modify-Distinct key (add_member id flags) s.channels w.roster.distinct;
      members =
          Every-modify (λ (k : Text) (c : Channel). Distinct c.members) key (add_member id flags)
            s.channels w.roster.members (λ c at d. insert-Distinct id flags c.members d);
    };
    lists =
        Every-modify (λ (i : UserId) (u : User). Distinct u.channels) id (add_channel key) s.users
          w.lists (λ u at d. insert-Distinct key tt u.channels d);
    named = modify-IsNamed w.named id (add_channel key) (λ u. refl) (λ u. refl);
    agree = λ j l.
        has-modify-insert (λ (c : Channel). c.members) key id flags (add_member id flags) s.channels
          l j (λ c. refl) there
        ∙ ground (
          arith,
          w.agree j l,
          has-modify-insert (λ (u : User). u.channels) id key tt (add_channel key) s.users j l
              (λ u. refl) here,
        );
  }

  pub parted-IsConsistent : (id : UserId) (key : Text) → IsConsistent (parted s id key)
  parted-IsConsistent id key = record {
    roster = record {
      distinct = modify-Distinct key (drop_member id) s.channels w.roster.distinct;
      members =
          Every-modify (λ (k : Text) (c : Channel). Distinct c.members) key (drop_member id)
            s.channels w.roster.members (λ c at d. remove-Distinct id c.members d);
    };
    lists =
        Every-modify (λ (i : UserId) (u : User). Distinct u.channels) id (drop_channel key) s.users
          w.lists (λ u at d. remove-Distinct key u.channels d);
    named = modify-IsNamed w.named id (drop_channel key) (λ u. refl) (λ u. refl);
    agree = λ j l.
        has-modify-remove (λ (c : Channel). c.members) key id (drop_member id) s.channels l j
          (λ c. refl) w.roster.members
        ∙ ground (
          arith,
          w.agree j l,
          has-modify-remove (λ (u : User). u.channels) id key (drop_channel key) s.users j l
              (λ u. refl) w.lists,
        );
  }

  pub reap_channel-IsConsistent : (key : Text) → IsConsistent (reap_channel s key)
  reap_channel-IsConsistent key = record {
    roster = reap_channel-IsRoster s key w.roster;
    lists =
        subst (λ m. Every (λ (i : UserId) (u : User). Distinct u.channels) m)
          (sym (reap_channel-users s key)) w.lists;
    named =
        subst (λ m. IsNamed m ((reap_channel s key).nicks)) (sym (reap_channel-users s key))
          (subst (λ m. IsNamed s.users m) (sym (reap_channel-nicks s key)) w.named);
    agree = λ j l.
        member_of-reap_channel s key j l w.roster.distinct
        ∙ (w.agree j l
            ∙ ap (λ m. has (λ (u : User). u.channels) l (lookup j m))
                (sym (reap_channel-users s key)));
  }

  -- A change of a channel that keeps who is in it, and of a user that keeps its names and channels.
  pub edit_channel :
      (key : Text) (f : Channel → Channel)
      → ((c : Channel) (j : UserId)
          → is_some (lookup j ((f c).members)) ≡ is_some (lookup j c.members))
      → ((c : Channel) → Distinct c.members → Distinct ((f c).members))
      → IsConsistent (record s { channels = modify key f s.channels })
  edit_channel key f keeps stays = record {
    roster = record {
      distinct = modify-Distinct key f s.channels w.roster.distinct;
      members =
          Every-modify (λ (k : Text) (c : Channel). Distinct c.members) key f s.channels
            w.roster.members (λ c at d. stays c d);
    };
    lists = w.lists;
    named = w.named;
    agree = λ j l.
        has-modify_keys (λ (c : Channel). c.members) key f s.channels l j (λ c. keeps c j)
        ∙ w.agree j l;
  }

  pub edit_user :
      (id : UserId) (f : User → User)
      → ((u : User) → (f u).id ≡ u.id)
      → ((u : User) → (f u).nick ≡ u.nick)
      → ((u : User) → (f u).channels ≡ u.channels)
      → IsConsistent (record s { users = modify id f s.users })
  edit_user id f keeps_id keeps_nick keeps_channels = record {
    roster = w.roster;
    lists =
        Every-modify (λ (i : UserId) (u : User). Distinct u.channels) id f s.users w.lists
          (λ u at d. subst Distinct (sym (keeps_channels u)) d);
    named = modify-IsNamed w.named id f keeps_id keeps_nick;
    agree = λ j l.
        w.agree j l
        ∙ sym (
            has-modify_keys (λ (u : User). u.channels) id f s.users j l
              (λ u. ap (λ m. is_some (lookup l m)) (keeps_channels u)));
  }

  pub join-IsConsistent : (id : UserId) (name : Text) → IsConsistent ((join s id name).0)
  unfolding join
  join-IsConsistent id name = elim (Option-cases (lookup id s.users)) [
    | inl absent ↦ rw (join, absent) w
    | inr (u, here) ↦ elim (Option-cases (lookup (lower name) s.channels)) [
      | inl absent ↦ rw (join, here, absent) w
      | inr (c, there) ↦ elim (Bool-cases (is_some (lookup id c.members))) [
        | inl member ↦ rw (join, here, there, member) w
        | inr outside ↦
            rw (join, here, there, outside)
              (joined-IsConsistent id (lower name)
                (flags_for_parts s id c.rf (is_empty c.members) c.operators) here there)
      ]
    ]
  ]

  pub set_nick-IsConsistent : (id : UserId) (nick : Text) → IsConsistent ((set_nick s id nick).0)
  unfolding set_nick
  set_nick-IsConsistent id nick = elim (Option-cases (lookup id s.users)) [
    | inl absent ↦ rw (set_nick, absent) w
    | inr (u, here) ↦ elim (Bool-cases (is_other id (lookup (lower nick) s.nicks))) [
      | inl taken ↦ rw (set_nick, here, taken) w
      | inr free ↦
          rw (set_nick, here, free)
            (record {
              roster = w.roster;
              lists =
                  Every-modify (λ (i : UserId) (u : User). Distinct u.channels) id (rename nick)
                    s.users w.lists (λ v at d. d);
              named = rename-IsNamed w.named id u nick here free;
              agree = λ j l.
                  w.agree j l
                  ∙ sym (
                      has-modify_keys (λ (u : User). u.channels) id (rename nick) s.users j l
                        (λ v. refl));
            })
    ]
  ]

  pub apply_intended_flags-IsConsistent :
      (id : UserId) (name : Text) → IsConsistent ((apply_intended_flags s id name).0)
  unfolding apply_intended_flags
  apply_intended_flags-IsConsistent id name = elim (Option-cases (lookup (lower name) s.channels)) [
    | inl absent ↦ rw (apply_intended_flags, absent) w
    | inr (c, there) ↦ elim (Option-cases (lookup id c.members)) [
      | inl outside ↦ rw (apply_intended_flags, there, outside) w
      | inr (old, member) ↦
          let new = merge_flags (flags_for_parts s id c.rf false c.operators) old in
          elim (Bool-cases (same_flags old new)) [
            | inl same ↦ rw (apply_intended_flags, there, member, same) w
            | inr moved ↦
                rw (apply_intended_flags, there, member, moved)
                  (edit_channel (lower name) (set_flags id new)
                    (λ x j. modify-is_some id j (λ f. new) x.members)
                    (λ x d. modify-Distinct id (λ f. new) x.members d))
          ]
    ]
  ]

  -- After the user and its name were taken out, and the user was taken out of its channels.
  pub gone-agree :
      (id : UserId) (u : User)
      → lookup id s.users ≡ some u
      → (j : UserId) (l : Text)
      → member_of ((leave_all (gone s id u) id u.channels).0) j l ≡ listed_in (gone s id u) j l
  gone-agree id u here j l =
      member_of-leave_all (gone s id u) id u.channels j l w.roster
      ∙ (elim (Bool-cases (user_id_beq id j)) [
        | inr apart ↦ rw (apart) (ground (arith, w.agree j l))
        | inl it ↦
            let at_j : listed_in s j l ≡ is_some (lookup l u.channels) =
              ap (has (λ (u : User). u.channels) l)
                (subst (λ x. lookup x s.users ≡ some u) ((user_id_beq_iff id j).0 it) here) in
            rw (it, w.agree j l, at_j) (ground arith)
      ]
          ∙ sym (has-remove (λ (u : User). u.channels) id s.users j l w.named.users_distinct))

  gone-IsConsistent :
      (id : UserId) (u : User)
      → lookup id s.users ≡ some u
      → IsConsistent ((leave_all (gone s id u) id u.channels).0)
  gone-IsConsistent id u here =
      let t = gone s id u in
      let users = leave_all-users t id u.channels in
      record {
        roster = leave_all-IsRoster t id u.channels w.roster;
        lists =
            subst (λ m. Every (λ (i : UserId) (u : User). Distinct u.channels) m) (sym users)
              (Every-remove (λ (i : UserId) (u : User). Distinct u.channels) id s.users
                w.named.users_distinct w.lists);
        named =
            subst (λ m. IsNamed m (((leave_all t id u.channels).0).nicks)) (sym users)
              (subst (λ m. IsNamed t.users m) (sym (leave_all-nicks t id u.channels))
                (remove-IsNamed w.named id u here));
        agree = λ j l.
            gone-agree id u here j l
            ∙ ap (λ m. has (λ (u : User). u.channels) l (lookup j m)) (sym users);
      }

  pub remove_user-IsConsistent : (id : UserId) → IsConsistent ((remove_user s id).0)
  unfolding remove_user
  remove_user-IsConsistent id = elim (Option-cases (lookup id s.users)) [
    | inl absent ↦ rw (remove_user, absent) w
    | inr (u, here) ↦ rw (remove_user, here) (gone-IsConsistent id u here)
  ]

  pub ensure_channel-IsConsistent :
      (name : Text) (bridged : Bool) → IsConsistent (ensure_channel s name bridged)
  unfolding ensure_channel
  ensure_channel-IsConsistent name bridged = elim (Option-cases (lookup (lower name) s.channels)) [
    | inr (c, there) ↦ rw (ensure_channel, there) w
    | inl absent ↦
        rw (ensure_channel, absent)
          (record {
            roster = record {
              distinct =
                  insert-Distinct (lower name) (new_channel name bridged) s.channels
                    w.roster.distinct;
              members =
                  Every-insert (λ (k : Text) (c : Channel). Distinct c.members) (lower name)
                    (new_channel name bridged) s.channels w.roster.members tt;
            };
            lists = w.lists;
            named = w.named;
            agree = λ j l.
                has-insert (λ (c : Channel). c.members) (lower name) (new_channel name bridged)
                  s.channels l j absent refl
                ∙ w.agree j l;
          })
  ]

  pub insert_user-IsConsistent :
      (id : UserId) (host : Text) (now : ℕ)
      → lookup id s.users ≡ none
      → IsConsistent (insert_user s (new_user id host now))
  unfolding insert_user new_user lookup
  insert_user-IsConsistent id host now absent = record {
    roster = w.roster;
    lists =
        Every-insert (λ (i : UserId) (u : User). Distinct u.channels) id (new_user id host now)
          s.users w.lists tt;
    named = insert-IsNamed w.named (new_user id host now) absent refl;
    agree = λ j l.
        w.agree j l
        ∙ sym (
            has-insert (λ (u : User). u.channels) id (new_user id host now) s.users j l absent
              refl);
  }

pub part-IsConsistent :
    {s : State} (w : IsConsistent s) (id : UserId) (name : Text) → IsConsistent ((part s id name).0)
unfolding part
part-IsConsistent {s} w id name = elim (Option-cases (lookup (lower name) s.channels)) [
  | inl absent ↦ rw (part, absent) w
  | inr (c, there) ↦
      rw (part, there)
        (reap_channel-IsConsistent (parted-IsConsistent w id (lower name)) (lower name))
]
