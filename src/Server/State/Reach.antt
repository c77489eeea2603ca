-- ===== src/Server/State/Reach.antt =====
-- The states that the operations of src/server/state.rs reach from the empty one.
use rfircd.Prelude.{
  ℕ, ◌≡◌, ◌≢◌, ◌↔◌, refl, sym, ap, ◌∙◌, inl, inr, Bool, true, false, none, some, some_inj, Text,
  Option-cases, Bool-cases,
}
use rfircd.Prelude.Assoc.{lookup, modify, is_some, Distinct}
use rfircd.Prelude.Chars.{text_eq}
use rfircd.Irc.Casemap.{lower}
use rfircd.Server.State.{
  UserId, user_id_eq, user_id_beq, User, Channel, State, empty, no_nick, new_user, insert_user,
  set_nick, ensure_channel, join, apply_intended_flags, part, remove_user,
}
use rfircd.Server.State.Names.{nick_key, claimed_once}
use rfircd.Server.State.Consistent.{
  IsConsistent, insert_user-IsConsistent, set_nick-IsConsistent, ensure_channel-IsConsistent,
  join-IsConsistent, apply_intended_flags-IsConsistent, part-IsConsistent, remove_user-IsConsistent,
  edit_user, edit_channel,
}

-- A user comes under an id that nobody has; writes through `user_mut` and `channel_mut` keep what
-- only the operations change.
pub data Reachable : State → Type 0 where
  starts : Reachable empty
  connects :
      (s : State) (id : UserId) (host : Text) (now : ℕ)
      → Reachable s
      → lookup id s.users ≡ none
      → Reachable (insert_user s (new_user id host now))
  names : (s : State) (id : UserId) (nick : Text) → Reachable s → Reachable ((set_nick s id nick).0)
  ensures :
      (s : State) (name : Text) (bridged : Bool)
      → Reachable s
      → Reachable (ensure_channel s name bridged)
  enters : (s : State) (id : UserId) (name : Text) → Reachable s → Reachable ((join s id name).0)
  refreshes :
      (s : State) (id : UserId) (name : Text)
      → Reachable s
      → Reachable ((apply_intended_flags s id name).0)
  leaves : (s : State) (id : UserId) (name : Text) → Reachable s → Reachable ((part s id name).0)
  quits : (s : State) (id : UserId) → Reachable s → Reachable ((remove_user s id).0)
  edits_user :
      (s : State) (id : UserId) (f : User → User)
      → Reachable s
      → ((u : User) → (f u).id ≡ u.id)
      → ((u : User) → (f u).nick ≡ u.nick)
      → ((u : User) → (f u).channels ≡ u.channels)
      → Reachable (record s { users = modify id f s.users })
  edits_channel :
      (s : State) (key : Text) (f : Channel → Channel)
      → Reachable s
      → ((c : Channel) (j : UserId)
          → is_some (lookup j ((f c).members)) ≡ is_some (lookup j c.members))
      → ((c : Channel) → Distinct c.members → Distinct ((f c).members))
      → Reachable (record s { channels = modify key f s.channels })

empty-IsConsistent : IsConsistent empty
unfolding lookup
empty-IsConsistent = record {
  roster = record { distinct = tt; members = λ k v h. absurd (cc) };
  lists = λ k v h. absurd (cc);
  named = record {
    users_distinct = tt;
    nicks_distinct = tt;
    ids = λ k v h. absurd (cc);
    owners = λ k v h. absurd (cc);
    claimed = λ k v h. absurd (cc);
  };
  agree = λ id key. refl;
}

-- Every such state is consistent.
pub Reachable-IsConsistent : (s : State) → Reachable s → IsConsistent s
Reachable-IsConsistent _ starts = empty-IsConsistent
Reachable-IsConsistent _ (connects s id host now r absent) =
    insert_user-IsConsistent (Reachable-IsConsistent s r) id host now absent
Reachable-IsConsistent _ (names s id nick r) =
    set_nick-IsConsistent (Reachable-IsConsistent s r) id nick
Reachable-IsConsistent _ (ensures s name bridged r) =
    ensure_channel-IsConsistent (Reachable-IsConsistent s r) name bridged
Reachable-IsConsistent _ (enters s id name r) =
    join-IsConsistent (Reachable-IsConsistent s r) id name
Reachable-IsConsistent _ (refreshes s id name r) =
    apply_intended_flags-IsConsistent (Reachable-IsConsistent s r) id name
Reachable-IsConsistent _ (leaves s id name r) =
    part-IsConsistent (Reachable-IsConsistent s r) id name
Reachable-IsConsistent _ (quits s id r) = remove_user-IsConsistent (Reachable-IsConsistent s r) id
Reachable-IsConsistent _ (edits_user s id f r keeps_id keeps_nick keeps_channels) =
    edit_user (Reachable-IsConsistent s r) id f keeps_id keeps_nick keeps_channels
Reachable-IsConsistent _ (edits_channel s key f r keeps stays) =
    edit_channel (Reachable-IsConsistent s r) key f keeps stays

-- No two users of such a state bear one name, whatever its case.
pub nick_once :
    (s : State) (i j : UserId) (u v : User)
    → Reachable s
    → lookup i s.users ≡ some u
    → lookup j s.users ≡ some v
    → lower u.nick ≡ lower v.nick
    → lower u.nick ≢ no_nick
    → i ≡ j
nick_once s i j u v r = claimed_once (Reachable-IsConsistent s r).named i j

-- Whether a user that is there is refused a name says whether another bears it.
pub set_nick-refuses :
    (s : State) (id : UserId) (nick : Text) (u : User)
    → Reachable s
    → lookup id s.users ≡ some u
    → lower nick ≢ no_nick
    → ((set_nick s id nick).1 ≡ false) ↔ (
        (j : UserId) × (v : User) × (lookup j s.users ≡ some v)
        × (lower v.nick ≡ lower nick)
        × (user_id_beq j id ≡ false))
unfolding set_nick
set_nick-refuses s id nick u r here named =
    let w = (Reachable-IsConsistent s r).named in
    (
      λ refused. elim (Option-cases (lookup (lower nick) s.nicks)) [
        | inl free ↦ let it : true ≡ false = rw (set_nick, here, free) at refused in absurd (cc)
        | inr (j, owned) ↦ elim (Bool-cases (user_id_beq j id)) [
          | inl mine ↦
              let it : true ≡ false = rw (set_nick, here, owned, mine) at refused in absurd (cc)
          | inr theirs ↦ elim (Option-cases (lookup j s.users)) [
            | inl absent ↦
                let it : nick_key none ≡ some (lower nick) =
                  rw (absent) at (w.owners (lower nick) j owned) in
                absurd (cc)
            | inr (v, there) ↦
                let it : some (lower v.nick) ≡ some (lower nick) =
                  rw (there) at (w.owners (lower nick) j owned) in
                (j, v, there, some_inj.0 it, theirs)
          ]
        ]
      ],
      λ (j, v, there, same, other). elim (w.claimed j v there) [
        | inl bare ↦ absurd (named (sym same ∙ bare))
        | inr theirs ↦
            let owned : lookup (lower nick) s.nicks ≡ some j =
              ap (λ k. lookup k s.nicks) (sym same) ∙ theirs in
            rw (set_nick, here, owned, other) refl
      ],
    )
