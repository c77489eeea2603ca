-- ===== src/Tests/ServerState.antt =====
-- The state of the server, src/server/state.rs, on concrete inputs.
use rfircd.Prelude.{
  arith, ◌&&◌, ◌||◌, not, ◌≤◌, ◌<◌, ◌≡◌, ◌≢◌, ◌↔◌, refl, [], ◌∷◌, true, false, some, Bool-cases,
  inl, inr, Text,
}
use rfircd.Prelude.Assoc.{lookup, is_some, insert, remove, modify}
use rfircd.Prelude.Chars.{text_beq, text_eq}
use rfircd.Irc.Casemap.{lower, lower_char}
use rfircd.Server.State.{
  UserId, ip, user_id_eq, user_id_beq, User, Channel, MemberFlags, State, empty, channel, user,
  no_nick, no_flags, new_user, new_channel, insert_user, set_nick, ensure_channel, join,
  flags_for_parts, flags_of, apply_intended_flags, part, reap_channel,
}
use rfircd.Server.State.Consistent.{IsConsistent}
use rfircd.Irc.Message.{is_channel_name}
use rfircd.Server.Commands.{constant_time_eq, constant_time_eq_iff}
use rfircd.Server.Channels.{
  is_member, do_join, join_each, enter, enter_open, welcome, channel_count,
}
use rfircd.Server.Channels.Guarded.{lets_in, bridged_at, do_join-lets_in, join_each-IsWithin}
use rfircd.Server.State.Reach.{
  Reachable, starts, connects, names, ensures, enters, Reachable-IsConsistent, set_nick-refuses,
}
use rfircd.Server.State.Moves.{leaves, run, name_of, name_after, member_after, run-Refines}
use rfircd.Server.State.Views.{member_of}
use rfircd.Server.State.Flags.{NoDead, run-NoDead, flags_at, apply_intended_flags-flags_at}

abbrev al : Text
al = b'A' ∷ b'l' ∷ []

abbrev lounge : Text
lounge = b'#' ∷ b'a' ∷ []

-- A user connects, takes a name, and enters a channel that it makes; a second user connects.
abbrev connected : State
connected = insert_user empty (new_user (ip 1) [] 0)

abbrev in_lounge : State
in_lounge = (join (ensure_channel (set_nick connected (ip 1) al).0 lounge false) (ip 1) lounge).0

abbrev two_users : State
two_users = insert_user in_lounge (new_user (ip 2) [] 5)

two_users-Reachable : Reachable two_users
unfolding insert_user new_user insert lookup user_id_beq join set_nick ensure_channel remove modify
    lower lower_char text_beq new_channel flags_of flags_for_parts
two_users-Reachable =
    connects in_lounge (ip 2) [] 5
      (enters (ensure_channel (set_nick connected (ip 1) al).0 lounge false) (ip 1) lounge (
        ensures (set_nick connected (ip 1) al).0 lounge false
          (names connected (ip 1) al (connects empty (ip 1) [] 0 starts refl))))
      refl

-- A name is taken whatever its case, and a channel that is left is gone.
taken_run : (set_nick two_users (ip 2) (b'a' ∷ b'L' ∷ [])).1 ≡ false
unfolding insert_user new_user insert lookup user_id_beq join set_nick ensure_channel remove modify
    lower lower_char text_beq new_channel flags_of flags_for_parts
taken_run = refl

left_run : (part two_users (ip 1) lounge).0.channels ≡ []
unfolding insert_user new_user insert lookup user_id_beq join set_nick ensure_channel remove modify
    lower lower_char text_beq new_channel flags_of flags_for_parts part reap_channel
left_run = refl

Reachable-IsConsistent_example : IsConsistent two_users
Reachable-IsConsistent_example = Reachable-IsConsistent two_users two_users-Reachable

-- The first user as it then is.
abbrev al_user : User
unfolding new_user
al_user = record (new_user (ip 1) [] 0) { nick = al; channels = (lounge, tt) ∷ [] }

al_user-there : lookup (ip 1) two_users.users ≡ some al_user
unfolding insert_user new_user insert lookup user_id_beq join set_nick ensure_channel remove modify
    lower lower_char text_beq new_channel flags_of flags_for_parts al_user
al_user-there = refl

al_user-named : lower al_user.nick ≢ no_nick
unfolding lower lower_char al_user
al_user-named = λ h. absurd (cc)

al-named : lower al ≢ no_nick
unfolding lower lower_char
al-named = λ h. absurd (cc)

set_nick-refuses_example : ((set_nick two_users (ip 1) al).1 ≡ false) ↔ (
    (j : UserId) × (v : User) × (lookup j two_users.users ≡ some v)
    × (lower v.nick ≡ lower al)
    × (user_id_beq j (ip 1) ≡ false))
set_nick-refuses_example =
    set_nick-refuses two_users (ip 1) al al_user two_users-Reachable al_user-there al-named

run-Refines_example :
    (name_of (run (leaves (ip 1) lounge) two_users).0 (ip 2)
      ≡ name_after
          (leaves (ip 1) lounge)
          (run (leaves (ip 1) lounge) two_users).1
          (name_of two_users)
          (ip 2))
    × (member_of (run (leaves (ip 1) lounge) two_users).0 (ip 2) lounge
        ≡ member_after
            (leaves (ip 1) lounge)
            (run (leaves (ip 1) lounge) two_users).1
            (member_of two_users)
            (ip 2)
            lounge)
run-Refines_example =
    run-Refines (leaves (ip 1) lounge) two_users (ip 2) lounge
      (Reachable-IsConsistent two_users two_users-Reachable)

abbrev first_flags : MemberFlags
first_flags = record no_flags { op = true }

abbrev lounge_channel : Channel
unfolding new_channel
lounge_channel = record (new_channel lounge false) { members = (ip 1, first_flags) ∷ [] }

lounge-there : lookup (lower lounge) two_users.channels ≡ some lounge_channel
unfolding insert_user new_user insert lookup user_id_beq join set_nick ensure_channel remove modify
    lower lower_char text_beq new_channel flags_of flags_for_parts lounge_channel
lounge-there = refl

two_users-NoDead : NoDead two_users.channels
unfolding insert_user new_user insert lookup user_id_beq join set_nick ensure_channel remove modify
    lower lower_char text_beq new_channel flags_of flags_for_parts
two_users-NoDead l = elim (Bool-cases (text_beq (lower lounge) l)) [
  | inl same ↦ rw (lookup, same) refl
  | inr other ↦ rw (lookup, other) refl
]

lounge-member : lookup (ip 1) lounge_channel.members ≡ some first_flags
unfolding lookup user_id_beq lounge_channel
lounge-member = refl

run-NoDead_example : NoDead (run (leaves (ip 1) lounge) two_users).0.channels
run-NoDead_example =
    run-NoDead (leaves (ip 1) lounge) two_users
      (Reachable-IsConsistent two_users two_users-Reachable) two_users-NoDead

apply_intended_flags-flags_at_example :
    (f : MemberFlags) × (flags_at
        (ip 1)
        (lookup (lower lounge) (apply_intended_flags two_users (ip 1) lounge).0.channels)
      ≡ some f)
    × (f.op ≡ (
        al_user.oper
        || (al_user.nick_identified
            && is_some (lookup (lower al_user.nick) lounge_channel.operators))
        || first_flags.op_manual))
    × (f.voice ≡ (
        (lounge_channel.rf && (is_some al_user.callsign || al_user.oper))
        || first_flags.voice_manual))
    × (f.op_manual ≡ first_flags.op_manual)
    × (f.voice_manual ≡ first_flags.voice_manual)
apply_intended_flags-flags_at_example =
    apply_intended_flags-flags_at two_users (ip 1) lounge lounge_channel first_flags al_user
      lounge-there lounge-member al_user-there

-- A secret is not the same as a longer one.
constant_time_eq_iff_example : (constant_time_eq al lounge ≡ true) ↔ (al ≡ lounge)
constant_time_eq_iff_example = constant_time_eq_iff al lounge

ip_2-outside : is_member (ip 2) (channel two_users lounge) ≡ false
unfolding insert_user new_user insert lookup user_id_beq join set_nick ensure_channel remove modify
    lower lower_char text_beq new_channel flags_of flags_for_parts channel
ip_2-outside = refl

ip_2-enters : is_member (ip 2) (channel (do_join 5 two_users (ip 2) lounge []).0 lounge) ≡ true
unfolding insert_user new_user insert lookup user_id_beq join set_nick ensure_channel remove modify
    lower lower_char text_beq new_channel flags_of flags_for_parts channel user do_join enter_open
    enter welcome is_channel_name
ip_2-enters = refl

do_join-lets_in_example :
    (is_channel_name lounge ≡ true)
    × (lets_in (channel two_users lounge) [] ≡ true)
    × (channel_count (user two_users (ip 2)) < 5)
do_join-lets_in_example = do_join-lets_in 5 two_users (ip 2) lounge [] ip_2-outside ip_2-enters

few_channels : channel_count (user two_users (ip 2)) ≤ 5
unfolding insert_user new_user insert lookup user_id_beq join set_nick ensure_channel remove modify
    lower lower_char text_beq new_channel flags_of flags_for_parts user
few_channels = omega arith

join_each-IsWithin_example :
    (channel_count (user (join_each 5 two_users (ip 2) (lounge ∷ al ∷ []) []).0 (ip 2)) ≤ 5)
    × ((bridged_at (join_each 5 two_users (ip 2) (lounge ∷ al ∷ []) []).0 lounge
          && not (bridged_at two_users lounge))
        ≡ false)
join_each-IsWithin_example =
    join_each-IsWithin 5 two_users (ip 2) (lounge ∷ al ∷ []) [] lounge few_channels
