-- ===== src/Server/State/Flags.antt =====
-- The flags of the members of a channel, and the channels that stay, in src/server/state.rs.
use rfircd.Prelude.{
  ◌≡◌, refl, ap, ◌∙◌, inl, inr, Bool, true, false, List, [], ◌∷◌, Option, none, some, Text, arith,
  ◌&&◌, ◌||◌, Option-cases, Bool-cases, subst, is_empty,
}
use rfircd.Prelude.Assoc.{
  Eq, lookup, insert, modify, is_some, Distinct, lookup-remove, lookup-modify_self,
  lookup-modify_other,
}
use rfircd.Prelude.Chars.{text_eq, text_beq, text_beq_iff}
use rfircd.Irc.Casemap.{lower}
use rfircd.Server.State.{
  UserId, user_id_eq, Channel, State, MemberFlags, TextSet, is_other, add_member, drop_member,
  set_nick, join, flags_of, User, flags_for_parts, apply_intended_flags, set_flags, same_bool,
  same_flags, merge_flags, is_dead, part, reap_channel, leave_all, remove_user,
}
use rfircd.Server.State.Views.{IsRoster, without, without-IsRoster, reap_channel-IsRoster}
use rfircd.Server.State.Consistent.{IsConsistent, parted, gone, parted-IsConsistent}
use rfircd.Server.State.Moves.{Command, renames, enters, leaves, refreshes, quits, run}

-- No channel stands that nobody is in and nobody configured.
abbrev pub NoDead : List (Text × Channel) → Type 0
NoDead m = (l : Text) → is_dead (lookup l m) ≡ false

is_empty-insert :
    {K V : Type 0}
    → ⦃e : Eq K⦄ → (k : K) (v : V) (m : List (K × V)) → is_empty (insert k v m) ≡ false
unfolding insert
is_empty-insert k v [] = refl
is_empty-insert ⦃e⦄ k v ((j, u) ∷ m) = elim (Bool-cases (e.beq j k)) [
  | inl same ↦ rw (insert, same) refl
  | inr other ↦ rw (insert, other) refl
]

-- A change of one channel that leaves it alive, and a change that is reaped.
modify-NoDead :
    (key : Text) (f : Channel → Channel) (m : List (Text × Channel)) {c : Channel}
    → NoDead m
    → lookup key m ≡ some c
    → is_dead (some (f c)) ≡ false
    → NoDead (modify key f m)
modify-NoDead key f m {c} alive there stays l = elim (Bool-cases (text_beq key l)) [
  | inr other ↦ ap is_dead (lookup-modify_other key l f m other) ∙ alive l
  | inl same ↦
      subst (λ x. is_dead (lookup x (modify key f m)) ≡ false) ((text_beq_iff key l).0 same)
        (ap is_dead (lookup-modify_self key f m there) ∙ stays)
]

reap_channel-NoDead :
    (s : State) (key : Text)
    → Distinct s.channels
    → ((l : Text) → text_beq key l ≡ false → is_dead (lookup l s.channels) ≡ false)
    → NoDead ((reap_channel s key).channels)
unfolding reap_channel
reap_channel-NoDead s key d others l = elim (Bool-cases (is_dead (lookup key s.channels))) [
  | inl dead ↦ elim (Bool-cases (text_beq key l)) [
    | inl same ↦ rw (reap_channel, dead, lookup-remove key l s.channels d, same) refl
    | inr other ↦
        rw (reap_channel, dead)
          (ap is_dead (lookup-remove key l s.channels d ∙ rw (other) refl) ∙ others l other)
  ]
  | inr kept ↦ elim (Bool-cases (text_beq key l)) [
    | inl same ↦
        rw (reap_channel, kept)
          (subst (λ x. is_dead (lookup x s.channels) ≡ false) ((text_beq_iff key l).0 same) kept)
    | inr other ↦ rw (reap_channel, kept) (others l other)
  ]
]

without-others :
    (m : List (Text × Channel)) (id : UserId) (key : Text)
    → NoDead m
    → (l : Text) → text_beq key l ≡ false
    → is_dead (lookup l (modify key (drop_member id) m)) ≡ false
without-others m id key alive l other =
    ap is_dead (lookup-modify_other key l (drop_member id) m other) ∙ alive l

leave_all-NoDead :
    (s : State) (id : UserId) (keys : TextSet)
    → IsRoster s.channels
    → NoDead s.channels
    → NoDead (((leave_all s id keys).0).channels)
unfolding leave_all
leave_all-NoDead s id [] w alive = alive
leave_all-NoDead s id ((key, u) ∷ keys) w alive =
    let t = without s id key in
    let v = without-IsRoster s id key w in
    leave_all-NoDead (reap_channel t key) id keys (reap_channel-IsRoster t key v)
      (reap_channel-NoDead t key v.distinct (without-others s.channels id key alive))

module _ {s : State} (w : IsConsistent s) (alive : NoDead s.channels) where
  set_nick-NoDead : (id : UserId) (nick : Text) → NoDead (((set_nick s id nick).0).channels)
  unfolding set_nick
  set_nick-NoDead id nick l = elim (Option-cases (lookup id s.users)) [
    | inl absent ↦ rw (set_nick, absent) (alive l)
    | inr (u, here) ↦ elim (Bool-cases (is_other id (lookup (lower nick) s.nicks))) [
      | inl taken ↦ rw (set_nick, here, taken) (alive l)
      | inr free ↦ rw (set_nick, here, free) (alive l)
    ]
  ]

  join-NoDead : (id : UserId) (name : Text) → NoDead (((join s id name).0).channels)
  unfolding join
  join-NoDead id name l = elim (Option-cases (lookup id s.users)) [
    | inl absent ↦ rw (join, absent) (alive l)
    | inr (u, here) ↦ elim (Option-cases (lookup (lower name) s.channels)) [
      | inl absent ↦ rw (join, here, absent) (alive l)
      | inr (c, there) ↦ elim (Bool-cases (is_some (lookup id c.members))) [
        | inl member ↦ rw (join, here, there, member) (alive l)
        | inr outside ↦
            let flags = flags_for_parts s id c.rf (is_empty c.members) c.operators in
            rw (join, here, there, outside)
              (modify-NoDead (lower name) (add_member id flags) s.channels alive there
                (ground (arith, is_empty-insert id flags c.members)) l)
      ]
    ]
  ]

  part-NoDead : (id : UserId) (name : Text) → NoDead (((part s id name).0).channels)
  unfolding part
  part-NoDead id name l = elim (Option-cases (lookup (lower name) s.channels)) [
    | inl absent ↦ rw (part, absent) (alive l)
    | inr (c, there) ↦
        rw (part, there)
          (reap_channel-NoDead (parted s id (lower name)) (lower name)
            (parted-IsConsistent w id (lower name)).roster.distinct
            (without-others s.channels id (lower name) alive) l)
  ]

  remove_user-NoDead : (id : UserId) → NoDead (((remove_user s id).0).channels)
  unfolding remove_user
  remove_user-NoDead id l = elim (Option-cases (lookup id s.users)) [
    | inl absent ↦ rw (remove_user, absent) (alive l)
    | inr (u, here) ↦
        rw (remove_user, here) (leave_all-NoDead (gone s id u) id u.channels w.roster alive l)
  ]

  apply_intended_flags-NoDead :
      (id : UserId) (name : Text) → NoDead (((apply_intended_flags s id name).0).channels)
  unfolding apply_intended_flags modify
  apply_intended_flags-NoDead id name l = elim (Option-cases (lookup (lower name) s.channels)) [
    | inl absent ↦ rw (apply_intended_flags, absent) (alive l)
    | inr (c, there) ↦ elim (Option-cases (lookup id c.members)) [
      | inl outside ↦ rw (apply_intended_flags, there, outside) (alive l)
      | inr (old, member) ↦
          let new = merge_flags (flags_for_parts s id c.rf false c.operators) old in
          elim (Bool-cases (same_flags old new)) [
            | inl same ↦ rw (apply_intended_flags, there, member, same) (alive l)
            | inr moved ↦
                rw (apply_intended_flags, there, member, moved)
                  (modify-NoDead (lower name) (set_flags id new) s.channels alive there
                    (rw (modify, member) (ground (arith, is_empty-insert id new c.members))) l)
          ]
    ]
  ]

-- The operations leave no channel behind that nobody is in and nobody configured.
pub run-NoDead :
    (c : Command) (s : State) → IsConsistent s → NoDead s.channels → NoDead (((run c s).0).channels)
unfolding run
run-NoDead (renames id nick) s w alive = set_nick-NoDead w alive id nick
run-NoDead (enters id name) s w alive = join-NoDead w alive id name
run-NoDead (leaves id name) s w alive = part-NoDead w alive id name
run-NoDead (refreshes id name) s w alive = apply_intended_flags-NoDead w alive id name
run-NoDead (quits id) s w alive = remove_user-NoDead w alive id

-- The flags of a member, where the channel and the member are there.
abbrev pub flags_at : UserId → Option Channel → Option MemberFlags
flags_at id none = none
flags_at id (some c) = lookup id c.members

same_bool_sound : (a b : Bool) → same_bool a b ≡ true → a ≡ b
same_bool_sound true true h = refl
same_bool_sound false false h = refl
same_bool_sound true false h = absurd (cc)
same_bool_sound false true h = absurd (cc)

same_flags_sound : (a b : MemberFlags) → same_flags a b ≡ true → a ≡ b
same_flags_sound a b h = ground (
  arith,
  same_bool_sound a.op b.op,
  same_bool_sound a.voice b.voice,
  same_bool_sound a.op_manual b.op_manual,
  same_bool_sound a.voice_manual b.voice_manual,
)

apply_intended_flags-merge_flags :
    (s : State) (id : UserId) (name : Text) (c : Channel) (old : MemberFlags)
    → lookup (lower name) s.channels ≡ some c
    → lookup id c.members ≡ some old
    → flags_at id (lookup (lower name) (((apply_intended_flags s id name).0).channels))
      ≡ some (merge_flags (flags_for_parts s id c.rf false c.operators) old)
unfolding apply_intended_flags
apply_intended_flags-merge_flags s id name c old there member =
    let new = merge_flags (flags_for_parts s id c.rf false c.operators) old in
    elim (Bool-cases (same_flags old new)) [
      | inl same ↦
          rw (apply_intended_flags, there, member, same, there, member)
            (ap some (same_flags_sound old new same))
      | inr moved ↦
          rw (apply_intended_flags, there, member, moved)
            (ap (flags_at id) (lookup-modify_self (lower name) (set_flags id new) s.channels there)
              ∙ lookup-modify_self id (λ f. new) c.members member)
    ]

-- Of a user that is in the channel, after its flags were refreshed: it is operator exactly if it is
-- an IRC operator, or bears the identified nickname of an operator of the channel, or was made operator
-- by hand; it has voice exactly if the channel is bridged and it has a callsign or is an IRC operator,
-- or if it was given voice by hand; and what was given by hand stays marked so.
pub apply_intended_flags-flags_at :
    (s : State) (id : UserId) (name : Text) (c : Channel) (old : MemberFlags) (u : User)
    → lookup (lower name) s.channels ≡ some c
    → lookup id c.members ≡ some old
    → lookup id s.users ≡ some u
    → (f : MemberFlags) × (flags_at id
          (lookup (lower name) (((apply_intended_flags s id name).0).channels))
        ≡ some f)
      × (f.op ≡ (
          u.oper
          || (u.nick_identified && is_some (lookup (lower u.nick) c.operators))
          || old.op_manual))
      × (f.voice ≡ ((c.rf && (is_some u.callsign || u.oper)) || old.voice_manual))
      × (f.op_manual ≡ old.op_manual)
      × (f.voice_manual ≡ old.voice_manual)
unfolding flags_for_parts flags_of
apply_intended_flags-flags_at s id name c old u there member here = (
  merge_flags (flags_for_parts s id c.rf false c.operators) old,
  apply_intended_flags-merge_flags s id name c old there member,
  rw (here) (ground arith),
  rw (here) (ground arith),
  refl,
  refl,
)
