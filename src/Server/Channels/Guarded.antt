-- ===== src/Server/Channels/Guarded.antt =====
-- Who gets into a channel by src/server/commands/channels.rs, and what its commands never change.
use rfircd.Prelude.{
  ℕ, ◌+◌, ◌≤◌, ◌<◌, ◌≡◌, refl, sym, ap, ◌⊎◌, ◌∙◌, subst, inl, inr, Bool, true, false, not, ◌&&◌,
  List, [], ◌∷◌, Option, none, some, Text, leb, leb→gt, length, is_empty, arith, Bool-cases,
  Option-cases,
}
use rfircd.Prelude.Assoc.{
  lookup, modify, is_some, lookup-insert, lookup-modify, lookup-modify_self, length-insert,
}
use rfircd.Prelude.Chars.{text_eq, text_beq}
use rfircd.Irc.Casemap.{lower}
use rfircd.Irc.Message.{is_channel_name}
use rfircd.Server.State.{
  UserId, user_id_eq, Channel, State, new_channel, channel, user, join, ensure_channel, add_member,
  add_channel, flags_for_parts,
}
use rfircd.Server.Channels.{
  is_member, bad_key, is_full, bridges, channel_count, do_join, key_at, other_keys, enter,
  enter_open, join_each,
}

-- What lets a user into a channel.
abbrev pub lets_in : Option Channel → Text → Bool
lets_in none key = true
lets_in (some c) key = not (bad_key c.key key) && not (is_full c.limit (length c.members))

enter_open-lets_in :
    (s : State) (uid : UserId) (name key : Text) (o : Option Channel)
    → channel s name ≡ o
    → is_member uid o ≡ false
    → is_member uid (channel ((enter_open s uid name key o).0) name) ≡ true
    → lets_in o key ≡ true
unfolding enter_open
enter_open-lets_in s uid name key none q outside inside = refl
enter_open-lets_in s uid name key (some c) q outside inside =
    elim (Bool-cases (bad_key c.key key)) [
      | inl bad ↦
          let same : is_member uid (channel s name) ≡ true = rw (enter_open, bad) at inside in
          let still : is_member uid (some c) ≡ true = subst (λ o. is_member uid o ≡ true) q same in
          absurd (cc)
      | inr good ↦ elim (Bool-cases (is_full c.limit (length c.members))) [
        | inl full ↦
            let same : is_member uid (channel s name) ≡ true =
              rw (enter_open, good, full) at inside in
            let still : is_member uid (some c) ≡ true =
              subst (λ o. is_member uid o ≡ true) q same in
            absurd (cc)
        | inr room ↦ rw (good, room) refl
      ]
    ]

-- Whoever is in the channel after the command and was not before had the key, there was room, the name is
-- one of a channel, and the user was in fewer channels than is allowed.
pub do_join-lets_in :
    (most : ℕ) (s : State) (uid : UserId) (name key : Text)
    → is_member uid (channel s name) ≡ false
    → is_member uid (channel ((do_join most s uid name key).0) name) ≡ true
    → (is_channel_name name ≡ true)
      × (lets_in (channel s name) key ≡ true)
      × (channel_count (user s uid) < most)
unfolding do_join
do_join-lets_in most s uid name key outside inside = elim (Bool-cases (is_channel_name name)) [
  | inr odd ↦
      let same : is_member uid (channel s name) ≡ true = rw (do_join, odd) at inside in absurd (cc)
  | inl named ↦ elim (Bool-cases (leb most (channel_count (user s uid)))) [
    | inl many ↦
        let same : is_member uid (channel s name) ≡ true =
          rw (do_join, named, outside, many) at inside in
        absurd (cc)
    | inr few ↦ (
      named,
      enter_open-lets_in s uid name key (channel s name) refl outside
          (rw (do_join, named, outside, few) at inside),
      leb→gt most (channel_count (user s uid)) few,
    )
  ]
]

-- The channels that are bridged, under their names.
abbrev pub bridged_at : State → Text → Bool
bridged_at s l = bridges (lookup l s.channels)

-- A change of a channel that keeps whether it is bridged.
bridges-modify :
    (k l : Text) (f : Channel → Channel) (m : List (Text × Channel))
    → ((c : Channel) → (f c).rf ≡ c.rf)
    → bridges (lookup l (modify k f m)) ≡ bridges (lookup l m)
bridges-modify k l f m keeps = elim (Bool-cases (text_beq k l)) [
  | inr other ↦ ap bridges (lookup-modify k l f m) ∙ rw (other) refl
  | inl same ↦ elim (Option-cases (lookup l m)) [
    | inl absent ↦ ap bridges (lookup-modify k l f m) ∙ rw (same, absent) refl
    | inr (v, there) ↦ ap bridges (lookup-modify k l f m) ∙ rw (same, there) (keeps v)
  ]
]

join-bridged_at :
    (s : State) (uid : UserId) (name l : Text) → bridged_at ((join s uid name).0) l ≡ bridged_at s l
unfolding join
join-bridged_at s uid name l = elim (Option-cases (lookup uid s.users)) [
  | inl absent ↦ rw (join, absent) refl
  | inr (u, here) ↦ elim (Option-cases (lookup (lower name) s.channels)) [
    | inl absent ↦ rw (join, here, absent) refl
    | inr (c, there) ↦ elim (Bool-cases (is_some (lookup uid c.members))) [
      | inl member ↦ rw (join, here, there, member) refl
      | inr outside ↦
          rw (join, here, there, outside)
            (bridges-modify (lower name) l
              (add_member uid (flags_for_parts s uid c.rf (is_empty c.members) c.operators))
              s.channels (λ x. refl))
    ]
  ]
]

ensure_channel-bridged_at :
    (s : State) (name l : Text)
    → bridged_at (ensure_channel s name false) l ≡ true
    → bridged_at s l ≡ true
unfolding ensure_channel new_channel
ensure_channel-bridged_at s name l h = elim (Option-cases (lookup (lower name) s.channels)) [
  | inr (c, there) ↦ rw (ensure_channel, there) at h
  | inl absent ↦
      let after =
        sym (ap bridges (lookup-insert (lower name) l (new_channel name false) s.channels))
        ∙ (rw (ensure_channel, absent) at h) in
      elim (Bool-cases (text_beq (lower name) l)) [
        | inl same ↦ let it : false ≡ true = rw (same) at after in absurd (cc)
        | inr other ↦ rw (other) at after
      ]
]

enter-join : (s : State) (uid : UserId) (name : Text) → (enter s uid name).0 ≡ (join s uid name).0
unfolding enter
enter-join s uid name = elim (Option-cases ((join s uid name).1)) [
  | inl out ↦ rw (enter, out) refl
  | inr (flags, entered) ↦ rw (enter, entered) refl
]

enter_open_cases :
    (s : State) (uid : UserId) (name key : Text) (o : Option Channel)
    → ((enter_open s uid name key o).0 ≡ s)
      ⊎ (((enter_open s uid name key o).0 ≡ (join s uid name).0)
          ⊎ ((enter_open s uid name key o).0 ≡ (join (ensure_channel s name false) uid name).0))
unfolding enter_open
enter_open_cases s uid name key none = inr (inr (enter-join (ensure_channel s name false) uid name))
enter_open_cases s uid name key (some c) = elim (Bool-cases (bad_key c.key key)) [
  | inl bad ↦ inl (rw (enter_open, bad) refl)
  | inr good ↦ elim (Bool-cases (is_full c.limit (length c.members))) [
    | inl full ↦ inl (rw (enter_open, good, full) refl)
    | inr room ↦ inr (inl (rw (enter_open, good, room) (enter-join s uid name)))
  ]
]

-- The state after a JOIN is the one before, or that of a join within the limit.
do_join_cases :
    (most : ℕ) (s : State) (uid : UserId) (name key : Text)
    → ((do_join most s uid name key).0 ≡ s)
      ⊎ ((channel_count (user s uid) < most)
          × (((do_join most s uid name key).0 ≡ (join s uid name).0)
              ⊎ ((do_join most s uid name key).0
                  ≡ (join (ensure_channel s name false) uid name).0)))
unfolding do_join
do_join_cases most s uid name key = elim (Bool-cases (is_channel_name name)) [
  | inr odd ↦ inl (rw (do_join, odd) refl)
  | inl named ↦ elim (Bool-cases (is_member uid (channel s name))) [
    | inl inside ↦ inl (rw (do_join, named, inside) refl)
    | inr outside ↦ elim (Bool-cases (leb most (channel_count (user s uid)))) [
      | inl many ↦ inl (rw (do_join, named, outside, many) refl)
      | inr few ↦ elim (enter_open_cases s uid name key (channel s name)) [
        | inl same ↦ inl (rw (do_join, named, outside, few) same)
        | inr (inl old) ↦ inr (
          leb→gt most (channel_count (user s uid)) few,
          inl (rw (do_join, named, outside, few) old),
        )
        | inr (inr made) ↦ inr (
          leb→gt most (channel_count (user s uid)) few,
          inr (rw (do_join, named, outside, few) made),
        )
      ]
    ]
  ]
]

do_join-bridged_at :
    (most : ℕ) (s : State) (uid : UserId) (name key l : Text)
    → bridged_at ((do_join most s uid name key).0) l ≡ true
    → bridged_at s l ≡ true
do_join-bridged_at most s uid name key l h = elim (do_join_cases most s uid name key) [
  | inl same ↦ ap (λ x. bridged_at x l) (sym same) ∙ h
  | inr (few, inl old) ↦
      sym (join-bridged_at s uid name l) ∙ (ap (λ x. bridged_at x l) (sym old) ∙ h)
  | inr (few, inr made) ↦ ensure_channel-bridged_at s name l (
      sym (join-bridged_at (ensure_channel s name false) uid name l)
      ∙ (ap (λ x. bridged_at x l) (sym made) ∙ h))
]

join-channel_count :
    (s : State) (uid : UserId) (name : Text)
    → channel_count (user ((join s uid name).0) uid) ≤ channel_count (user s uid) + 1
unfolding join user
join-channel_count s uid name = elim (Option-cases (lookup uid s.users)) [
  | inl absent ↦ rw (join, absent, absent) (omega arith)
  | inr (u, here) ↦ elim (Option-cases (lookup (lower name) s.channels)) [
    | inl absent ↦ rw (join, here, absent, here) (omega arith)
    | inr (c, there) ↦ elim (Bool-cases (is_some (lookup uid c.members))) [
      | inl member ↦ rw (join, here, there, member, here) (omega arith)
      | inr outside ↦
          let after = lookup-modify_self uid (add_channel (lower name)) s.users here in
          rw (join, here, there, outside, after)
            (omega (arith, length-insert (lower name) tt u.channels))
    ]
  ]
]

ensure_channel-user :
    (s : State) (name : Text) (uid : UserId) → user (ensure_channel s name false) uid ≡ user s uid
unfolding ensure_channel user
ensure_channel-user s name uid = elim (Option-cases (lookup (lower name) s.channels)) [
  | inl absent ↦ rw (ensure_channel, absent) refl
  | inr (c, there) ↦ rw (ensure_channel, there) refl
]

do_join-channel_count :
    (most : ℕ) (s : State) (uid : UserId) (name key : Text)
    → channel_count (user s uid) ≤ most
    → channel_count (user ((do_join most s uid name key).0) uid) ≤ most
do_join-channel_count most s uid name key h = elim (do_join_cases most s uid name key) [
  | inl same ↦ subst (λ x. channel_count (user x uid) ≤ most) (sym same) h
  | inr (few, inl old) ↦
      subst (λ x. channel_count (user x uid) ≤ most) (sym old)
        (omega (arith, few, join-channel_count s uid name))
  | inr (few, inr made) ↦
      let t = ensure_channel s name false in
      subst (λ x. channel_count (user x uid) ≤ most) (sym made)
        (omega (
          arith,
          few,
          join-channel_count t uid name,
          ap channel_count (ensure_channel-user s name uid),
        ))
]

join_each-channel_count :
    (most : ℕ) (s : State) (uid : UserId) (names keys : List Text)
    → channel_count (user s uid) ≤ most
    → channel_count (user ((join_each most s uid names keys).0) uid) ≤ most
unfolding join_each
join_each-channel_count most s uid [] keys h = h
join_each-channel_count most s uid (name ∷ names) keys h =
    join_each-channel_count most ((do_join most s uid name (key_at keys)).0) uid names
      (other_keys keys) (do_join-channel_count most s uid name (key_at keys) h)

join_each-bridged_at :
    (most : ℕ) (s : State) (uid : UserId) (names keys : List Text) (l : Text)
    → bridged_at ((join_each most s uid names keys).0) l ≡ true
    → bridged_at s l ≡ true
unfolding join_each
join_each-bridged_at most s uid [] keys l h = h
join_each-bridged_at most s uid (name ∷ names) keys l h =
    do_join-bridged_at most s uid name (key_at keys) l (
      join_each-bridged_at most ((do_join most s uid name (key_at keys)).0) uid names
        (other_keys keys) l h)

-- However many names a JOIN has, the user is then in no more channels than is allowed, and no channel is
-- bridged that was not before.
pub join_each-IsWithin :
    (most : ℕ) (s : State) (uid : UserId) (names keys : List Text) (l : Text)
    → channel_count (user s uid) ≤ most
    → (channel_count (user ((join_each most s uid names keys).0) uid) ≤ most)
      × ((bridged_at ((join_each most s uid names keys).0) l && not (bridged_at s l)) ≡ false)
join_each-IsWithin most s uid names keys l h = (
  join_each-channel_count most s uid names keys h,
  ground (arith, join_each-bridged_at most s uid names keys l),
)
