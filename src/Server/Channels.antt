-- ===== src/Server/Channels.antt =====
-- Joining, leaving and kicking, src/server/commands/channels.rs: what the handlers do to the state, and
-- what they send, as a list in its order. A numeric is its number, with its arguments less its text;
-- announcements that other functions write out are named by those.
pub mod Guarded
use rfircd.Prelude.{
  ℕ, Bool, true, false, not, ◌&&◌, ◌||◌, List, [], ◌∷◌, ◌++◌, map, Option, none, some, Text, leb,
  length, is_empty, ◌==◌, if◌then◌else◌,
}
use rfircd.Prelude.Assoc.{lookup, is_some}
use rfircd.Prelude.Chars.{text_eq}
use rfircd.Prelude.Utf8.{utf8}
use rfircd.Irc.Message.{Message, is_channel_name, split, param}
use rfircd.Server.State.{
  UserId, user_id_eq, User, MemberFlags, no_flags, Channel, State, prefix, channel, user, join,
  part, ensure_channel, by_nick, members, is_rf,
}
use rfircd.Server.Commands.{constant_time_eq}

pub data Effect : Type 0 where
  numeric : UserId → ℕ → List Text → Effect
  -- `broadcast_channel`, with the nickname and the prefix.
  joins : Text → Text → Text → Effect
  parts : Text → Text → Text → Text → Effect
  announce_mode : Text → Text → List Text → Effect
  send_topic send_names notice_rf_join : UserId → Text → Effect
  -- The line of a KICK, for a member.
  kick_line : UserId → Text → Text → Text → Text → Effect
  audit_kick : Text → Text → Text → Effect
  -- `mark_kicked`, and the error 442 over the air.
  kicked_on_air : UserId → Text → Effect

abbrev pub is_member : UserId → Option Channel → Bool
is_member uid none = false
is_member uid (some c) = is_some (lookup uid c.members)

abbrev pub name_or : Text → Option Channel → Text
name_or name none = name
name_or name (some c) = c.name

abbrev pub channel_count : Option User → ℕ
channel_count none = 0
channel_count (some u) = length u.channels

abbrev pub flags_or_none : UserId → Option Channel → MemberFlags
flags_or_none uid none = no_flags
flags_or_none uid (some c) = elim (lookup uid c.members) [ none ↦ no_flags | some f ↦ f ]

abbrev pub nick_and_prefix : Option User → Text × Text
nick_and_prefix none = ([], [])
nick_and_prefix (some u) = (u.nick, prefix u)

-- Whether the key, and the limit, of a channel keep a user out.
abbrev pub bad_key : Option Text → Text → Bool
bad_key none given = false
bad_key (some k) given = not (constant_time_eq (utf8 k) (utf8 given))

abbrev pub is_full : Option ℕ → ℕ → Bool
is_full none count = false
is_full (some limit) count = leb limit count

abbrev pub bridges : Option Channel → Bool
bridges none = false
bridges (some c) = c.rf

abbrev pub when : Bool → Effect → List Effect
when b e = if b then e ∷ [] else []

abbrev pub plus_o : Text
plus_o = b'+' ∷ b'o' ∷ []

abbrev pub plus_v : Text
plus_v = b'+' ∷ b'v' ∷ []

-- What is sent after a join.
unfoldable pub welcome : State → UserId → Text → List Effect
unfolding channel user prefix
welcome s uid name =
    let real = name_or name (channel s name) in
    let flags = flags_or_none uid (channel s name) in
    let (nick, pre) = nick_and_prefix (user s uid) in
    joins nick pre real
    ∷ (when flags.op (announce_mode real plus_o (nick ∷ []))
        ++ (when flags.voice (announce_mode real plus_v (nick ∷ []))
            ++ (send_topic uid real
                ∷ send_names uid real
                ∷ when (bridges (channel s real)) (notice_rf_join uid real))))

unfoldable pub enter : State → UserId → Text → State × List Effect
unfolding join welcome
enter s uid name = elim ((join s uid name).1) [
  | none ↦ ((join s uid name).0, [])
  | some flags ↦ ((join s uid name).0, welcome (join s uid name).0 uid name)
]

-- With the channel that there is, or with a new one, which is never bridged.
unfoldable pub enter_open : State → UserId → Text → Text → Option Channel → State × List Effect
unfolding enter ensure_channel constant_time_eq
enter_open s uid name key none = enter (ensure_channel s name false) uid name
enter_open s uid name key (some c) =
    if bad_key c.key key
    then (s, numeric uid 475 (name ∷ []) ∷ [])
    else if is_full c.limit (length c.members)
    then (s, numeric uid 471 (name ∷ []) ∷ [])
    else enter s uid name

unfoldable pub do_join : ℕ → State → UserId → Text → Text → State × List Effect
unfolding is_channel_name channel user enter_open
do_join most s uid name key =
    if not (is_channel_name name)
    then (s, numeric uid 403 (name ∷ []) ∷ [])
    else if is_member uid (channel s name)
    then (
      s,
      send_topic uid (name_or name (channel s name))
          ∷ send_names uid (name_or name (channel s name))
          ∷ [],
    )
    else if leb most (channel_count (user s uid))
    then (s, numeric uid 405 (name ∷ []) ∷ [])
    else enter_open s uid name key (channel s name)

unfoldable pub do_part : State → UserId → Text → Text → State × List Effect
unfolding channel user part prefix
do_part s uid name reason =
    if not (is_some (channel s name))
    then (s, numeric uid 403 (name ∷ []) ∷ [])
    else (let real = name_or name (channel s name) in
        if not (is_member uid (channel s name))
        then (s, numeric uid 442 (real ∷ []) ∷ [])
        else (let (nick, pre) = nick_and_prefix (user s uid) in
            ((part s uid real).0, parts nick pre real reason ∷ [])))

-- `keys.get(i)`, beside each name.
abbrev pub key_at : List Text → Text
key_at [] = []
key_at (k ∷ keys) = k

abbrev pub other_keys : List Text → List Text
other_keys [] = []
other_keys (k ∷ keys) = keys

unfoldable pub join_each : ℕ → State → UserId → List Text → List Text → State × List Effect
unfolding do_join
join_each most s uid [] keys = (s, [])
join_each most s uid (name ∷ names) keys =
    let (next, effects) = do_join most s uid name (key_at keys) in
    let (last, more) = join_each most next uid names (other_keys keys) in (last, effects ++ more)

unfoldable pub part_each : State → UserId → List Text → Text → State × List Effect
unfolding do_part
part_each s uid [] reason = (s, [])
part_each s uid (name ∷ names) reason =
    let (next, effects) = do_part s uid name reason in
    let (last, more) = part_each next uid names reason in (last, effects ++ more)

abbrev leaving : Text
leaving = b'L' ∷ b'e' ∷ b'a' ∷ b'v' ∷ b'i' ∷ b'n' ∷ b'g' ∷ []

abbrev or_text : Text → Option Text → Text
or_text default none = default
or_text default (some t) = t

-- The name of each channel is looked up when its turn comes.
unfoldable pub part_keys : State → UserId → List Text → State × List Effect
unfolding do_part lookup
part_keys s uid [] = (s, [])
part_keys s uid (key ∷ keys) =
    let (next, effects) = do_part s uid (name_or key (lookup key s.channels)) leaving in
    let (last, more) = part_keys next uid keys in (last, effects ++ more)

abbrev keys_of_user : Option User → List Text
keys_of_user none = []
keys_of_user (some u) = map (λ k. k.0) u.channels

abbrev join_word : Text
join_word = b'J' ∷ b'O' ∷ b'I' ∷ b'N' ∷ []

abbrev part_word : Text
part_word = b'P' ∷ b'A' ∷ b'R' ∷ b'T' ∷ []

abbrev is_zero : Text → Bool
is_zero [] = false
is_zero (c ∷ s) = c == b'0' && is_empty s

unfoldable pub cmd_join : ℕ → State → UserId → Message → State × List Effect
unfolding join_each part_keys split user
cmd_join most s uid msg = elim (param msg 0) [
  | none ↦ (s, numeric uid 461 (join_word ∷ []) ∷ [])
  | some list ↦
      if is_zero list
      then part_keys s uid (keys_of_user (user s uid))
      else join_each most s uid (split b',' list) (split b',' (or_text [] (param msg 1)))
]

unfoldable pub cmd_part : State → UserId → Message → State × List Effect
unfolding part_each split
cmd_part s uid msg = elim (param msg 0) [
  | none ↦ (s, numeric uid 461 (part_word ∷ []) ∷ [])
  | some list ↦ part_each s uid (split b',' list) (or_text leaving (param msg 1))
]

-- `is_chanop` of src/server/mod.rs.
abbrev pub is_oper : Option User → Bool
is_oper none = false
is_oper (some u) = u.oper

unfoldable pub is_chanop : State → UserId → Text → Bool
unfolding user channel
is_chanop s uid name = is_oper (user s uid) || (flags_or_none uid (channel s name)).op

abbrev pub id_of : Option User → Option UserId
id_of none = none
id_of (some u) = some u.id

abbrev kick_word : Text
kick_word = b'K' ∷ b'I' ∷ b'C' ∷ b'K' ∷ []

abbrev kicked_word : Text
kicked_word = b'K' ∷ b'i' ∷ b'c' ∷ b'k' ∷ b'e' ∷ b'd' ∷ []

-- The line for each member on IRC.
unfoldable pub kick_lines : Text → Text → Text → Text → List UserId → List Effect
kick_lines kicker name who reason [] = []
kick_lines kicker name who reason (m ∷ ms) =
    let rest = kick_lines kicker name who reason ms in
    if is_rf m then rest else kick_line m kicker name who reason ∷ rest

unfoldable pub kick_member : State → UserId → Channel → Text → Text → UserId → State × List Effect
unfolding members part kick_lines user prefix
kick_member s uid c who reason target = (
  (part s target c.name).0,
  kick_lines (nick_and_prefix (user s uid)).1 c.name who reason (members s c.name)
      ++ (audit_kick c.name who reason ∷ when (is_rf target) (kicked_on_air target c.name)),
)

unfoldable pub kick_from : State → UserId → Channel → Text → Text → State × List Effect
unfolding is_chanop by_nick kick_member lookup
kick_from s uid c who reason =
    if not (is_chanop s uid c.name)
    then (s, numeric uid 482 (c.name ∷ []) ∷ [])
    else elim (id_of (by_nick s who)) [
      | none ↦ (s, numeric uid 401 (who ∷ []) ∷ [])
      | some target ↦
          if not (is_some (lookup target c.members))
          then (s, numeric uid 441 (who ∷ c.name ∷ []) ∷ [])
          else kick_member s uid c who reason target
    ]

unfoldable pub cmd_kick : State → UserId → Message → State × List Effect
unfolding channel kick_from
cmd_kick s uid msg = elim (param msg 0) [
  | none ↦ (s, numeric uid 461 (kick_word ∷ []) ∷ [])
  | some name ↦ elim (param msg 1) [
    | none ↦ (s, numeric uid 461 (kick_word ∷ []) ∷ [])
    | some who ↦ elim (channel s name) [
      | none ↦ (s, numeric uid 403 (name ∷ []) ∷ [])
      | some c ↦ kick_from s uid c who (or_text kicked_word (param msg 2))
    ]
  ]
]
