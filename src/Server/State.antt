-- ===== src/Server/State.antt =====
-- The state of the server, src/server/state.rs: the users, the registry of nicknames and the channels
-- with their members. A `HashMap` is an association list, a `HashSet` one of keys alone. An `Instant`
-- is a number. The one task that owns the state makes each operation one step.
pub mod Views
pub mod Names
pub mod Consistent
pub mod Reach
pub mod Moves
pub mod Flags
use rfircd.Prelude.{
  ℕ, zero, suc, ◌+◌, ◌≡◌, ◌↔◌, refl, Bool, true, false, not, ◌&&◌, ◌||◌, List, [], ◌∷◌, ◌++◌, map,
  Option, none, some, Text, arith, ◌==◌, ==_iff, if◌then◌else◌, keep, any, length, is_empty,
}
use rfircd.Prelude.Assoc.{Eq, lookup, insert, remove, modify, is_some}
use rfircd.Prelude.Chars.{text_eq, text_beq}
use rfircd.Callsign.{Callsign, callsign_eq, callsign_beq, callsign_beq_iff}
use rfircd.Irc.Casemap.{lower}

pub data UserId : Type 0 where
  ip : ℕ → UserId
  rf : Callsign → UserId

unfoldable pub user_id_beq : UserId → UserId → Bool
unfolding callsign_beq
user_id_beq (ip a) (ip b) = a == b
user_id_beq (rf a) (rf b) = callsign_beq a b
user_id_beq (ip a) (rf b) = false
user_id_beq (rf a) (ip b) = false

pub user_id_beq_iff : (a b : UserId) → (user_id_beq a b ≡ true) ↔ (a ≡ b)
unfolding user_id_beq
user_id_beq_iff (ip a) (ip b) = ground arith
user_id_beq_iff (rf a) (rf b) = ground (arith, callsign_beq_iff a b)
user_id_beq_iff (ip a) (rf b) = ground arith
user_id_beq_iff (rf a) (ip b) = ground arith

instance abbrev pub user_id_eq : Eq UserId
user_id_eq = record { beq = user_id_beq; beq_iff = user_id_beq_iff }

abbrev pub is_rf : UserId → Bool
is_rf (rf call) = true
is_rf (ip n) = false

-- `HashSet<String>`.
abbrev pub TextSet : Type 0
TextSet = List (Text × Unit {0})

pub record User : Type 0 where
  pub id : UserId
  pub nick : Text
  pub username : Text
  pub realname : Text
  pub host : Text
  pub callsign : Option Callsign
  pub registered : Bool
  pub nick_identified : Bool
  pub identify_by : Option ℕ
  pub oper : Bool
  pub away : Option Text
  pub channels : TextSet
  pub connected_at : ℕ
  pub last_active : ℕ
  pub got_nick : Bool
  pub got_user : Bool
  pub pass_ok : Bool
  pub rf_tx : Bool
  pub listen_only : Bool

-- The nickname of a user that has none.
abbrev pub no_nick : Text
no_nick = b'*' ∷ []

unfoldable pub new_user : UserId → Text → ℕ → User
new_user id host now = record {
  id = id;
  nick = no_nick;
  username = no_nick;
  realname = [];
  host = host;
  callsign = none;
  registered = false;
  nick_identified = false;
  identify_by = none;
  oper = false;
  away = none;
  channels = [];
  connected_at = now;
  last_active = now;
  got_nick = false;
  got_user = false;
  pass_ok = false;
  rf_tx = false;
  listen_only = false;
}

unfoldable pub prefix : User → Text
prefix u = u.nick ++ (b'!' ∷ u.username ++ (b'@' ∷ u.host))

pub record MemberFlags : Type 0 where
  pub op : Bool
  pub voice : Bool
  pub op_manual : Bool
  pub voice_manual : Bool

abbrev pub no_flags : MemberFlags
no_flags = record { op = false; voice = false; op_manual = false; voice_manual = false }

unfoldable pub sigil : MemberFlags → Text
sigil f = if f.op then b'@' ∷ [] else if f.voice then b'+' ∷ [] else []

pub record Channel : Type 0 where
  pub name : Text
  pub configured : Bool
  pub topic : Option Text
  pub topic_setter : Text
  pub topic_time : ℕ
  pub members : List (UserId × MemberFlags)
  pub rf : Bool
  pub moderated : Bool
  pub topic_locked : Bool
  pub key : Option Text
  pub limit : Option ℕ
  pub operators : TextSet

unfoldable pub new_channel : Text → Bool → Channel
new_channel name bridged = record {
  name = name;
  configured = false;
  topic = none;
  topic_setter = [];
  topic_time = 0;
  members = [];
  rf = bridged;
  moderated = bridged;
  topic_locked = true;
  key = none;
  limit = none;
  operators = [];
}

-- One letter of a mode string.
abbrev pub letter : Bool → ℕ → Text
letter b c = if b then c ∷ [] else []

unfoldable pub mode_string : Channel → Text
mode_string c =
    b'+' ∷ b'n' ∷ letter c.rf b'r'
    ++ (letter c.moderated b'm'
        ++ (letter c.topic_locked b't'
            ++ (letter (is_some c.key) b'k' ++ letter (is_some c.limit) b'l')))

unfoldable pub rf_member_count : Channel → ℕ
rf_member_count c = length (keep (λ m. is_rf m.0) c.members)

unfoldable pub has_rf_members : Channel → Bool
has_rf_members c = any (λ m. is_rf m.0) c.members

pub record State : Type 0 where
  pub users : List (UserId × User)
  pub nicks : List (Text × UserId)
  pub channels : List (Text × Channel)

abbrev pub empty : State
empty = record { users = []; nicks = []; channels = [] }

unfoldable pub user : State → UserId → Option User
unfolding lookup
user s id = lookup id s.users

unfoldable pub insert_user : State → User → State
unfolding insert
insert_user s u = record s { users = insert u.id u s.users }

unfoldable pub by_nick : State → Text → Option User
unfolding lookup
by_nick s nick = elim (lookup (lower nick) s.nicks) [ none ↦ none | some id ↦ lookup id s.users ]

unfoldable pub nick_taken : State → Text → Bool
unfolding lookup
nick_taken s nick = is_some (lookup (lower nick) s.nicks)

-- Whether the owner of a nickname, if there is one, is another user.
abbrev pub is_other : UserId → Option UserId → Bool
is_other id none = false
is_other id (some owner) = not (user_id_beq owner id)

unfoldable pub set_nick : State → UserId → Text → State × Bool
unfolding lookup insert remove modify
set_nick s id nick = elim (lookup id s.users) [
  | none ↦ (s, false)
  | some u ↦ if is_other id (lookup (lower nick) s.nicks) then (s, false) else (
    record s {
      nicks = insert (lower nick) id (remove (lower u.nick) s.nicks);
      users = modify id (λ (v : User). record v { nick = nick }) s.users;
    },
    true,
  )
]

unfoldable pub channel : State → Text → Option Channel
unfolding lookup
channel s name = lookup (lower name) s.channels

unfoldable pub ensure_channel : State → Text → Bool → State
unfolding lookup insert new_channel
ensure_channel s name bridged = elim (lookup (lower name) s.channels) [
  | some c ↦ s
  | none ↦ record s { channels = insert (lower name) (new_channel name bridged) s.channels }
]

unfoldable pub flags_of : Option User → UserId → Bool → Bool → TextSet → MemberFlags
unfolding lookup
flags_of none id bridged first operators = no_flags
flags_of (some u) id bridged first operators =
    let configured_op = is_some (lookup (lower u.nick) operators) && u.nick_identified in
    if bridged
    then record {
      op = u.oper || configured_op;
      voice = is_some u.callsign || u.oper;
      op_manual = false;
      voice_manual = false;
    }
    else record {
      op = (first && not (is_rf id)) || u.oper || configured_op;
      voice = false;
      op_manual = false;
      voice_manual = false;
    }

unfoldable pub flags_for_parts : State → UserId → Bool → Bool → TextSet → MemberFlags
unfolding flags_of lookup
flags_for_parts s id bridged first operators =
    flags_of (lookup id s.users) id bridged first operators

-- A member more, or less, in a channel, and a channel more, or less, at a user.
abbrev pub add_member : UserId → MemberFlags → Channel → Channel
add_member id flags c = record c { members = insert id flags c.members }

abbrev pub drop_member : UserId → Channel → Channel
drop_member id c = record c { members = remove id c.members }

abbrev pub add_channel : Text → User → User
add_channel key u = record u { channels = insert key tt u.channels }

abbrev pub drop_channel : Text → User → User
drop_channel key u = record u { channels = remove key u.channels }

unfoldable pub join : State → UserId → Text → State × Option MemberFlags
unfolding lookup insert remove modify flags_for_parts
join s id name = elim (lookup id s.users) [
  | none ↦ (s, none)
  | some u ↦ elim (lookup (lower name) s.channels) [
    | none ↦ (s, none)
    | some c ↦
        if is_some (lookup id c.members)
        then (s, none)
        else let flags = flags_for_parts s id c.rf (is_empty c.members) c.operators in
          (
            record s {
              channels = modify (lower name) (add_member id flags) s.channels;
              users = modify id (add_channel (lower name)) s.users;
            },
            some flags,
          )
  ]
]

-- The flags that are derived anew, with those that were given by hand.
abbrev pub merge_flags : MemberFlags → MemberFlags → MemberFlags
merge_flags derived old = record old {
  op = derived.op || old.op_manual;
  voice = derived.voice || old.voice_manual;
}

abbrev pub same_bool : Bool → Bool → Bool
same_bool a b = if a then b else not b

abbrev pub same_flags : MemberFlags → MemberFlags → Bool
same_flags a b =
    same_bool a.op b.op
    && same_bool a.voice b.voice
    && same_bool a.op_manual b.op_manual
    && same_bool a.voice_manual b.voice_manual

abbrev pub set_flags : UserId → MemberFlags → Channel → Channel
set_flags id flags c = record c { members = modify id (λ f. flags) c.members }

unfoldable pub apply_intended_flags :
    State → UserId → Text → State × Option (MemberFlags × MemberFlags)
unfolding lookup modify flags_for_parts
apply_intended_flags s id name = elim (lookup (lower name) s.channels) [
  | none ↦ (s, none)
  | some c ↦ elim (lookup id c.members) [
    | none ↦ (s, none)
    | some old ↦
        let new = merge_flags (flags_for_parts s id c.rf false c.operators) old in
        if same_flags old new then (s, none) else (
          record s { channels = modify (lower name) (set_flags id new) s.channels },
          some (old, new),
        )
  ]
]

unfoldable pub ip_users : State → ℕ
ip_users s = length (keep (λ u. not (is_rf u.1.id)) s.users)

-- Whether `reap_channel` removes a channel.
abbrev pub is_dead : Option Channel → Bool
is_dead none = false
is_dead (some c) = not c.configured && is_empty c.members

unfoldable pub reap_channel : State → Text → State
unfolding lookup remove
reap_channel s key =
    if is_dead (lookup key s.channels) then record s { channels = remove key s.channels } else s

unfoldable pub part : State → UserId → Text → State × Bool
unfolding lookup modify remove reap_channel
part s id name = elim (lookup (lower name) s.channels) [
  | none ↦ (s, false)
  | some c ↦ (
    reap_channel
        (record s {
          channels = modify (lower name) (drop_member id) s.channels;
          users = modify id (drop_channel (lower name)) s.users;
        })
        (lower name),
    is_some (lookup id c.members),
  )
]

-- The loop of `remove_user` over the channels of the user.
unfoldable pub leave_all : State → UserId → List (Text × Unit {0}) → State × List Text
unfolding lookup modify remove reap_channel
leave_all s id [] = (s, [])
leave_all s id ((key, _) ∷ keys) =
    let next = reap_channel (record s { channels = modify key (drop_member id) s.channels }) key in
    let (last, names) = leave_all next id keys in
    (last, elim (lookup key s.channels) [ none ↦ names | some c ↦ c.name ∷ names ])

unfoldable pub remove_user : State → UserId → State × List Text
unfolding lookup remove leave_all
remove_user s id = elim (lookup id s.users) [
  | none ↦ (s, [])
  | some u ↦
      leave_all (record s { users = remove id s.users; nicks = remove (lower u.nick) s.nicks }) id
        u.channels
]

unfoldable pub members : State → Text → List UserId
unfolding channel
members s name = elim (channel s name) [ none ↦ [] | some c ↦ map (λ m. m.0) c.members ]
