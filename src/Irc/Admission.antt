-- ===== src/Irc/Admission.antt =====
-- Connection admission before IRC, src/irc/admission.rs. Each of `try_acquire`, `release`, `ban` and
-- `unban` is one step on the shared state; a host is given by its key, so that the parsing of an IP
-- address by the standard library does not matter. A slot is released when it is dropped.
pub mod Counts
pub mod Steps
pub mod Slots
use rfircd.Prelude.{
  ℕ, zero, suc, ◌+◌, ◌-◌, Bool, true, false, not, ◌&&◌, ◌||◌, List, [], ◌∷◌, Option, none, some,
  Text, Result, ok, err, ltb, leb, ◌==◌, if◌then◌else◌, is_empty,
}
use rfircd.Prelude.Assoc.{lookup, insert, remove}
use rfircd.Prelude.Chars.{text_beq, text_eq}

pub data Deny : Type 0 where
  banned full per_host_limit : Deny

pub record Admission : Type 0 where
  pub max_clients : ℕ
  pub max_conns_per_host : ℕ
  pub total : ℕ
  pub per_host : List (Text × ℕ)
  pub bans : List Text

pub record Slot : Type 0 where
  pub host_key : Text
  pub counted_total : Bool
  pub counted_host : Bool

-- `Admission::new`.
unfoldable pub new : ℕ → ℕ → Admission
new max_clients max_conns_per_host = record {
  max_clients = max_clients;
  max_conns_per_host = max_conns_per_host;
  total = 0;
  per_host = [];
  bans = [];
}

unfoldable pub is_banned : Text → List Text → Bool
is_banned key [] = false
is_banned key (b ∷ bs) = text_beq b key || is_banned key bs

unfoldable pub without : Text → List Text → List Text
without key [] = []
without key (b ∷ bs) = let rest = without key bs in if text_beq b key then rest else b ∷ rest

unfoldable pub ban : Admission → Text → Admission
unfolding is_banned
ban a key = if is_empty key || is_banned key a.bans then a else record a { bans = key ∷ a.bans }

unfoldable pub unban : Admission → Text → Admission
unfolding without
unban a key = record a { bans = without key a.bans }

-- The connections of a host.
abbrev pub conns : Option ℕ → ℕ
conns none = 0
conns (some n) = n

-- The part of `try_acquire` that counts the host, after the total was counted if it is.
unfoldable pub acquire_host : Admission → Text → Bool → Admission × Result Deny Slot
acquire_host a key counted =
    let n = conns (lookup key a.per_host) in
    if a.max_conns_per_host == 0
    then (a, ok (record { host_key = key; counted_total = counted; counted_host = false }))
    else if leb a.max_conns_per_host n
    then (
      record a {
        per_host = insert key n a.per_host;
        total = if counted then a.total - 1 else a.total;
      },
      err per_host_limit,
    )
    else (
      record a { per_host = insert key (n + 1) a.per_host },
      ok (record { host_key = key; counted_total = counted; counted_host = true }),
    )

unfoldable pub try_acquire : Admission → Text → Admission × Result Deny Slot
unfolding acquire_host is_banned
try_acquire a key =
    if is_banned key a.bans
    then (a, err banned)
    else if a.max_clients == 0
    then acquire_host a key false
    else if ltb a.max_clients (a.total + 1)
    then (a, err full)
    else acquire_host (record a { total = a.total + 1 }) key true

-- The counts of the host without one connection.
unfoldable pub release_host : Text → List (Text × ℕ) → List (Text × ℕ)
release_host key m = elim (lookup key m) [
  | none ↦ m
  | some n ↦ if n - 1 == 0 then remove key m else insert key (n - 1) m
]

unfoldable pub release : Admission → Slot → Admission
unfolding release_host
release a slot = record a {
  total = if slot.counted_total then a.total - 1 else a.total;
  per_host = if slot.counted_host then release_host slot.host_key a.per_host else a.per_host;
}
