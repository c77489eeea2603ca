-- ===== src/Server/Mailbox.antt =====
-- Messages held for stations that are out of range, src/server/mailbox.rs. `&mut self` is the mailbox
-- passed in and out; the map of boxes is an association list, and a `VecDeque` a list.
pub mod Bounds
pub mod Order
use rfircd.Prelude.{
  ℕ, zero, suc, ◌+◌, ◌-◌, Bool, true, false, not, ◌||◌, List, [], ◌∷◌, ◌++◌, Option, none, some,
  Text, Result, ok, err, ltb, leb, ◌==◌, if◌then◌else◌, length, is_empty, keep,
}
use rfircd.Prelude.Assoc.{lookup, insert, remove}
use rfircd.Callsign.{Callsign, callsign_eq}

pub record StoredMessage : Type 0 where
  pub sender : Text
  pub text : Text
  pub notice : Bool
  pub truncated : Bool
  pub stored_at : ℕ

-- `saturating_duration_since` stops at 0.
unfoldable pub age : StoredMessage → ℕ → ℕ
age m now = now - m.stored_at

pub data StoreError : Type 0 where
  disabled station_full gateway_full : StoreError

pub record Mailbox : Type 0 where
  pub enabled : Bool
  pub per_station : ℕ
  pub total : ℕ
  pub ttl : ℕ
  pub boxes : List (Callsign × List StoredMessage)

-- `Mailbox::new`.
unfoldable pub new : Bool → ℕ → ℕ → ℕ → Mailbox
new enabled per_station total ttl = record {
  enabled = enabled;
  per_station = per_station;
  total = total;
  ttl = ttl;
  boxes = [];
}

-- `len`, on the boxes.
unfoldable pub count : List (Callsign × List StoredMessage) → ℕ
count [] = 0
count ((_, q) ∷ m) = length q + count m

unfoldable pub len : Mailbox → ℕ
unfolding count
len b = count b.boxes

-- The queue of an entry, empty where there is none.
abbrev pub queue_of : Option (List StoredMessage) → List StoredMessage
queue_of none = []
queue_of (some q) = q

unfoldable pub depth : Mailbox → Callsign → ℕ
depth b call = length (queue_of (lookup call b.boxes))

-- `store`: the mailbox after it, and the depth of the box or the reason of the refusal. A refusal
-- for a full box still leaves the entry that `entry(..).or_default()` made.
unfoldable pub store : Mailbox → Callsign → StoredMessage → Mailbox × Result StoreError ℕ
unfolding len
store b to message =
    let queue = queue_of (lookup to b.boxes) in
    if not b.enabled || b.per_station == 0
    then (b, err disabled)
    else if leb b.total (len b)
    then (b, err gateway_full)
    else if leb b.per_station (length queue)
    then (record b { boxes = insert to queue b.boxes }, err station_full)
    else (
      record b { boxes = insert to (queue ++ (message ∷ [])) b.boxes },
      ok (length (queue ++ (message ∷ []))),
    )

abbrev pub front : List StoredMessage → Option StoredMessage
front [] = none
front (m ∷ q) = some m

unfoldable pub peek : Mailbox → Callsign → Option StoredMessage
peek b call = front (queue_of (lookup call b.boxes))

unfoldable pub drop_front : Mailbox → Callsign → Mailbox × Option StoredMessage
drop_front b call = elim (lookup call b.boxes) [
  | none ↦ (b, none)
  | some [] ↦ (record b { boxes = remove call b.boxes }, none)
  | some (m ∷ []) ↦ (record b { boxes = remove call b.boxes }, some m)
  | some (m ∷ (n ∷ q)) ↦ (record b { boxes = insert call (n ∷ q) b.boxes }, some m)
]

-- `age(now) < ttl`, which `retain` keeps.
abbrev pub is_live : ℕ → ℕ → StoredMessage → Bool
is_live ttl now m = ltb (age m now) ttl

unfoldable pub retain : (StoredMessage → Bool) → List StoredMessage → List StoredMessage
retain p [] = []
retain p (m ∷ q) = let rest = retain p q in if p m then m ∷ rest else rest

-- The boxes with what is live, without those that are empty then, and how many messages went.
unfoldable pub expire_boxes :
    ℕ → ℕ → List (Callsign × List StoredMessage) → List (Callsign × List StoredMessage) × ℕ
unfolding retain
expire_boxes ttl now [] = ([], 0)
expire_boxes ttl now ((c, q) ∷ m) =
    let (rest, dropped) = expire_boxes ttl now m in
    let live = retain (is_live ttl now) q in
    (if is_empty live then rest else (c, live) ∷ rest, length q - length live + dropped)

unfoldable pub expire : Mailbox → ℕ → Mailbox × ℕ
unfolding expire_boxes
expire b now =
    let (boxes, dropped) = expire_boxes b.ttl now b.boxes in (record b { boxes = boxes }, dropped)

-- The rows of `summary` before they are sorted.
unfoldable pub rows : List (Callsign × List StoredMessage) → List (Callsign × ℕ)
rows [] = []
rows ((c, q) ∷ m) = let rest = rows m in if is_empty q then rest else (c, length q) ∷ rest
