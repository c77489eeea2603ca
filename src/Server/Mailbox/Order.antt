-- ===== src/Server/Mailbox/Order.antt =====
-- First in, first out for each station in src/server/mailbox.rs.
use rfircd.Prelude.{
  ℕ, ◌+◌, ◌≡◌, refl, ap, ◌∙◌, inl, inr, Bool, true, false, not, ◌||◌, List, [], ◌∷◌, ◌++◌, Option,
  none, some, arith, Result, ok, err, leb, ◌==◌, if◌then◌else◌, length, Option-cases, Bool-cases,
}
use rfircd.Prelude.Assoc.{
  lookup, insert, remove, Distinct, lookup-insert, lookup-insert_self, lookup-remove,
}
use rfircd.Callsign.{Callsign, callsign_eq, callsign_beq}
use rfircd.Server.Mailbox.{StoredMessage, StoreError, Mailbox, queue_of, store, peek, drop_front}

-- What waits for a station, the oldest first.
abbrev pub waiting : Mailbox → Callsign → List StoredMessage
waiting b call = queue_of (lookup call b.boxes)

-- What waits after an attempt to store: the message is at the end if it was accepted, under the depth
-- that is reported.
abbrev pub Accepted :
    List StoredMessage → StoredMessage → List StoredMessage → Result StoreError ℕ → Type 0
Accepted before message after (ok n) = (after ≡ before ++ (message ∷ [])) × (n ≡ length after)
Accepted before message after (err e) = after ≡ before

-- A message is stored behind those that wait for the station, under the depth that is reported, or it
-- is refused and what waits is as it was.
pub store-Accepted :
    (b : Mailbox) (to : Callsign) (message : StoredMessage)
    → let (b', r) = store b to message in Accepted (waiting b to) message (waiting b' to) r
unfolding store
store-Accepted b to message = ground (
  arith,
  lookup-insert_self to (waiting b to) b.boxes,
  lookup-insert_self to (waiting b to ++ (message ∷ [])) b.boxes,
)

-- What waits for every other station is as it was.
pub store-waiting_other :
    (b : Mailbox) (to other : Callsign) (message : StoredMessage)
    → callsign_beq to other ≡ false
    → waiting (store b to message).0 other ≡ waiting b other
unfolding store
store-waiting_other b to other message ne = ground (
  arith,
  lookup-insert to other (waiting b to) b.boxes,
  lookup-insert to other (waiting b to ++ (message ∷ [])) b.boxes,
)

-- What was peeked at and dropped, in front of what is left.
abbrev pub Dropped : List StoredMessage → List StoredMessage → Option StoredMessage → Type 0
Dropped before after none = (before ≡ []) × (after ≡ [])
Dropped before after (some m) = before ≡ m ∷ after

-- Where each station has one box, `drop_front` takes the message that `peek` shows, which is the
-- oldest, and leaves the others in their order; it takes nothing only if nothing waits.
pub drop_front-Dropped :
    (b : Mailbox) (call : Callsign)
    → Distinct b.boxes
    → let (b', taken) = drop_front b call in
      (taken ≡ peek b call) × Dropped (waiting b call) (waiting b' call) taken
unfolding drop_front peek
drop_front-Dropped b call d = elim (Option-cases (lookup call b.boxes)) [
  | inl nothing ↦ rw (drop_front, peek, nothing, nothing) (refl, (refl, refl))
  | inr (q, there) ↦ by_queue q there
]
  where
    gone : lookup call (remove call b.boxes) ≡ none
    gone = lookup-remove call call b.boxes d ∙ ground (arith, rfircd.Prelude.Assoc.beq_refl call)

    by_queue :
        (q : List StoredMessage)
        → lookup call b.boxes ≡ some q
        → let (b', taken) = drop_front b call in
          (taken ≡ peek b call) × Dropped (waiting b call) (waiting b' call) taken
    by_queue [] there = rw (drop_front, peek, there, gone) (refl, (refl, refl))
    by_queue (m ∷ []) there = rw (drop_front, peek, there, gone) (refl, refl)
    by_queue (m ∷ (n ∷ q)) there =
        rw (drop_front, peek, there, lookup-insert_self call (n ∷ q) b.boxes) (refl, refl)
