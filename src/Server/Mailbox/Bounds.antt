-- ===== src/Server/Mailbox/Bounds.antt =====
-- The limits of src/server/mailbox.rs and the counts that it reports.
use rfircd.Prelude.{
  ℕ, ◌+◌, ◌≤◌, ◌≡◌, refl, inl, inr, Bool, true, false, not, ◌||◌, List, [], ◌∷◌, ◌++◌, some, arith,
  leb, leb→gt, ◌==◌, length, length-append, All, all, Option-cases, Bool-cases,
}
use rfircd.Prelude.Assoc.{
  lookup, insert, remove, is_some, Distinct, insert-Distinct, remove-Distinct, All-insert,
  All-remove, All-lookup,
}
use rfircd.Callsign.{Callsign, callsign_eq}
use rfircd.Server.Mailbox.{
  StoredMessage, Mailbox, count, len, queue_of, store, drop_front, is_live, retain, expire_boxes,
  expire,
}

-- No more messages than allowed, in all and for each station, and one box for each.
pub record IsBounded (b : Mailbox) : Type 0 where
  pub in_all : len b ≤ b.total
  pub each : All (λ e. length e.1 ≤ b.per_station) b.boxes
  pub distinct : Distinct b.boxes

abbrev Boxes : Type 0
Boxes = List (Callsign × List StoredMessage)

count-insert :
    (c : Callsign) (q : List StoredMessage) (m : Boxes)
    → count (insert c q m) + length (queue_of (lookup c m)) ≡ count m + length q
unfolding count insert lookup
count-insert c q [] = omega arith
count-insert c q ((d, r) ∷ m) = ground (arith, count-insert c q m)

count-remove :
    (c : Callsign) (m : Boxes) → count (remove c m) + length (queue_of (lookup c m)) ≡ count m
unfolding count remove lookup
count-remove c [] = omega arith
count-remove c ((d, r) ∷ m) = ground (arith, count-remove c m)

-- A write of a box that is within its limit and does not make too many messages.
write-IsBounded :
    (b : Mailbox) (c : Callsign) (q : List StoredMessage)
    → IsBounded b
    → length q ≤ b.per_station
    → count b.boxes + length q ≤ b.total + length (queue_of (lookup c b.boxes))
    → IsBounded (record b { boxes = insert c q b.boxes })
write-IsBounded b c q v h t = record {
  in_all = unfold len in omega (arith, count-insert c q b.boxes);
  each = All-insert (λ r. length r ≤ b.per_station) c q b.boxes v.each h;
  distinct = insert-Distinct c q b.boxes v.distinct;
}

remove-IsBounded :
    (b : Mailbox) (c : Callsign) → IsBounded b → IsBounded (record b { boxes = remove c b.boxes })
remove-IsBounded b c v = record {
  in_all = unfold len in omega (arith, count-remove c b.boxes, v.in_all);
  each = All-remove (λ r. length r ≤ b.per_station) c b.boxes v.each;
  distinct = remove-Distinct c b.boxes v.distinct;
}

queue-IsBounded :
    (b : Mailbox) (c : Callsign)
    → IsBounded b
    → length (queue_of (lookup c b.boxes)) ≤ b.per_station
queue-IsBounded b c v = elim (Option-cases (lookup c b.boxes)) [
  | inl nothing ↦ rw nothing (omega arith)
  | inr (q, there) ↦ rw there (All-lookup (λ r. length r ≤ b.per_station) c b.boxes v.each there)
]

store-IsBounded :
    (b : Mailbox) (to : Callsign) (message : StoredMessage)
    → IsBounded b
    → IsBounded (store b to message).0
unfolding store
store-IsBounded b to message v =
    let q = queue_of (lookup to b.boxes) in
    let longer = q ++ (message ∷ []) in
    let one_more : length longer ≡ length q + 1 = length-append q (message ∷ []) in
    let short = queue-IsBounded b to v in
    let in_all : count b.boxes ≤ b.total = unfold len in v.in_all in
    elim (Bool-cases (not b.enabled || b.per_station == 0)) [
      | inl off ↦ rw (store, off) v
      | inr on ↦ elim (Bool-cases (leb b.total (len b))) [
        | inl full ↦ rw (store, on, full) v
        | inr room ↦ elim (Bool-cases (leb b.per_station (length q))) [
          | inl box_full ↦
              rw (store, on, room, box_full) (write-IsBounded b to q v short (omega arith))
          | inr box_room ↦
              let more : count b.boxes + 1 ≤ b.total =
                unfold len in omega (arith, leb→gt b.total (len b) room) in
              rw (store, on, room, box_room)
                (write-IsBounded b to longer v
                  (omega (arith, one_more, leb→gt b.per_station (length q) box_room))
                  (omega (arith, one_more)))
        ]
      ]
    ]

drop_front-IsBounded :
    (b : Mailbox) (call : Callsign) → IsBounded b → IsBounded (drop_front b call).0
unfolding drop_front
drop_front-IsBounded b call v = elim (Option-cases (lookup call b.boxes)) [
  | inl nothing ↦ rw (drop_front, nothing) v
  | inr (q, there) ↦ by_queue q there
]
  where
    gone : IsBounded (record b { boxes = remove call b.boxes })
    gone = remove-IsBounded b call v

    in_all : count b.boxes ≤ b.total
    in_all = unfold len in v.in_all

    by_queue :
        (q : List StoredMessage) → lookup call b.boxes ≡ some q → IsBounded (drop_front b call).0
    by_queue [] there = rw (drop_front, there) gone
    by_queue (m ∷ []) there = rw (drop_front, there) gone
    by_queue (m ∷ (n ∷ q)) there =
        let short : length (m ∷ (n ∷ q)) ≤ b.per_station =
          All-lookup (λ r. length r ≤ b.per_station) call b.boxes v.each there in
        rw (drop_front, there)
          (write-IsBounded b call (n ∷ q) v (omega (arith, short))
            (rw there (omega (arith, in_all))))

length-retain : (p : StoredMessage → Bool) (q : List StoredMessage) → length (retain p q) ≤ length q
unfolding retain
length-retain p [] = omega arith
length-retain p (m ∷ q) = ground (arith, length-retain p q)

retain-all : (p : StoredMessage → Bool) (q : List StoredMessage) → all p (retain p q) ≡ true
unfolding retain
retain-all p [] = refl
retain-all p (m ∷ q) = ground (arith, retain-all p q)

module _ (ttl now : ℕ) where
  -- Nothing is lost or counted twice: what is left and what is reported as dropped is what there was.
  count-expire_boxes :
      (m : Boxes) → let (rest, dropped) = expire_boxes ttl now m in count rest + dropped ≡ count m
  unfolding expire_boxes count
  count-expire_boxes [] = refl
  count-expire_boxes ((c, q) ∷ m) =
      ground (arith, count-expire_boxes m, length-retain (is_live ttl now) q)

  expire_boxes-live :
      (m : Boxes) → All (λ e. all (is_live ttl now) e.1 ≡ true) (expire_boxes ttl now m).0
  unfolding expire_boxes
  expire_boxes-live [] = tt
  expire_boxes-live ((c, q) ∷ m) =
      ground (arith, expire_boxes-live m, retain-all (is_live ttl now) q)

  expire_boxes-each :
      (n : ℕ) (m : Boxes)
      → All (λ e. length e.1 ≤ n) m
      → All (λ e. length e.1 ≤ n) (expire_boxes ttl now m).0
  unfolding expire_boxes
  expire_boxes-each n [] a = tt
  expire_boxes-each n ((c, q) ∷ m) a =
      ground (arith, expire_boxes-each n m a.1, length-retain (is_live ttl now) q, a.0)

  lookup-expire_boxes :
      (c : Callsign) (m : Boxes)
      → is_some (lookup c m) ≡ false
      → is_some (lookup c (expire_boxes ttl now m).0) ≡ false
  unfolding expire_boxes lookup
  lookup-expire_boxes c [] h = refl
  lookup-expire_boxes c ((d, q) ∷ m) h = ground (arith, lookup-expire_boxes c m)

  expire_boxes-Distinct : (m : Boxes) → Distinct m → Distinct (expire_boxes ttl now m).0
  unfolding expire_boxes
  expire_boxes-Distinct [] d = tt
  expire_boxes-Distinct ((c, q) ∷ m) d =
      ground (arith, expire_boxes-Distinct m d.1, lookup-expire_boxes c m d.0)

-- Expiry leaves only messages younger than the limit on age, and reports as dropped exactly those
-- that are gone: no message is lost uncounted.
pub expire_counts :
    (b : Mailbox) (now : ℕ)
    → let (b', dropped) = expire b now in
      (len b' + dropped ≡ len b) × All (λ e. all (is_live b.ttl now) e.1 ≡ true) b'.boxes
unfolding expire len
expire_counts b now = (count-expire_boxes b.ttl now b.boxes, expire_boxes-live b.ttl now b.boxes)

expire-IsBounded : (b : Mailbox) (now : ℕ) → IsBounded b → IsBounded (expire b now).0
unfolding expire
expire-IsBounded b now v = record {
  in_all = unfold len in omega (arith, count-expire_boxes b.ttl now b.boxes, v.in_all);
  each = expire_boxes-each b.ttl now b.per_station b.boxes v.each;
  distinct = expire_boxes-Distinct b.ttl now b.boxes v.distinct;
}

-- No operation makes the mailbox hold more messages than allowed, in all or for one station.
pub mailbox-IsBounded :
    (b : Mailbox) (to : Callsign) (message : StoredMessage) (now : ℕ)
    → IsBounded b
    → IsBounded (store b to message).0
      × (IsBounded (drop_front b to).0 × IsBounded (expire b now).0)
mailbox-IsBounded b to message now v =
    (store-IsBounded b to message v, (drop_front-IsBounded b to v, expire-IsBounded b now v))
