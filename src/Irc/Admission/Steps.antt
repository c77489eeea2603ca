-- ===== src/Irc/Admission/Steps.antt =====
-- Taking and releasing a slot in src/irc/admission.rs keeps the counts right.
use rfircd.Prelude.{
  ℕ, suc, ◌+◌, ◌≡◌, inl, inr, Bool, true, false, not, List, ◌∷◌, ◌++◌, Text, arith, ltb, leb, ◌==◌,
  length, is_empty, ◌||◌, Bool-cases,
}
use rfircd.Prelude.Assoc.{lookup, insert-Distinct, lookup-insert}
use rfircd.Prelude.Chars.{text_beq_iff, text_eq}
use rfircd.Irc.Admission.{
  Admission, Slot, conns, is_banned, ban, unban, acquire_host, try_acquire, release,
}
use rfircd.Irc.Admission.Counts.{
  with_slot, held_for, held_for-append, length-without, All-without, conns-release_host,
  release_host-Distinct, IsMarked, IsCounted,
}

module _ (max_clients max_conns : ℕ) where
  abbrev Counted : Admission → List Slot → Type 0
  Counted a held = IsCounted max_clients max_conns (length held) a held

  acquire_host-IsCounted :
      (a : Admission) (held : List Slot) (key : Text) (mark : Bool)
      → IsCounted max_clients max_conns (suc (length held)) a held
      → mark ≡ not (max_clients == 0)
      → Counted (acquire_host a key mark).0 (with_slot (acquire_host a key mark).1 held)
  unfolding acquire_host held_for
  acquire_host-IsCounted a held key mark v marks =
      let n = conns (lookup key a.per_host) in
      elim (Bool-cases (a.max_conns_per_host == 0)) [
        | inl off ↦
            rw (acquire_host, off)
              (record {
                clients_set = v.clients_set;
                conns_set = v.conns_set;
                distinct = v.distinct;
                marked = ((marks, ground (arith, off, v.conns_set)), v.marked);
                total = v.total;
                clients = v.clients;
                hosts = λ other. ground (arith, off, v.conns_set, v.hosts other);
                each = v.each;
              })
        | inr on ↦ elim (Bool-cases (leb a.max_conns_per_host n)) [
          | inl many ↦
              rw (acquire_host, on, many)
                (record {
                  clients_set = v.clients_set;
                  conns_set = v.conns_set;
                  distinct = insert-Distinct key n a.per_host v.distinct;
                  marked = v.marked;
                  total = ground (arith, v.total, marks);
                  clients = ground (arith, v.clients);
                  hosts = λ other. ground (
                    arith,
                    v.hosts other,
                    lookup-insert key other n a.per_host,
                    text_beq_iff key other,
                  );
                  each = λ other. ground (
                    arith,
                    v.each other,
                    lookup-insert key other n a.per_host,
                    text_beq_iff key other,
                  );
                })
          | inr room ↦
              rw (acquire_host, on, room)
                (record {
                  clients_set = v.clients_set;
                  conns_set = v.conns_set;
                  distinct = insert-Distinct key (n + 1) a.per_host v.distinct;
                  marked = ((marks, ground (arith, on, v.conns_set)), v.marked);
                  total = v.total;
                  clients = v.clients;
                  hosts = λ other. ground (
                    arith,
                    on,
                    v.conns_set,
                    v.hosts other,
                    lookup-insert key other (n + 1) a.per_host,
                    text_beq_iff key other,
                  );
                  each = λ other. ground (
                    arith,
                    room,
                    v.conns_set,
                    v.each other,
                    lookup-insert key other (n + 1) a.per_host,
                  );
                })
        ]
      ]

  pub try_acquire-IsCounted :
      (a : Admission) (held : List Slot) (key : Text)
      → Counted a held
      → Counted (try_acquire a key).0 (with_slot (try_acquire a key).1 held)
  unfolding try_acquire
  try_acquire-IsCounted a held key v = elim (Bool-cases (is_banned key a.bans)) [
    | inl refused ↦ rw (try_acquire, refused) v
    | inr free ↦ elim (Bool-cases (a.max_clients == 0)) [
      | inl off ↦
          rw (try_acquire, free, off)
            (acquire_host-IsCounted a held key false
              (record {
                clients_set = v.clients_set;
                conns_set = v.conns_set;
                distinct = v.distinct;
                marked = v.marked;
                total = ground (arith, off, v.clients_set, v.total);
                clients = v.clients;
                hosts = v.hosts;
                each = v.each;
              })
              (ground (arith, off, v.clients_set)))
      | inr on ↦ elim (Bool-cases (ltb a.max_clients (a.total + 1))) [
        | inl full ↦ rw (try_acquire, free, on, full) v
        | inr room ↦
            rw (try_acquire, free, on, room)
              (acquire_host-IsCounted (record a { total = a.total + 1 }) held key true
                (record {
                  clients_set = v.clients_set;
                  conns_set = v.conns_set;
                  distinct = v.distinct;
                  marked = v.marked;
                  total = ground (arith, on, v.clients_set, v.total);
                  clients = ground (arith, room, v.clients_set);
                  hosts = v.hosts;
                  each = v.each;
                })
                (ground (arith, on, v.clients_set)))
      ]
    ]
  ]

  pub release-IsCounted :
      (a : Admission) (before : List Slot) (slot : Slot) (after : List Slot)
      → Counted a (before ++ (slot ∷ after))
      → Counted (release a slot) (before ++ after)
  unfolding release
  release-IsCounted a before slot after v =
      let ((total_marked, host_marked), others) =
        All-without (IsMarked max_clients max_conns) before slot after v.marked in
      let fewer = length-without before slot after in
      let freed = λ (key : Text). conns-release_host slot.host_key key a.per_host v.distinct in
      elim (Bool-cases (max_conns == 0)) [
        | inl off ↦
            let kept : slot.counted_host ≡ false = ground (arith, off, host_marked) in
            record {
              clients_set = v.clients_set;
              conns_set = v.conns_set;
              distinct = rw (kept) v.distinct;
              marked = others;
              total = ground (arith, total_marked, v.total, fewer);
              clients = ground (arith, v.clients);
              hosts = λ key. rw (kept) (ground (arith, off, v.hosts key));
              each = λ key. rw (kept) (v.each key);
            }
        | inr on ↦
            let counts : slot.counted_host ≡ true = ground (arith, on, host_marked) in
            record {
              clients_set = v.clients_set;
              conns_set = v.conns_set;
              distinct = rw (counts) (release_host-Distinct slot.host_key a.per_host v.distinct);
              marked = others;
              total = ground (arith, total_marked, v.total, fewer);
              clients = ground (arith, v.clients);
              hosts = λ key. rw (counts) (
                  ground
                    (arith, on, freed key, v.hosts key, held_for-append key before slot after));
              each = λ key. rw (counts) (omega (arith, freed key, v.each key));
            }
      ]

  pub ban-IsCounted :
      (a : Admission) (held : List Slot) (key : Text) → Counted a held → Counted (ban a key) held
  unfolding ban
  ban-IsCounted a held key v = elim (Bool-cases (is_empty key || is_banned key a.bans)) [
    | inl known ↦ rw (ban, known) v
    | inr fresh ↦
        rw (ban, fresh)
          (record {
            clients_set = v.clients_set;
            conns_set = v.conns_set;
            distinct = v.distinct;
            marked = v.marked;
            total = v.total;
            clients = v.clients;
            hosts = v.hosts;
            each = v.each;
          })
  ]

  pub unban-IsCounted :
      (a : Admission) (held : List Slot) (key : Text) → Counted a held → Counted (unban a key) held
  unfolding unban
  unban-IsCounted a held key v = record {
    clients_set = v.clients_set;
    conns_set = v.conns_set;
    distinct = v.distinct;
    marked = v.marked;
    total = v.total;
    clients = v.clients;
    hosts = v.hosts;
    each = v.each;
  }
