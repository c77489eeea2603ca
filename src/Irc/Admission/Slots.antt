-- ===== src/Irc/Admission/Slots.antt =====
-- The slots of src/irc/admission.rs that are held at one time, over any sequence of connections.
use rfircd.Prelude.{
  ℕ, ◌≤◌, ◌≡◌, ◌⊎◌, inl, inr, refl, List, [], ◌∷◌, ◌++◌, Text, arith, ◌==◌, length, Bool-cases,
}
use rfircd.Prelude.Assoc.{lookup}
use rfircd.Prelude.Chars.{text_eq}
use rfircd.Irc.Admission.{Admission, Slot, new, ban, unban, try_acquire, release}
use rfircd.Irc.Admission.Counts.{with_slot, held_for, IsCounted}
use rfircd.Irc.Admission.Steps.{
  try_acquire-IsCounted, release-IsCounted, ban-IsCounted, unban-IsCounted,
}

-- The admission and the slots that are held: connections that ask for a slot, slots that are dropped
-- in any order, and bans.
pub data Reachable (max_clients max_conns : ℕ) : Admission → List Slot → Type 0 where
  starts : Reachable max_clients max_conns (new max_clients max_conns) []
  acquires :
      (a : Admission) (held : List Slot) (key : Text)
      → Reachable max_clients max_conns a held
      → Reachable max_clients max_conns (try_acquire a key).0 (with_slot (try_acquire a key).1 held)
  drops :
      (a : Admission) (before : List Slot) (slot : Slot) (after : List Slot)
      → Reachable max_clients max_conns a (before ++ (slot ∷ after))
      → Reachable max_clients max_conns (release a slot) (before ++ after)
  bans :
      (a : Admission) (held : List Slot) (key : Text)
      → Reachable max_clients max_conns a held
      → Reachable max_clients max_conns (ban a key) held
  unbans :
      (a : Admission) (held : List Slot) (key : Text)
      → Reachable max_clients max_conns a held
      → Reachable max_clients max_conns (unban a key) held

new-IsCounted :
    (max_clients max_conns : ℕ) → IsCounted max_clients max_conns 0 (new max_clients max_conns) []
unfolding new held_for lookup
new-IsCounted max_clients max_conns = record {
  clients_set = refl;
  conns_set = refl;
  distinct = tt;
  marked = tt;
  total = ground arith;
  clients = omega arith;
  hosts = λ key. ground arith;
  each = λ key. omega arith;
}

Reachable-IsCounted :
    {max_clients max_conns : ℕ} {a : Admission} {held : List Slot}
    → Reachable max_clients max_conns a held
    → IsCounted max_clients max_conns (length held) a held
Reachable-IsCounted {max_clients} {max_conns} Reachable.starts = new-IsCounted max_clients max_conns
Reachable-IsCounted {max_clients} {max_conns} (Reachable.acquires a held key r) =
    try_acquire-IsCounted max_clients max_conns a held key (Reachable-IsCounted r)
Reachable-IsCounted {max_clients} {max_conns} (Reachable.drops a before slot after r) =
    release-IsCounted max_clients max_conns a before slot after (Reachable-IsCounted r)
Reachable-IsCounted {max_clients} {max_conns} (Reachable.bans a held key r) =
    ban-IsCounted max_clients max_conns a held key (Reachable-IsCounted r)
Reachable-IsCounted {max_clients} {max_conns} (Reachable.unbans a held key r) =
    unban-IsCounted max_clients max_conns a held key (Reachable-IsCounted r)

-- Whatever connections ask for a slot, and in whatever order slots are dropped and hosts banned: with
-- a limit on all connections, no more slots are held than it allows, and with a limit for each host,
-- no more slots are held for a host than it allows. A limit of 0 is none.
pub held_slots_within_limits :
    {max_clients max_conns : ℕ} {a : Admission} {held : List Slot} (key : Text)
    → Reachable max_clients max_conns a held
    → ((max_clients ≡ 0) ⊎ (length held ≤ max_clients))
      × ((max_conns ≡ 0) ⊎ (held_for key held ≤ max_conns))
held_slots_within_limits {max_clients} {max_conns} key r =
    let v = Reachable-IsCounted r in
    (
      elim (Bool-cases (max_clients == 0)) [
        | inl off ↦ inl (ground (arith, off))
        | inr on ↦ inr (ground (arith, on, v.total, v.clients))
      ],
      elim (Bool-cases (max_conns == 0)) [
        | inl off ↦ inl (ground (arith, off))
        | inr on ↦ inr (ground (arith, on, v.hosts key, v.each key))
      ],
    )
