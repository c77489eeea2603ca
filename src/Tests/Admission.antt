-- ===== src/Tests/Admission.antt =====
-- Connection admission, src/irc/admission.rs, on concrete inputs.
use rfircd.Prelude.{ℕ, [], ◌∷◌, ◌≡◌, ◌≤◌, ◌⊎◌, true, refl, Text, length, err}
use rfircd.Prelude.Chars.{text_eq, text_beq}
use rfircd.Prelude.Assoc.{lookup, insert}
use rfircd.Irc.Admission.{
  Admission, Slot, new, is_banned, acquire_host, try_acquire, per_host_limit,
}
use rfircd.Irc.Admission.Counts.{held_for}
use rfircd.Irc.Admission.Slots.{Reachable, starts, acquires, held_slots_within_limits}

abbrev host : Text
host = b'a' ∷ b'b' ∷ []

-- Two connections of the host, of at most two, and of at most three in all.
abbrev gate : Admission
gate = record {
  max_clients = 3;
  max_conns_per_host = 2;
  total = 2;
  per_host = (host, 2) ∷ [];
  bans = [];
}

abbrev slot : Slot
slot = record { host_key = host; counted_total = true; counted_host = true }

gate-Reachable : Reachable 3 2 gate (slot ∷ slot ∷ [])
unfolding new try_acquire acquire_host is_banned lookup insert text_beq
gate-Reachable =
    acquires (try_acquire (new 3 2) host).0 (slot ∷ []) host (acquires (new 3 2) [] host starts)

full_run : (try_acquire gate host).1 ≡ err per_host_limit
unfolding try_acquire acquire_host is_banned lookup text_beq
full_run = refl

abbrev clients_limit : ℕ
clients_limit = 3

abbrev conns_limit : ℕ
conns_limit = 2

held_slots_within_limits_example :
    ((clients_limit ≡ 0) ⊎ (length (slot ∷ slot ∷ []) ≤ clients_limit))
    × ((conns_limit ≡ 0) ⊎ (held_for host (slot ∷ slot ∷ []) ≤ conns_limit))
held_slots_within_limits_example = held_slots_within_limits host gate-Reachable
