-- ===== src/Irc/Admission/Counts.antt =====
-- The counts of src/irc/admission.rs against the slots that are held.
use rfircd.Prelude.{
  ℕ, suc, ◌+◌, ◌-◌, ◌≤◌, ◌≡◌, inl, inr, refl, Bool, not, List, [], ◌∷◌, ◌++◌, Text, arith, Result,
  ok, err, ◌==◌, if◌then◌else◌, All, length, Bool-cases, Option-cases,
}
use rfircd.Prelude.Assoc.{
  lookup, Distinct, insert-Distinct, remove-Distinct, lookup-insert, lookup-remove,
}
use rfircd.Prelude.Chars.{text_beq, text_beq_iff, text_eq}
use rfircd.Irc.Admission.{Admission, Deny, Slot, conns, release_host}

-- The slots that are held after an answer of `try_acquire`.
abbrev pub with_slot : Result Deny Slot → List Slot → List Slot
with_slot (ok slot) held = slot ∷ held
with_slot (err deny) held = held

abbrev pub one_if : Bool → ℕ
one_if b = if b then 1 else 0

-- How many of the slots that are held are for a host.
unfoldable pub held_for : Text → List Slot → ℕ
held_for key [] = 0
held_for key (slot ∷ held) = one_if (text_beq slot.host_key key) + held_for key held

pub held_for-append :
    (key : Text) (before : List Slot) (slot : Slot) (after : List Slot)
    → held_for key (before ++ (slot ∷ after))
      ≡ one_if (text_beq slot.host_key key) + held_for key (before ++ after)
unfolding held_for
held_for-append key [] slot after = refl
held_for-append key (s ∷ before) slot after = omega (arith, held_for-append key before slot after)

pub length-without :
    (before : List Slot) (slot : Slot) (after : List Slot)
    → length (before ++ (slot ∷ after)) ≡ suc (length (before ++ after))
length-without [] slot after = refl
length-without (s ∷ before) slot after = omega (arith, length-without before slot after)

pub All-without :
    (P : Slot → Type 0) (before : List Slot) (slot : Slot) (after : List Slot)
    → All P (before ++ (slot ∷ after))
    → P slot × All P (before ++ after)
All-without P [] slot after h = h
All-without P (s ∷ before) slot after h =
    let rest = All-without P before slot after h.1 in (rest.0, (h.0, rest.1))

-- What `release` takes from the count of a host.
pub conns-release_host :
    (key other : Text) (m : List (Text × ℕ))
    → Distinct m
    → conns (lookup other (release_host key m))
      ≡ conns (lookup other m) - one_if (text_beq key other)
unfolding release_host
conns-release_host key other m d = elim (Option-cases (lookup key m)) [
  | inl absent ↦ rw (release_host, absent) (ground (arith, text_beq_iff key other, absent))
  | inr (n, there) ↦ elim (Bool-cases (n - 1 == 0)) [
    | inl last ↦
        rw (release_host, there, last)
          (ground (arith, text_beq_iff key other, there, last, lookup-remove key other m d))
    | inr more ↦
        rw (release_host, there, more)
          (ground (arith, text_beq_iff key other, there, more, lookup-insert key other (n - 1) m))
  ]
]

-- A slot is marked with what was counted for it.
abbrev pub IsMarked : ℕ → ℕ → Slot → Type 0
IsMarked max_clients max_conns slot =
    (slot.counted_total ≡ not (max_clients == 0)) × (slot.counted_host ≡ not (max_conns == 0))

abbrev pub counted : ℕ → ℕ → ℕ
counted limit n = if limit == 0 then 0 else n

-- The counts are those of the slots that are held, and within the limits; the total is that of `n`
-- connections.
pub record IsCounted (max_clients max_conns n : ℕ) (a : Admission) (held : List Slot) : Type 0 where
  pub clients_set : a.max_clients ≡ max_clients
  pub conns_set : a.max_conns_per_host ≡ max_conns
  pub distinct : Distinct a.per_host
  pub marked : All (IsMarked max_clients max_conns) held
  pub total : a.total ≡ counted max_clients n
  pub clients : a.total ≤ max_clients
  pub hosts : (key : Text) → conns (lookup key a.per_host) ≡ counted max_conns (held_for key held)
  pub each : (key : Text) → conns (lookup key a.per_host) ≤ max_conns

pub release_host-Distinct :
    (key : Text) (m : List (Text × ℕ)) → Distinct m → Distinct (release_host key m)
unfolding release_host
release_host-Distinct key m d = elim (Option-cases (lookup key m)) [
  | inl absent ↦ rw (release_host, absent) d
  | inr (n, there) ↦ elim (Bool-cases (n - 1 == 0)) [
    | inl last ↦ rw (release_host, there, last) (remove-Distinct key m d)
    | inr more ↦ rw (release_host, there, more) (insert-Distinct key (n - 1) m d)
  ]
]
