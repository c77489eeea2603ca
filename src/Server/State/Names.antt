-- ===== src/Server/State/Names.antt =====
-- The registry of nicknames of src/server/state.rs, against the nicknames of the users.
use rfircd.Prelude.{
  ◌≡◌, ◌≢◌, refl, sym, ap, ◌∙◌, ◌⊎◌, inl, inr, false, not, List, Option, none, some, some_inj, Text,
  arith, Option-cases, Bool-cases, subst,
}
use rfircd.Prelude.Assoc.{
  lookup, insert, remove, modify, Distinct, lookup-insert, lookup-remove, lookup-modify,
  lookup-modify_self, lookup-modify_other, lookup-insert_self, insert-Distinct, remove-Distinct,
  modify-Distinct,
}
use rfircd.Prelude.Assoc.Every.{Every, Every-insert, Every-remove, Every-modify}
use rfircd.Prelude.Chars.{text_eq, text_beq, text_beq_iff}
use rfircd.Irc.Casemap.{lower}
use rfircd.Server.State.{UserId, user_id_eq, user_id_beq, user_id_beq_iff, User, no_nick, is_other}

-- The name under which the registry is to hold a user.
abbrev pub nick_key : Option User → Option Text
nick_key none = none
nick_key (some u) = some (lower u.nick)

abbrev pub Users : Type 0
Users = List (UserId × User)

abbrev pub Nicks : Type 0
Nicks = List (Text × UserId)

-- The registry holds for each name a user that bears it, and each name that a user bears.
pub record IsNamed (users : Users) (nicks : Nicks) : Type 0 where
  pub users_distinct : Distinct users
  pub nicks_distinct : Distinct nicks
  pub ids : Every (λ (i : UserId) (u : User). u.id ≡ i) users
  pub owners : Every (λ (k : Text) (i : UserId). nick_key (lookup i users) ≡ some k) nicks
  pub claimed :
      Every
        (λ (i : UserId) (u : User).
          (lower u.nick ≡ no_nick) ⊎ (lookup (lower u.nick) nicks ≡ some i))
        users

abbrev pub rename : Text → User → User
rename nick u = record u { nick = nick }

lower_bare : lower no_nick ≡ no_nick
unfolding lower rfircd.Irc.Casemap.lower_char
lower_bare = refl

module _ {users : Users} {nicks : Nicks} (w : IsNamed users nicks) where
  -- Two users that bear one name are one user.
  pub claimed_once :
      (i j : UserId) {u v : User}
      → lookup i users ≡ some u
      → lookup j users ≡ some v
      → lower u.nick ≡ lower v.nick
      → lower u.nick ≢ no_nick
      → i ≡ j
  claimed_once i j {u} {v} at_i at_j same named = elim (w.claimed i u at_i) [
    | inl bare ↦ absurd (named bare)
    | inr mine ↦ elim (w.claimed j v at_j) [
      | inl bare ↦ absurd (named (same ∙ bare))
      | inr yours ↦ some_inj.0 (sym mine ∙ ap (λ k. lookup k nicks) same ∙ yours)
    ]
  ]

  -- What is left in the registry after the name of a user was taken out belongs to others.
  kept :
      (id : UserId) (u : User) (k : Text) (i : UserId)
      → lookup id users ≡ some u
      → lookup k (remove (lower u.nick) nicks) ≡ some i
      → (user_id_beq id i ≡ false) × (nick_key (lookup i users) ≡ some k)
  kept id u k i here left = elim (Bool-cases (text_beq (lower u.nick) k)) [
    | inl same ↦
        let found : none ≡ some i =
          sym (lookup-remove (lower u.nick) k nicks w.nicks_distinct ∙ rw (same) refl) ∙ left in
        absurd (cc)
    | inr other ↦
        let found : lookup k nicks ≡ some i =
          sym (lookup-remove (lower u.nick) k nicks w.nicks_distinct ∙ rw (other) refl) ∙ left in
        let owner = w.owners k i found in
        elim (Bool-cases (user_id_beq id i)) [
          | inr apart ↦ (apart, owner)
          | inl it ↦
              let mine : some (lower u.nick) ≡ some k =
                sym (
                  ap nick_key
                    (subst (λ x. lookup x users ≡ some u) ((user_id_beq_iff id i).0 it) here))
                ∙ owner in
              absurd (ground (arith, other, (text_beq_iff (lower u.nick) k).1 (some_inj.0 mine)))
        ]
  ]

  -- What another user claims is left.
  still_claimed :
      (id : UserId) (u : User) (j : UserId) (v : User)
      → lookup id users ≡ some u
      → lookup j users ≡ some v
      → user_id_beq id j ≡ false
      → (lower v.nick ≡ no_nick)
        ⊎ ((lookup (lower v.nick) nicks ≡ some j)
            × (lookup (lower v.nick) (remove (lower u.nick) nicks) ≡ some j))
  still_claimed id u j v here there apart = elim (w.claimed j v there) [
    | inl bare ↦ inl bare
    | inr theirs ↦ elim (Bool-cases (text_beq (lower u.nick) (lower v.nick))) [
      | inr other ↦ inr (
        theirs,
        lookup-remove (lower u.nick) (lower v.nick) nicks w.nicks_distinct ∙ rw (other) theirs,
      )
      | inl same ↦
          let one = (text_beq_iff (lower u.nick) (lower v.nick)).0 same in
          elim (w.claimed id u here) [
            | inl bare ↦ inl (sym one ∙ bare)
            | inr mine ↦
                let it : some id ≡ some j = sym mine ∙ ap (λ k. lookup k nicks) one ∙ theirs in
                absurd (ground (arith, apart, (user_id_beq_iff id j).1 (some_inj.0 it)))
          ]
    ]
  ]

  insert-owners :
      (id : UserId) (u : User) (nick : Text)
      → lookup id users ≡ some u
      → Every
          (λ (k : Text) (i : UserId). nick_key (lookup i (modify id (rename nick) users)) ≡ some k)
          (insert (lower nick) id (remove (lower u.nick) nicks))
  insert-owners id u nick here k i at_k = elim (Bool-cases (text_beq (lower nick) k)) [
    | inl same ↦
        let mine : some id ≡ some i =
          sym (lookup-insert (lower nick) k id (remove (lower u.nick) nicks) ∙ rw (same) refl)
          ∙ at_k in
        subst (λ x. nick_key (lookup x (modify id (rename nick) users)) ≡ some k) (some_inj.0 mine)
          (ap nick_key (lookup-modify_self id (rename nick) users here)
            ∙ ap some ((text_beq_iff (lower nick) k).0 same))
    | inr other ↦
        let left = kept id u k i here (
          sym (lookup-insert (lower nick) k id (remove (lower u.nick) nicks) ∙ rw (other) refl)
          ∙ at_k) in
        ap nick_key (lookup-modify_other id i (rename nick) users left.0) ∙ left.1
  ]

  insert-claimed :
      (id : UserId) (u : User) (nick : Text)
      → lookup id users ≡ some u
      → is_other id (lookup (lower nick) nicks) ≡ false
      → Every
          (λ (i : UserId) (v : User).
            (lower v.nick ≡ no_nick)
            ⊎ (lookup (lower v.nick) (insert (lower nick) id (remove (lower u.nick) nicks))
                ≡ some i))
          (modify id (rename nick) users)
  insert-claimed id u nick here free i v at_i = elim (Bool-cases (user_id_beq id i)) [
    | inl it ↦
        let same = (user_id_beq_iff id i).0 it in
        let new : some (rename nick u) ≡ some v =
          sym (lookup-modify_self id (rename nick) users here)
          ∙ ap (λ x. lookup x (modify id (rename nick) users)) same
          ∙ at_i in
        inr (
          subst
            (λ x.
              lookup (lower x.nick) (insert (lower nick) id (remove (lower u.nick) nicks)) ≡ some i)
            (some_inj.0 new)
            (lookup-insert_self (lower nick) id (remove (lower u.nick) nicks) ∙ ap some same))
    | inr apart ↦
        let there : lookup i users ≡ some v =
          sym (lookup-modify_other id i (rename nick) users apart) ∙ at_i in
        elim (still_claimed id u i v here there apart) [
          | inl bare ↦ inl bare
          | inr theirs ↦ elim (Bool-cases (text_beq (lower nick) (lower v.nick))) [
            | inr other ↦ inr (
                lookup-insert (lower nick) (lower v.nick) id (remove (lower u.nick) nicks)
                ∙ rw (other) (theirs.1))
            | inl same ↦
                let owned : lookup (lower nick) nicks ≡ some i =
                  ap (λ k. lookup k nicks) ((text_beq_iff (lower nick) (lower v.nick)).0 same)
                  ∙ theirs.0 in
                let taken : not (user_id_beq i id) ≡ false = rw (owned) at free in
                absurd (ground (arith, user_id_beq_iff i id, user_id_beq_iff id i))
          ]
        ]
  ]

  -- A user under a free name.
  pub rename-IsNamed :
      (id : UserId) (u : User) (nick : Text)
      → lookup id users ≡ some u
      → is_other id (lookup (lower nick) nicks) ≡ false
      → IsNamed
          (modify id (rename nick) users)
          (insert (lower nick) id (remove (lower u.nick) nicks))
  rename-IsNamed id u nick here free = record {
    users_distinct = modify-Distinct id (rename nick) users w.users_distinct;
    nicks_distinct =
        insert-Distinct (lower nick) id (remove (lower u.nick) nicks)
          (remove-Distinct (lower u.nick) nicks w.nicks_distinct);
    ids =
        Every-modify (λ (i : UserId) (u : User). u.id ≡ i) id (rename nick) users w.ids
          (λ v at h. h);
    owners = insert-owners id u nick here;
    claimed = insert-claimed id u nick here free;
  }

  remove-claimed :
      (id : UserId) (u : User)
      → lookup id users ≡ some u
      → Every
          (λ (i : UserId) (v : User).
            (lower v.nick ≡ no_nick)
            ⊎ (lookup (lower v.nick) (remove (lower u.nick) nicks) ≡ some i))
          (remove id users)
  remove-claimed id u here i v at_i = elim (Bool-cases (user_id_beq id i)) [
    | inl it ↦
        let found : none ≡ some v =
          sym (lookup-remove id i users w.users_distinct ∙ rw (it) refl) ∙ at_i in
        absurd (cc)
    | inr apart ↦
        let there : lookup i users ≡ some v =
          sym (lookup-remove id i users w.users_distinct ∙ rw (apart) refl) ∙ at_i in
        elim (still_claimed id u i v here there apart) [
          | inl bare ↦ inl bare
          | inr theirs ↦ inr (theirs.1)
        ]
  ]

  -- A user that leaves, with its name.
  pub remove-IsNamed :
      (id : UserId) (u : User)
      → lookup id users ≡ some u
      → IsNamed (remove id users) (remove (lower u.nick) nicks)
  remove-IsNamed id u here = record {
    users_distinct = remove-Distinct id users w.users_distinct;
    nicks_distinct = remove-Distinct (lower u.nick) nicks w.nicks_distinct;
    ids = Every-remove (λ (i : UserId) (u : User). u.id ≡ i) id users w.users_distinct w.ids;
    owners = λ k i at_k.
        let left = kept id u k i here at_k in
        ap nick_key (lookup-remove id i users w.users_distinct ∙ rw (left.0) refl) ∙ left.1;
    claimed = λ i v at_i. remove-claimed id u here i v at_i;
  }

  -- A user that comes without a name.
  pub insert-IsNamed :
      (u : User) → lookup u.id users ≡ none → u.nick ≡ no_nick → IsNamed (insert u.id u users) nicks
  insert-IsNamed u absent bare = record {
    users_distinct = insert-Distinct u.id u users w.users_distinct;
    nicks_distinct = w.nicks_distinct;
    ids = Every-insert (λ (i : UserId) (v : User). v.id ≡ i) u.id u users w.ids refl;
    owners = λ k i at_k. elim (Bool-cases (user_id_beq u.id i)) [
      | inl it ↦
          let none_there : nick_key none ≡ some k =
            subst (λ x. nick_key x ≡ some k)
              (ap (λ x. lookup x users) (sym ((user_id_beq_iff u.id i).0 it)) ∙ absent)
              (w.owners k i at_k) in
          absurd (cc)
      | inr apart ↦ ap nick_key (lookup-insert u.id i u users ∙ rw (apart) refl) ∙ w.owners k i at_k
    ];
    claimed =
        Every-insert
          (λ (i : UserId) (v : User).
            (lower v.nick ≡ no_nick) ⊎ (lookup (lower v.nick) nicks ≡ some i))
          u.id u users w.claimed (inl (ap lower bare ∙ lower_bare));
  }

  modify-nick_key :
      (id : UserId) (f : User → User) (i : UserId)
      → ((u : User) → (f u).nick ≡ u.nick)
      → nick_key (lookup i (modify id f users)) ≡ nick_key (lookup i users)
  modify-nick_key id f i keeps = elim (Bool-cases (user_id_beq id i)) [
    | inr apart ↦ ap nick_key (lookup-modify_other id i f users apart)
    | inl it ↦ elim (Option-cases (lookup i users)) [
      | inl absent ↦ ap nick_key (lookup-modify id i f users) ∙ rw (it, absent) refl
      | inr (v, there) ↦
          ap nick_key (lookup-modify id i f users)
          ∙ rw (it, there) (ap (λ n. some (lower n)) (keeps v))
    ]
  ]

  -- A change of a user that keeps its name.
  pub modify-IsNamed :
      (id : UserId) (f : User → User)
      → ((u : User) → (f u).id ≡ u.id)
      → ((u : User) → (f u).nick ≡ u.nick)
      → IsNamed (modify id f users) nicks
  modify-IsNamed id f keeps_id keeps_nick = record {
    users_distinct = modify-Distinct id f users w.users_distinct;
    nicks_distinct = w.nicks_distinct;
    ids =
        Every-modify (λ (i : UserId) (v : User). v.id ≡ i) id f users w.ids
          (λ v at h. keeps_id v ∙ h);
    owners = λ k i at_k. modify-nick_key id f i keeps_nick ∙ w.owners k i at_k;
    claimed =
        Every-modify
          (λ (i : UserId) (v : User).
            (lower v.nick ≡ no_nick) ⊎ (lookup (lower v.nick) nicks ≡ some i))
          id f users w.claimed
          (λ v at h.
            subst (λ n. (lower n ≡ no_nick) ⊎ (lookup (lower n) nicks ≡ some id))
              (sym (keeps_nick v)) h);
  }
