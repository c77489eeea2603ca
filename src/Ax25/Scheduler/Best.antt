-- ===== src/Ax25/Scheduler/Best.antt =====
-- Which class `pop` of src/ax25/scheduler.rs serves: that of the highest score.
use rfircd.Prelude.{
  ℕ, ◌≡◌, ◌⊎◌, refl, sym, ap, ◌∙◌, inl, inr, Bool, true, false, List, [], ◌∷◌, Option, none, some,
  some_inj, if◌then◌else◌, Bool-cases, Option-cases, subst, All, get_elem?, is_empty,
}
use rfircd.Prelude.Float.{Float}
use rfircd.Ax25.Scheduler.{
  Class, chat, direct, control, ack, id, Queued, Scheduler, put, remove_at, funded, score, chosen,
  consider, best_of, all_classes, pop,
}
use rfircd.Ax25.Scheduler.Order.{Split, position-Split}

module _ {fl : Float} {T : Type 0} where
  open fl use {F, lt}

  abbrev pub is_funded : Scheduler fl T → ℕ → Queued T → Bool
  is_funded s now i = funded s i.account i.cost now

  -- The first funded frame of a class, or its first one.
  pub record Candidate (s : Scheduler fl T) (now : ℕ) (c : Class) (item : Queued T) : Type 0 where
    pub split : Split (is_funded s now) (s.queues c) (chosen s now (s.queues c)) item

  candidate :
      (s : Scheduler fl T) (now : ℕ) (c : Class)
      → is_empty (s.queues c) ≡ false
      → (item : Queued T) × Candidate s now c item
  unfolding chosen
  candidate s now c h =
      let r = position-Split (is_funded s now) (s.queues c) h in (r.0, record { split = r.1 })

  consider-empty :
      (s : Scheduler fl T) (now : ℕ) (c : Class) (best : Option (Class × ℕ × F))
      → s.queues c ≡ []
      → consider s now c best ≡ best
  unfolding consider
  consider-empty s now c best h = rw (consider, h) refl

  consider-none :
      (s : Scheduler fl T) (now : ℕ) (c : Class) (item : Queued T)
      → get_elem? (s.queues c) (chosen s now (s.queues c)) ≡ some item
      → consider s now c none ≡ some (c, chosen s now (s.queues c), score s item now)
  unfolding consider
  consider-none s now c item h = rw (consider, h) refl

  consider-some :
      (s : Scheduler fl T) (now : ℕ) (c : Class) (item : Queued T) (d : Class) (i : ℕ) (b : F)
      → get_elem? (s.queues c) (chosen s now (s.queues c)) ≡ some item
      → consider s now c (some (d, i, b)) ≡ (
          if lt b (score s item now)
          then some (c, chosen s now (s.queues c), score s item now)
          else some (d, i, b))
  unfolding consider
  consider-some s now c item d i b h = rw (consider, h) refl

  -- No frame that a class in the list puts forward has a higher score than `b`.
  Above : Scheduler fl T → ℕ → F → List Class → Type 0
  Above s now b cs =
      All (λ c. (item : Queued T) → Candidate s now c item → lt b (score s item now) ≡ false) cs

  -- What the loop has found: a frame that its class puts forward, with its score.
  Holds : Scheduler fl T → ℕ → Class → ℕ → F → Type 0
  Holds s now c idx b =
      (item : Queued T) × Candidate s now c item
      × (idx ≡ chosen s now (s.queues c))
      × (b ≡ score s item now)

  -- The state of the loop after the classes `seen`.
  Best : Scheduler fl T → ℕ → List Class → Option (Class × ℕ × F) → Type 0
  Best s now seen none = All (λ c. s.queues c ≡ []) seen
  Best s now seen (some (c, idx, b)) = Holds s now c idx b × Above s now b seen

  Candidate-same :
      (s : Scheduler fl T) (now : ℕ) (c : Class) (item other : Queued T)
      → Candidate s now c item
      → Candidate s now c other
      → item ≡ other
  Candidate-same s now c item other a b = some_inj.0 (sym a.split.here ∙ b.split.here)

  -- An empty class puts no frame forward.
  empty-Above :
      (s : Scheduler fl T) (now : ℕ) (b : F) (cs : List Class)
      → All (λ c. s.queues c ≡ []) cs
      → Above s now b cs
  unfolding Above
  empty-Above s now b [] e = tt
  empty-Above s now b (c ∷ cs) e = (
    λ item a.
        let nowhere : none ≡ some item =
          sym (ap (λ q. get_elem? q (chosen s now (s.queues c))) e.0) ∙ a.split.here in
        absurd (cc),
    empty-Above s now b cs e.1,
  )

  -- A frame that is a class's own is no better than itself or another as good.
  own-Above :
      (s : Scheduler fl T) (now : ℕ) (c : Class) (item : Queued T) (b : F)
      → Candidate s now c item
      → lt b (score s item now) ≡ false
      → (other : Queued T) → Candidate s now c other
      → lt b (score s other now) ≡ false
  own-Above s now c item b a h other o =
      subst (λ i. lt b (score s i now) ≡ false) (Candidate-same s now c item other a o) h

  -- What `pop` gives: the frame that a class puts forward is taken out of it, and the others stay.
  pub record Served (s : Scheduler fl T) (now : ℕ) (r : Scheduler fl T × Option (Queued T))
      : Type 0 where
    pub class : Class
    pub item : Queued T
    pub own : Candidate s now class item
    pub served : r ≡ (
      record s {
        queues = put s.queues class (remove_at (chosen s now (s.queues class)) (s.queues class));
      },
      some item,
    )

-- The classes in the order in which the loop leaves them.
abbrev onto : List Class → List Class → List Class
onto [] seen = seen
onto (c ∷ cs) seen = onto cs (c ∷ seen)

-- Every class is among them.
each_class : (P : Class → Type 0) → All P (onto all_classes []) → (c : Class) → P c
each_class P a chat = a.0
each_class P a direct = a.1.0
each_class P a control = a.1.1.0
each_class P a ack = a.1.1.1.0
each_class P a id = a.1.1.1.1.0

empty_or_not : {A : Type 0} (q : List A) → (q ≡ []) ⊎ (is_empty q ≡ false)
empty_or_not [] = inl refl
empty_or_not (x ∷ q) = inr refl

module _ {fl : Float} {T : Type 0}
    (trans : (x y z : fl.F) → fl.lt x y ≡ true → fl.lt y z ≡ true → fl.lt x z ≡ true)
    (irrefl : (x : fl.F) → fl.lt x x ≡ false) where
  open fl use {F, lt}

  higher-Above :
      (s : Scheduler fl T) (now : ℕ) (b c : F) (cs : List Class)
      → lt b c ≡ true
      → Above s now b cs
      → Above s now c cs
  unfolding Above
  higher-Above s now b c [] h a = tt
  higher-Above s now b c (k ∷ cs) h a =
      (λ item own. not_higher (score s item now) (a.0 item own), higher-Above s now b c cs h a.1)
    where
      not_higher : (x : F) → lt b x ≡ false → lt c x ≡ false
      not_higher x l = elim (Bool-cases (lt c x)) [
        | inl higher ↦ let clash : true ≡ false = sym (trans b c x h higher) ∙ l in absurd (cc)
        | inr lower ↦ lower
      ]

  -- One class more.
  Best-consider :
      (s : Scheduler fl T) (now : ℕ) (c : Class) (seen : List Class) (best : Option (Class × ℕ × F))
      → Best s now seen best
      → Best s now (c ∷ seen) (consider s now c best)
  unfolding Best Above Holds
  Best-consider s now c seen none v = elim (empty_or_not (s.queues c)) [
    | inl empty ↦ subst (Best s now (c ∷ seen)) (sym (consider-empty s now c none empty)) (empty, v)
    | inr full ↦
        let (item, own) = candidate s now c full in
        let b = score s item now in
        subst (Best s now (c ∷ seen)) (sym (consider-none s now c item own.split.here)) (
          (item, own, refl, refl),
          (own-Above s now c item b own (irrefl b), empty-Above s now b seen v),
        )
  ]
  Best-consider s now c seen (some (d, i, b)) v = elim (empty_or_not (s.queues c)) [
    | inl empty ↦
        subst (Best s now (c ∷ seen)) (sym (consider-empty s now c (some (d, i, b)) empty))
          (v.0, ((empty-Above s now b (c ∷ []) (empty, tt)).0, v.1))
    | inr full ↦
        let (item, own) = candidate s now c full in
        let this = score s item now in
        subst (Best s now (c ∷ seen)) (sym (consider-some s now c item d i b own.split.here))
          (elim (Bool-cases (lt b this)) [
            | inl higher ↦ rw (higher) (
              (item, own, refl, refl),
              (
                own-Above s now c item this own (irrefl this),
                higher-Above s now b this seen higher v.1,
              ),
            )
            | inr not_higher ↦ rw (not_higher) (v.0, (own-Above s now c item b own not_higher, v.1))
          ])
  ]

  Best-best_of :
      (s : Scheduler fl T) (now : ℕ) (cs seen : List Class) (best : Option (Class × ℕ × F))
      → Best s now seen best
      → Best s now (onto cs seen) (best_of s now cs best)
  unfolding best_of
  Best-best_of s now [] seen best v = v
  Best-best_of s now (c ∷ cs) seen best v =
      Best-best_of s now cs (c ∷ seen) (consider s now c best) (Best-consider s now c seen best v)

  pop-found :
      (s : Scheduler fl T) (now : ℕ) (c : Class) (idx : ℕ) (b : F) (item : Queued T)
      → best_of s now all_classes none ≡ some (c, idx, b)
      → idx ≡ chosen s now (s.queues c)
      → Candidate s now c item
      → pop s now ≡ (
        record s { queues = put s.queues c (remove_at (chosen s now (s.queues c)) (s.queues c)) },
        some item,
      )
  unfolding pop
  pop-found s now c idx b item found e own = rw (pop, found, e, own.split.here) refl

  -- If a class puts a frame forward, then `pop` takes one: in its class it is the first that its
  -- account has the airtime for, or the first of all if there is none, every other frame stays, and
  -- the frame that was put forward has no higher score. The order of the numbers is transitive and
  -- irreflexive.
  pub pop-Served :
      (s : Scheduler fl T) (now : ℕ) (c : Class) (other : Queued T)
      → Candidate s now c other
      → (r : Served s now (pop s now)) × (lt (score s r.item now) (score s other now) ≡ false)
  unfolding Best Holds Above
  pop-Served s now c other o =
      let w = Best-best_of s now all_classes [] none tt in
      elim (Option-cases (best_of s now all_classes none)) [
        | inl nothing ↦
            let v : All (λ d. s.queues d ≡ []) (onto all_classes []) =
              subst (Best s now (onto all_classes [])) nothing w in
            let nowhere : none ≡ some other =
              sym (
                ap (λ q. get_elem? q (chosen s now (s.queues c)))
                  (each_class (λ k. s.queues k ≡ []) v c))
              ∙ o.split.here in
            absurd (cc)
        | inr ((d, idx, b), found) ↦
            let v : Holds s now d idx b × Above s now b (onto all_classes []) =
              subst (Best s now (onto all_classes [])) found w in
            let (item, own, at_index, at_score) = v.0 in
            (
              record {
                class = d;
                item = item;
                own = own;
                served = pop-found s now d idx b item found at_index own;
              },
              rw (← at_score) (
                  each_class
                    (λ k. (i : Queued T) → Candidate s now k i → lt b (score s i now) ≡ false) v.1 c
                    other o),
            )
      ]
