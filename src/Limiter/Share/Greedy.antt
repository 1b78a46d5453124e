-- ===== src/Limiter/Share/Greedy.antt =====
-- What the distribution by priority gives to whom.
use flux_dtu.Base.{
  ℕ, ◌+◌, ◌-◌, ◌≤◌, ◌<◌, ◌≡◌, refl, ap, sym, ◌∙◌, Bool, true, false, ◌&&◌, List, [], ◌∷◌, arith,
  min, ltb, leb, ◌==◌, u16, add32, Bool-cases, inl, inr,
}
use flux_dtu.Limiter.Share.{
  DistributedChange, total_capacity, share, share_out, rest_of, allocation,
  distribute_greedy_by_priority, distributed_by_priority,
}

module _ {I : Type 0} where
  -- the capacities, added up without a limit
  abbrev pub capacities : List (DistributedChange I) → ℕ
  capacities [] = 0
  capacities (c ∷ cs) = c.capacity + capacities cs

  -- nothing is given yet, and each capacity fits 16 bits
  abbrev pub all_fresh : List (DistributedChange I) → Bool
  all_fresh [] = true
  all_fresh (c ∷ cs) = c.amount == 0 && ltb c.capacity 65_536 && all_fresh cs

  -- Each change gets what the earlier ones, filled up, leave of the request, up to its capacity.
  abbrev pub fill :
      (requested earlier : ℕ) → List (DistributedChange I) → List (DistributedChange I)
  fill requested earlier [] = []
  fill requested earlier (c ∷ cs) =
      (record c { amount = min c.capacity (requested - earlier) })
      ∷ fill requested (earlier + c.capacity) cs

  total_capacity-capacities :
      (cs : List (DistributedChange I)) (total : ℕ)
      → total + capacities cs < 4_294_967_296
      → total_capacity total cs ≡ total + capacities cs
  unfolding total_capacity
  total_capacity-capacities [] total p = omega arith
  total_capacity-capacities (c ∷ cs) total p =
      omega (arith, p, total_capacity-capacities cs (add32 total c.capacity) (omega (arith, p)))

  change-amount :
      (c : DistributedChange I) (n m : ℕ)
      → n ≡ m
      → (record c { amount = n }) ≡ (record c { amount = m })
  change-amount c n m e = ap (λ (a : ℕ). record c { amount = a }) e

  -- nothing is left
  fill-exhausted :
      (cs : List (DistributedChange I)) (requested earlier : ℕ)
      → all_fresh cs ≡ true
      → requested ≤ earlier
      → fill requested earlier cs ≡ cs
  fill-exhausted [] requested earlier p q = refl
  fill-exhausted (c ∷ cs) requested earlier p q =
      rw (fill-exhausted cs requested (earlier + c.capacity) (ground (arith, p)) (omega (arith, q)))
        (ap (λ h. h ∷ cs)
          (change-amount c (min c.capacity (requested - earlier)) c.amount (ground (arith, p, q))))

  share_out-nothing : (cs : List (DistributedChange I)) → share_out 0 cs ≡ cs
  unfolding share_out
  share_out-nothing [] = refl
  share_out-nothing (c ∷ cs) = refl

  share-fresh :
      (c : DistributedChange I) (remaining : ℕ)
      → c.amount == 0 && ltb c.capacity 65_536 ≡ true
      → (u16 (c.amount + share remaining c) ≡ min c.capacity remaining)
        × (remaining - share remaining c ≡ remaining - c.capacity)
  unfolding share
  share-fresh c remaining p = ground (arith, p)

  share_out-step :
      (c : DistributedChange I) (cs : List (DistributedChange I)) (remaining : ℕ)
      → c.amount == 0 && ltb c.capacity 65_536 ≡ true
      → 0 < remaining
      → share_out remaining (c ∷ cs)
        ≡ (record c { amount = min c.capacity remaining }) ∷ share_out (remaining - c.capacity) cs
  unfolding share_out
  share_out-step c cs remaining p q =
      let e = share-fresh c remaining p in
      let some_left : remaining == 0 ≡ false = ground (arith, q) in rw (some_left, e.0, e.1) refl

  share_out-fill :
      (cs : List (DistributedChange I)) (requested earlier : ℕ)
      → all_fresh cs ≡ true
      → share_out (requested - earlier) cs ≡ fill requested earlier cs
  unfolding share_out
  share_out-fill [] requested earlier p = refl
  share_out-fill (c ∷ cs) requested earlier p = elim (Bool-cases (leb requested earlier)) [
    | inl e ↦
        let gone : requested - earlier ≡ 0 = ground (arith, e) in
        rw gone (share_out-nothing (c ∷ cs))
        ∙ sym (fill-exhausted (c ∷ cs) requested earlier p (ground (arith, e)))
    | inr e ↦
        let less : requested - earlier - c.capacity ≡ requested - (earlier + c.capacity) =
          omega arith in
        share_out-step c cs (requested - earlier) (ground (arith, p)) (ground (arith, e))
        ∙ rw (less, share_out-fill cs requested (earlier + c.capacity) (ground (arith, p))) refl
  ]

  -- what is left, with all of it within the capacities
  rest_of-none :
      (cs : List (DistributedChange I)) (remaining : ℕ)
      → all_fresh cs ≡ true
      → remaining ≤ capacities cs
      → rest_of remaining cs ≡ 0
  unfolding rest_of
  rest_of-none [] remaining p q = omega (arith, q)
  rest_of-none (c ∷ cs) remaining p q =
      let e = share-fresh c remaining (ground (arith, p)) in
      let later =
        rest_of-none cs (remaining - share remaining c) (ground (arith, p))
          (omega (arith, q, e.1)) in
      ground (arith, later)

  -- a request above what there is
  fill-capped :
      (cs : List (DistributedChange I)) (requested total earlier : ℕ)
      → earlier + capacities cs ≤ total
      → fill (min requested total) earlier cs ≡ fill requested earlier cs
  fill-capped [] requested total earlier p = refl
  fill-capped (c ∷ cs) requested total earlier p =
      let e : min c.capacity (min requested total - earlier)
          ≡ min c.capacity (requested - earlier) =
        omega (arith, p) in
      rw (e, fill-capped cs requested total (earlier + c.capacity) (omega (arith, p))) refl

  abbrev pub amounts : List (DistributedChange I) → ℕ
  amounts [] = 0
  amounts (c ∷ cs) = c.amount + amounts cs

  amounts-fill :
      (cs : List (DistributedChange I)) (requested earlier : ℕ)
      → amounts (fill requested earlier cs) ≡ min (capacities cs) (requested - earlier)
  amounts-fill [] requested earlier = omega arith
  amounts-fill (c ∷ cs) requested earlier =
      omega (arith, amounts-fill cs requested (earlier + c.capacity))

  -- A request is given to the changes in their order: each gets what the earlier ones, filled up,
  -- leave of it, up to its capacity, and its inverter and its capacity stay. What is returned is the
  -- smaller one of the request and all capacities together, and the amounts add up to it. This is
  -- for changes with no amount yet, with capacities of 16 bits whose sum fits 32 bits.
  pub distribute_greedy_by_priority-fill :
      (requested : ℕ) (cs : List (DistributedChange I))
      → all_fresh cs ≡ true
      → capacities cs < 4_294_967_296
      → (distribute_greedy_by_priority requested cs ≡ fill requested 0 cs)
        × (distributed_by_priority requested cs ≡ min requested (capacities cs))
        × (amounts (distribute_greedy_by_priority requested cs)
            ≡ distributed_by_priority requested cs)
  unfolding distribute_greedy_by_priority distributed_by_priority allocation
  distribute_greedy_by_priority-fill requested cs p q =
      let total : total_capacity 0 cs ≡ capacities cs =
        omega (arith, total_capacity-capacities cs 0 (omega (arith, q))) in
      let none_left = rest_of-none cs (min requested (capacities cs)) p (omega arith) in
      let given : ℕ = min requested (capacities cs) in
      let filled : share_out given cs ≡ fill requested 0 cs =
        ap (λ (n : ℕ). share_out n cs) (omega arith)
        ∙ share_out-fill cs given 0 p
        ∙ fill-capped cs requested (capacities cs) 0 (omega arith) in
      rw (total, none_left, filled) (refl, omega arith, omega (arith, amounts-fill cs requested 0))
