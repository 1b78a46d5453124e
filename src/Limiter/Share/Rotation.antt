-- ===== src/Limiter/Share/Rotation.antt =====
-- The rotation that gives each inverter its turn.
use flux_dtu.Base.{
  ℕ, zero, suc, ◌+◌, ◌-◌, ◌%◌, ◌≤◌, ◌<◌, ◌≡◌, refl, ap, sym, ◌∙◌, List, [], ◌∷◌, ◌++◌, Option, none,
  some, arith, ltb, length, length-append, length-take, take, drop, Bool-cases, inl, inr,
}
use flux_dtu.Limiter.Share.{DistributedChange, rotate, rotate_distributed_changes}

-- the element at an index
abbrev pub get_elem? {ℓ} : {A : Type ℓ} → List A → ℕ → Option A
get_elem? [] i = none
get_elem? (x ∷ xs) zero = some x
get_elem? (x ∷ xs) (suc i) = get_elem? xs i

small : (a m : ℕ) → a < m → a % m ≡ a
small a m p = grind arith

wrap : (a m : ℕ) → m ≤ a → a < m + m → a % m ≡ a - m
wrap a m p q = grind arith

module _ {ℓ} {A : Type ℓ} where
  get_elem?-left :
      (xs ys : List A) (i : ℕ) → i < length xs → get_elem? (xs ++ ys) i ≡ get_elem? xs i
  get_elem?-left [] ys i p = absurd (omega arith)
  get_elem?-left (x ∷ xs) ys zero p = refl
  get_elem?-left (x ∷ xs) ys (suc i) p = get_elem?-left xs ys i (omega (arith, p))

  get_elem?-right : (xs ys : List A) (i : ℕ) → get_elem? (xs ++ ys) (length xs + i) ≡ get_elem? ys i
  get_elem?-right [] ys i = ap (λ (n : ℕ). get_elem? ys n) (omega arith)
  get_elem?-right (x ∷ xs) ys i =
      let e : suc (length xs) + i ≡ suc (length xs + i) = omega arith in
      rw e (get_elem?-right xs ys i)

  get_elem?-drop : (n : ℕ) (xs : List A) (i : ℕ) → get_elem? (drop n xs) i ≡ get_elem? xs (n + i)
  get_elem?-drop zero xs i = ap (λ (n : ℕ). get_elem? xs n) (omega arith)
  get_elem?-drop (suc n) [] i = refl
  get_elem?-drop (suc n) (x ∷ xs) i =
      let e : suc n + i ≡ suc (n + i) = omega arith in rw e (get_elem?-drop n xs i)

  length-drop : (n : ℕ) (xs : List A) → n ≤ length xs → length (drop n xs) + n ≡ length xs
  length-drop zero xs p = omega arith
  length-drop (suc n) [] p = absurd (omega arith)
  length-drop (suc n) (x ∷ xs) p = omega (arith, length-drop n xs (omega (arith, p)))

  get_elem?-take : (n : ℕ) (xs : List A) (i : ℕ) → i < n → get_elem? (take n xs) i ≡ get_elem? xs i
  get_elem?-take zero xs i p = absurd (omega arith)
  get_elem?-take (suc n) [] i p = refl
  get_elem?-take (suc n) (x ∷ xs) zero p = refl
  get_elem?-take (suc n) (x ∷ xs) (suc i) p = get_elem?-take n xs i (omega (arith, p))

  get_elem?-rotate :
      (n : ℕ) (xs : List A) (i : ℕ)
      → n < length xs
      → i < length xs
      → get_elem? (rotate n xs) i ≡ get_elem? xs ((n + i) % length xs)
  get_elem?-rotate n xs i p q = elim (Bool-cases (ltb (n + i) (length xs))) [
    | inl e ↦
        let before : (n + i) % length xs ≡ n + i = small (n + i) (length xs) (ground (arith, e)) in
        get_elem?-left (drop n xs) (take n xs) i
          (ground (arith, e, length-drop n xs (omega (arith, p))))
        ∙ get_elem?-drop n xs i
        ∙ ap (λ (k : ℕ). get_elem? xs k) (sym before)
    | inr e ↦
        let k : ℕ = n + i - length xs in
        let behind : (n + i) % length xs ≡ k =
          wrap (n + i) (length xs) (ground (arith, e)) (omega (arith, p, q)) in
        let at_end : i ≡ length (drop n xs) + k =
          ground (arith, e, length-drop n xs (omega (arith, p))) in
        ap (λ (m : ℕ). get_elem? (rotate n xs) m) at_end
        ∙ get_elem?-right (drop n xs) (take n xs) k
        ∙ get_elem?-take n xs k (ground (arith, e, p, q))
        ∙ ap (λ (m : ℕ). get_elem? xs m) (sym behind)
  ]

  length-rotate : (n : ℕ) (xs : List A) → n ≤ length xs → length (rotate n xs) ≡ length xs
  length-rotate n xs p =
      omega (arith, length-append (drop n xs) (take n xs), length-drop n xs p, length-take n xs p)

module _ {I : Type 0} where
  -- The changes are turned by the cursor: the change at a place is the one that stood `cursor`
  -- places further on, counted round. No change is lost or doubled.
  pub rotate_distributed_changes-get_elem? :
      (cs : List (DistributedChange I)) (cursor i : ℕ)
      → i < length cs
      → (get_elem? (rotate_distributed_changes cs cursor) i
          ≡ get_elem? cs ((cursor % length cs + i) % length cs))
        × (length (rotate_distributed_changes cs cursor) ≡ length cs)
  unfolding rotate_distributed_changes
  rotate_distributed_changes-get_elem? cs cursor i p = elim (Bool-cases (ltb (length cs) 2)) [
    | inl e ↦
        let one : length cs ≡ 1 = ground (arith, e, p) in
        let first : (cursor % length cs + i) % length cs ≡ i = rw one (omega (arith, p, one)) in
        rw (e, first) (refl, refl)
    | inr e ↦
        let inside : cursor % length cs < length cs = grind (arith, p) in
        rw e (
          get_elem?-rotate (cursor % length cs) cs i inside p,
          length-rotate (cursor % length cs) cs (omega (arith, inside)),
        )
  ]
