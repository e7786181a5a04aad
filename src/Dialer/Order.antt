-- ===== src/Dialer/Order.antt =====
-- dialer.go, lines 300 to 329: the order in which the addresses of a name are tried.
use vclnet.Base.{
  ℕ, suc, zero, ◌+◌, ◌≤◌, ◌≡◌, refl, ap, ◌∙◌, List, [], ◌∷◌, Bool, true, false, arith,
  if◌then◌else◌, length, ◌<◌, ◌*◌, get_elem?, Bool-cases, inl, inr,
}

-- An address: `is_v4` says whether `To4` is not nil; `id` stands for the rest.
pub record TcpAddr : Type 0 where
  pub is_v4 : Bool
  pub id : ℕ

-- The loop that parts the families: the addresses of one of them.
unfoldable pub select : Bool → List TcpAddr → List TcpAddr
select family [] = []
select true (a ∷ xs) = let rest = select true xs in if a.is_v4 then a ∷ rest else rest
select false (a ∷ xs) = let rest = select false xs in if a.is_v4 then rest else a ∷ rest

-- The loop of `interleaveAddrs`: what is left of `v6` and `v4`, and `preferV6`.
unfoldable pub alternate : ℕ → Bool → List TcpAddr → List TcpAddr → List TcpAddr
alternate zero prefer v6 v4 = []
alternate (suc fuel) prefer [] [] = []
alternate (suc fuel) true (a ∷ v6) v4 = a ∷ alternate fuel false v6 v4
alternate (suc fuel) false v6 (b ∷ v4) = b ∷ alternate fuel true v6 v4
alternate (suc fuel) true [] (b ∷ v4) = b ∷ alternate fuel false [] v4
alternate (suc fuel) false (a ∷ v6) [] = a ∷ alternate fuel true v6 []

-- `interleaveAddrs`: each turn takes one address, so as many turns as addresses are enough.
unfoldable pub interleave_addrs : List TcpAddr → List TcpAddr
unfolding select alternate
interleave_addrs xs = alternate (length xs) true (select false xs) (select true xs)

Family : Bool → List TcpAddr → Type 0
Family b [] = Unit {0}
Family b (a ∷ xs) = (a.is_v4 ≡ b) × Family b xs

select-Family : (b : Bool) (xs : List TcpAddr) → Family b (select b xs)
unfolding select Family
select-Family true [] = tt
select-Family false [] = tt
select-Family true (a ∷ xs) = elim (Bool-cases a.is_v4) [
  | inl e ↦ simp e (refl, select-Family true xs)
  | inr e ↦ simp e (select-Family true xs)
]
select-Family false (a ∷ xs) = elim (Bool-cases a.is_v4) [
  | inl e ↦ simp e (select-Family false xs)
  | inr e ↦ simp e (refl, select-Family false xs)
]

length-select : (xs : List TcpAddr) → length (select false xs) + length (select true xs) ≡ length xs
unfolding select
length-select [] = refl
length-select (a ∷ xs) = ground (arith, length-select xs)

select-alternate :
    (fuel : ℕ) (prefer : Bool) (v6 v4 : List TcpAddr)
    → Family false v6
    → Family true v4
    → length v6 + length v4 ≤ fuel
    → (select false (alternate fuel prefer v6 v4) ≡ v6)
      × (select true (alternate fuel prefer v6 v4) ≡ v4)
      × (length (alternate fuel prefer v6 v4) ≡ length v6 + length v4)
unfolding select alternate Family
select-alternate zero prefer [] [] h k le = (refl, refl, refl)
select-alternate zero prefer (a ∷ v6) v4 h k le = absurd (omega arith)
select-alternate zero prefer [] (b ∷ v4) h k le = absurd (omega arith)
select-alternate (suc fuel) true [] [] h k le = (refl, refl, refl)
select-alternate (suc fuel) false [] [] h k le = (refl, refl, refl)
select-alternate (suc fuel) true (a ∷ v6) v4 (e, h) k le =
    let (x, y, z) = select-alternate fuel false v6 v4 h k (omega arith) in
    simp e (ap (a ∷◌) x, y, omega arith)
select-alternate (suc fuel) false [] (b ∷ v4) h (e, k) le =
    let (x, y, z) = select-alternate fuel true [] v4 h k (omega arith) in
    simp e (x, ap (b ∷◌) y, omega arith)
select-alternate (suc fuel) false (a ∷ v6) (b ∷ v4) h (e, k) le =
    let (x, y, z) = select-alternate fuel true (a ∷ v6) v4 h k (omega arith) in
    simp e (x, ap (b ∷◌) y, omega arith)
select-alternate (suc fuel) true [] (b ∷ v4) h (e, k) le =
    let (x, y, z) = select-alternate fuel false [] v4 h k (omega arith) in
    simp e (x, ap (b ∷◌) y, omega arith)
select-alternate (suc fuel) false (a ∷ v6) [] (e, h) k le =
    let (x, y, z) = select-alternate fuel true v6 [] h k (omega arith) in
    simp e (ap (a ∷◌) x, y, omega arith)

-- `interleaveAddrs` loses, adds and repeats no address, and keeps the order within each family.
interleave_addrs-select :
    (xs : List TcpAddr)
    → (select false (interleave_addrs xs) ≡ select false xs)
      × (select true (interleave_addrs xs) ≡ select true xs)
      × (length (interleave_addrs xs) ≡ length xs)
unfolding interleave_addrs
interleave_addrs-select xs =
    let (x, y, z) =
      select-alternate (length xs) true (select false xs) (select true xs) (select-Family false xs)
        (select-Family true xs) (omega (arith, length-select xs)) in
    (x, y, z ∙ length-select xs)

alternate_second :
    (fuel : ℕ) (v6 v4 : List TcpAddr) (b : TcpAddr)
    → alternate (suc fuel) false v6 (b ∷ v4) ≡ b ∷ alternate fuel true v6 v4
unfolding alternate
alternate_second fuel [] v4 b = refl
alternate_second fuel (a ∷ v6) v4 b = refl

alternate-turns :
    (fuel : ℕ) (v6 v4 : List TcpAddr) (i : ℕ)
    → length v6 + length v4 ≤ fuel
    → i < length v6
    → i < length v4
    → (get_elem? (alternate fuel true v6 v4) (2 * i) ≡ get_elem? v6 i)
      × (get_elem? (alternate fuel true v6 v4) (2 * i + 1) ≡ get_elem? v4 i)
unfolding alternate
alternate-turns fuel [] v4 i le h k = absurd (omega arith)
alternate-turns fuel (a ∷ v6) [] i le h k = absurd (omega arith)
alternate-turns zero (a ∷ v6) (b ∷ v4) i le h k = absurd (omega arith)
alternate-turns (suc zero) (a ∷ v6) (b ∷ v4) i le h k = absurd (omega arith)
alternate-turns (suc (suc fuel)) (a ∷ v6) (b ∷ v4) zero le h k =
    rw (alternate_second fuel v6 v4 b) (refl, refl)
alternate-turns (suc (suc fuel)) (a ∷ v6) (b ∷ v4) (suc i) le h k =
    let (x, y) = alternate-turns fuel v6 v4 i (omega arith) (omega arith) (omega arith) in
    rw (alternate_second fuel v6 v4 b) (at_even i ∙ x, at_odd i ∙ y)
  where
    rest : List TcpAddr
    rest = alternate fuel true v6 v4

    at_even : (j : ℕ) → get_elem? (a ∷ b ∷ rest) (2 * suc j) ≡ get_elem? rest (2 * j)
    at_even j = ap (get_elem? (a ∷ b ∷ rest)) {y = suc (suc (2 * j))} (omega arith)

    at_odd : (j : ℕ) → get_elem? (a ∷ b ∷ rest) (2 * suc j + 1) ≡ get_elem? rest (2 * j + 1)
    at_odd j = ap (get_elem? (a ∷ b ∷ rest)) {y = suc (suc (2 * j + 1))} (omega arith)

-- As long as both families last, they alternate, and IPv6 comes first.
interleave_addrs-turns :
    (xs : List TcpAddr) (i : ℕ)
    → i < length (select false xs)
    → i < length (select true xs)
    → (get_elem? (interleave_addrs xs) (2 * i) ≡ get_elem? (select false xs) i)
      × (get_elem? (interleave_addrs xs) (2 * i + 1) ≡ get_elem? (select true xs) i)
unfolding interleave_addrs
interleave_addrs-turns xs i h k =
    alternate-turns (length xs) (select false xs) (select true xs) i
      (omega (arith, length-select xs)) h k
