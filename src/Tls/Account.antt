-- ===== src/Tls/Account.antt =====
-- tls.go, lines 130 to 173: where the indexes that VPP holds are, and what a configuration that moves on or
-- gives an index back leaves of that.
use vclnet.Base.{
  nat_eq, ℕ, ◌≡◌, ◌≢◌, refl, List, [], ◌∷◌, Bool, true, false, ◌==◌, ◌&&◌, not, Option, none, some,
  arith, lookup, contains, ==_iff, Bool-cases, inl, inr, ◌⊎◌, ap, sym, ◌∙◌,
}
use mathlib.Core.Option.{some-injective}
use vclnet.Errors.{ok}
use vclnet.Tls.Cache.{Phase, publishing, giving_back, done, remove, give_back, System, update}

-- The index that a configuration has been given and has neither published nor given back.
abbrev pub own : Phase → Option ℕ
own (publishing h idx) = some idx
own (giving_back h idx existing) = some idx
own _ = none

-- The index of another configuration for the same pair, which this one is to use.
abbrev pub chosen : Phase → Option (ℕ × ℕ)
chosen (done h (ok idx)) = some (h, idx)
chosen (giving_back h idx existing) = some (h, existing)
chosen _ = none

-- Every index that VPP holds is in the cache, or in the hands of one configuration, or leaked.
pub record IsAccounted (s : System) : Type 0 where
  pub held :
      (idx : ℕ)
      → contains idx s.store.live ≡ true
      → ((h : ℕ) × (lookup h s.store.ckpair_cache ≡ some idx))
        ⊎ ((i : ℕ) × (own (s.phase i) ≡ some idx))
        ⊎ (contains idx s.store.leaked ≡ true)
  pub cached :
      (h idx : ℕ)
      → lookup h s.store.ckpair_cache ≡ some idx
      → (contains idx s.store.live ≡ true) × (contains idx s.store.leaked ≡ false)
  pub apart :
      (h k idx : ℕ)
      → lookup h s.store.ckpair_cache ≡ some idx
      → lookup k s.store.ckpair_cache ≡ some idx
      → h ≡ k
  pub unpublished :
      (i idx : ℕ)
      → own (s.phase i) ≡ some idx
      → (contains idx s.store.live ≡ true)
        × (contains idx s.store.leaked ≡ false)
        × ((k : ℕ) → lookup k s.store.ckpair_cache ≢ some idx)
        × ((j : ℕ) → own (s.phase j) ≡ some idx → j ≡ i)
  pub lost : (idx : ℕ) → contains idx s.store.leaked ≡ true → contains idx s.store.live ≡ true
  pub resolved :
      (i h idx : ℕ) → chosen (s.phase i) ≡ some (h, idx) → lookup h s.store.ckpair_cache ≡ some idx

pub contains-remove :
    (i j : ℕ) (xs : List ℕ) → contains j (remove i xs) ≡ (contains j xs && not (j == i))
unfolding remove
contains-remove i j [] = refl
contains-remove i j (x ∷ xs) =
    ground (arith, contains-remove i j xs, ==_iff i x, ==_iff j x, ==_iff j i)

-- A configuration moves on and the store stays.
pub moved-IsAccounted :
    (s : System) (i : ℕ) (x : Phase)
    → own x ≡ own (s.phase i)
    → ((h idx : ℕ) → chosen x ≡ some (h, idx) → lookup h s.store.ckpair_cache ≡ some idx)
    → IsAccounted s
    → IsAccounted (record { store = s.store; phase = update s.phase i x })
moved-IsAccounted s i x same fits a = record {
  held = λ idx l. elim (a.held idx l) [
    | inl c ↦ inl c
    | inr (inl (j, p)) ↦ inr (inl (j, at j ∙ p))
    | inr (inr p) ↦ inr (inr p)
  ];
  cached = a.cached;
  apart = a.apart;
  unpublished = λ j idx p.
      let (l, k, c, only) = a.unpublished j idx (sym (at j) ∙ p) in
      (l, k, c, λ j' p'. only j' (sym (at j') ∙ p'));
  lost = a.lost;
  resolved = λ j h idx p. elim (Bool-cases (j == i)) [
    | inl here ↦ fits h idx (rw here at p)
    | inr other ↦ a.resolved j h idx (rw other at p)
  ];
}
  where
    at : (j : ℕ) → own (update s.phase i x j) ≡ own (s.phase j)
    at j = elim (Bool-cases (j == i)) [
      | inl here ↦ rw here (same ∙ ap (λ k. own (s.phase k)) (sym ((==_iff j i).0 here)))
      | inr other ↦ rw other refl
    ]

-- A phase that owns nothing takes the place of one.
pub own_update :
    (f : ℕ → Phase) (i j : ℕ) (x : Phase) {idx : ℕ}
    → own x ≡ none
    → own (update f i x j) ≡ some idx
    → ((j == i) ≡ false) × (own (f j) ≡ some idx)
own_update f i j x none_there p = elim (Bool-cases (j == i)) [
  | inl here ↦ absurd (cc (rw here at p, none_there))
  | inr other ↦ (other, rw other at p)
]

given_back-IsAccounted :
    (s : System) (i h idx' existing : ℕ)
    → s.phase i ≡ giving_back h idx' existing
    → IsAccounted s
    → IsAccounted (record {
      store = record s.store { live = remove idx' s.store.live };
      phase = update s.phase i (done h (ok existing));
    })
given_back-IsAccounted s i h idx' existing e a =
    let (_, kept, uncached, lone) = a.unpublished i idx' (ap own e) in
    record {
      held = λ idx l. elim (a.held idx (ground (arith, contains-remove idx' idx s.store.live, l))) [
        | inl c ↦ inl c
        | inr (inl (j, p)) ↦ inr (
            inl (
              j,
              elim (Bool-cases (j == i)) [
                | inl here ↦ absurd (
                    gone idx l (
                      some-injective idx' idx (
                        sym (ap own e)
                        ∙ ap (λ k. own (s.phase k)) (sym ((==_iff j i).0 here))
                        ∙ p)))
                | inr other ↦ rw other p
              ],
            ))
        | inr (inr p) ↦ inr (inr p)
      ];
      cached = λ k idx c. (
        ground (
          arith,
          (a.cached k idx c).0,
          uncached k,
          c,
          contains-remove idx' idx s.store.live,
          ==_iff idx idx',
        ),
        (a.cached k idx c).1,
      );
      apart = a.apart;
      unpublished = λ j idx p.
          let (other, q) = own_update s.phase i j (done h (ok existing)) refl p in
          let (l, n, c, only) = a.unpublished j idx q in
          (
            elim (Bool-cases (idx == idx')) [
              | inl same ↦ absurd (
                  ground
                    (arith, lone j (q ∙ ap some ((==_iff idx idx').0 same)), other, ==_iff j i))
              | inr differ ↦ ground (arith, l, contains-remove idx' idx s.store.live, differ)
            ],
            n,
            c,
            λ j' p'. only j' (own_update s.phase i j' (done h (ok existing)) refl p').1,
          );
      lost = λ idx p.
          ground
            (arith, a.lost idx p, p, kept, contains-remove idx' idx s.store.live, ==_iff idx idx');
      resolved = λ j k idx p. elim (Bool-cases (j == i)) [
        | inl here ↦ a.resolved i k idx (ap chosen e ∙ rw here at p)
        | inr other ↦ a.resolved j k idx (rw other at p)
      ];
    }
  where
    gone : (idx : ℕ) → contains idx (remove idx' s.store.live) ≡ true → idx' ≡ idx → ⊥
    gone idx l same =
        ground (arith, l, same, contains-remove idx' idx s.store.live, ==_iff idx idx')

lost-IsAccounted :
    (s : System) (i h idx' existing : ℕ)
    → s.phase i ≡ giving_back h idx' existing
    → IsAccounted s
    → IsAccounted (record {
      store = record s.store { leaked = idx' ∷ s.store.leaked };
      phase = update s.phase i (done h (ok existing));
    })
lost-IsAccounted s i h idx' existing e a =
    let (mine, kept, uncached, lone) = a.unpublished i idx' (ap own e) in
    record {
      held = λ idx l. elim (a.held idx l) [
        | inl c ↦ inl c
        | inr (inl (j, p)) ↦ elim (Bool-cases (j == i)) [
          | inl here ↦ inr (
              inr (
                leaked_now idx (
                  some-injective idx' idx
                    (sym (ap own e) ∙ ap (λ k. own (s.phase k)) (sym ((==_iff j i).0 here)) ∙ p))))
          | inr other ↦ inr (inl (j, rw other p))
        ]
        | inr (inr p) ↦ inr (inr (ground (arith, p)))
      ];
      cached = λ k idx c. (
        (a.cached k idx c).0,
        ground (arith, (a.cached k idx c).1, uncached k, c, ==_iff idx idx'),
      );
      apart = a.apart;
      unpublished = λ j idx p.
          let (other, q) = own_update s.phase i j (done h (ok existing)) refl p in
          let (l, n, c, only) = a.unpublished j idx q in
          (
            l,
            elim (Bool-cases (idx == idx')) [
              | inl same ↦ absurd (
                  ground
                    (arith, lone j (q ∙ ap some ((==_iff idx idx').0 same)), other, ==_iff j i))
              | inr differ ↦ ground (arith, n, differ)
            ],
            c,
            λ j' p'. only j' (own_update s.phase i j' (done h (ok existing)) refl p').1,
          );
      lost = λ idx p. ground (arith, a.lost idx, p, mine, ==_iff idx idx');
      resolved = λ j k idx p. elim (Bool-cases (j == i)) [
        | inl here ↦ a.resolved i k idx (ap chosen e ∙ rw here at p)
        | inr other ↦ a.resolved j k idx (rw other at p)
      ];
    }
  where
    leaked_now : (idx : ℕ) → idx' ≡ idx → contains idx (idx' ∷ s.store.leaked) ≡ true
    leaked_now idx same = ground (arith, same, ==_iff idx idx')

pub give_back-IsAccounted :
    (s : System) (i h idx existing : ℕ) (deleted : Bool)
    → s.phase i ≡ giving_back h idx existing
    → IsAccounted s
    → IsAccounted (record {
      store = give_back deleted idx s.store;
      phase = update s.phase i (done h (ok existing));
    })
unfolding give_back
give_back-IsAccounted s i h idx existing true e a = given_back-IsAccounted s i h idx existing e a
give_back-IsAccounted s i h idx existing false e a = lost-IsAccounted s i h idx existing e a
