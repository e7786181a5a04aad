-- ===== src/Tls/Sound.antt =====
-- tls.go, lines 130 to 173: what the cache of certificates keeps while configurations fill it.
use vclnet.Base.{
  nat_eq, ℕ, ◌≡◌, refl, ◌∷◌, true, false, ◌==◌, Option, none, some, arith, if◌then◌else◌, lookup,
  insert, lookup-insert, contains, ==_iff, Option-cases, Bool-cases, inl, inr, ap, sym, ◌∙◌,
}
use mathlib.Core.Option.{some-injective}
use vclnet.Errors.{ok, err}
use vclnet.Tls.Cache.{
  adding, publishing, giving_back, done, Store, looked, look, publish, System, update, Step, looks,
  added, refused, publishes, gives_back, Reach, init, later,
}
use vclnet.Tls.Account.{
  own, chosen, IsAccounted, moved-IsAccounted, own_update, give_back-IsAccounted,
}

published-IsAccounted :
    (s : System) (i h idx' : ℕ)
    → s.phase i ≡ publishing h idx'
    → lookup h s.store.ckpair_cache ≡ none
    → IsAccounted s
    → IsAccounted (record {
      store = record s.store { ckpair_cache = insert h idx' s.store.ckpair_cache };
      phase = update s.phase i (done h (ok idx'));
    })
published-IsAccounted s i h idx' e free a =
    let (mine, kept, uncached, lone) = a.unpublished i idx' (ap own e) in
    record {
      held = λ idx l. elim (Bool-cases (idx == idx')) [
        | inl same ↦ inl (h, ground (arith, at h, ==_iff h h, ==_iff idx idx'))
        | inr differ ↦ elim (a.held idx l) [
          | inl (k, c) ↦ inl (k, ground (arith, at k, c, free, ==_iff k h))
          | inr (inl (j, p)) ↦ inr (
              inl (
                j,
                elim (Bool-cases (j == i)) [
                  | inl here ↦ absurd (
                      apart_from idx differ (
                        some-injective idx' idx (
                          sym (ap own e)
                          ∙ ap (λ k. own (s.phase k)) (sym ((==_iff j i).0 here))
                          ∙ p)))
                  | inr other ↦ rw other p
                ],
              ))
          | inr (inr p) ↦ inr (inr p)
        ]
      ];
      cached = λ k idx c. (
        ground (arith, at k, c, mine, a.cached k idx),
        ground (arith, at k, c, kept, a.cached k idx),
      );
      apart = λ k k' idx c c'. ground (
        arith,
        at k,
        at k',
        c,
        c',
        a.apart k k' idx,
        uncached k,
        uncached k',
        ==_iff k h,
        ==_iff k' h,
      );
      unpublished = λ j idx p.
          let (other, q) = own_update s.phase i j (done h (ok idx')) refl p in
          let (l, n, c, only) = a.unpublished j idx q in
          (
            l,
            n,
            (λ k b. elim (Bool-cases (k == h)) [
              | inl same ↦
                  absurd (ground (arith, lone j (q ∙ sym (stored k idx same b)), other, ==_iff j i))
              | inr differ ↦ c k (ground (arith, at k, b, differ))
            ]),
            λ j' p'. only j' (own_update s.phase i j' (done h (ok idx')) refl p').1,
          );
      lost = a.lost;
      resolved = λ j k idx p. elim (Bool-cases (j == i)) [
        | inl here ↦ resolved_now k idx (rw here at p)
        | inr other ↦ ground (arith, at k, a.resolved j k idx (rw other at p), free, ==_iff k h)
      ];
    }
  where
    at :
        (k : ℕ)
        → lookup k (insert h idx' s.store.ckpair_cache)
          ≡ (if k == h then some idx' else lookup k s.store.ckpair_cache)
    at k = lookup-insert k h idx' s.store.ckpair_cache

    apart_from : (idx : ℕ) → (idx == idx') ≡ false → idx' ≡ idx → ⊥
    apart_from idx differ same = ground (arith, differ, same, ==_iff idx idx')

    stored :
        (k idx : ℕ)
        → (k == h) ≡ true
        → lookup k (insert h idx' s.store.ckpair_cache) ≡ some idx
        → some idx' ≡ some idx
    stored k idx same b = ground (arith, at k, b, same)

    resolved_now :
        (k idx : ℕ)
        → ◌≡◌ {A = Option (ℕ × ℕ)} (some (h, idx')) (some (k, idx))
        → lookup k (insert h idx' s.store.ckpair_cache) ≡ some idx
    resolved_now k idx p = ground (arith, p, at k, ==_iff k h)

publish-IsAccounted :
    (s : System) (i h idx' : ℕ)
    → s.phase i ≡ publishing h idx'
    → IsAccounted s
    → IsAccounted (record {
      store = (publish h idx' s.store).0;
      phase = update s.phase i (publish h idx' s.store).1;
    })
unfolding publish
publish-IsAccounted s i h idx' e a = elim (Option-cases (lookup h s.store.ckpair_cache)) [
  | inl free ↦ rw (free, publish) (published-IsAccounted s i h idx' e free a)
  | inr (existing, old) ↦
      rw (old, publish)
        (moved-IsAccounted s i (giving_back h idx' existing) (sym (ap own e))
          (λ k idx p. ground (arith, p, old)) a)
]

looked-chosen :
    (h : ℕ) (s : Store) (o : Option ℕ)
    → lookup h s.ckpair_cache ≡ o
    → (own (looked h o) ≡ none)
      × ((k idx : ℕ) → chosen (looked h o) ≡ some (k, idx) → lookup k s.ckpair_cache ≡ some idx)
looked-chosen h s none e = (refl, λ k idx p. absurd (cc (p)))
looked-chosen h s (some old) e = (refl, λ k idx p. ground (arith, e, p))

added-IsAccounted :
    (s : System) (i h idx' : ℕ)
    → s.phase i ≡ adding h
    → contains idx' s.store.live ≡ false
    → IsAccounted s
    → IsAccounted (record {
      store = record s.store { live = idx' ∷ s.store.live };
      phase = update s.phase i (publishing h idx');
    })
added-IsAccounted s i h idx' e new a = record {
  held = λ idx l. elim (Bool-cases (idx == idx')) [
    | inl same ↦ inr (inl (i, ground (arith, ==_iff i i, ==_iff idx idx')))
    | inr differ ↦ elim (a.held idx (ground (arith, l, differ, ==_iff idx idx'))) [
      | inl c ↦ inl c
      | inr (inl (j, p)) ↦ inr (
          inl (
            j,
            elim (Bool-cases (j == i)) [
              | inl here ↦ absurd (idle j idx ((==_iff j i).0 here) p)
              | inr other ↦ rw other p
            ],
          ))
      | inr (inr p) ↦ inr (inr p)
    ]
  ];
  cached = λ k idx c. (ground (arith, (a.cached k idx c).0), (a.cached k idx c).1);
  apart = a.apart;
  unpublished = λ j idx p. elim (Bool-cases (j == i)) [
    | inl here ↦
        let same = some-injective idx' idx (rw here at p) in
        (
          ground (arith, same, ==_iff idx idx'),
          ground (arith, same, new, a.lost idx),
          λ k c. fresh_index idx same (a.cached k idx c).0,
          λ j' p'. elim (Bool-cases (j' == i)) [
            | inl there ↦ ground (arith, here, there, ==_iff j i, ==_iff j' i)
            | inr away ↦ absurd (fresh_index idx same (a.unpublished j' idx (rw away at p')).0)
          ],
        )
    | inr other ↦
        let (l, n, c, only) = a.unpublished j idx (rw other at p) in
        (
          ground (arith, l),
          n,
          c,
          λ j' p'. elim (Bool-cases (j' == i)) [
            | inl there ↦ absurd (fresh_index idx (some-injective idx' idx (rw there at p')) l)
            | inr away ↦ only j' (rw away at p')
          ],
        )
  ];
  lost = λ idx p. ground (arith, a.lost idx p);
  resolved = λ j k idx p. elim (Bool-cases (j == i)) [
    | inl here ↦ absurd (cc (rw here at p))
    | inr other ↦ a.resolved j k idx (rw other at p)
  ];
}
  where
    idle : (j idx : ℕ) → j ≡ i → own (s.phase j) ≡ some idx → ⊥
    idle j idx same p = cc (sym (ap own e) ∙ ap (λ k. own (s.phase k)) (sym same) ∙ p)

    fresh_index : (idx : ℕ) → idx' ≡ idx → contains idx s.store.live ≡ true → ⊥
    fresh_index idx same l = ground (arith, same, l, new)

Step-IsAccounted : {s t : System} → Step s t → IsAccounted s → IsAccounted t
unfolding look
Step-IsAccounted {s} (looks i h e) a =
    let (mine, fits) = looked-chosen h s.store (lookup h s.store.ckpair_cache) refl in
    moved-IsAccounted s i (looked h (lookup h s.store.ckpair_cache)) (mine ∙ sym (ap own e)) fits a
Step-IsAccounted {s} (added i h idx e new) a = added-IsAccounted s i h idx e new a
Step-IsAccounted {s} (refused i h x e) a =
    moved-IsAccounted s i (done h (err x)) (sym (ap own e)) (λ k idx p. absurd (cc)) a
Step-IsAccounted {s} (publishes i h idx e) a = publish-IsAccounted s i h idx e a
Step-IsAccounted {s} (gives_back i h idx existing deleted e) a =
    give_back-IsAccounted s i h idx existing deleted e a

-- However the configurations interleave, while VPP never gives an index that it holds: every index that
-- VPP holds is in the cache, in the hands of one configuration that has been given it and has neither
-- published it nor given it back, or one whose deletion failed; these exclude each other, and the cache
-- holds an index under one hash; and every configuration that has resolved its pair has the index that
-- the cache holds for it.
pub store-IsAccounted : {s : System} → Reach s → IsAccounted s
unfolding lookup
store-IsAccounted init = record {
  held = λ idx l. absurd (cc);
  cached = λ h idx c. absurd (cc);
  apart = λ h k idx c c'. absurd (cc);
  unpublished = λ i idx p. absurd (cc);
  lost = λ idx p. absurd (cc);
  resolved = λ i h idx p. absurd (cc);
}
store-IsAccounted (later r t) = Step-IsAccounted t (store-IsAccounted r)
