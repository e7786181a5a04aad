-- ===== src/Tls/Cache.antt =====
-- tls.go, lines 42 to 78 and 108 to 173: the settings of TLS, and the store of certificates in VPP,
-- which any number of goroutines fill at once.
use vclnet.Base.{
  ℕ, ◌<◌, ◌≡◌, List, [], ◌∷◌, Bool, true, false, ◌==◌, ◌||◌, ◌&&◌, not, Option, none, some, arith,
  if◌then◌else◌, lookup, insert, nat_eq, contains, length, ltb, ◌⊎◌,
}
use vclnet.Errors.{Error, missing_cert, partial_cert, Result, ok, err}

-- `Cert` and `Key`
pub record TlsConfig : Type 0 where
  pub cert : List ℕ
  pub key : List ℕ

-- `validate`; none is the nil pointer.
unfoldable pub validate : Bool → Option TlsConfig → Option Error
validate server_side none = if server_side then some missing_cert else none
validate server_side (some c) =
    let has_cert = ltb 0 (length c.cert) in
    let has_key = ltb 0 (length c.key) in
    if server_side && (not has_cert || not has_key)
    then some missing_cert
    else if has_cert && not has_key || not has_cert && has_key
    then some partial_cert
    else none

-- A configuration that passes `validate` has both a certificate and a key; or it has neither, and is
-- a client's.
validate-none :
    (server_side : Bool) (c : TlsConfig)
    → validate server_side (some c) ≡ none
    → ((0 < length c.cert) × (0 < length c.key))
      ⊎ ((server_side ≡ false) × (length c.cert ≡ 0) × (length c.key ≡ 0))
unfolding validate
validate-none server_side c h = ground (arith, h)

-- Where the `once` of a configuration stands, with the hash `ckpairKey` of its pair: not run, between
-- the first look at the cache and VPP's answer, between the answer and the second look, behind a second
-- look that found another index and before `DelCertKeyPair` returns, or done.
pub data Phase : Type 0 where
  fresh : Phase
  adding : ℕ → Phase
  publishing : ℕ → ℕ → Phase
  giving_back : ℕ → ℕ → ℕ → Phase
  done : ℕ → Result ℕ → Phase

-- `ckpair_cache` goes from hashes to indexes. `live` are the indexes that VPP holds, and `leaked` those
-- whose `DelCertKeyPair` failed, an error that nobody looks at.
pub record Store : Type 0 where
  pub ckpair_cache : List (ℕ × ℕ)
  pub live : List ℕ
  pub leaked : List ℕ

unfoldable pub remove : ℕ → List ℕ → List ℕ
remove i [] = []
remove i (x ∷ xs) = if i == x then remove i xs else x ∷ remove i xs

-- The first look at the cache, by what it finds.
abbrev pub looked : ℕ → Option ℕ → Phase
looked h (some idx) = done h (ok idx)
looked h none = adding h

unfoldable pub look : ℕ → Store → Phase
look h s = looked h (lookup h s.ckpair_cache)

-- The second look: it publishes the index, or is to give it back for the one published before.
unfoldable pub publish : ℕ → ℕ → Store → Store × Phase
publish h idx s = elim (lookup h s.ckpair_cache) [
  | some existing ↦ (s, giving_back h idx existing)
  | none ↦ (record s { ckpair_cache = insert h idx s.ckpair_cache }, done h (ok idx))
]

-- `DelCertKeyPair`, by whether VPP deletes the pair.
unfoldable pub give_back : Bool → ℕ → Store → Store
unfolding remove
give_back true idx s = record s { live = remove idx s.live }
give_back false idx s = record s { leaked = idx ∷ s.leaked }

pub record System : Type 0 where
  pub store : Store
  pub phase : ℕ → Phase

abbrev pub update : (ℕ → Phase) → ℕ → Phase → ℕ → Phase
update f i x j = if j == i then x else f j

-- A step of the configuration `i`. VPP gives an index that it does not hold yet, or an error.
pub data Step (s : System) : System → Type 0 where
  looks :
      (i h : ℕ)
      → s.phase i ≡ fresh
      → Step s (record { store = s.store; phase = update s.phase i (look h s.store) })
  added :
      (i h idx : ℕ)
      → s.phase i ≡ adding h
      → contains idx s.store.live ≡ false
      → Step s (record {
        store = record s.store { live = idx ∷ s.store.live };
        phase = update s.phase i (publishing h idx);
      })
  refused :
      (i h : ℕ) (e : Error)
      → s.phase i ≡ adding h
      → Step s (record { store = s.store; phase = update s.phase i (done h (err e)) })
  publishes :
      (i h idx : ℕ)
      → s.phase i ≡ publishing h idx
      → Step s (record {
        store = (publish h idx s.store).0;
        phase = update s.phase i (publish h idx s.store).1;
      })
  gives_back :
      (i h idx existing : ℕ) (deleted : Bool)
      → s.phase i ≡ giving_back h idx existing
      → Step s (record {
        store = give_back deleted idx s.store;
        phase = update s.phase i (done h (ok existing));
      })

pub data Reach : System → Type 0 where
  init :
      Reach (record {
        store = record { ckpair_cache = []; live = []; leaked = [] };
        phase = λ _. fresh;
      })
  later : {s t : System} → Reach s → Step s t → Reach t
