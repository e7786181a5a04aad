-- ===== src/Tls/Keys.antt =====
-- tls.go, lines 80 to 106: the bytes that are hashed for the key of a certificate.
use vclnet.Base.{
  ℕ, ◌+◌, ◌*◌, ◌/◌, ◌%◌, ◌^◌, ◌<◌, ◌≡◌, refl, sym, ap, ◌∙◌, List, [], ◌∷◌, ◌++◌, arith, length,
}

-- `byte(v >> k)`, for the power `2 ^ k`.
abbrev byte : ℕ → ℕ → ℕ
byte v power = v / power % 256

-- `putUint64BE`
unfoldable pub put_uint64_be : ℕ → List ℕ
put_uint64_be v =
    byte v 72057594037927936
    ∷ byte v 281474976710656
    ∷ byte v 1099511627776
    ∷ byte v 4294967296
    ∷ byte v 16777216
    ∷ byte v 65536
    ∷ byte v 256
    ∷ byte v 1
    ∷ []

-- What `ckpairKey` writes into the hash.
unfoldable pub key_bytes : List ℕ → List ℕ → List ℕ
unfolding put_uint64_be
key_bytes cert key = put_uint64_be (length cert) ++ (cert ++ (put_uint64_be (length key) ++ key))

-- The number whose bytes are given.
abbrev value : List ℕ → ℕ → ℕ
value [] acc = acc
value (b ∷ bs) acc = value bs (acc * 256 + b)

value-put : (v : ℕ) → v < 2 ^ 64 → value (put_uint64_be v) 0 ≡ v
unfolding put_uint64_be
value-put v h = omega arith

append_inj :
    (xs ys us vs : List ℕ) → length xs ≡ length ys → xs ++ us ≡ ys ++ vs → (xs ≡ ys) × (us ≡ vs)
append_inj [] [] us vs l e = (refl, e)
append_inj [] (y ∷ ys) us vs l e = absurd (omega arith)
append_inj (x ∷ xs) [] us vs l e = absurd (omega arith)
append_inj (x ∷ xs) (y ∷ ys) us vs l e =
    let (h, t) = append_inj xs ys us vs (omega arith) (cc) in (cc, t)

put_inj :
    (v w : ℕ) (us vs : List ℕ)
    → v < 2 ^ 64
    → w < 2 ^ 64
    → put_uint64_be v ++ us ≡ put_uint64_be w ++ vs
    → (v ≡ w) × (us ≡ vs)
put_inj v w us vs hv hw e =
    let (p, q) =
      append_inj (put_uint64_be v) (put_uint64_be w) us vs (unfold put_uint64_be in refl) e in
    (sym (value-put v hv) ∙ ap (λ x. value x 0) p ∙ value-put w hw, q)

-- The bytes that are hashed tell the certificate from the key: two pairs that give the same bytes
-- are the same pair, for lengths below 2^64.
key_bytes_inj :
    (cert key cert' key' : List ℕ)
    → length cert < 2 ^ 64
    → length key < 2 ^ 64
    → length cert' < 2 ^ 64
    → length key' < 2 ^ 64
    → key_bytes cert key ≡ key_bytes cert' key'
    → (cert ≡ cert') × (key ≡ key')
unfolding key_bytes
key_bytes_inj cert key cert' key' a b c d e =
    let (n, rest) = put_inj (length cert) (length cert') _ _ a c e in
    let (same, rest') = append_inj cert cert' _ _ n rest in
    (same, (put_inj (length key) (length key') key key' b d rest').1)
