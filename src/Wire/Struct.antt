-- ===== src/Wire/Struct.antt =====
-- What probe.py uses of Python's `struct` with "!" formats: big-endian fields of 1, 2, 4 or 8 bytes.
use srv6_mrc_emulator.Common.{
  ℕ, zero, suc, ◌+◌, ◌*◌, ◌/◌, ◌%◌, ◌^◌, ◌<◌, ◌≤◌, ◌≡◌, refl, ap, ◌∙◌, sym, List, [], ◌∷◌, ◌++◌,
  arith, length, take, drop, length-append, length-take, length-drop, take-append-drop,
  take-append_of_length, drop-append_of_length, All-take, All-drop, append_assoc, append-nil, All,
}
use native.Mathlib.Nat.{pow-suc}

-- The `w` low bytes of `v`, most significant first.
unfoldable pub be_bytes : ℕ → ℕ → List ℕ
be_bytes zero v = []
be_bytes (suc w) v = be_bytes w (v / 256) ++ (v % 256) ∷ []

unfoldable pub be_value : ℕ → List ℕ → ℕ
be_value acc [] = acc
be_value acc (b ∷ bs) = be_value (acc * 256 + b) bs

-- `struct.pack` of values in range, and `struct.unpack`; a format is the list of the widths.
unfoldable pub pack : List ℕ → List ℕ → List ℕ
unfolding be_bytes
pack [] vs = []
pack (w ∷ ws) [] = []
pack (w ∷ ws) (v ∷ vs) = be_bytes w v ++ pack ws vs

unfoldable pub unpack : List ℕ → List ℕ → List ℕ
unfolding be_value
unpack [] bs = []
unpack (w ∷ ws) bs = be_value 0 (take w bs) ∷ unpack ws (drop w bs)

-- Values that fit their fields.
abbrev pub Fits : List ℕ → List ℕ → Type 0
Fits [] [] = Unit {0}
Fits [] (v ∷ vs) = ⊥
Fits (w ∷ ws) [] = ⊥
Fits (w ∷ ws) (v ∷ vs) = (v < 256 ^ w) × Fits ws vs

-- `struct.calcsize`
abbrev pub calcsize : List ℕ → ℕ
calcsize [] = 0
calcsize (w ∷ ws) = w + calcsize ws

length-be_bytes : (w v : ℕ) → length (be_bytes w v) ≡ w
unfolding be_bytes
length-be_bytes zero v = refl
length-be_bytes (suc w) v =
    omega
      (arith, length-append (be_bytes w (v / 256)) ((v % 256) ∷ []), length-be_bytes w (v / 256))

be_value-snoc :
    (acc : ℕ) (bs : List ℕ) (b : ℕ) → be_value acc (bs ++ b ∷ []) ≡ be_value acc bs * 256 + b
unfolding be_value
be_value-snoc acc [] b = refl
be_value-snoc acc (c ∷ bs) b = be_value-snoc (acc * 256 + c) bs b

div-lt_pow : (w v : ℕ) → v < 256 ^ suc w → v / 256 < 256 ^ w
div-lt_pow w v h = let e : 256 ^ suc w ≡ 256 ^ w * 256 = pow-suc 256 w in omega (arith, e, h)

be_value-be_bytes : (w v : ℕ) → v < 256 ^ w → be_value 0 (be_bytes w v) ≡ v
unfolding be_bytes be_value
be_value-be_bytes zero v h = omega arith
be_value-be_bytes (suc w) v h =
    be_value-snoc 0 (be_bytes w (v / 256)) (v % 256)
    ∙ omega (arith, be_value-be_bytes w (v / 256) (div-lt_pow w v h))

take-be_bytes : (w v : ℕ) (ys : List ℕ) → take w (be_bytes w v ++ ys) ≡ be_bytes w v
take-be_bytes w v ys = take-append_of_length w (be_bytes w v) ys (length-be_bytes w v)

drop-be_bytes : (w v : ℕ) (ys : List ℕ) → drop w (be_bytes w v ++ ys) ≡ ys
drop-be_bytes w v ys = drop-append_of_length w (be_bytes w v) ys (length-be_bytes w v)

pub length-pack : (ws vs : List ℕ) → Fits ws vs → length (pack ws vs) ≡ calcsize ws
unfolding pack
length-pack [] [] h = refl
length-pack [] (v ∷ vs) h = absurd h
length-pack (w ∷ ws) [] h = absurd h
length-pack (w ∷ ws) (v ∷ vs) h =
    omega
      (arith, length-append (be_bytes w v) (pack ws vs), length-be_bytes w v, length-pack ws vs h.1)

-- What is packed is read back, whatever follows it.
pub unpack-pack : (ws vs rest : List ℕ) → Fits ws vs → unpack ws (pack ws vs ++ rest) ≡ vs
unfolding pack unpack
unpack-pack [] [] rest h = refl
unpack-pack [] (v ∷ vs) rest h = absurd h
unpack-pack (w ∷ ws) [] rest h = absurd h
unpack-pack (w ∷ ws) (v ∷ vs) rest h =
    rw (append_assoc, take-be_bytes, drop-be_bytes, be_value-be_bytes w v h.0)
      (ap (◌∷◌ v) (unpack-pack ws vs rest h.1))

pub unpack-take-pack :
    (ws vs rest : List ℕ) {n : ℕ}
    → Fits ws vs
    → calcsize ws ≡ n
    → unpack ws (take n (pack ws vs ++ rest)) ≡ vs
unpack-take-pack ws vs rest {n} h e =
    rw (take-append_of_length n (pack ws vs) rest (length-pack ws vs h ∙ e))
      (ap (unpack ws) (sym (append-nil (pack ws vs))) ∙ unpack-pack ws vs [] h)

pub le-length-pack :
    (ws vs rest : List ℕ) {n : ℕ} → Fits ws vs → calcsize ws ≡ n → n ≤ length (pack ws vs ++ rest)
le-length-pack ws vs rest h e =
    omega (arith, length-pack ws vs h, length-append (pack ws vs) rest, e)

be_bytes-suc : (k acc b : ℕ) → b < 256 → be_bytes (suc k) (acc * 256 + b) ≡ be_bytes k acc ++ b ∷ []
unfolding be_bytes
be_bytes-suc k acc b h =
    let quotient : (acc * 256 + b) / 256 ≡ acc = omega arith in
    let low : (acc * 256 + b) % 256 ≡ b = omega arith in rw (quotient, low)

be_bytes-be_value :
    (k m acc : ℕ) (bs : List ℕ)
    → All (λ b. b < 256) bs
    → k + length bs ≡ m
    → be_bytes m (be_value acc bs) ≡ be_bytes k acc ++ bs
unfolding be_value
be_bytes-be_value k m acc [] h e = let e' : m ≡ k = omega arith in rw (e', append-nil)
be_bytes-be_value k m acc (b ∷ bs) h e =
    be_bytes-be_value (suc k) m (acc * 256 + b) bs h.1 (omega arith)
    ∙ rw (be_bytes-suc k acc b h.0, append_assoc)

be_bytes-take :
    (w : ℕ) (bs : List ℕ)
    → All (λ b. b < 256) bs
    → w ≤ length bs
    → be_bytes w (be_value 0 (take w bs)) ≡ take w bs
unfolding be_bytes
be_bytes-take w bs h le =
    be_bytes-be_value 0 w 0 (take w bs) (All-take _ w bs h) (omega (arith, length-take w bs))

-- Bytes are packed again as they were.
pub pack-unpack :
    (ws bs : List ℕ) → All (λ b. b < 256) bs → calcsize ws ≡ length bs → pack ws (unpack ws bs) ≡ bs
unfolding pack unpack
pack-unpack [] [] h e = refl
pack-unpack [] (b ∷ bs) h e = absurd (omega arith)
pack-unpack (w ∷ ws) bs h e =
    rw
      (
        be_bytes-take w bs h (omega arith),
        pack-unpack ws (drop w bs) (All-drop _ w bs h) (omega (arith, length-drop w bs)),
      )
      (take-append-drop w bs)
