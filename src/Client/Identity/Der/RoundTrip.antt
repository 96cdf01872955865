-- ===== src/Client/Identity/Der/RoundTrip.antt =====
-- The encoding against a reader of DER that is written from the standard: lengths below 128, integers
-- that are not negative and have no superfluous zero.
use dicode_relay.Common.{
  ℕ, zero, suc, ◌+◌, ◌*◌, ◌%◌, ◌≤◌, ◌<◌, List, [], ◌∷◌, ◌++◌, length, take, drop, Option, none,
  some, Bool, true, false, ◌&&◌, ◌||◌, not, ltb, leb, if◌then◌else◌, ◌==◌, nat_eq, ◌≡◌, refl, ap,
  ◌∙◌, arith, All, take-append, drop-append, length-take, length-drop, length-append, subst,
  append_nil,
}
use dicode_relay.Client.Identity.Der.{trim, pad, trim_and_pad, der_sequence, p1363_to_der}

-- The number that bytes stand for, the first the highest.
abbrev pub value_from : ℕ → List ℕ → ℕ
value_from acc [] = acc
value_from acc (b ∷ bs) = value_from (256 * acc + b) bs

abbrev pub value : List ℕ → ℕ
value bs = value_from 0 bs

-- The contents of a DER integer: not empty, not negative, and with a zero in front only before a byte
-- of 128 or more.
unfoldable pub is_minimal : List ℕ → Bool
is_minimal [] = false
is_minimal (x ∷ []) = ltb x 128
is_minimal (x ∷ y ∷ rest) = ltb x 128 && (not (x == 0) || leb 128 y)

unfoldable pub read_integer : List ℕ → Option (ℕ × List ℕ)
read_integer (tag ∷ n ∷ rest) =
    if tag == 0x02 && ltb n 128 && leb n (length rest) && is_minimal (take n rest)
    then some (value (take n rest), drop n rest)
    else none
read_integer _ = none

unfoldable pub read_last : ℕ → Option (ℕ × List ℕ) → Option (ℕ × ℕ)
read_last r (some (s, [])) = some (r, s)
read_last r _ = none

unfoldable pub read_second : Option (ℕ × List ℕ) → Option (ℕ × ℕ)
read_second (some (r, rest)) = read_last r (read_integer rest)
read_second none = none

-- A sequence of two integers and nothing else.
unfoldable pub read_signature : List ℕ → Option (ℕ × ℕ)
read_signature (tag ∷ n ∷ rest) =
    if tag == 0x30 && ltb n 128 && (n == length rest) then read_second (read_integer rest) else none
read_signature _ = none

abbrev pub AreBytes : List ℕ → Type 0
AreBytes = All (λ b. b < 256)

take-AreBytes : (n : ℕ) (bs : List ℕ) → AreBytes bs → AreBytes (take n bs)
take-AreBytes zero bs h = tt
take-AreBytes (suc n) [] h = tt
take-AreBytes (suc n) (b ∷ bs) h = (h.0, take-AreBytes n bs h.1)

drop-AreBytes : (n : ℕ) (bs : List ℕ) → AreBytes bs → AreBytes (drop n bs)
drop-AreBytes zero bs h = h
drop-AreBytes (suc n) [] h = tt
drop-AreBytes (suc n) (b ∷ bs) h = drop-AreBytes n bs h.1

-- Trimmed bytes: as short, the same number, and a leading zero only alone.
trim_lem :
    (x : ℕ) (xs : List ℕ)
    → AreBytes (x ∷ xs)
    → (y : ℕ) × (ys : List ℕ) × (trim (x ∷ xs) ≡ y ∷ ys)
      × (length ys ≤ length xs)
      × (value (y ∷ ys) ≡ value (x ∷ xs))
      × AreBytes (y ∷ ys)
      × ((y ≡ 0) → ys ≡ [])
unfolding trim
trim_lem x [] h = (x, [], refl, omega arith, refl, h, λ e. refl)
trim_lem zero (z ∷ rest) h =
    let r = trim_lem z rest h.1 in (r.0, r.1, r.2, ground (arith, r.3), r.4, r.5, r.6)
trim_lem (suc x) (z ∷ rest) h =
    (suc x, z ∷ rest, ground arith, omega arith, refl, h, λ e. ground arith)

-- Padded bytes: a byte of 128 or more gets a zero in front.
pad_lem :
    (y : ℕ) (ys : List ℕ)
    → y < 256
    → ((y ≡ 0) → ys ≡ [])
    → (is_minimal (pad (y ∷ ys)) ≡ true)
      × (value (pad (y ∷ ys)) ≡ value (y ∷ ys))
      × (length (pad (y ∷ ys)) ≤ 2 + length ys)
unfolding pad is_minimal
pad_lem y [] h m = ground arith
pad_lem y (z ∷ zs) h m = ground arith

-- An integer's bytes: minimal, of the same value, at most one byte longer.
trim_and_pad_lem :
    (x : ℕ) (xs : List ℕ)
    → AreBytes (x ∷ xs)
    → (is_minimal (trim_and_pad (x ∷ xs)) ≡ true)
      × (value (trim_and_pad (x ∷ xs)) ≡ value (x ∷ xs))
      × (length (trim_and_pad (x ∷ xs)) ≤ 2 + length xs)
unfolding trim_and_pad
trim_and_pad_lem x xs h =
    let r = trim_lem x xs h in
    let p = pad_lem r.0 r.1 r.5.0 r.6 in
    (
      ap is_minimal (ap pad r.2) ∙ p.0,
      ap value (ap pad r.2) ∙ p.1 ∙ r.4,
      rw r.2 (omega (arith, p.2, r.3)),
    )

read_integer_lem :
    (p rest : List ℕ)
    → is_minimal p ≡ true
    → length p < 128
    → read_integer (0x02 ∷ length p % 256 ∷ (p ++ rest)) ≡ some (value p, rest)
unfolding read_integer
read_integer_lem p rest m n =
    let e : length p % 256 ≡ length p = omega arith in
    let short : ltb (length p) 128 ≡ true = ground arith in
    let within : leb (length p) (length p + length rest) ≡ true = ground arith in
    rw (e, take-append p rest, drop-append p rest, length-append p rest, m, short, within)

-- A half of a signature: bytes as many as there are, not none.
half_lem :
    (bs : List ℕ)
    → AreBytes bs
    → length bs ≡ 32
    → (is_minimal (trim_and_pad bs) ≡ true)
      × (value (trim_and_pad bs) ≡ value bs)
      × (length (trim_and_pad bs) ≤ 33)
half_lem [] h n = absurd (omega arith)
half_lem (x ∷ xs) h n = let r = trim_and_pad_lem x xs h in (r.0, r.1, omega (arith, r.2))

-- Reading back two integers.
read_signature-der_sequence :
    (r s : List ℕ)
    → is_minimal r ≡ true
    → is_minimal s ≡ true
    → length r ≤ 33
    → length s ≤ 33
    → read_signature (der_sequence r s) ≡ some (value r, value s)
unfolding read_signature read_second read_last der_sequence
read_signature-der_sequence r s mr ms nr ns =
    let n : (length r + length s + 4) % 256 ≡ length r + length s + 4 = omega arith in
    let short : ltb (length r + length s + 4) 128 ≡ true = ground arith in
    let whole : (length r + length s + 4 == suc (suc (length r + suc (suc (length s))))) ≡ true =
      ground arith in
    let last : read_integer (0x02 ∷ length s % 256 ∷ s) ≡ some (value s, []) =
      subst (λ k. read_integer (0x02 ∷ length s % 256 ∷ k) ≡ some (value s, [])) (append_nil s)
        (read_integer_lem s [] ms (omega arith)) in
    rw (
      n,
      length-append r (0x02 ∷ length s % 256 ∷ s),
      short,
      whole,
      read_integer_lem r (0x02 ∷ length s % 256 ∷ s) mr (omega arith),
      last,
    )

-- The encoding of a raw signature of 64 bytes reads back as the two numbers of its halves, so the two
-- never lose a zero that matters and never read as negative.
pub read_signature-p1363_to_der :
    (p1363 : List ℕ)
    → AreBytes p1363
    → length p1363 ≡ 64
    → read_signature (p1363_to_der p1363)
      ≡ some (value (take 32 p1363), value (take 32 (drop 32 p1363)))
unfolding p1363_to_der
read_signature-p1363_to_der p1363 h n =
    let l : length (take 32 p1363) ≡ 32 = omega (arith, length-take 32 p1363) in
    let l' : length (take 32 (drop 32 p1363)) ≡ 32 =
      omega (arith, length-take 32 (drop 32 p1363), length-drop 32 p1363) in
    let r = half_lem (take 32 p1363) (take-AreBytes 32 p1363 h) l in
    let s =
      half_lem (take 32 (drop 32 p1363))
        (take-AreBytes 32 (drop 32 p1363) (drop-AreBytes 32 p1363 h)) l' in
    rw (
      read_signature-der_sequence (trim_and_pad (take 32 p1363))
          (trim_and_pad (take 32 (drop 32 p1363))) r.0 s.0 r.2 s.2,
      r.1,
      s.1,
    )
