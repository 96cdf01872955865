-- ===== src/Shared/Preimage/Injective.antt =====
-- The signed byte sequences determine their fields, and the two kinds are never the same.
use dicode_relay.Common.{
  ℕ, List, [], ◌∷◌, ◌++◌, ◌+◌, ◌*◌, ◌/◌, ◌%◌, ◌^◌, ◌<◌, length, take, drop, take-append,
  drop-append, ◌≡◌, ◌≢◌, refl, sym, ap, ◌∙◌, arith, All,
}
use dicode_relay.Shared.Preimage.{
  uint32_be, uint64_be, length_prefixed, prefixed_all, signed_preimage, delivery_preimage,
  auth_request_label, delivery_label,
}

-- The reader of a length-prefixed field.
abbrev value : ℕ → ℕ → ℕ → ℕ → ℕ
value a b c d = a * 2 ^ 24 + b * 2 ^ 16 + c * 2 ^ 8 + d

abbrev unprefix : List ℕ → List ℕ × List ℕ
unprefix (a ∷ b ∷ c ∷ d ∷ rest) = (take (value a b c d) rest, drop (value a b c d) rest)
unprefix _ = ([], [])

value_lem :
    (n : ℕ)
    → n < 2 ^ 32
    → value (n / 2 ^ 24 % 256) (n / 2 ^ 16 % 256) (n / 2 ^ 8 % 256) (n % 256) ≡ n
value_lem n h = omega arith

unprefix-length_prefixed :
    (field rest : List ℕ)
    → length field < 2 ^ 32
    → unprefix (length_prefixed field ++ rest) ≡ (field, rest)
unfolding length_prefixed uint32_be
unprefix-length_prefixed field rest h = rw (value_lem (length field) h) (
    ap (λ x. (x, drop (length field) (field ++ rest))) (take-append field rest)
    ∙ ap (λ x. (field, x)) (drop-append field rest))

length_prefixed_injective :
    (x y r s : List ℕ)
    → length x < 2 ^ 32
    → length y < 2 ^ 32
    → length_prefixed x ++ r ≡ length_prefixed y ++ s
    → (x ≡ y) × (r ≡ s)
length_prefixed_injective x y r s h k e =
    let p = sym (unprefix-length_prefixed x r h) ∙ ap unprefix e ∙ unprefix-length_prefixed y s k in
    (ap (λ z. z.0) p, ap (λ z. z.1) p)

abbrev pub AreShort : List (List ℕ) → Type 0
AreShort = All (λ field. length field < 2 ^ 32)

prefixed_all_injective :
    (xs ys : List (List ℕ)) (r s : List ℕ)
    → length xs ≡ length ys
    → AreShort xs
    → AreShort ys
    → prefixed_all xs r ≡ prefixed_all ys s
    → (xs ≡ ys) × (r ≡ s)
unfolding prefixed_all
prefixed_all_injective [] [] r s n h k e = (refl, e)
prefixed_all_injective [] (y ∷ ys) r s n h k e = absurd (ground arith)
prefixed_all_injective (x ∷ xs) [] r s n h k e = absurd (ground arith)
prefixed_all_injective (x ∷ xs) (y ∷ ys) r s n h k e =
    let p = length_prefixed_injective x y (prefixed_all xs r) (prefixed_all ys s) h.0 k.0 e in
    let q = prefixed_all_injective xs ys r s (omega arith) h.1 k.1 p.1 in (ground arith, q.1)

cancel : (l xs ys : List ℕ) → l ++ xs ≡ l ++ ys → xs ≡ ys
cancel l xs ys e = sym (drop-append l xs) ∙ ap (drop (length l)) e ∙ drop-append l ys

uint64_injective : (a b : ℕ) → a < 2 ^ 64 → b < 2 ^ 64 → uint64_be a ≡ uint64_be b → a ≡ b
unfolding uint64_be uint32_be
uint64_injective a b h k e = ground arith

-- Two auth requests whose decoded fields are shorter than 2^32 bytes and whose timestamps are below
-- 2^64 have the same signed bytes only if all five fields agree.
pub signed_preimage_injective :
    (s c u p s' c' u' p' : List ℕ) (t t' : ℕ)
    → AreShort (s ∷ c ∷ u ∷ p ∷ [])
    → AreShort (s' ∷ c' ∷ u' ∷ p' ∷ [])
    → t < 2 ^ 64
    → t' < 2 ^ 64
    → signed_preimage s c u p t ≡ signed_preimage s' c' u' p' t'
    → (s ≡ s') × (c ≡ c') × (u ≡ u') × (p ≡ p') × (t ≡ t')
unfolding signed_preimage
signed_preimage_injective s c u p s' c' u' p' t t' h k i j e =
    let q =
      prefixed_all_injective (s ∷ c ∷ u ∷ p ∷ []) (s' ∷ c' ∷ u' ∷ p' ∷ []) (uint64_be t)
        (uint64_be t') refl h k (cancel auth_request_label _ _ e) in
    (ground arith, ground arith, ground arith, ground arith, uint64_injective t t' i j q.1)

-- Two delivery envelopes whose fields are shorter than 2^32 bytes have the same signed bytes only if
-- all five fields agree.
pub delivery_preimage_injective :
    (t s e c n t' s' e' c' n' : List ℕ)
    → AreShort (t ∷ s ∷ e ∷ c ∷ n ∷ [])
    → AreShort (t' ∷ s' ∷ e' ∷ c' ∷ n' ∷ [])
    → delivery_preimage t s e c n ≡ delivery_preimage t' s' e' c' n'
    → (t ≡ t') × (s ≡ s') × (e ≡ e') × (c ≡ c') × (n ≡ n')
unfolding delivery_preimage
delivery_preimage_injective t s e c n t' s' e' c' n' h k eq =
    let q =
      prefixed_all_injective (t ∷ s ∷ e ∷ c ∷ n ∷ []) (t' ∷ s' ∷ e' ∷ c' ∷ n' ∷ []) [] [] refl h k
        (cancel delivery_label _ _ eq) in
    (ground arith, ground arith, ground arith, ground arith, ground arith)

-- No auth request has the signed bytes of a delivery envelope.
pub preimages_apart :
    (s c u p t n e x y : List ℕ) (time : ℕ)
    → signed_preimage s c u p time ≢ delivery_preimage t n e x y
unfolding signed_preimage delivery_preimage
preimages_apart s c u p t n e x y time eq = absurd (ground (arith, ap (take 14) eq))
