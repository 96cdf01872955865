-- ===== src/Client/Forwarder/Safety.antt =====
-- What reaches the local daemon, and what comes back.
use dicode_relay.Common.{
  append_assoc, append_nil, ℕ, zero, suc, ◌+◌, ◌-◌, ◌≤◌, List, [], ◌∷◌, ◌++◌, some, none, Option,
  Bool, ◌&&◌, if◌then◌else◌, leb, false, ltb, length, take, ◌≡◌, refl, sym, ap, ◌∙◌, arith, inl,
  inr, Bool-cases, length-append,
}
use dicode_relay.Client.Forwarder.{max_body, read_body}

-- The chunks of a response in one.
abbrev pub joined : List (List ℕ) → List ℕ
joined [] = []
joined (chunk ∷ chunks) = chunk ++ joined chunks

take_all : (n : ℕ) (xs : List ℕ) → length xs ≤ n → take n xs ≡ xs
take_all zero xs h = ground arith
take_all (suc n) [] h = refl
take_all (suc n) (x ∷ xs) h = ap (◌∷◌ x) (take_all n xs (omega arith))

take_past :
    (n : ℕ) (xs ys : List ℕ) → length xs ≤ n → take n (xs ++ ys) ≡ xs ++ take (n - length xs) ys
take_past n [] ys h = ap (λ k. take k ys) (omega arith)
take_past zero (x ∷ xs) ys h = absurd (ground arith)
take_past (suc n) (x ∷ xs) ys h =
    ap (◌∷◌ x) (take_past n xs ys (omega arith) ∙ ap (λ k. xs ++ take k ys) (omega arith))

take_within : (n : ℕ) (xs ys : List ℕ) → n ≤ length xs → take n (xs ++ ys) ≡ take n xs
take_within zero xs ys h = refl
take_within (suc n) [] ys h = absurd (ground arith)
take_within (suc n) (x ∷ xs) ys h = ap (◌∷◌ x) (take_within n xs ys (omega arith))

-- What a body is read as: none where its reading breaks off within the first 5 MiB, else these.
abbrev pub body_read : Bool → List ℕ → Option (List ℕ)
body_read breaks body =
    if breaks && leb (length body) max_body then none else some (take max_body body)

read_body_lem :
    (breaks : Bool) (buf : List ℕ) (chunks : List (List ℕ))
    → length buf ≤ max_body
    → read_body breaks buf chunks ≡ body_read breaks (buf ++ joined chunks)
unfolding read_body
read_body_lem breaks buf [] h = rw (append_nil buf, take_all max_body buf h) (ground arith)
read_body_lem breaks buf (chunk ∷ chunks) h =
    elim (Bool-cases (ltb max_body (length buf + length chunk))) [
      | inl big ↦
          let whole = buf ++ (chunk ++ joined chunks) in
          let past : leb (length whole) max_body ≡ false =
            rw (length-append buf (chunk ++ joined chunks), length-append chunk (joined chunks))
              (ground arith) in
          let cut : buf ++ take (max_body - length buf) chunk ≡ take max_body whole = sym (
            take_past max_body buf (chunk ++ joined chunks) h
            ∙ ap (λ x. buf ++ x)
                (take_within (max_body - length buf) chunk (joined chunks) (ground arith))) in
          rw (big, past) (ground (arith, cut))
      | inr small ↦ rw small (
          read_body_lem breaks (buf ++ chunk) chunks (ground (arith, length-append buf chunk))
          ∙ ap (body_read breaks) (append_assoc buf chunk (joined chunks)))
    ]

-- The body that is read is the first 5 MiB of the response's body, however it is cut into chunks, and
-- none is read where the reading breaks off before more than these have come.
pub read_body-nil :
    (breaks : Bool) (chunks : List (List ℕ))
    → read_body breaks [] chunks ≡ body_read breaks (joined chunks)
read_body-nil breaks chunks = read_body_lem breaks [] chunks (omega arith)
