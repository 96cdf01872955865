-- ===== src/Client/Aggregate/Recency.antt =====
-- The folds over the times of the endpoints: the endpoint that was connected last, and its time.
use dicode_relay.Common.{
  ℕ, List, [], ◌∷◌, ◌≤◌, Option, none, some, Bool, true, false, if◌then◌else◌, ◌≡◌, refl, subst,
  sym, ap, ◌∙◌, ◌⊎◌, inl, inr, arith, All, Bool-cases, ltb,
}
use dicode_relay.Client.Endpoint.{RelayEndpointStatus}
use dicode_relay.Client.Aggregate.{is_newer, recent_from, later, max_from}

abbrev pub IsIn : RelayEndpointStatus → List RelayEndpointStatus → Type 0
IsIn e [] = ⊥
IsIn e (x ∷ xs) = (e ≡ x) ⊎ IsIn e xs

-- A time that is missing is before all others.
abbrev pub NotAfter : Option ℕ → Option ℕ → Type 0
NotAfter none b = Unit
NotAfter (some a) none = ⊥
NotAfter (some a) (some b) = a ≤ b

NotAfter-trans : (a b c : Option ℕ) → NotAfter a b → NotAfter b c → NotAfter a c
NotAfter-trans none b c h k = tt
NotAfter-trans (some a) none c h k = absurd h
NotAfter-trans (some a) (some b) none h k = absurd k
NotAfter-trans (some a) (some b) (some c) h k = omega arith

NotAfter-refl : (a : Option ℕ) → NotAfter a a
NotAfter-refl none = tt
NotAfter-refl (some a) = omega arith

newer : (a b : Option ℕ) → is_newer a b ≡ true → NotAfter b a
unfolding is_newer
newer none b h = absurd (ground arith)
newer (some a) none h = tt
newer (some a) (some b) h = ground arith

not_newer : (a b : Option ℕ) → is_newer a b ≡ false → NotAfter a b
unfolding is_newer
not_newer none b h = tt
not_newer (some a) none h = absurd (ground arith)
not_newer (some a) (some b) h = ground arith

AreNotAfter : Option ℕ → List RelayEndpointStatus → Type 0
AreNotAfter t = All (λ e. NotAfter e.last_connected_at t)

recent_from_nil : (best : RelayEndpointStatus) → recent_from best [] ≡ best
unfolding recent_from
recent_from_nil best = refl

recent_from_cons :
    (best e : RelayEndpointStatus) (es : List RelayEndpointStatus) (b : Bool)
    → is_newer e.last_connected_at best.last_connected_at ≡ b
    → recent_from best (e ∷ es) ≡ recent_from (if b then e else best) es
unfolding recent_from
recent_from_cons best e es b h = ap (λ c. recent_from (if c then e else best) es) h

abbrev IsMostRecent : RelayEndpointStatus → List RelayEndpointStatus → RelayEndpointStatus → Type 0
IsMostRecent best es r =
    IsIn r (best ∷ es)
    × NotAfter best.last_connected_at r.last_connected_at
    × All (λ e. NotAfter e.last_connected_at r.last_connected_at) es

pub recent_from_lem :
    (best : RelayEndpointStatus) (es : List RelayEndpointStatus)
    → IsMostRecent best es (recent_from best es)
recent_from_lem best [] =
    subst (IsMostRecent best []) (sym (recent_from_nil best))
      (inl refl, NotAfter-refl best.last_connected_at, tt)
recent_from_lem best (e ∷ es) =
    let a = e.last_connected_at in
    let b = best.last_connected_at in
    elim (Bool-cases (is_newer a b)) [
      | inl n ↦
          let r = recent_from_lem e es in
          let t = (recent_from e es).last_connected_at in
          subst (IsMostRecent best (e ∷ es)) (sym (recent_from_cons best e es true n))
            (inr r.0, NotAfter-trans b a t (newer a b n) r.1, (r.1, r.2))
      | inr n ↦
          let r = recent_from_lem best es in
          let t = (recent_from best es).last_connected_at in
          subst (IsMostRecent best (e ∷ es)) (sym (recent_from_cons best e es false n)) (
            elim r.0 [ inl k ↦ inl k | inr k ↦ inr (inr k) ],
            r.1,
            (NotAfter-trans a b t (not_newer a b n) r.1, r.2),
          )
    ]

later_lem :
    (m t : Option ℕ)
    → NotAfter m (later m t) × NotAfter t (later m t) × ((later m t ≡ m) ⊎ (later m t ≡ t))
unfolding later
later_lem none none = (tt, tt, inl refl)
later_lem (some m) none = (omega arith, tt, inl refl)
later_lem none (some t) = (tt, omega arith, inr refl)
later_lem (some m) (some t) = elim (Bool-cases (ltb m t)) [
  | inl h ↦ rw h (ground arith, omega arith, inr refl)
  | inr h ↦ rw h (omega arith, ground arith, inl refl)
]

pub max_from_lem :
    (m : Option ℕ) (es : List RelayEndpointStatus)
    → NotAfter m (max_from m es)
      × All (λ e. NotAfter e.last_connected_at (max_from m es)) es
      × ((max_from m es ≡ m)
          ⊎ ((e : RelayEndpointStatus) × IsIn e es × (max_from m es ≡ e.last_connected_at)))
unfolding max_from
max_from_lem m [] = (NotAfter-refl m, tt, inl refl)
max_from_lem m (e ∷ es) =
    let l = later_lem m e.last_connected_at in
    let r = max_from_lem (later m e.last_connected_at) es in
    (
      NotAfter-trans m _ _ l.0 r.0,
      (NotAfter-trans e.last_connected_at _ _ l.1 r.0, r.1),
      elim r.2 [
        | inl a ↦ elim l.2 [ inl b ↦ inl (a ∙ b) | inr b ↦ inr (e, inl refl, a ∙ b) ]
        | inr a ↦ inr (a.0, inr a.1, a.2)
      ],
    )
