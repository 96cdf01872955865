-- ===== src/Client/Aggregate/Laws.antt =====
-- What the aggregate status says of the endpoints.
use dicode_relay.Common.{
  String, List, [], ◌∷◌, Option, none, some, Bool, true, false, if◌then◌else◌, ◌≡◌, ◌≢◌, refl, ap,
  ◌∙◌, ◌⊎◌, inl, inr, arith, All, List-cases, Bool-cases,
}
use dicode_relay.Client.Endpoint.{RelayEndpointStatus}
use dicode_relay.Client.Aggregate.{
  RelayStatus, filter_connected, recent_from, most_recently_connected, max_last_connected_at,
  representative, is_up, field_of, aggregate_status,
}
use dicode_relay.Client.Aggregate.Recency.{IsIn, NotAfter, recent_from_lem, max_from_lem}

first_connected :
    (e : RelayEndpointStatus) (rest list : List RelayEndpointStatus)
    → filter_connected list ≡ e ∷ rest
    → IsIn e list × (e.connected ≡ true)
unfolding filter_connected
first_connected e rest [] h = absurd (ground arith)
first_connected e rest (x ∷ xs) h = elim (Bool-cases x.connected) [
  | inl c ↦ ground arith
  | inr c ↦ ground (arith, first_connected e rest xs)
]

none_connected :
    (list : List RelayEndpointStatus)
    → filter_connected list ≡ []
    → All (λ e. e.connected ≡ false) list
unfolding filter_connected
none_connected [] h = tt
none_connected (x ∷ xs) h = ground (arith, none_connected xs)

-- The representative endpoint of an aggregate status: its URL, key and error.
abbrev pub Shows : RelayStatus → RelayEndpointStatus → Option String → Type 0
Shows s e err =
    (s.hook_base_url ≡ e.hook_base_url) × (s.broker_pubkey ≡ e.broker_pubkey) × (s.last_error ≡ err)

representative_down :
    (x : RelayEndpointStatus) (xs : List RelayEndpointStatus)
    → filter_connected (x ∷ xs) ≡ []
    → representative (x ∷ xs) ≡ some (recent_from x xs)
unfolding representative most_recently_connected
representative_down x xs n = rw (n, representative) refl

representative_up :
    (e : RelayEndpointStatus) (rest list : List RelayEndpointStatus)
    → filter_connected list ≡ e ∷ rest
    → representative list ≡ some e
unfolding representative
representative_up e rest list n = rw (n, representative) refl

connected_of :
    (e : RelayEndpointStatus) (list : List RelayEndpointStatus)
    → All (λ x. x.connected ≡ false) list
    → IsIn e list
    → e.connected ≡ false
connected_of e [] h i = absurd i
connected_of e (x ∷ xs) h (inl p) = ground (arith, h.0)
connected_of e (x ∷ xs) h (inr i) = connected_of e xs h.1 i

aggregate_status-Shows :
    (list : List RelayEndpointStatus) (multi : Bool) (e : RelayEndpointStatus)
    → representative list ≡ some e
    → Shows (aggregate_status list multi) e (if e.connected then none else e.last_error)
unfolding aggregate_status field_of
aggregate_status-Shows list multi e h = (
  ap (field_of (λ x. x.hook_base_url)) h,
  ap (field_of (λ x. x.broker_pubkey)) h,
  ap (field_of (λ x. if x.connected then none else x.last_error)) h,
)

aggregate_status_connected :
    (list : List RelayEndpointStatus) (multi : Bool)
    → (aggregate_status list multi).connected ≡ is_up (filter_connected list)
unfolding aggregate_status
aggregate_status_connected list multi = refl

-- Where some endpoint is up, the aggregate is connected and shows the URL and key of an endpoint that
-- is up, without an error. Where none is, it is not connected and shows the URL, key and error of an
-- endpoint that no other has been connected after.
pub aggregate_status_cases :
    (list : List RelayEndpointStatus) (multi : Bool)
    → list ≢ []
    → let s = aggregate_status list multi in
      ((s.connected ≡ true)
        × ((e : RelayEndpointStatus) × IsIn e list × (e.connected ≡ true) × Shows s e none))
      ⊎ ((s.connected ≡ false)
          × All (λ e. e.connected ≡ false) list
          × ((e : RelayEndpointStatus) × IsIn e list
              × All (λ x. NotAfter x.last_connected_at e.last_connected_at) list
              × Shows s e e.last_error))
unfolding is_up
aggregate_status_cases [] multi h = absurd (h refl)
aggregate_status_cases (x ∷ xs) multi h =
    let list = x ∷ xs in
    let up = aggregate_status_connected list multi in
    elim (List-cases (filter_connected list)) [
      | inl n ↦
          let e = recent_from x xs in
          let r = recent_from_lem x xs in
          let down = none_connected list n in
          let shown = aggregate_status-Shows list multi e (representative_down x xs n) in
          let off = connected_of e list down r.0 in
          inr (
            up ∙ ap is_up n,
            down,
            (
              e,
              r.0,
              (r.1, r.2),
              (shown.0, shown.1, shown.2 ∙ ap (λ b. if b then none else e.last_error) off),
            ),
          )
      | inr c ↦
          let f = first_connected c.0 c.1 list c.2 in
          let shown = aggregate_status-Shows list multi c.0 (representative_up c.0 c.1 list c.2) in
          inl (
            up ∙ ap is_up c.2,
            (
              c.0,
              f.0,
              f.1,
              (shown.0, shown.1, shown.2 ∙ ap (λ b. if b then none else c.0.last_error) f.1),
            ),
          )
    ]

-- The aggregate's time of the last connection is that of some endpoint, and no endpoint has a later
-- one; it is missing only where no endpoint has been connected.
pub aggregate_status_last_connected_at :
    (list : List RelayEndpointStatus) (multi : Bool)
    → let t = (aggregate_status list multi).last_connected_at in
      All (λ e. NotAfter e.last_connected_at t) list
      × ((t ≡ none) ⊎ ((e : RelayEndpointStatus) × IsIn e list × (t ≡ e.last_connected_at)))
unfolding aggregate_status max_last_connected_at
aggregate_status_last_connected_at list multi =
    ((max_from_lem none list).1, (max_from_lem none list).2)
