-- ===== src/Relay/Forwards/Counts.antt =====
-- What the pending map, the counts and the timers say of each other.
use dicode_relay.Common.{
  ℕ, suc, zero, ◌+◌, ◌-◌, String, List, [], ◌∷◌, ◌++◌, Option, none, some, Bool, if◌then◌else◌,
  ◌==◌, Dict, get, put, delete, keys, IsDistinct, or_else, string_eq, ◌≡◌, refl, arith, count,
  get-put, get-delete, count-put_new, count-delete, put-IsDistinct, delete-IsDistinct, eq_iff,
  ==_refl,
}
use dicode_relay.Relay.State.{PendingRequest}
use dicode_relay.Relay.Pending.{drop_count, without}

abbrev pub issued_to : String → PendingRequest → Bool
issued_to uuid req = req.uuid == uuid

-- A count as the map stores it: no entry at zero.
abbrev pub stored : ℕ → Option ℕ
stored zero = none
stored (suc n) = some (suc n)

pub record Agrees (pending : Dict String PendingRequest) (counts : Dict String ℕ)
    (timers : List String) : Type 0 where
  pub distinct : IsDistinct pending
  pub counted : (uuid : String) → get uuid counts ≡ stored (count (issued_to uuid) pending)
  pub armed : timers ≡ keys pending

pub or_else-stored : (n : ℕ) → or_else (stored n) 0 ≡ n
or_else-stored zero = refl
or_else-stored (suc n) = refl

stored-suc : (n : ℕ) → stored (n + 1) ≡ some (n + 1)
stored-suc n = ground arith

get-drop_count :
    (uuid j : String) (m : Dict String ℕ)
    → get j (drop_count uuid m)
      ≡ (if uuid == j then stored (or_else (get uuid m) 0 - 1) else get j m)
unfolding drop_count
get-drop_count uuid j m =
    ground
      (arith, eq_iff uuid j, get-delete uuid j m, get-put uuid j (or_else (get uuid m) 0 - 1) m)

module _ {ℓ} {V : Type ℓ} where
  pub keys-put_new :
      (k : String) (v : V) (m : Dict String V)
      → get k m ≡ none
      → keys (put k v m) ≡ keys m ++ k ∷ []
  unfolding put get
  keys-put_new k v [] h = refl
  keys-put_new k v ((j, w) ∷ m) h = ground (arith, keys-put_new k v m)

  pub keys-delete : (k : String) (m : Dict String V) → keys (delete k m) ≡ without k (keys m)
  unfolding delete
  keys-delete k [] = refl
  keys-delete k ((j, w) ∷ m) = ground (arith, keys-delete k m)

pub Agrees-add :
    (id : String) (req : PendingRequest) (pending : Dict String PendingRequest)
    (counts : Dict String ℕ) (timers : List String)
    → get id pending ≡ none
    → Agrees pending counts timers
    → Agrees
        (put id req pending)
        (put req.uuid (or_else (get req.uuid counts) 0 + 1) counts)
        (timers ++ id ∷ [])
Agrees-add id req pending counts timers fresh v = record {
  distinct = put-IsDistinct id req pending v.distinct;
  counted = λ u. ground (
    arith,
    get-put req.uuid u (or_else (get req.uuid counts) 0 + 1) counts,
    count-put_new (issued_to u) id req pending,
    eq_iff req.uuid u,
    v.counted u,
    v.counted req.uuid,
    stored-suc (count (issued_to u) pending),
    or_else-stored (count (issued_to u) pending),
  );
  armed = ground (arith, v.armed, keys-put_new id req pending);
}

pub Agrees-remove :
    (id : String) (req : PendingRequest) (pending : Dict String PendingRequest)
    (counts : Dict String ℕ) (timers : List String)
    → get id pending ≡ some req
    → Agrees pending counts timers
    → Agrees (delete id pending) (drop_count req.uuid counts) (without id timers)
Agrees-remove id req pending counts timers found v = record {
  distinct = delete-IsDistinct id pending v.distinct;
  counted = λ u. ground (
    arith,
    get-drop_count req.uuid u counts,
    count-delete (issued_to u) id req pending v.distinct found,
    eq_iff req.uuid u,
    v.counted u,
    v.counted req.uuid,
    or_else-stored (count (issued_to u) pending),
  );
  armed = ground (arith, v.armed, keys-delete id pending);
}

without_comm :
    (x y : String) (ts : List String) → without x (without y ts) ≡ without y (without x ts)
without_comm x y [] = refl
without_comm x y (t ∷ ts) = ground (arith, without_comm x y ts)

abbrev pub without_all : List String → List String → List String
without_all [] ts = ts
without_all (x ∷ xs) ts = without_all xs (without x ts)

without_all-without :
    (xs : List String) (y : String) (ts : List String)
    → without_all xs (without y ts) ≡ without y (without_all xs ts)
without_all-without [] y ts = refl
without_all-without (x ∷ xs) y ts =
    rw (without_comm x y ts) (without_all-without xs y (without x ts))

pub without_all_self : (xs : List String) → without_all xs xs ≡ []
without_all_self [] = refl
without_all_self (x ∷ xs) =
    rw (==_refl x) (rw (without_all-without xs x xs, without_all_self xs) refl)
