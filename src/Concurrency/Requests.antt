-- ===== src/Concurrency/Requests.antt =====
-- The lock modes and the request queues of core/controller/concurrency/lock_manager.h, and the
-- loops over a queue that the methods of `LockManager` share.
use csql.Base.{
  ℕ, ◌≡◌, refl, Bool, true, false, ◌&&◌, ◌||◌, Option, none, some, List, [], ◌∷◌, arith, ◌==◌,
  if◌then◌else◌,
}

pub data LockMode : Type 0 where
  shared exclusive intention_shared intention_exclusive shared_intention_exclusive : LockMode

abbrev pub is_exclusive : LockMode → Bool
is_exclusive LockMode.exclusive = true
is_exclusive _ = false

pub record LockRequest : Type 0 where
  pub txn_id : ℕ
  pub lock_mode : LockMode

abbrev pub request : ℕ → LockMode → LockRequest
request t m = record { txn_id = t; lock_mode = m }

-- The loop of `hasConflict` over one queue: the first request of another transaction that
-- cannot be held together with `mode`.
unfoldable pub first_conflict : ℕ → LockMode → List LockRequest → Option ℕ
first_conflict txn mode [] = none
first_conflict txn mode (req ∷ reqs) =
    let rest = first_conflict txn mode reqs in
    if req.txn_id == txn
    then rest
    else if is_exclusive req.lock_mode || is_exclusive mode
    then some req.txn_id
    else rest

-- The end of `lockTable` and `lockRow`: the transaction's request is upgraded in place, or a
-- new one goes to the end.
unfoldable pub grant : ℕ → LockMode → List LockRequest → List LockRequest
grant txn mode [] = request txn mode ∷ []
grant txn mode (req ∷ reqs) =
    if req.txn_id == txn
    then (if is_exclusive mode then record req { lock_mode = mode } else req) ∷ reqs
    else req ∷ grant txn mode reqs

-- `requestQueue.remove(req)` at the first request of the transaction.
unfoldable pub withdraw : ℕ → List LockRequest → List LockRequest
withdraw txn [] = []
withdraw txn (req ∷ reqs) = if req.txn_id == txn then reqs else req ∷ withdraw txn reqs

unfoldable pub holds : ℕ → List LockRequest → Bool
holds txn [] = false
holds txn (req ∷ reqs) = req.txn_id == txn || holds txn reqs

unfoldable pub holds_exclusive : ℕ → List LockRequest → Bool
holds_exclusive txn [] = false
holds_exclusive txn (req ∷ reqs) =
    (req.txn_id == txn && is_exclusive req.lock_mode) || holds_exclusive txn reqs

-- A transaction has one request in a queue at most.
abbrev pub Distinct : List LockRequest → Type 0
Distinct [] = Unit
Distinct (req ∷ reqs) = (holds req.txn_id reqs ≡ false) × Distinct reqs

pub holds-grant :
    (t txn : ℕ) (mode : LockMode) (reqs : List LockRequest)
    → holds t (grant txn mode reqs) ≡ (txn == t || holds t reqs)
unfolding holds grant
holds-grant t txn mode [] = refl
holds-grant t txn mode (req ∷ reqs) = ground (arith, holds-grant t txn mode reqs)

pub holds_exclusive-grant_self :
    (txn : ℕ) (reqs : List LockRequest)
    → holds_exclusive txn (grant txn LockMode.exclusive reqs) ≡ true
unfolding holds_exclusive grant
holds_exclusive-grant_self txn [] = ground arith
holds_exclusive-grant_self txn (req ∷ reqs) = ground (arith, holds_exclusive-grant_self txn reqs)

-- A grant never takes another transaction's lock away or weakens it.
pub holds_exclusive-grant_ne :
    (t txn : ℕ) (mode : LockMode) (reqs : List LockRequest)
    → (txn == t) ≡ false
    → holds_exclusive t (grant txn mode reqs) ≡ holds_exclusive t reqs
unfolding holds_exclusive grant
holds_exclusive-grant_ne t txn mode [] h = ground arith
holds_exclusive-grant_ne t txn mode (req ∷ reqs) h =
    ground (arith, holds_exclusive-grant_ne t txn mode reqs)

pub grant-Distinct :
    (txn : ℕ) (mode : LockMode) (reqs : List LockRequest)
    → Distinct reqs
    → Distinct (grant txn mode reqs)
unfolding grant holds
grant-Distinct txn mode [] d = ground arith
grant-Distinct txn mode (req ∷ reqs) d =
    ground (arith, grant-Distinct txn mode reqs d.1, holds-grant req.txn_id txn mode reqs)

pub holds-withdraw_ne :
    (t txn : ℕ) (reqs : List LockRequest)
    → (txn == t) ≡ false
    → holds t (withdraw txn reqs) ≡ holds t reqs
unfolding holds withdraw
holds-withdraw_ne t txn [] h = refl
holds-withdraw_ne t txn (req ∷ reqs) h = ground (arith, holds-withdraw_ne t txn reqs)

holds-withdraw-le :
    (t txn : ℕ) (reqs : List LockRequest)
    → holds t reqs ≡ false
    → holds t (withdraw txn reqs) ≡ false
unfolding holds withdraw
holds-withdraw-le t txn [] h = refl
holds-withdraw-le t txn (req ∷ reqs) h = ground (arith, holds-withdraw-le t txn reqs)

pub withdraw-Distinct :
    (txn : ℕ) (reqs : List LockRequest) → Distinct reqs → Distinct (withdraw txn reqs)
unfolding withdraw
withdraw-Distinct txn [] d = tt
withdraw-Distinct txn (req ∷ reqs) d =
    ground (arith, withdraw-Distinct txn reqs d.1, holds-withdraw-le req.txn_id txn reqs)

-- On a queue of distinct transactions one removal is enough.
pub holds-withdraw_self :
    (txn : ℕ) (reqs : List LockRequest) → Distinct reqs → holds txn (withdraw txn reqs) ≡ false
unfolding holds withdraw
holds-withdraw_self txn [] d = refl
holds-withdraw_self txn (req ∷ reqs) d = ground (arith, holds-withdraw_self txn reqs d.1)

pub withdraw_absent :
    (txn : ℕ) (reqs : List LockRequest) → holds txn reqs ≡ false → withdraw txn reqs ≡ reqs
unfolding holds withdraw
withdraw_absent txn [] h = refl
withdraw_absent txn (req ∷ reqs) h = ground (arith, withdraw_absent txn reqs)

pub withdraw-nil : (txn : ℕ) → withdraw txn [] ≡ []
unfolding withdraw
withdraw-nil txn = refl

pub holds-nil : (txn : ℕ) → holds txn [] ≡ false
unfolding holds
holds-nil txn = refl
