-- ===== src/Operation/Retention.antt =====
-- operationManager.ts: what `retainOperations` drops and keeps.
use pinout.Prelude.{
  ℕ, ◌≡◌, refl, Bool, true, false, not, ◌||◌, Option, none, some, [], ◌∷◌, IssuedId, issued_id_eq,
  nat_eq, arith, leb, length,
}
use pinout.Prelude.Map.{Map, get, retain}
use pinout.Snapshot.{Operation}
use pinout.Operation.{
  OperationManager, is_retained, is_terminal_object, drop_oldest, retain_operations,
}

is_retained_found :
    (m : OperationManager) (now ref : ℕ) (found : Option Operation)
    → get ref m.objects ≡ found
    → is_terminal_object m.objects ref ≡ false
    → is_retained m now ref ≡ true
unfolding is_retained
is_retained_found m now ref none e a = rw (e, is_retained) refl
is_retained_found m now ref (some op) e a = ground arith

pub is_retained-active :
    (m : OperationManager) (now ref : ℕ)
    → is_terminal_object m.objects ref ≡ false
    → is_retained m now ref ≡ true
is_retained-active m now ref a = is_retained_found m now ref (get ref m.objects) refl a

get-retain_first :
    (p : ℕ → Bool) (id : IssuedId) (ref : ℕ) (ops : Map IssuedId ℕ)
    → get id ops ≡ some ref
    → p ref ≡ true
    → get id (retain p ops) ≡ some ref
unfolding get retain
get-retain_first p id ref [] e h = ground arith
get-retain_first p id ref ((j, r) ∷ ops) e h = ground (arith, get-retain_first p id ref ops)

get-drop_oldest :
    (objects : Map ℕ Operation) (most : ℕ) (id : IssuedId) (ref : ℕ) (ops : Map IssuedId ℕ)
    → get id ops ≡ some ref
    → is_terminal_object objects ref ≡ false
    → get id (drop_oldest objects most ops) ≡ some ref
unfolding get drop_oldest
get-drop_oldest objects most id ref [] e h = ground arith
get-drop_oldest objects most id ref ((j, r) ∷ ops) e h =
    ground (arith, get-drop_oldest objects most id ref ops)

-- `retainOperations` drops no operation that is still queued, running or cancelling.
pub get-retain_operations :
    (m : OperationManager) (now ref : ℕ) (id : IssuedId)
    → get id m.operations ≡ some ref
    → is_terminal_object m.objects ref ≡ false
    → get id (retain_operations m now).operations ≡ some ref
unfolding retain_operations
get-retain_operations m now ref id e a =
    get-drop_oldest m.objects m.max_operations id ref (retain (is_retained m now) m.operations)
      (get-retain_first (is_retained m now) id ref m.operations e (is_retained-active m now ref a))
      a

-- The operations after `drop_oldest` are within the limit, or the oldest one is active.
abbrev pub at_limit : Map ℕ Operation → ℕ → Map IssuedId ℕ → Bool
at_limit objects most [] = true
at_limit objects most ((id, ref) ∷ ops) =
    leb (length ((id, ref) ∷ ops)) most || not (is_terminal_object objects ref)

at_limit-drop_oldest :
    (objects : Map ℕ Operation) (most : ℕ) (ops : Map IssuedId ℕ)
    → at_limit objects most (drop_oldest objects most ops) ≡ true
unfolding drop_oldest
at_limit-drop_oldest objects most [] = refl
at_limit-drop_oldest objects most ((id, ref) ∷ ops) =
    ground (arith, at_limit-drop_oldest objects most ops)

-- Behind `retainOperations` at most `maxOperations` operations are listed, unless the oldest one is
-- still active.
pub retain_operations-at_limit :
    (m : OperationManager) (now : ℕ)
    → at_limit m.objects m.max_operations (retain_operations m now).operations ≡ true
unfolding retain_operations
retain_operations-at_limit m now = at_limit-drop_oldest m.objects m.max_operations _
