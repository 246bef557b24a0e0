-- ===== src/Operation/Listeners.antt =====
-- operationManager.ts: subscribing to the progress of an operation, and unsubscribing twice.
use pinout.Prelude.{
  ℕ, ◌+◌, ◌≡◌, ◌≢◌, refl, sym, ap, ◌∙◌, not, none, List, [], ◌∷◌, arith, nat_eq, IssuedId,
  issued_id_eq, keep, or_default, nat_beq,
}
use pinout.Prelude.Map.{Map, get, set, delete, get-set_self, get-set_ne, get-delete_self}
use pinout.Operation.Watch.{
  ProgressListeners, subscribe_progress, unsubscribe_progress, listeners_of,
}

module _ (id : IssuedId) (p : ProgressListeners) where
  -- The next set was never used.
  abbrev pub IsFresh : Type 0
  IsFresh = get p.next_set p.sets ≡ none

  abbrev first_set : ℕ → ProgressListeners
  first_set listener = record {
    sets = set p.next_set (listener ∷ []) p.sets;
    next_set = p.next_set + 1;
    by_operation = set id p.next_set p.by_operation;
  }

  subscribe_first :
      (listener : ℕ)
      → get id p.by_operation ≡ none
      → IsFresh
      → subscribe_progress p id listener ≡ (first_set listener, p.next_set)
  unfolding subscribe_progress
  subscribe_first listener e f = rw (e, f, subscribe_progress) refl

  unsubscribe_last :
      (ref listener : ℕ)
      → keep (λ l. not (nat_beq l listener)) (or_default (get ref p.sets) []) ≡ []
      → unsubscribe_progress p id ref listener
        ≡ record p { sets = set ref [] p.sets; by_operation = delete id p.by_operation }
  unfolding unsubscribe_progress
  unsubscribe_last ref listener e = rw (e, unsubscribe_progress) refl

  listeners_of-first_set : (listener : ℕ) → listeners_of (first_set listener) id ≡ listener ∷ []
  unfolding listeners_of
  listeners_of-first_set listener =
      rw
        (
          get-set_self id p.next_set p.by_operation,
          listeners_of,
          get-set_self p.next_set (listener ∷ []) p.sets,
        )
        refl

  listeners_of-deleted :
      (sets : Map ℕ (List ℕ))
      → listeners_of (record p { sets = sets; by_operation = delete id p.by_operation }) id ≡ []
  unfolding listeners_of
  listeners_of-deleted sets = rw (get-delete_self id p.by_operation, listeners_of) refl

-- A listener unsubscribes twice, and in between another one subscribes to the same operation, which
-- has no other listeners: the second time the other one is dropped, and hears nothing any more.
pub second_unsubscribe_drops_other :
    (p : ProgressListeners) (id : IssuedId) (first other : ℕ)
    → get id p.by_operation ≡ none
    → get p.next_set p.sets ≡ none
    → get (p.next_set + 1) p.sets ≡ none
    → let (subscribed, ref) = subscribe_progress p id first in
      let left = unsubscribe_progress subscribed id ref first in
      let (joined, _) = subscribe_progress left id other in
      (listeners_of joined id ≡ other ∷ [])
      × (listeners_of (unsubscribe_progress joined id ref first) id ≡ [])
second_unsubscribe_drops_other p id first other e f g =
    let n = p.next_set in
    let p1 = first_set id p first in
    let own : keep (λ l. not (nat_beq l first)) (or_default (get n p1.sets) []) ≡ [] =
      ap (λ o. keep (λ l. not (nat_beq l first)) (or_default o []))
        (get-set_self n (first ∷ []) p.sets)
      ∙ ground arith in
    let p2 : ProgressListeners = record p1 {
      sets = set n [] p1.sets;
      by_operation = delete id p1.by_operation;
    } in
    let apart : n ≢ n + 1 = λ h. absurd (omega arith) in
    let fresh : get (n + 1) p2.sets ≡ none =
      get-set_ne n (n + 1) [] p1.sets apart ∙ get-set_ne n (n + 1) (first ∷ []) p.sets apart ∙ g in
    let p3 = first_set id p2 other in
    let gone : keep (λ l. not (nat_beq l first)) (or_default (get n p3.sets) []) ≡ [] =
      ap (λ o. keep (λ l. not (nat_beq l first)) (or_default o []))
        (get-set_ne (n + 1) n (other ∷ []) p2.sets (λ h. apart (sym h))
          ∙ get-set_self n [] p1.sets) in
    rw
      (
        subscribe_first id p first e f,
        unsubscribe_last id p1 n first own,
        subscribe_first id p2 other (get-delete_self id p1.by_operation) fresh,
        unsubscribe_last id p3 n first gone,
      )
      (listeners_of-first_set id p2 other, listeners_of-deleted id p3 (set n [] p3.sets))
