-- ===== src/Operation/Lifecycle.antt =====
-- operationManager.ts: where a task stands and what status its operation has, in every history.
use pinout.Prelude.{
  ℕ, ◌+◌, ◌≤◌, ◌≡◌, ap, subst, ◌∙◌, Bool, true, not, ◌||◌, none, some, nat_eq, issued_id_eq, arith,
  Bool-cases, inl, inr, eq_of_beq, ne_of_beq, ◌==◌,
}
use pinout.Prelude.Map.{get, set, get-set_ne}
use pinout.Prelude.Map.Laws.{get-set_cases}
use pinout.Snapshot.{OperationStatus, Operation, is_terminal_operation_status}
use pinout.Operation.{Task, Phase, scheduled, before_hook, in_run, after_hook, over}
use pinout.Operation.Requests.{is_queued}
use pinout.Operation.Heap.{Heap}

-- The statuses that go with each phase of the task.
abbrev pub fits : Phase → OperationStatus → Bool
fits scheduled s = is_queued s || is_terminal_operation_status s
fits before_hook s = is_queued s || is_terminal_operation_status s
fits in_run s = not (is_queued s)
fits (after_hook _) s = not (is_queued s)
fits over s = is_terminal_operation_status s

pub fits_terminal :
    (p : Phase) (s : OperationStatus) → is_terminal_operation_status s ≡ true → fits p s ≡ true
unfolding is_terminal_operation_status
fits_terminal scheduled s h = ground arith
fits_terminal before_hook s h = ground arith
fits_terminal in_run s h = ground arith
fits_terminal (after_hook _) s h = ground arith
fits_terminal over s h = h

-- Every task fits its operation, and tasks stand under references that were given out.
pub record IsValid (h : Heap) : Type 0 where
  pub fitting :
      (ref : ℕ) (op : Operation) (task : Task)
      → get ref h.objects ≡ some op
      → get ref h.tasks ≡ some task
      → fits task.phase op.status ≡ true
  pub fresh : (ref : ℕ) → h.next ≤ ref → get ref h.tasks ≡ none

module _ (h : Heap) (v : IsValid h) (ref : ℕ) where
  -- An operation changes, and every phase that its task can be in fits the new status.
  pub object-IsValid :
      (op : Operation)
      → ((task : Task) → get ref h.tasks ≡ some task → fits task.phase op.status ≡ true)
      → IsValid (record h { objects = set ref op h.objects })
  object-IsValid op f = record {
    fitting = λ r o t a b. elim (get-set_cases ref r op o h.objects a) [
      | inl (same, new) ↦
          subst (λ x. fits t.phase x.status ≡ true) new (f t (ap (λ k. get k h.tasks) same ∙ b))
      | inr (_, old) ↦ v.fitting r o t old b
    ];
    fresh = v.fresh;
  }

  set-fresh :
      (old task : Task)
      → get ref h.tasks ≡ some old
      → (r : ℕ) → h.next ≤ r
      → get r (set ref task h.tasks) ≡ none
  set-fresh old task e r le = elim (Bool-cases (ref == r)) [
    | inl s ↦ absurd (ground (arith, v.fresh r le, eq_of_beq ref r s))
    | inr s ↦ get-set_ne ref r task h.tasks (ne_of_beq ref r s) ∙ v.fresh r le
  ]

  -- A task changes, and its new phase fits the status that its operation has.
  pub task-IsValid :
      (old task : Task)
      → get ref h.tasks ≡ some old
      → ((op : Operation) → get ref h.objects ≡ some op → fits task.phase op.status ≡ true)
      → IsValid (record h { tasks = set ref task h.tasks })
  task-IsValid old task e f = record {
    fitting = λ r o t a b. elim (get-set_cases ref r task t h.tasks b) [
      | inl (same, new) ↦
          subst (λ x. fits x.phase o.status ≡ true) new (f o (ap (λ k. get k h.objects) same ∙ a))
      | inr (_, kept) ↦ v.fitting r o t a kept
    ];
    fresh = set-fresh old task e;
  }

  -- A task and its operation change together.
  pub both-IsValid :
      (old task : Task) (op : Operation)
      → get ref h.tasks ≡ some old
      → fits task.phase op.status ≡ true
      → IsValid (record h { objects = set ref op h.objects; tasks = set ref task h.tasks })
  both-IsValid old task op e f = record {
    fitting = λ r o t a b. elim (get-set_cases ref r op o h.objects a) [
      | inl (same, new) ↦ elim (get-set_cases ref r task t h.tasks b) [
        | inl (_, new_task) ↦ cc
        | inr (other, _) ↦ absurd (other same)
      ]
      | inr (other, kept) ↦ elim (get-set_cases ref r task t h.tasks b) [
        | inl (same, _) ↦ absurd (other same)
        | inr (_, kept_task) ↦ v.fitting r o t kept kept_task
      ]
    ];
    fresh = set-fresh old task e;
  }

-- A new operation under the next reference, with its task.
pub start-IsValid :
    (h : Heap) (op : Operation) (task : Task)
    → IsValid h
    → fits task.phase op.status ≡ true
    → IsValid (record {
      objects = set h.next op h.objects;
      tasks = set h.next task h.tasks;
      next = h.next + 1;
    })
start-IsValid h op task v f = record {
  fitting = λ r o t a b. elim (get-set_cases h.next r op o h.objects a) [
    | inl (same, new) ↦ elim (get-set_cases h.next r task t h.tasks b) [
      | inl (_, new_task) ↦ cc
      | inr (other, _) ↦ absurd (other same)
    ]
    | inr (other, kept) ↦ elim (get-set_cases h.next r task t h.tasks b) [
      | inl (same, _) ↦ absurd (other same)
      | inr (_, kept_task) ↦ v.fitting r o t kept kept_task
    ]
  ];
  fresh = λ r le.
      get-set_ne h.next r task h.tasks (λ e. absurd (omega (arith, e))) ∙ v.fresh r (omega arith);
}

-- A new operation under the next reference, without a task.
pub insert-IsValid :
    (h : Heap) (op : Operation)
    → IsValid h
    → IsValid (record { objects = set h.next op h.objects; tasks = h.tasks; next = h.next + 1 })
insert-IsValid h op v = record {
  fitting = λ r o t a b. elim (get-set_cases h.next r op o h.objects a) [
    | inl (same, _) ↦ absurd (ground (arith, v.fresh r (omega (arith, same))))
    | inr (_, kept) ↦ v.fitting r o t kept b
  ];
  fresh = λ r le. v.fresh r (omega arith);
}
