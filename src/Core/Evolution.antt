-- ===== src/Core/Evolution.antt =====
-- How the tasks of two states are related: none is lost, and each has moved along the transitions
-- of packages/domain/index.ts.
use agent_router.Prelude.{
  true, Option, some, List, ◌++◌, ◌≡◌, refl, ◌==◌, arith, one, update_where, Option-cases,
  Bool-cases, inl, inr, subst, sym, if◌then◌else◌,
}
use agent_router.Prelude.Laws.{one-append, one-update_where, one-holds}
use agent_router.Protocol.{Ident, ok}
use agent_router.Domain.{TaskState, allowed, assert_transition}
use agent_router.Store.{Db, Task}
use agent_router.Core.Transition.{transition, set_state}

-- A chain of transitions from a state.
pub data Leads (a : TaskState) : TaskState → Type 0 where
  stay : Leads a a
  go : {b c : TaskState} → Leads a b → allowed b c ≡ true → Leads a c

pub Leads-trans : {a b c : TaskState} → Leads a b → Leads b c → Leads a c
Leads-trans l stay = l
Leads-trans l (go m h) = go (Leads-trans l m) h

abbrev pub find_task : Ident → List Task → Option Task
find_task id = one (λ t. t.id == id)

-- Every task that is found in the first table is found in the second.
pub record Evolves (xs ys : List Task) : Type 0 where
  pub at :
      (id : Ident) (t : Task)
      → find_task id xs ≡ some t
      → (u : Task) × (find_task id ys ≡ some u) × Leads t.state u.state

pub Evolves-refl : (xs : List Task) → Evolves xs xs
Evolves-refl xs = record { at = λ id t h. (t, h, stay) }

pub Evolves-trans : {xs ys zs : List Task} → Evolves xs ys → Evolves ys zs → Evolves xs zs
Evolves-trans e f = record {
  at = λ id t h.
      let (u, hu, lu) = e.at id t h in let (v, hv, lv) = f.at id u hu in (v, hv, Leads-trans lu lv);
}

pub Evolves-append : (xs ys : List Task) → Evolves xs (xs ++ ys)
Evolves-append xs ys = record { at = λ id t h. (t, one-append (λ t. t.id == id) xs ys h, stay) }

-- The row that an identifier finds is the one found by another that it equals.
same_row :
    (xs : List Task) (id j : Ident) (t u : Task)
    → find_task id xs ≡ some t
    → find_task j xs ≡ some u
    → (u.id == id) ≡ true
    → t ≡ u
same_row xs id j t u found h hit =
    let e : j ≡ id = ground (arith, one-holds (λ t. t.id == j) xs {a = u} h) in
    cc (subst (λ k. find_task k xs ≡ some u) e h)

-- An update of one task along the table.
moved :
    (xs : List Task) (id j : Ident) (to : TaskState) (t u : Task)
    → find_task id xs ≡ some t
    → allowed t.state to ≡ true
    → find_task j xs ≡ some u
    → (v : Task) × (some (if u.id == id then set_state to u else u) ≡ some v)
      × Leads u.state v.state
moved xs id j to t u found legal h = elim (Bool-cases (u.id == id)) [
  | inr miss ↦ rw miss (u, refl, stay)
  | inl hit ↦ rw hit (set_state to u, refl, go stay (rw (← same_row xs id j t u found h hit) legal))
]

Evolves-set_state :
    (xs : List Task) (id : Ident) (to : TaskState) (t : Task)
    → find_task id xs ≡ some t
    → allowed t.state to ≡ true
    → Evolves xs (update_where (λ t. t.id == id) (set_state to) xs)
Evolves-set_state xs id to t found legal = record {
  at = λ j u h.
      rw (one-update_where (λ t. t.id == j) (λ t. t.id == id) (set_state to) xs (λ t. refl), h)
        (moved xs id j to t u found legal h);
}

-- `transition` changes the tasks alone, and one of them along the table.
pub record Transits (s s' : Db) : Type 0 where
  pub tasks : Evolves s.tasks s'.tasks
  pub rest : s' ≡ record s { tasks = s'.tasks }

-- What a transition that succeeds has found and written.
pub transition-eq-ok :
    (id : Ident) (to : TaskState) (s : Db) {s' : Db}
    → transition id to s ≡ ok s'
    → (t : Task) × (find_task id s.tasks ≡ some t)
      × (allowed t.state to ≡ true)
      × (s' ≡ record s { tasks = update_where (λ t. t.id == id) (set_state to) s.tasks })
unfolding transition assert_transition
transition-eq-ok id to s {s'} h = elim (Option-cases (find_task id s.tasks)) [
  | inl e ↦ absurd (ground arith)
  | inr (t, e) ↦ (t, e, ground arith, ground arith)
]

pub transition-Transits :
    (id : Ident) (to : TaskState) (s : Db) {s' : Db} → transition id to s ≡ ok s' → Transits s s'
transition-Transits id to s {s'} h =
    let (t, found, legal, e) = transition-eq-ok id to s h in
    rw e (record { tasks = Evolves-set_state s.tasks id to t found legal; rest = refl })

-- The task that a transition names is found again, in the new state and otherwise the same.
pub transition-reaches :
    (id : Ident) (to : TaskState) (s : Db) {s' : Db}
    → transition id to s ≡ ok s'
    → (t : Task) × (find_task id s.tasks ≡ some t)
      × (allowed t.state to ≡ true)
      × (find_task id s'.tasks ≡ some (set_state to t))
transition-reaches id to s {s'} h =
    let (t, found, legal, e) = transition-eq-ok id to s h in
    let hit : (t.id == id) ≡ true = one-holds (λ t. t.id == id) s.tasks found in
    let there =
      one-update_where (λ t. t.id == id) (λ t. t.id == id) (set_state to) s.tasks (λ t. refl) in
    let now_there : find_task id (update_where (λ t. t.id == id) (set_state to) s.tasks)
        ≡ some (set_state to t) =
      ground arith in
    (
      t,
      found,
      legal,
      subst (λ (d : Db). find_task id d.tasks ≡ some (set_state to t)) (sym e) now_there,
    )
