-- ===== src/Core/Recover/Laws.antt =====
-- After a recovery that succeeds no run is live, and a second one does nothing.
use agent_router.Prelude.{
  Bool, true, false, some, List, [], ◌∷◌, ◌≡◌, refl, arith, one, any, select, update_where, ◌==◌,
  ◌&&◌, not, inl, inr, subst, sym, ap, ◌∙◌, ==-refl, if◌then◌else◌,
}
use agent_router.Prelude.Laws.{select_of_any-false, one-update_where, update_one}
use agent_router.Protocol.{Ident, ok, Result-cases}
use agent_router.Store.{Db, Run, RunState, RoleSlot, Reason}
use agent_router.Core.Finish.{set_run_state}
use agent_router.Core.Settle.{issue}
use agent_router.Core.Dispatch.Start.{is_live}
use agent_router.Core.Dispatch.Gates.{set_reason}
use agent_router.Core.Recover.{recover, recover_runs, recover_run, suspect}
use agent_router.Core.Recover.Effects.{recover_run-eq-ok}

abbrev listed : List Run → Run → Bool
listed rs q = any (λ r. r.id == q.id) rs

-- The live runs are among those that are still to be handled.
abbrev Covers : List Run → List Run → Type 0
Covers rs runs = any (λ q. is_live q.state && not (listed rs q)) runs ≡ false

Covers-update :
    (r : Run) (rs runs : List Run)
    → Covers (r ∷ rs) runs
    → Covers rs (update_where (λ q. q.id == r.id) (set_run_state RunState.unknown) runs)
unfolding any update_where
Covers-update r rs [] h = refl
Covers-update r rs (q ∷ runs) h = ground (arith, Covers-update r rs runs)

listed_mono : (rs : List Run) (r q : Run) → listed rs q ≡ true → listed (r ∷ rs) q ≡ true
unfolding any
listed_mono rs r q h = ground arith

Covers-mono : (rs runs : List Run) (r : Run) → Covers rs runs → Covers (r ∷ rs) runs
unfolding any
Covers-mono rs [] r h = refl
Covers-mono rs (q ∷ runs) r h = ground (arith, listed_mono rs r q, Covers-mono rs runs r)

Covers-select : (runs : List Run) → Covers (select (λ r. is_live r.state) runs) runs
unfolding any select
Covers-select [] = refl
Covers-select (q ∷ runs) = ground (
  arith,
  Covers-select runs,
  Covers-mono (select (λ r. is_live r.state) runs) runs q,
  ==-refl q.id,
)

Covers-nil : (runs : List Run) → Covers [] runs → any (λ r. is_live r.state) runs ≡ false
unfolding any
Covers-nil [] h = refl
Covers-nil (q ∷ runs) h = ground (arith, Covers-nil runs)

-- The runs and the slots after one run is handled.
recover_run-frame :
    (r : Run) (s : Db) {s' : Db}
    → recover_run r s ≡ ok s'
    → (s'.runs ≡ (suspect r s).runs) × (s'.role_slots ≡ (suspect r s).role_slots)
unfolding issue
recover_run-frame r s {s'} h =
    let (s₁, how, e) = recover_run-eq-ok r s h in
    elim how [
      | inl same ↦ (
        ap (λ (d : Db). d.runs) e ∙ ap (λ (d : Db). d.runs) same,
        ap (λ (d : Db). d.role_slots) e ∙ ap (λ (d : Db). d.role_slots) same,
      )
      | inr t ↦ (
        ap (λ (d : Db). d.runs) e ∙ ap (λ (d : Db). d.runs) t.rest,
        ap (λ (d : Db). d.role_slots) e ∙ ap (λ (d : Db). d.role_slots) t.rest,
      )
    ]

recover_runs-Covers :
    (rs : List Run) (s : Db) {s' : Db}
    → Covers rs s.runs
    → recover_runs rs s ≡ ok s'
    → any (λ r. is_live r.state) s'.runs ≡ false
unfolding recover_runs
recover_runs-Covers [] s {s'} c h =
    let e : s ≡ s' = ground arith in
    subst (λ (d : Db). any (λ r. is_live r.state) d.runs ≡ false) e (Covers-nil s.runs c)
recover_runs-Covers (r ∷ rs) s {s'} c h = elim (Result-cases (recover_run r s)) [
  | inr (_, e) ↦ absurd (ground arith)
  | inl (s₁, e) ↦
      let rest : recover_runs rs s₁ ≡ ok s' = ground arith in
      let f = recover_run-frame r s e in
      recover_runs-Covers rs s₁ (subst (Covers rs) (sym f.0) (Covers-update r rs s.runs c)) rest
]

-- After a recovery no run is live: each that was is now unknown.
pub recover_stops :
    (s : Db) {s' : Db} → recover s ≡ ok s' → any (λ r. is_live r.state) s'.runs ≡ false
unfolding recover
recover_stops s h =
    recover_runs-Covers (select (λ r. is_live r.state) s.runs) s (Covers-select s.runs) h

-- A second recovery changes nothing.
pub recover_twice : (s : Db) {s' : Db} → recover s ≡ ok s' → recover s' ≡ ok s'
unfolding recover recover_runs
recover_twice s {s'} h =
    let none_live = select_of_any-false (λ r. is_live r.state) s'.runs (recover_stops s h) in
    ap (λ rs. recover_runs rs s') none_live

-- A recovery keeps every slot and the run in it.
recover_runs-slot :
    (rs : List Run) (s : Db) {s' : Db} (role_id : Ident) (slot : RoleSlot)
    → recover_runs rs s ≡ ok s'
    → one (λ t. t.role_id == role_id) s.role_slots ≡ some slot
    → (slot' : RoleSlot) × (one (λ t. t.role_id == role_id) s'.role_slots ≡ some slot')
      × (slot'.active_run_id ≡ slot.active_run_id)
unfolding recover_runs
recover_runs-slot [] s {s'} role_id slot h found =
    let e : s ≡ s' = ground arith in
    (
      slot,
      subst (λ (d : Db). one (λ t. t.role_id == role_id) d.role_slots ≡ some slot) e found,
      refl,
    )
recover_runs-slot (r ∷ rs) s {s'} role_id slot h found = elim (Result-cases (recover_run r s)) [
  | inr (_, e) ↦ absurd (ground arith)
  | inl (s₁, e) ↦
      let rest : recover_runs rs s₁ ≡ ok s' = ground arith in
      let f = recover_run-frame r s e in
      let reason = set_reason (some Reason.reconciling) in
      let u =
        one-update_where (λ t. t.role_id == role_id) (λ p. p.role_id == r.role_id) reason
          s.role_slots (λ t. refl) in
      let now : one (λ t. t.role_id == role_id) s₁.role_slots
          ≡ some (if slot.role_id == r.role_id then reason slot else slot) =
        ap (one (λ t. t.role_id == role_id)) f.1
        ∙ u
        ∙ ap (update_one (λ p. p.role_id == r.role_id) reason) found in
      let (slot', there, same) =
        recover_runs-slot rs s₁ role_id (if slot.role_id == r.role_id then reason slot else slot)
          rest now in
      (slot', there, same ∙ ground arith)
]

pub recover-slot :
    (s : Db) {s' : Db} (role_id : Ident) (slot : RoleSlot)
    → recover s ≡ ok s'
    → one (λ t. t.role_id == role_id) s.role_slots ≡ some slot
    → (slot' : RoleSlot) × (one (λ t. t.role_id == role_id) s'.role_slots ≡ some slot')
      × (slot'.active_run_id ≡ slot.active_run_id)
unfolding recover
recover-slot s role_id slot h found =
    recover_runs-slot (select (λ r. is_live r.state) s.runs) s role_id slot h found
