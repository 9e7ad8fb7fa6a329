-- ===== src/RoleContext/Store/Refinement.antt =====
-- The log of a role as its callers see it: a list of origins without repetition, to which an
-- append adds an origin that is not there yet.
use agent_router.Prelude.{
  ℕ, suc, Bool, true, false, Option, none, some, List, [], ◌∷◌, ◌++◌, ◌&&◌, not, ◌==◌, ◌≡◌, inl,
  inr, refl, arith, subst, sym, ap, ◌∙◌, any, one, select, map, map-append, append-nil, is_some,
  Bool-cases, Option-cases, eq_of_==, if◌then◌else◌,
}
use agent_router.Prelude.Laws.{select-append}
use agent_router.Protocol.{Ident}
use agent_router.RoleContext.Portable.{Verdict, assert_portable}
use agent_router.RoleContext.Store.{
  Context, Reply, done, throws, NewEntry, Appended, Tools, Session, LogEntry, Origin, append, write,
  same_entry, insert_entry, entry_at, origin_of, origin_eq, is_blank, ensure_role, ensure_session,
  head_of, with_head,
}
use agent_router.RoleContext.Store.Runs.{Call}
use agent_router.RoleContext.Store.Ensures.{
  Readies, append-eq-done, ensure_role-Readies, ensure_session-Readies,
}

-- The tables as callers see them: what each role's log holds, in order.
unfoldable pub log_of : Context → Ident → List Origin
log_of s r = map (λ x. x.origin) (select (λ x. x.role_id == r) s.entries)

abbrev pub has : Origin → List Origin → Bool
has o os = any (λ p. origin_eq p o) os

abbrev pub add : Origin → List Origin → List Origin
add o os = if has o os then os else os ++ o ∷ []

-- What an append does to what callers see.
unfoldable pub put : Ident → Origin → (Ident → List Origin) → Ident → List Origin
put r o log k = if k == r then add o (log k) else log k

abbrev pub is_fine : Verdict → Bool
is_fine Verdict.fine = true
is_fine (Verdict.bad e) = false

abbrev pub known_session : List Session → Ident → Option Ident → Bool
known_session es r none = true
known_session es r (some e) = any (λ x. x.id == e && x.role_id == r) es

-- Whether an entry may be appended, which the log has no part in.
unfoldable pub accepted : Tools → List Ident → List Session → NewEntry → Bool
accepted w rs es e =
    is_fine (assert_portable w.limits e.content)
    && is_fine (assert_portable w.limits e.metadata)
    && (not (is_blank e.source_kind) && not (is_blank e.source_id))
    && any (λ r. r == e.role_id) rs
    && known_session es e.role_id e.source_work_session_id

-- The entry is found where the log of its role has its origin.
one-has :
    (w : Tools) (e : NewEntry) (xs : List LogEntry)
    → is_some (one (same_entry w e) xs)
      ≡ has (origin_of w e) (map (λ x. x.origin) (select (λ x. x.role_id == e.role_id) xs))
unfolding one select any
one-has w e [] = refl
one-has w e (x ∷ xs) = elim (Bool-cases (x.role_id == e.role_id)) [
  | inl own ↦ ground (arith, one-has w e xs)
  | inr other ↦ ground (arith, one-has w e xs)
]

log_of-entry :
    (w : Tools) (e : NewEntry) (n : ℕ) (s : Context) (k : Ident)
    → log_of (insert_entry w e n s) k
      ≡ (if k == e.role_id then log_of s k ++ origin_of w e ∷ [] else log_of s k)
unfolding log_of
log_of-entry w e n s k =
    ap (map (λ x. x.origin)) (select-append (λ x. x.role_id == k) s.entries (entry_at w e n ∷ []))
    ∙ map-append (λ (x : LogEntry). x.origin) (select (λ x. x.role_id == k) s.entries)
        (select (λ x. x.role_id == k) (entry_at w e n ∷ []))
    ∙ last w e n k (map (λ x. x.origin) (select (λ x. x.role_id == k) s.entries))
  where
    last :
        (w : Tools) (e : NewEntry) (n : ℕ) (k : Ident) (os : List Origin)
        → os
            ++ map (λ x. x.origin) (select (λ (x : LogEntry). x.role_id == k) (entry_at w e n ∷ []))
          ≡ (if k == e.role_id then os ++ origin_of w e ∷ [] else os)
    last w e n k os = elim (Bool-cases (k == e.role_id)) [
      | inl own ↦ unfold select in ground arith
      | inr other ↦ unfold select in ground (arith, append-nil os)
    ]

put_there :
    (r : Ident) (o : Origin) (log : Ident → List Origin) (k : Ident)
    → has o (log r) ≡ true
    → put r o log k ≡ log k
unfolding put
put_there r o log k h = elim (Bool-cases (k == r)) [
  | inl own ↦
      (let here = subst (λ x. has o (log x) ≡ true) (sym (eq_of_== k r own)) h in
        rw (own, here) refl)
  | inr other ↦ rw other refl
]

put_new :
    (r : Ident) (o : Origin) (log : Ident → List Origin) (k : Ident)
    → has o (log r) ≡ false
    → put r o log k ≡ (if k == r then log k ++ o ∷ [] else log k)
unfolding put
put_new r o log k h = elim (Bool-cases (k == r)) [
  | inl own ↦
      (let here = subst (λ x. has o (log x) ≡ false) (sym (eq_of_== k r own)) h in
        rw (own, here) refl)
  | inr other ↦ rw other refl
]

log_of-has :
    (w : Tools) (e : NewEntry) (s : Context)
    → is_some (one (same_entry w e) s.entries) ≡ has (origin_of w e) (log_of s e.role_id)
unfolding log_of
log_of-has w e s = one-has w e s.entries

write-log_of :
    (w : Tools) (e : NewEntry) (s : Context) {a : Appended} {s' : Context}
    → write w e s ≡ (a, s')
    → (a.inserted ≡ not (has (origin_of w e) (log_of s e.role_id)))
      × ((k : Ident) → log_of s' k ≡ put e.role_id (origin_of w e) (log_of s) k)
write-log_of w e s {a} {s'} h = elim (Option-cases (one (same_entry w e) s.entries)) [
  | inr (x, f) ↦
      let same : s' ≡ s = ground arith in
      let there = sym (log_of-has w e s) ∙ ap is_some f in
      let old : a.inserted ≡ false = ground arith in
      (
        old ∙ sym (ap not there),
        λ k.
            ap (λ d. log_of d k) same
            ∙ sym (put_there e.role_id (origin_of w e) (log_of s) k there),
      )
  | inl f ↦
      let same : s' ≡ insert_entry w e (suc (head_of e.role_id s)) s = ground arith in
      let there = sym (log_of-has w e s) ∙ ap is_some f in
      let fresh : a.inserted ≡ true = ground arith in
      (
        fresh ∙ sym (ap not there),
        λ k.
            ap (λ d. log_of d k) same
            ∙ log_of-entry w e (suc (head_of e.role_id s)) s k
            ∙ sym (put_new e.role_id (origin_of w e) (log_of s) k there),
      )
]

pub log_of-Readies : {s s' : Context} → Readies s s' → log_of s' ≡ log_of s
unfolding log_of
log_of-Readies r =
    ap (λ xs k. map (λ (x : LogEntry). x.origin) (select (λ x. x.role_id == k) xs)) r.entries

pub append-log_of :
    (w : Tools) (e : NewEntry) (s : Context) {a : Appended} {s' : Context}
    → append w e s ≡ done (a, s')
    → (a.inserted ≡ not (has (origin_of w e) (log_of s e.role_id)))
      × ((k : Ident) → log_of s' k ≡ put e.role_id (origin_of w e) (log_of s) k)
append-log_of w e s {a} {s'} h =
    let (s₁, s₂, e₁, e₂, e₃) = append-eq-done w e s h in
    let (r₁, _, _) = ensure_role-Readies e.role_id s e₁ in
    let (r₂, _) = ensure_session-Readies e.role_id e.source_work_session_id s₁ e₂ in
    subst
      (λ log.
        (a.inserted ≡ not (has (origin_of w e) (log e.role_id)))
        × ((k : Ident) → log_of s' k ≡ put e.role_id (origin_of w e) log k))
      (log_of-Readies r₂ ∙ log_of-Readies r₁) (write-log_of w e s₂ e₃)

abbrev pub is_done {ℓ} : {A : Type ℓ} → Reply A → Bool
is_done (done a) = true
is_done (throws e) = false

ensure_session-known_session :
    (r : Ident) (session : Option Ident) (s : Context)
    → is_done (ensure_session r session s) ≡ known_session s.sessions r session
unfolding ensure_session
ensure_session-known_session r none s = refl
ensure_session-known_session r (some e) s = ground arith

-- An append returns exactly for the entries that are accepted.
pub append-accepted :
    (w : Tools) (e : NewEntry) (s : Context)
    → is_done (append w e s) ≡ accepted w s.roles s.sessions e
unfolding append ensure_role accepted
append-accepted w e s =
    let k =
      ensure_session-known_session e.role_id e.source_work_session_id
        (record s { heads = with_head e.role_id s.heads }) in
    ground (arith, k)

-- What callers see after some calls: each accepted entry is put into the log of its role, in order;
-- the other calls are not seen there.
unfoldable pub see :
    Tools → List Ident → List Session → Call → (Ident → List Origin) → Ident → List Origin
see w rs es (Call.append_entry e) log =
    if accepted w rs es e then put e.role_id (origin_of w e) log else log
see w rs es (Call.make_plan mode role_id target op) log = log
see w rs es (Call.prepare_plan p) log = log
see w rs es (Call.confirm_operation op native f c) log = log
see w rs es (Call.reconcile_operation op markers) log = log

unfoldable pub see_all :
    Tools → List Ident → List Session → List Call → (Ident → List Origin) → Ident → List Origin
see_all w rs es [] log = log
see_all w rs es (c ∷ cs) log = see_all w rs es cs (see w rs es c log)
