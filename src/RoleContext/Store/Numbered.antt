-- ===== src/RoleContext/Store/Numbered.antt =====
-- The numbers of the entries: `append` gives each new entry of a role the number after its head.
use agent_router.Prelude.{
  ℕ, zero, suc, ◌+◌, ◌<◌, true, Option, none, some, List, [], ◌∷◌, ◌++◌, ◌&&◌, ◌==◌, ltb, ◌≡◌, inl,
  inr, refl, arith, map, map-append, append-nil, one, any, select, Option-cases, Bool-cases,
  eq_of_==, update_where, ap, ◌∙◌, sym, subst, if◌then◌else◌,
}
use agent_router.Prelude.Laws.{one-update_where, update_one, one-holds, one-any-true, select-append}
use agent_router.Protocol.{Ident}
use agent_router.RoleContext.Store.{
  Context, done, Head, LogEntry, NewEntry, Appended, Tools, head_of, append, write, same_entry,
  insert_entry, entry_at, raise, seq_of,
}
use agent_router.RoleContext.Store.Ensures.{
  Readies, append-eq-done, ensure_role-Readies, ensure_session-Readies,
}

-- The numbers after `from`, in order.
unfoldable pub range : (from count : ℕ) → List ℕ
range from zero = []
range from (suc n) = suc from ∷ range (suc from) n

unfoldable pub numbers_of : Ident → List LogEntry → List ℕ
numbers_of r xs = map (λ x. x.context_seq) (select (λ x. x.role_id == r) xs)

-- The entries of every role are numbered from 1 to its head, in the order of the table.
unfoldable pub Numbered : Context → Type 0
Numbered s = (r : Ident) → numbers_of r s.entries ≡ range 0 (head_of r s)

range_last : (from n : ℕ) → range from (suc n) ≡ range from n ++ suc (from + n) ∷ []
unfolding range
range_last from zero = ap (λ k. suc k ∷ []) (omega arith)
range_last from (suc n) =
    ap (λ ks. suc from ∷ ks)
      (range_last (suc from) n ∙ ap (λ k. range (suc from) n ++ suc k ∷ []) (omega arith))

last_from_zero : (n : ℕ) → range 0 n ++ suc n ∷ [] ≡ range 0 (suc n)
last_from_zero n = ap (λ k. range 0 n ++ suc k ∷ []) (omega arith) ∙ sym (range_last 0 n)

numbers_of-append :
    (r : Ident) (xs ys : List LogEntry)
    → numbers_of r (xs ++ ys) ≡ numbers_of r xs ++ numbers_of r ys
unfolding numbers_of
numbers_of-append r xs ys =
    ap (map (λ x. x.context_seq)) (select-append (λ x. x.role_id == r) xs ys)
    ∙ map-append (λ (x : LogEntry). x.context_seq) (select (λ x. x.role_id == r) xs)
        (select (λ x. x.role_id == r) ys)

seq_of-raise :
    (a r n : ℕ) (hs : List Head)
    → any (λ h. h.role_id == a) hs ≡ true
    → seq_of (one (λ h. h.role_id == a) hs) < n
    → seq_of (
        one
          (λ h. h.role_id == r)
          (update_where (λ h. h.role_id == a && ltb h.head_seq n) (raise n) hs))
      ≡ (if r == a then n else seq_of (one (λ h. h.role_id == r) hs))
seq_of-raise a r n hs there lower =
    one-update_where (λ (x : Head). x.role_id == r) (λ x. x.role_id == a && ltb x.head_seq n)
      (raise n) hs (λ x. refl)
    ▷ raised (one (λ h. h.role_id == r) hs) refl
  where
    infixl 5 ◌▷◌
    ◌▷◌ : {o o' : Option Head} {k : ℕ} → o ≡ o' → seq_of o' ≡ k → seq_of o ≡ k
    e ▷ f = ap seq_of e ∙ f

    some-none : {h : Head} → some h ≡ none → ⊥
    some-none e = ground arith

    raised :
        (o : Option Head)
        → one (λ h. h.role_id == r) hs ≡ o
        → seq_of (update_one (λ x. x.role_id == a && ltb x.head_seq n) (raise n) o)
          ≡ (if r == a then n else seq_of o)
    raised none e = elim (Bool-cases (r == a)) [
      | inl same ↦
          let (h, f) = one-any-true (λ h. h.role_id == a) hs there in
          absurd (
            some-none
              (sym f ∙ subst (λ k. one (λ h. h.role_id == k) hs ≡ none) (eq_of_== r a same) e))
      | inr other ↦ ground arith
    ]
    raised (some h) e =
        let k = one-holds (λ h. h.role_id == r) hs e in
        elim (Bool-cases (r == a)) [
          | inl same ↦
              let l =
                subst (λ k. seq_of (one (λ h. h.role_id == k) hs) < n) (sym (eq_of_== r a same))
                  lower in
              ground (arith, subst (λ o. seq_of o < n) e l)
          | inr other ↦ ground arith
        ]

-- The head after an entry with the next number.
pub head_of-insert_entry :
    (w : Tools) (e : NewEntry) (s : Context)
    → any (λ h. h.role_id == e.role_id) s.heads ≡ true
    → (r : Ident)
    → head_of r (insert_entry w e (suc (head_of e.role_id s)) s)
      ≡ (if r == e.role_id then suc (head_of e.role_id s) else head_of r s)
unfolding head_of
head_of-insert_entry w e s h r =
    seq_of-raise e.role_id r (suc (head_of e.role_id s)) s.heads h (omega arith)

numbers_of-entry_at :
    (w : Tools) (e : NewEntry) (n : ℕ) (r : Ident)
    → numbers_of r (entry_at w e n ∷ []) ≡ (if r == e.role_id then n ∷ [] else [])
unfolding numbers_of select
numbers_of-entry_at w e n r = ground arith

insert_entry-Numbered :
    (w : Tools) (e : NewEntry) (s : Context)
    → any (λ h. h.role_id == e.role_id) s.heads ≡ true
    → Numbered s
    → Numbered (insert_entry w e (suc (head_of e.role_id s)) s)
unfolding Numbered
insert_entry-Numbered w e s there m r =
    let n = suc (head_of e.role_id s) in
    numbers_of-append r s.entries (entry_at w e n ∷ [])
    ∙ ap (λ ns. numbers_of r s.entries ++ ns) (numbers_of-entry_at w e n r)
    ∙ elim (Bool-cases (r == e.role_id)) [
      | inl same ↦
          rw (head_of-insert_entry w e s there r, same, m r, eq_of_== r e.role_id same)
            (last_from_zero (head_of e.role_id s))
      | inr other ↦ rw (head_of-insert_entry w e s there r, other, append-nil) (m r)
    ]

write-Numbered :
    (w : Tools) (e : NewEntry) (s : Context) {a : Appended} {s' : Context}
    → any (λ h. h.role_id == e.role_id) s.heads ≡ true
    → Numbered s
    → write w e s ≡ (a, s')
    → Numbered s'
write-Numbered w e s {a} {s'} there m h = elim (Option-cases (one (same_entry w e) s.entries)) [
  | inr (x, k) ↦ subst Numbered (ground arith) m
  | inl k ↦
      let same : insert_entry w e (suc (head_of e.role_id s)) s ≡ s' = ground arith in
      subst Numbered same (insert_entry-Numbered w e s there m)
]

pub Readies-Numbered : {s s' : Context} → Readies s s' → Numbered s → Numbered s'
unfolding Numbered
Readies-Numbered e m r = ap (numbers_of r) e.entries ∙ m r ∙ ap (range 0) (sym (e.head r))

pub append-Numbered :
    (w : Tools) (e : NewEntry) (s : Context) {a : Appended} {s' : Context}
    → Numbered s
    → append w e s ≡ done (a, s')
    → Numbered s'
append-Numbered w e s m h =
    let (s₁, s₂, e₁, e₂, e₃) = append-eq-done w e s h in
    let (r₁, there, _) = ensure_role-Readies e.role_id s e₁ in
    let (r₂, heads) = ensure_session-Readies e.role_id e.source_work_session_id s₁ e₂ in
    write-Numbered w e s₂
      (subst (λ hs. any (λ h. h.role_id == e.role_id) hs ≡ true) (sym heads) there)
      (Readies-Numbered r₂ (Readies-Numbered r₁ m)) e₃
