-- ===== src/Core/Inbox/Paging.antt =====
-- Reading page by page loses nothing and shows nothing twice.
use agent_router.Prelude.{
  ℕ, suc, zero, ◌+◌, ◌≤◌, ◌<◌, Bool, true, List, [], ◌∷◌, ◌++◌, ◌≡◌, refl, arith, select, take,
  drop, length, ltb, ap, ◌∙◌,
}
use agent_router.Prelude.Laws.{take-append-drop, length-take-le}
use agent_router.Protocol.{ok}
use agent_router.Store.{Db, Message}
use agent_router.Core.Identity.{Identity, Bound, identity}
use agent_router.Core.Inbox.{Page, notice_for, last_seq, page_of, notices}

-- Messages in the order of their numbers, all above one.
abbrev pub Above : ℕ → List Message → Type 0
Above b [] = Unit {0}
Above b (m ∷ ms) = (b < m.seq) × Above m.seq ms

Above-weaken : (c b : ℕ) (ms : List Message) → c ≤ b → Above b ms → Above c ms
Above-weaken c b [] h a = tt
Above-weaken c b (m ∷ ms) h a = (omega (arith, a.0), a.1)

Above-select : (q : Message → Bool) (b : ℕ) (ms : List Message) → Above b ms → Above b (select q ms)
unfolding select
Above-select q b [] a = tt
Above-select q b (m ∷ ms) a =
    ground (arith, Above-select q m.seq ms a.1, Above-weaken b m.seq (select q ms))

Above-notices :
    (p : Identity) (after b : ℕ) (ms : List Message)
    → Above b ms
    → Above after (select (notice_for p after) ms)
unfolding select
Above-notices p after b [] a = tt
Above-notices p after b (m ∷ ms) a =
    ground
      (arith, Above-select (notice_for p after) m.seq ms a.1, Above-notices p after m.seq ms a.1)

last_seq-le : (n b : ℕ) (ms : List Message) → Above b ms → b ≤ last_seq b (take n ms)
unfolding last_seq
last_seq-le zero b ms a = omega arith
last_seq-le (suc n) b [] a = omega arith
last_seq-le (suc n) b (m ∷ ms) a = omega (arith, a.0, last_seq-le n m.seq ms a.1)

-- What is above a later cursor is what is above it among the notices above an earlier one.
select-later :
    (p : Identity) (after c : ℕ) (ms : List Message)
    → after ≤ c
    → select (notice_for p c) ms ≡ select (λ m. ltb c m.seq) (select (notice_for p after) ms)
unfolding select
select-later p after c [] h = refl
select-later p after c (m ∷ ms) h = ground (arith, select-later p after c ms h)

select_all : (b c : ℕ) (ms : List Message) → c ≤ b → Above b ms → select (λ m. ltb c m.seq) ms ≡ ms
unfolding select
select_all b c [] h a = refl
select_all b c (m ∷ ms) h a = ground (arith, a.0, select_all m.seq c ms (omega (arith, a.0)) a.1)

-- What lies above the cursor of a page is what follows the page.
select-rest :
    (n b : ℕ) (ms : List Message)
    → Above b ms
    → select (λ m. ltb (last_seq b (take n ms)) m.seq) ms ≡ drop n ms
unfolding last_seq
select-rest zero b ms a = select_all b b ms (omega arith) a
select-rest (suc n) b [] a = unfold select in refl
select-rest (suc n) b (m ∷ ms) a =
    skips m ms (last_seq m.seq (take n ms)) (last_seq-le n m.seq ms a.1)
    ∙ select-rest n m.seq ms a.1
  where
    skips :
        (m : Message) (ms : List Message) (c : ℕ)
        → m.seq ≤ c
        → select (λ m. ltb c m.seq) (m ∷ ms) ≡ select (λ m. ltb c m.seq) ms
    skips m ms c h = unfold select in ground arith

take-take : {A : Type 0} (n : ℕ) (xs : List A) → take n (take (suc n) xs) ≡ take n xs
take-take zero xs = refl
take-take (suc n) [] = refl
take-take (suc n) (x ∷ xs) = ap (λ ys. x ∷ ys) (take-take n xs)

ltb-length-take :
    {A : Type 0} (n : ℕ) (xs : List A) → ltb n (length (take (suc n) xs)) ≡ ltb n (length xs)
ltb-length-take zero [] = refl
ltb-length-take zero (x ∷ xs) = ground arith
ltb-length-take (suc n) [] = refl
ltb-length-take (suc n) (x ∷ xs) = ground (arith, ltb-length-take n xs)

page_of-take :
    (rows : List Message) (after limit : ℕ)
    → page_of (take (limit + 1) rows) after limit ≡ record {
      items = take limit rows;
      next_cursor = last_seq after (take limit rows);
      has_more = ltb limit (length rows);
    }
unfolding page_of
page_of-take rows after limit =
    let one_more : limit + 1 ≡ suc limit = omega arith in
    rw one_more (rw (take-take limit rows) (rw (ltb-length-take limit rows) refl))

notices-eq-ok :
    (p : Identity) (after limit : ℕ) (s : Db) {page : Page}
    → notices p after limit s ≡ ok page
    → page ≡ page_of (take (limit + 1) (select (notice_for p after) s.messages)) after limit
unfolding notices
notices-eq-ok p after limit s h = ground arith

notices_continue :
    (p : Identity) (after limit : ℕ) (s : Db) {page : Page}
    → Above 0 s.messages
    → notices p after limit s ≡ ok page
    → (page.items ++ select (notice_for p page.next_cursor) s.messages
        ≡ select (notice_for p after) s.messages)
      × (length page.items ≤ limit)
      × (page.has_more ≡ ltb limit (length (select (notice_for p after) s.messages)))
notices_continue p after limit s {page} sorted h =
    let rows : List Message = select (notice_for p after) s.messages in
    let above : Above after rows = Above-notices p after 0 s.messages sorted in
    let shape = notices-eq-ok p after limit s h ∙ page_of-take rows after limit in
    let rest =
      select-later p after (last_seq after (take limit rows)) s.messages
        (last_seq-le limit after rows above)
      ∙ select-rest limit after rows above in
    rw shape (
      ap (λ xs. take limit rows ++ xs) rest ∙ take-append-drop limit rows,
      length-take-le limit rows,
      refl,
    )

notices_answer :
    (p : Identity) (after limit : ℕ) (s : Db) {b : Bound}
    → identity p true s ≡ ok b
    → 1 ≤ limit
    → limit ≤ 100
    → (page : Page) × (notices p after limit s ≡ ok page)
unfolding notices
notices_answer p after limit s known low high =
    (page_of (take (limit + 1) (select (notice_for p after) s.messages)) after limit, ground arith)

-- A caller that is known gets a page for every limit from 1 to 100. Where the messages are in the
-- order of their numbers, what lies above the cursor is the page and then what lies above the cursor
-- that the page returns, so a reader who goes on from there sees each notice once; and `has_more`
-- tells whether more notices than the limit lie above the cursor.
pub notices_pages :
    (p : Identity) (after limit : ℕ) (s : Db) {b : Bound}
    → identity p true s ≡ ok b
    → 1 ≤ limit
    → limit ≤ 100
    → Above 0 s.messages
    → (page : Page) × (notices p after limit s ≡ ok page)
      × (page.items ++ select (notice_for p page.next_cursor) s.messages
          ≡ select (notice_for p after) s.messages)
      × (length page.items ≤ limit)
      × (page.has_more ≡ ltb limit (length (select (notice_for p after) s.messages)))
notices_pages p after limit s known low high sorted =
    let (page, got) = notices_answer p after limit s known low high in
    let (whole, few, more) = notices_continue p after limit s sorted got in
    (page, got, whole, few, more)
