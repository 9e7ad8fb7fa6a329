-- ===== src/Transfer/Laws.antt =====
-- What the engine guarantees, whatever its drivers answer.
use agent_router.Prelude.{suc, [], ◌≡◌, inl, inr, arith, sym, subst, leb}
use mathlib.Core.List.{Memᴰ}
use mathlib.Core.List.Memᴰ
use agent_router.Protocol.{Ident}
use agent_router.Transfer.Rows.{
  Tables, World, Event, Commit, say, op_of, fail, mark_uncertain, set_meta, move, max_retries,
}
use agent_router.Transfer.Ports.{Deps}
use agent_router.Transfer.Settle.{schedule_retry}
use agent_router.Transfer.Due.{Due}
use agent_router.Transfer.Kept.{Kept, by_test, by_option}
use agent_router.Transfer.Kept.Whole.{Reaches, Reaches-Kept}

abbrev Committed : Deps → World → Type 0
Committed d w = (c : Commit) (t : Tables) → Memᴰ (Event.committing c t) w.events → Due d c t

-- One more event that is no commit.
say-Committed :
    (d : Deps) (e : Event) (w : World)
    → ((c : Commit) (t : Tables) → Event.committing c t ≡ e → Due d c t)
    → Committed d w
    → Committed d (say e w)
say-Committed d e w new i c t m = elim (Memᴰ.append_cases w.events m) [
  | inl before ↦ i c t before
  | inr last ↦ new c t (Memᴰ.eq_of_singleton last)
]

schedule_retry-Committed :
    (d : Deps) (w : World) (id : Ident) → Committed d w → Committed d (schedule_retry id w)
unfolding schedule_retry set_meta mark_uncertain
schedule_retry-Committed d w id i =
    by_option (Committed d) (op_of id w.tables) (λ n. i)
      (λ o n.
        by_test (Committed d) (leb max_retries o.meta.retries) (λ e. i)
          (λ e.
            say-Committed d (Event.retry_later id)
              (set_meta id (λ m. record m { retries = suc o.meta.retries }) w)
              (λ c t e. absurd (ground arith)) i))

-- What a commit needs, of any event.
abbrev DueOf : Deps → Event → Type 0
DueOf d (Event.committing c t) = Due d c t
DueOf d (Event.retry_later id) = Unit
DueOf d (Event.settled r) = Unit

abbrev pub AnyOthers : Tables → Tables → Type 0
AnyOthers t t' = Unit

Committed-Kept : (d : Deps) → Kept d AnyOthers (Committed d)
unfolding fail mark_uncertain set_meta move
Committed-Kept d = record {
  ports = λ h p e. record {
    native_fork_target = λ f e c a op b t. tt;
    confirm_native_fork = λ f e c a b op h t. tt;
    export_context = λ c a t. tt;
    initialize_target = λ c a op h b t. tt;
    confirm_target = λ c a op h t. tt;
    target_window_tokens = λ f e c op b t. tt;
    source_capacity = λ f e c a t. tt;
    compress_source = λ f e a n t. tt;
  };
  told = λ w r i. say-Committed d (Event.settled r) w (λ c t e. absurd (ground arith)) i;
  failing = λ w id code i. i;
  marking = λ w id code i. i;
  patching = λ w id patch same i. i;
  moving = λ w id from to code live i. i;
  retrying = schedule_retry-Committed d;
  waiting = λ w t m i. i;
  committing = λ w c t due e i.
      say-Committed d (Event.committing c w.tables) w (λ c' t' same. subst (DueOf d) (sym same) due)
        i;
}

-- Whatever the drivers answer and whatever others write while they work: whenever the engine has
-- committed a transfer, from a start with no event, the session it comes from was then the active
-- session of its role, and one of two things held, for the target
-- that the commit names. Either the row of the operation said then that the
-- target is confirmed, with the hash that the row held as sent also as the one accepted. Or the driver
-- of the target had just been asked about the row, and had returned a confirming receipt with a
-- well-formed hash that was the one the row held as sent when it was asked, or, for a native fork whose
-- row held none, any; and the row, if it was still there, held that hash.
pub Reaches-Due :
    (d : Deps) (start w : World) (c : Commit) (t : Tables)
    → start.events ≡ []
    → Reaches d AnyOthers start w
    → Memᴰ (Event.committing c t) w.events
    → Due d c t
Reaches-Due d start w c t none_yet r =
    Reaches-Kept (Committed-Kept d)
      (λ c t m. absurd (Memᴰ.not-nil (subst (Memᴰ (Event.committing c t)) none_yet m))) r c t
