-- ===== src/Transfer/Kept.antt =====
-- What the engine keeps: from the single writes to whole runs.
pub mod Settled
pub mod Runs
pub mod Whole
use agent_router.Prelude.{ℕ, Bool, true, false, Option, none, some, ◌≡◌, refl, Text, if◌then◌else◌}
use agent_router.Protocol.{Ident}
use agent_router.Transfer.Rows.{
  Meta, State, Code, Tables, World, Event, Commit, say, fail, mark_uncertain, set_meta, move,
  is_active,
}
use agent_router.Transfer.Ports.{Deps, Port, Receipt, Content, Awaited, PortContext}
use agent_router.Transfer.Due.{Due}
use agent_router.Transfer.Settle.{schedule_retry}

-- What others do while a driver works, for each function of the driver.
pub record PortKeeps (others : Tables → Tables → Type 0) (p : Port) : Type 0 where
  pub native_fork_target :
      (f : (c : PortContext) (source_ref : Text) (op : Ident) (target_ref : Option Text)
        → Tables
        → Awaited Receipt)
      → p.native_fork_target ≡ some f
      → (c : PortContext) (a : Text) (op : Ident) (b : Option Text) (t : Tables)
      → others t (f c a op b t).tables
  pub confirm_native_fork :
      (f : (c : PortContext) (source_ref target_ref : Text) (op : Ident) (expected : Option Text)
        → Tables
        → Awaited Receipt)
      → p.confirm_native_fork ≡ some f
      → (c : PortContext) (a b : Text) (op : Ident) (h : Option Text) (t : Tables)
      → others t (f c a b op h t).tables
  pub export_context :
      (c : PortContext) (a : Text) (t : Tables) → others t (p.export_context c a t).tables
  pub initialize_target :
      (c : PortContext) (a : Text) (op : Ident) (h : Text) (b : Option Text) (t : Tables)
      → others t (p.initialize_target c a op h b t).tables
  pub confirm_target :
      (c : PortContext) (a : Text) (op : Ident) (h : Option Text) (t : Tables)
      → others t (p.confirm_target c a op h t).tables
  pub target_window_tokens :
      (f : (c : PortContext) (op : Ident) (target_ref : Option Text) → Tables → Awaited (Option ℕ))
      → p.target_window_tokens ≡ some f
      → (c : PortContext) (op : Ident) (b : Option Text) (t : Tables) → others t (f c op b t).tables
  pub source_capacity :
      (f : (c : PortContext) (native_ref : Text) → Tables → Awaited (Option ℕ × Option ℕ))
      → p.source_capacity ≡ some f
      → (c : PortContext) (a : Text) (t : Tables) → others t (f c a t).tables
  pub compress_source :
      (f : (text : Text) (max_tokens : Option ℕ) → Tables → Awaited Content)
      → p.compress_source ≡ some f
      → (a : Text) (n : Option ℕ) (t : Tables) → others t (f a n t).tables

-- A property of the world that the single writes keep.
pub record Kept (d : Deps) (others : Tables → Tables → Type 0) (I : World → Type 0) : Type 0 where
  pub ports : (h : Text) (p : Port) → d.ports h ≡ some p → PortKeeps others p
  pub told : (w : World) (role_id : Ident) → I w → I (say (Event.settled role_id) w)
  pub failing : (w : World) (id : Ident) (code : Code) → I w → I (fail id code w)
  pub marking : (w : World) (id : Ident) (code : Code) → I w → I (mark_uncertain id code w)
  pub patching :
      (w : World) (id : Ident) (patch : Meta → Meta)
      → ((m : Meta) → (patch m).retries ≡ m.retries)
      → I w
      → I (set_meta id patch w)
  pub moving :
      (w : World) (id : Ident) (from : State → Bool) (to : State) (code : Option Code → Option Code)
      → ((x : State) → from x ≡ true → is_active x ≡ true)
      → I w
      → I (move id from to code w)
  pub retrying : (w : World) (id : Ident) → I w → I (schedule_retry id w)
  pub waiting : (w : World) (t : Tables) → others w.tables t → I w → I (record w { tables = t })
  pub committing :
      (w : World) (c : Commit) (t : Tables)
      → Due d c w.tables
      → d.commit c w.tables ≡ some t
      → I w
      → I (record (say (Event.committing c w.tables) w) { tables = t })

-- Both ways of a test, with what it says.
pub by_test :
    (I : World → Type 0) (c : Bool) {v w : World}
    → (c ≡ true → I v)
    → (c ≡ false → I w)
    → I (if c then v else w)
by_test I true f g = f refl
by_test I false f g = g refl

pub by_option {ℓ} :
    {A : Type ℓ} (I : World → Type 0) (o : Option A) {v : World} {f : A → World}
    → (o ≡ none → I v)
    → ((a : A) → o ≡ some a → I (f a))
    → I (elim o [ none ↦ v | some a ↦ f a ])
by_option I none g h = g refl
by_option I (some a) g h = h a refl
