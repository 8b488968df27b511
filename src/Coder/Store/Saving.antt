-- ===== src/Coder/Store/Saving.antt =====
-- coderStore.ts, `saveStore` and `saveStoreDebounced`. What fits into local storage is a parameter.
use ninfer_studio.Base.{
  if◌then◌else◌, List, [], ◌∷◌, Option, none, some, Bool, true, false, ◌≡◌, ◌⊎◌,
}
use ninfer_studio.Coder.Store.{CoderStore, prune_store_for_storage}

-- `pendingStoreToSave`, whether `debouncedSaveTimer` is set, and what local storage holds.
pub record Saving : Type 0 where
  pub pending : Option CoderStore
  pub timer : Bool
  pub disk : Option CoderStore

-- A call of `saveStoreDebounced`, its timer, and the page going away.
pub data SaveEvent : Type 0 where
  request : CoderStore → SaveEvent
  fire unload : SaveEvent

-- The store that was asked for last.
abbrev pub latest : Option CoderStore → List SaveEvent → Option CoderStore
latest last [] = last
latest last (request store ∷ events) = latest (some store) events
latest last (fire ∷ events) = latest last events
latest last (unload ∷ events) = latest last events

module _ (fits : CoderStore → Bool) where
  -- `saveStore`: what local storage holds then, and the result.
  unfoldable pub save_store : Option CoderStore → CoderStore → Option CoderStore × Bool
  save_store disk store =
      if fits store
      then (some store, true)
      else if fits (prune_store_for_storage store)
      then (some (prune_store_for_storage store), true)
      else (disk, false)

  abbrev pub flush : Option CoderStore → Saving → Saving
  flush none s = s
  flush (some store) s = record s { pending = none; disk = (save_store s.disk store).0 }

  -- The pending store is saved, if there is one.
  abbrev pub flushed : Saving → Saving
  flushed s = flush s.pending s

  unfoldable pub on_save_event : Saving → SaveEvent → Saving
  unfolding save_store
  on_save_event s (request store) = record s { pending = some store; timer = true }
  on_save_event s fire = if s.timer then flushed (record s { timer = false }) else s
  on_save_event s unload = flushed s

  unfoldable pub run_saving : Saving → List SaveEvent → Saving
  unfolding on_save_event
  run_saving s [] = s
  run_saving s (e ∷ events) = run_saving (on_save_event s e) events

  -- The store that was asked for last is still to be saved, or `saveStore` was the last to write and
  -- had that one.
  abbrev pub Tried : Option CoderStore → Saving → Type 0
  Tried none s = Unit
  Tried (some store) s =
      (s.pending ≡ some store)
      ⊎ ((s.pending ≡ none) × (before : Option CoderStore) × (s.disk ≡ (save_store before store).0))
