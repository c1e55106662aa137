-- ===== src/HandleManager.antt =====
-- Katline/HandleManager.cppm: the table of handles through which a process reaches kernel objects.
-- The table's lock makes each call atomic. A handle is its id, 0 for the invalid one.
pub mod Ownership
pub mod References
pub mod History
pub mod Tests
use dhos_reborn.Base.{
  ℕ, ◌+◌, ◌-◌, ◌%◌, ◌^◌, Bool, true, false, not, ◌&&◌, ◌||◌, Option, none, some, List, [], ◌∷◌,
  ◌==◌, if◌then◌else◌,
}
use dhos_reborn.CommonLib.{HashMap}
use dhos_reborn.Process.{Process, Thread}
use dhos_reborn.MemoryObject.{PageSource, Objects, retain_memory_object, release_memory_object}

pub data HandleKind : Type 0 where
  process thread memory_object : HandleKind

abbrev pub same_kind : HandleKind → HandleKind → Bool
same_kind HandleKind.process HandleKind.process = true
same_kind HandleKind.thread HandleKind.thread = true
same_kind HandleKind.memory_object HandleKind.memory_object = true
same_kind _ _ = false

pub record Entry : Type 0 where
  pub kind : HandleKind
  pub object : ℕ
  pub owner : ℕ

-- The objects that handles refer to.
pub record Store (S : PageSource) : Type 0 where
  pub processes : ℕ → Process
  pub threads : ℕ → Thread
  pub memory : Objects S

-- The keys that the walk of `release_owned_handles` collects.
unfoldable pub owned_handles : ℕ → List (ℕ × Entry) → List ℕ
owned_handles owner [] = []
owned_handles owner ((k, e) ∷ es) =
    let rest = owned_handles owner es in if e.owner == owner then k ∷ rest else rest

-- `handle_count++` if the delta is positive, else `handle_count--` unless it is zero.
abbrev adjusted : Bool → ℕ → ℕ
adjusted up n = if up then (n + 1) % 2 ^ 64 else n - 1

module _ (S : PageSource) where
  abbrev with_process : ℕ → Process → Store S → Store S
  with_process a p s = record s { processes = λ b. if b == a then p else s.processes b }

  abbrev with_thread : ℕ → Thread → Store S → Store S
  with_thread a t s = record s { threads = λ b. if b == a then t else s.threads b }

  adjust_kind : Bool → HandleKind → ℕ → Store S → Store S
  adjust_kind up HandleKind.process a s =
      let p = s.processes a in
      with_process a (record p { handle_count = adjusted up p.handle_count }) s
  adjust_kind up HandleKind.thread a s =
      let t = s.threads a in
      with_thread a (record t { handle_count = adjusted up t.handle_count }) s
  adjust_kind true HandleKind.memory_object a s = record s {
    memory = retain_memory_object S a s.memory;
  }
  adjust_kind false HandleKind.memory_object a s = record s {
    memory = release_memory_object S a s.memory;
  }

  -- The delta is 1 or -1: `up` tells which.
  unfoldable pub adjust_object_refcount : Bool → HandleKind → ℕ → Store S → Store S
  unfolding adjust_kind
  adjust_object_refcount up kind a s = if a == 0 then s else adjust_kind up kind a s

  unfoldable pub retain_object : HandleKind → ℕ → Store S → Store S
  unfolding adjust_object_refcount
  retain_object = adjust_object_refcount true

  unfoldable pub release_object : HandleKind → ℕ → Store S → Store S
  unfolding adjust_object_refcount
  release_object = adjust_object_refcount false

abbrev owned_entry : ℕ → Option Entry → Option Entry
owned_entry owner none = none
owned_entry owner (some e) = if not (owner == 0) && not (e.owner == owner) then none else some e

abbrev object_of : HandleKind → Option Entry → ℕ
object_of kind none = 0
object_of kind (some e) = if same_kind e.kind kind then e.object else 0

module _ (S : PageSource) (H : HashMap Entry) where
  pub record HandleManager : Type 0 where
    pub entries : H.Map
    pub next_handle_id : ℕ
    pub store : Store S

  -- An owner of 0 (`nullptr`) matches every entry.
  unfoldable pub find_entry : ℕ → ℕ → HandleManager → Option Entry
  find_entry owner handle m =
      if handle == 0 then none else owned_entry owner (H.get m.entries handle)

  unfoldable pub resolve : ℕ → ℕ → HandleKind → HandleManager → ℕ
  unfolding find_entry
  resolve owner handle kind m = object_of kind (find_entry owner handle m)

  unfoldable pub resolve_any : ℕ → HandleKind → HandleManager → ℕ
  unfolding find_entry
  resolve_any handle kind m = object_of kind (find_entry 0 handle m)

  -- `m_next_handle_id++`, the test of the id, the reference and the new entry.
  unfoldable pub add_entry : Entry → HandleManager → ℕ × HandleManager
  unfolding retain_object
  add_entry e m =
      let id = m.next_handle_id in
      let bumped : HandleManager = record m { next_handle_id = (id + 1) % 2 ^ 64 } in
      if id == 0 then (0, bumped) else (
        id,
        record bumped {
          entries = H.insert_or_replace id e m.entries;
          store = retain_object S e.kind e.object m.store;
        },
      )

  unfoldable pub open_handle : ℕ → HandleKind → ℕ → HandleManager → ℕ × HandleManager
  unfolding add_entry
  open_handle owner kind object m =
      if (owner == 0) || (object == 0)
      then (0, m)
      else add_entry (record { kind = kind; object = object; owner = owner }) m

  abbrev duplicate_entry : ℕ → Option Entry → HandleManager → ℕ × HandleManager
  duplicate_entry owner none m = (0, m)
  duplicate_entry owner (some e) m =
      add_entry (record { kind = e.kind; object = e.object; owner = owner }) m

  unfoldable pub duplicate : ℕ → ℕ → HandleManager → ℕ × HandleManager
  unfolding find_entry add_entry
  duplicate owner handle m = duplicate_entry owner (find_entry owner handle m) m

  abbrev close_entry : ℕ → Option Entry → HandleManager → Bool × HandleManager
  close_entry handle none m = (false, m)
  close_entry handle (some e) m = (
    true,
    record m {
      entries = H.remove handle m.entries;
      store = release_object S e.kind e.object m.store;
    },
  )

  unfoldable pub close : ℕ → ℕ → HandleManager → Bool × HandleManager
  unfolding find_entry release_object
  close owner handle m = close_entry handle (find_entry owner handle m) m

  unfoldable pub close_all : ℕ → List ℕ → HandleManager → HandleManager
  unfolding close
  close_all owner [] m = m
  close_all owner (h ∷ handles) m = close_all owner handles ((close owner h m).1)

  unfoldable pub release_owned_handles : ℕ → HandleManager → HandleManager
  unfolding close_all owned_handles
  release_owned_handles owner m =
      if owner == 0 then m else close_all owner (owned_handles owner (H.entries m.entries)) m
