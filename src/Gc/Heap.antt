-- ===== src/Gc/Heap.antt =====
-- Managed objects (src/core/gc_object.hpp) and the state of the class `GarbageCollector`
-- (src/gc/garbage_collector.hpp). A pointer is an address, and `memory` gives the fields of the
-- object at it. The objects are owned by this collector.
use lua.Prelude.Int.{ℤ}
use lua.Prelude.{ℕ, Bool, true, false, ◌||◌, List, [], ◌∷◌, ◌++◌, ◌==◌, if◌then◌else◌, Option}

pub data GcObjectType : Type 0 where
  string_object table_object function_object userdata_object thread_object proto_object
        upval_object :
      GcObjectType

pub data GcColor : Type 0 where
  white gray black : GcColor

-- The weak keys and the weak values that the metatable of a table asks for
pub record WeakMode : Type 0 where
  pub keys : Bool
  pub values : Bool

-- A value of a table: no object, a string, or an object that a weak table does not mark.
pub data Cell : Type 0 where
  no_object : Cell
  text object : ℕ → Cell

-- What an object holds: a pointer, or of a table an array element, or the key and the value of a
-- live node.
pub data Reference : Type 0 where
  strong : ℕ → Reference
  element : Cell → Reference
  entry : Cell → Cell → Reference

pub record Object : Type 0 where
  pub type_ : GcObjectType
  pub color : GcColor
  pub fixed : Bool
  pub finalized : Bool
  -- `GCBits::WEAKKEY` and `GCBits::WEAKVALUE`
  pub weak_bits : WeakMode
  -- what `readWeakMode` reads of a table
  pub mode : WeakMode
  -- the objects that `mark` visits, in its order
  pub references : List Reference
  -- the metatable of a userdata has `__gc`
  pub has_finalizer : Bool
  -- `Upvalue::isOpen`
  pub is_open : Bool
  -- the open upvalues of the state of a thread
  pub open_upvalues : List ℕ
  -- the debug hook of the state of a thread
  pub debug_hook : Option ℕ
  -- `getOwnerCollector` is this collector; otherwise it is null
  pub owned : Bool
  -- `getSize`
  pub size : ℕ
  pub accounted_size : ℕ

abbrev pub Store : Type 0
Store = ℕ → Object

pub data IncrementalPhase : Type 0 where
  pause propagate atomic sweep_phase finalize : IncrementalPhase

pub record Collector : Type 0 where
  pub memory : Store
  -- the list that `allObjects_` heads
  pub all_objects : List ℕ
  pub roots : List ℕ
  pub gray_list : List ℕ
  pub weak_tables : List ℕ
  pub pending_finalizers : List ℕ
  pub incremental_phase : IncrementalPhase
  -- the part of the list from the cursor on
  pub incremental_sweep_current : List ℕ
  pub incremental_sweep_previous : Option ℕ
  pub incremental_collected : ℕ
  pub last_completed_collected : ℕ
  pub step_countdown : ℕ
  pub object_count : ℕ
  pub total_memory : ℕ
  pub gc_debt_bytes : ℤ

abbrev pub is_white : GcColor → Bool
is_white white = true
is_white gray = false
is_white black = false

abbrev pub is_black : GcColor → Bool
is_black white = false
is_black gray = false
is_black black = true

abbrev pub is_table : GcObjectType → Bool
is_table table_object = true
is_table _ = false

abbrev pub is_userdata : GcObjectType → Bool
is_userdata userdata_object = true
is_userdata _ = false

abbrev pub is_thread : GcObjectType → Bool
is_thread thread_object = true
is_thread _ = false

abbrev pub is_upval : GcObjectType → Bool
is_upval upval_object = true
is_upval _ = false

abbrev pub is_pause : IncrementalPhase → Bool
is_pause pause = true
is_pause _ = false

abbrev pub is_sweep : IncrementalPhase → Bool
is_sweep sweep_phase = true
is_sweep _ = false

-- A store with new fields for the object at one address.
abbrev pub update : Store → ℕ → Object → Store
update m a o b = if a == b then o else m b

abbrev pub set_color : Store → ℕ → GcColor → Store
set_color m a c = update m a (record (m a) { color = c })

abbrev pub color_of : Collector → ℕ → GcColor
color_of s a = (s.memory a).color

abbrev pub is_weak : WeakMode → Bool
is_weak w = w.keys || w.values

abbrev pub marked_slot : Bool → Cell → List ℕ
marked_slot weak no_object = []
marked_slot weak (text a) = a ∷ []
marked_slot weak (object a) = if weak then [] else a ∷ []

-- What a table with the given weak mode marks of a reference
abbrev pub marked_reference : WeakMode → Reference → List ℕ
marked_reference w (strong a) = a ∷ []
marked_reference w (element v) = marked_slot w.values v
marked_reference w (entry k v) = marked_slot w.keys k ++ marked_slot w.values v

abbrev pub marked_references : WeakMode → List Reference → List ℕ
marked_references w [] = []
marked_references w (r ∷ rs) = marked_reference w r ++ marked_references w rs

-- The objects that `mark` marks: the weak mode counts in tables alone.
unfoldable pub children : Object → List ℕ
children o =
    marked_references (if is_table o.type_ then o.mode else record { keys = false; values = false })
      o.references
