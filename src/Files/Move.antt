-- ===== src/Files/Move.antt =====
-- src/file-service.ts, `movePath`. A store maps a path to what stands there, a file or a whole directory;
-- the parents that `mkdir` makes are a list of their own. Each call that may fail says what its failure leaves.
pub mod Paths
pub mod Cases
pub mod Directories
pub mod Outcome
pub mod Success
use chatgpt_remote_mcp.Base.{
  ℕ, zero, suc, ◌+◌, Bool, true, false, ◌||◌, not, Option, none, some, List, [], ◌∷◌, String,
  str_eq, Dict, lookup, put, delete, if◌then◌else◌, is_some, take, add,
}

pub data ErrorCode : Type 0 where
  exdev other_code : ErrorCode

-- What the calls of one move do: `none` where the call works, else its error, and what a removal or a copy
-- leaves at the path that it was changing. A `mkdir` that fails has made so many of the parents.
pub record Faults (Tree : Type 0) : Type 0 where
  pub make_parents : Option ℕ
  pub rename_destination : Option ErrorCode
  pub rename_source : Option ErrorCode
  pub copy : Option (Option Tree)
  pub remove_source : Option (Option Tree)
  pub remove_copy : Option (Option Tree)
  pub remove_partial : Option (Option Tree)
  pub restore : Option ErrorCode
  pub remove_backup : Option (Option Tree)

-- `thrown` has the number of `rollbackErrors`.
pub data MoveOutcome : Type 0 where
  same_path : MoveOutcome
  moved : Option String → MoveOutcome
  thrown : ℕ → MoveOutcome

-- `relative` is `path.relative`, cut at the separators.
abbrev pub is_path_within : (String → String → List String) → String → String → Bool
is_path_within relative parent candidate = elim (relative parent candidate) [
  | [] ↦ false
  | first ∷ rest ↦ not (str_eq first "..")
]

abbrev pub failures {ℓ} : {A : Type ℓ} → Option A → ℕ
failures none = 0
failures (some e) = 1

-- `mkdir`, recursive.
abbrev pub make_directories : List String → List String → List String
make_directories [] directories = directories
make_directories (p ∷ ps) directories = make_directories ps (add p directories)

module _ {Tree : Type 0} where
  abbrev pub rename_path : String → String → Dict Tree → Dict Tree
  rename_path from to store = elim (lookup from store) [
    | none ↦ store
    | some tree ↦ put to tree (delete from store)
  ]

  abbrev pub set_path : String → Option Tree → Dict Tree → Dict Tree
  set_path path none store = delete path store
  set_path path (some tree) store = put path tree store

  abbrev pub remove_path : Option (Option Tree) → String → Dict Tree → Dict Tree
  remove_path none path store = delete path store
  remove_path (some partial) path store = set_path path partial store

  -- The handler of `movePath`, whose backup is `none` where there was no destination.
  abbrev pub roll_back :
      Faults Tree → String → Option String → Bool → Dict Tree → Dict Tree × MoveOutcome
  roll_back faults destination none partial store =
      if partial
      then (
        remove_path faults.remove_partial destination store,
        thrown (failures faults.remove_partial),
      )
      else (store, thrown 0)
  roll_back faults destination (some backup) partial store =
      let removed = remove_path faults.remove_partial destination store in
      (
        (if is_some faults.restore then removed else rename_path backup destination removed),
        thrown (failures faults.remove_partial + failures faults.restore),
      )

  abbrev pub finish_move : Faults Tree → Option String → Dict Tree → Dict Tree × MoveOutcome
  finish_move faults none store = (store, moved none)
  finish_move faults (some backup) store = (
    remove_path faults.remove_backup backup store,
    moved (if is_some faults.remove_backup then some backup else none),
  )

  -- Another device: a copy, and the removal of the source.
  abbrev pub copy_across :
      Faults Tree → String → String → Option String → Dict Tree → Dict Tree × MoveOutcome
  copy_across faults source destination backup store =
      let copied = set_path destination (lookup source store) store in
      elim faults.copy [
        | some partial ↦
            roll_back faults destination backup true (set_path destination partial store)
        | none ↦ elim faults.remove_source [
          | none ↦ finish_move faults backup (delete source copied)
          | some partial ↦
              roll_back faults destination backup true
                (remove_path faults.remove_copy destination (set_path source partial copied))
        ]
      ]

  pub attempt : Faults Tree → String → String → Option String → Dict Tree → Dict Tree × MoveOutcome
  attempt faults source destination backup store = elim faults.rename_source [
    | none ↦ finish_move faults backup (rename_path source destination store)
    | some exdev ↦ copy_across faults source destination backup store
    | some other_code ↦ roll_back faults destination backup false store
  ]

  -- From the test of the destination on; `backup` is the path that is drawn for what stands there.
  pub move_to : String → Faults Tree → Dict Tree → String → String → Bool → Dict Tree × MoveOutcome
  unfolding attempt
  move_to backup faults store source destination overwrite =
      if not (is_some (lookup destination store))
      then attempt faults source destination none store
      else if not overwrite
      then (store, thrown 0)
      else if is_some faults.rename_destination
      then (store, thrown 0)
      else attempt faults source destination (some backup) (rename_path destination backup store)

  -- `ancestors` gives the directories from the root to `path.dirname`, and `directories` are those that exist.
  unfoldable pub move_path :
      (String → String → List String)
      → (String → List String)
      → String
      → Faults Tree
      → Dict Tree
      → List String
      → String
      → String
      → Bool
      → (Dict Tree × MoveOutcome) × List String
  unfolding move_to
  move_path relative ancestors backup faults store directories source destination overwrite =
      if str_eq source destination
      then ((store, same_path), directories)
      else if not (is_some (lookup source store))
      then ((store, thrown 0), directories)
      else if is_path_within relative source destination
          || is_path_within relative destination source
      then ((store, thrown 0), directories)
      else elim faults.make_parents [
        | some made ↦
            ((store, thrown 0), make_directories (take made (ancestors destination)) directories)
        | none ↦ (
          move_to backup faults store source destination overwrite,
          make_directories (ancestors destination) directories,
        )
      ]
