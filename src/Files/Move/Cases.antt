-- ===== src/Files/Move/Cases.antt =====
-- src/file-service.ts, `movePath`: how a move goes up to the rename of its source.
use chatgpt_remote_mcp.Base.{
  ◌≡◌, ◌≢◌, refl, inl, inr, Bool, false, ◌||◌, none, some, List, String, str_eq, Dict, lookup,
  Bool-cases, Option-cases,
}
use chatgpt_remote_mcp.Files.Move.{
  move_to, Faults, same_path, thrown, is_path_within, rename_path, attempt, move_path,
}

module _ {Tree : Type 0} where
  -- How a move goes.
  pub data MoveCase (relative : String → String → List String) (ancestors : String → List String)
      (backup : String) (faults : Faults Tree) (store : Dict Tree) (directories : List String)
      (source destination : String) (overwrite : Bool) : Type 0 where
    stays :
        (move_path relative ancestors backup faults store directories source destination
            overwrite).0
          ≡ (store, same_path)
        → MoveCase relative ancestors backup faults store directories source destination overwrite
    refused :
        (move_path relative ancestors backup faults store directories source destination
            overwrite).0
          ≡ (store, thrown 0)
        → MoveCase relative ancestors backup faults store directories source destination overwrite
    alone :
        str_eq source destination ≡ false
        → lookup source store ≢ none
        → lookup destination store ≡ none
        → (move_path relative ancestors backup faults store directories source destination
            overwrite).0
          ≡ attempt faults source destination none store
        → MoveCase relative ancestors backup faults store directories source destination overwrite
    backed :
        str_eq source destination ≡ false
        → lookup source store ≢ none
        → lookup destination store ≢ none
        → (move_path relative ancestors backup faults store directories source destination
            overwrite).0
          ≡ attempt faults source destination (some backup) (rename_path destination backup store)
        → MoveCase relative ancestors backup faults store directories source destination overwrite

  pub move_case :
      (relative : String → String → List String) (ancestors : String → List String)
      (backup : String) (faults : Faults Tree) (store : Dict Tree) (directories : List String)
      (source destination : String) (overwrite : Bool)
      → MoveCase relative ancestors backup faults store directories source destination overwrite
  unfolding move_path move_to
  move_case relative ancestors backup faults store directories source destination overwrite =
      let nested =
        is_path_within relative source destination || is_path_within relative destination source in
      elim (Bool-cases (str_eq source destination)) [
        | inl same ↦ stays (rw same refl)
        | inr two ↦ elim (Option-cases (lookup source store)) [
          | inl missing ↦ refused (rw (two, missing) refl)
          | inr (tree, there) ↦ elim (Bool-cases nested) [
            | inl within ↦ refused (rw (two, there, within) refl)
            | inr clear ↦ elim (Option-cases faults.make_parents) [
              | inr (made, fails) ↦ refused (rw (two, there, clear, fails) refl)
              | inl parents ↦ elim (Option-cases (lookup destination store)) [
                | inl free ↦
                    alone two (λ e. cc (there, e)) free (rw (two, there, clear, parents, free) refl)
                | inr (old, taken) ↦ elim (Bool-cases overwrite) [
                  | inr kept ↦ refused (rw (two, there, clear, parents, taken, kept) refl)
                  | inl over ↦ elim (Option-cases faults.rename_destination) [
                    | inr (code, fails) ↦
                        refused (rw (two, there, clear, parents, taken, over, fails) refl)
                    | inl works ↦
                        backed two (λ e. cc (there, e)) (λ e. cc (taken, e))
                          (rw (two, there, clear, parents, taken, over, works) refl)
                  ]
                ]
              ]
            ]
          ]
        ]
      ]
