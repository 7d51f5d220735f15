-- ===== src/Files/Move/Success.antt =====
-- src/file-service.ts, `movePath`: a move that succeeds.
use chatgpt_remote_mcp.Base.{
  ◌≡◌, ◌≢◌, refl, sym, ap, subst, ◌∙◌, inl, inr, Bool, true, false, ◌||◌, mem, Option, none, some,
  List, String, arith, str_eq, eq_iff, Dict, lookup, delete, lookup-delete, if◌then◌else◌, is_some,
  Option-cases,
}
use chatgpt_remote_mcp.Files.Move.{
  exdev, other_code, Faults, moved, rename_path, set_path, remove_path, roll_back, finish_move,
  attempt, move_path,
}
use chatgpt_remote_mcp.Files.Move.Paths.{
  lookup-set_path, lookup-rename_path, lookup-remove_path, apart,
}
use chatgpt_remote_mcp.Files.Move.Cases.{stays, refused, alone, backed, move_case}
use chatgpt_remote_mcp.Files.Move.Directories.{move_path-parents}

module _ {Tree : Type 0} where
  -- What stood at the source stands at the destination.
  abbrev IsTransferred : String → String → Dict Tree → Dict Tree → Type 0
  IsTransferred source destination s t =
      (p : String)
      → lookup p t ≡ (
          if str_eq destination p
          then lookup source s
          else if str_eq source p
          then none
          else lookup p s)

  copy-IsTransferred :
      (source destination : String) (s : Dict Tree)
      → str_eq source destination ≡ false
      → IsTransferred source destination s
          (delete source (set_path destination (lookup source s) s))
  copy-IsTransferred source destination s two p = ground (
    arith,
    lookup-delete source p (set_path destination (lookup source s) s),
    lookup-set_path destination p (lookup source s) s,
    two,
    eq_iff source p,
    eq_iff destination p,
    eq_iff source destination,
  )

  -- An attempt that succeeds.
  attempt-moved :
      (faults : Faults Tree) (source destination : String) (backup : Option String) (s : Dict Tree)
      (left : Option String)
      → str_eq source destination ≡ false
      → lookup source s ≢ none
      → (attempt faults source destination backup s).1 ≡ moved left
      → (t : Dict Tree) × IsTransferred source destination s t
        × (attempt faults source destination backup s ≡ finish_move faults backup t)
  unfolding attempt
  attempt-moved faults source destination backup s left two a h =
      elim (Option-cases faults.rename_source) [
        | inl e ↦ (
          rename_path source destination s,
          λ p. lookup-rename_path source destination p s a,
          rw e refl,
        )
        | inr (other_code, e) ↦ absurd (thrown-moved backup false s (rw e at h))
        | inr (exdev, e) ↦ elim (Option-cases faults.copy) [
          | inr (partial, f) ↦ absurd (thrown-moved backup true _ (rw (e, f) at h))
          | inl f ↦ elim (Option-cases faults.remove_source) [
            | inr (partial, g) ↦ absurd (thrown-moved backup true _ (rw (e, f, g) at h))
            | inl g ↦ (
              delete source (set_path destination (lookup source s) s),
              copy-IsTransferred source destination s two,
              rw (e, f, g) refl,
            )
          ]
        ]
      ]
    where
      thrown-moved :
          (b : Option String) (partial : Bool) (t : Dict Tree)
          → (roll_back faults destination b partial t).1 ≡ moved left
          → ⊥
      thrown-moved none true t z = cc
      thrown-moved none false t z = cc
      thrown-moved (some b) partial t z = cc

  -- The store after a move.
  pub record IsMovedStore (source destination backup : String) (left : Option String)
      (before after : Dict Tree) : Type 0 where
    pub at_destination : lookup destination after ≡ lookup source before
    pub at_source : lookup source after ≡ none
    pub elsewhere :
        (p : String)
        → str_eq source p ≡ false
        → str_eq destination p ≡ false
        → str_eq backup p ≡ false
        → lookup p after ≡ lookup p before
    pub no_backup : left ≡ none → lookup backup after ≡ none

  transferred-IsMovedStore :
      (source destination backup : String) (s t : Dict Tree)
      → str_eq source destination ≡ false
      → str_eq destination backup ≡ false
      → lookup backup s ≡ none
      → IsTransferred source destination s t
      → IsMovedStore source destination backup none s t
  transferred-IsMovedStore source destination backup s t two other b shift = record {
    at_destination = ground (arith, shift destination, eq_iff destination destination);
    at_source = ground (
      arith,
      shift source,
      eq_iff source source,
      eq_iff destination source,
      eq_iff source destination,
      two,
    );
    elsewhere = λ p x y z. ground (arith, shift p, x, y);
    no_backup = λ e. ground (arith, shift backup, other, b);
  }

  -- The backup is taken away.
  finished-IsMovedStore :
      (faults : Faults Tree) (source destination backup : String) (store t : Dict Tree)
      → str_eq source destination ≡ false
      → lookup source store ≢ none
      → lookup destination store ≢ none
      → lookup backup store ≡ none
      → IsTransferred source destination (rename_path destination backup store) t
      → IsMovedStore source destination backup
          (if is_some faults.remove_backup then some backup else none)
          store
          (remove_path faults.remove_backup backup t)
  finished-IsMovedStore faults source destination backup store t two there taken b shift =
      let from_source = apart source backup store there b in
      let from_destination = apart destination backup store taken b in
      let away = λ (p : String). lookup-rename_path destination backup p store taken in
      let away_back = λ (p : String) (x : str_eq backup p ≡ false).
        lookup-remove_path faults.remove_backup backup p t x in
      record {
        at_destination =
            away_back destination (flip destination from_destination)
            ∙ ground (
              arith,
              shift destination,
              eq_iff destination destination,
              away source,
              flip source from_source,
              flip_two,
            );
        at_source =
            away_back source (flip source from_source)
            ∙ ground (arith, shift source, eq_iff source source, flip_two);
        elsewhere = λ p x y z. away_back p z ∙ ground (arith, shift p, x, y, away p, z);
        no_backup = λ e. cleared_backup faults.remove_backup e;
      }
    where
      flip : (p : String) → str_eq p backup ≡ false → str_eq backup p ≡ false
      flip p x = ground (arith, x, eq_iff p backup, eq_iff backup p)

      flip_two : str_eq destination source ≡ false
      flip_two = ground (arith, two, eq_iff source destination, eq_iff destination source)

      cleared_backup :
          (fault : Option (Option Tree))
          → (if is_some fault then some backup else none) ≡ none
          → lookup backup (remove_path fault backup t) ≡ none
      cleared_backup none e = ground (arith, lookup-delete backup backup t, eq_iff backup backup)
      cleared_backup (some partial) e = cc

  move_path-files :
      (relative : String → String → List String) (ancestors : String → List String)
      (backup : String) (faults : Faults Tree) (store : Dict Tree) (directories : List String)
      (source destination : String) (overwrite : Bool) (left : Option String)
      → lookup backup store ≡ none
      → str_eq destination backup ≡ false
      → (move_path relative ancestors backup faults store directories source destination
          overwrite).0.1
        ≡ moved left
      → IsMovedStore source destination backup left store
          (move_path relative ancestors backup faults store directories source destination
            overwrite).0.0
  move_path-files relative ancestors backup faults store directories source destination overwrite
        left b other h =
      elim (move_case relative ancestors backup faults store directories source destination
        overwrite) [
          | stays e ↦ absurd (cc (sym (ap (λ o. o.1) e) ∙ h))
          | refused e ↦ absurd (cc (sym (ap (λ o. o.1) e) ∙ h))
          | alone two there free e ↦
              let (t, shift, q) =
                attempt-moved faults source destination none store left two there
                  (sym (ap (λ o. o.1) e) ∙ h) in
              let same : none ≡ left = cc (ap (λ o. o.1) (e ∙ q), h) in
              subst
                (λ l.
                  IsMovedStore source destination backup l store
                    (move_path relative ancestors backup faults store directories source destination
                      overwrite).0.0)
                same
                (subst (λ o. IsMovedStore source destination backup none store o.0) (sym (e ∙ q))
                  (transferred-IsMovedStore source destination backup store t two other b shift))
          | backed two there taken e ↦
              let away = rename_path destination backup store in
              let held : lookup source away ≢ none =
                λ z. there (sym (source_kept two there taken) ∙ z) in
              let (t, shift, q) =
                attempt-moved faults source destination (some backup) away left two held
                  (sym (ap (λ o. o.1) e) ∙ h) in
              let kept : Option String =
                if is_some faults.remove_backup then some backup else none in
              let same : kept ≡ left = cc (ap (λ o. o.1) (e ∙ q), h) in
              subst
                (λ l.
                  IsMovedStore source destination backup l store
                    (move_path relative ancestors backup faults store directories source destination
                      overwrite).0.0)
                same
                (subst (λ o. IsMovedStore source destination backup kept store o.0) (sym (e ∙ q))
                  (finished-IsMovedStore faults source destination backup store t two there taken b
                    shift))
        ]
    where
      source_kept :
          str_eq source destination ≡ false
          → lookup source store ≢ none
          → lookup destination store ≢ none
          → lookup source (rename_path destination backup store) ≡ lookup source store
      source_kept two there taken = ground (
        arith,
        lookup-rename_path destination backup source store taken,
        two,
        apart source backup store there b,
        eq_iff source destination,
        eq_iff destination source,
        eq_iff source backup,
        eq_iff backup source,
      )

  -- The store and the directories after a move.
  pub record IsMoved (ancestors : String → List String) (source destination backup : String)
      (left : Option String) (before : Dict Tree) (was : List String) (after : Dict Tree)
      (now : List String) : Type 0 where
    pub files : IsMovedStore source destination backup left before after
    pub parents : (p : String) → mem p now ≡ (mem p (ancestors destination) || mem p was)

  -- A move that succeeds, with a free path other than the destination drawn for the backup: what stood at the
  -- source stands at the destination, nothing stands at the source, all other paths hold what they held, and
  -- the backup is gone unless it is reported. The directories are those that were there and the parents of
  -- the destination.
  pub move_path-IsMoved :
      (relative : String → String → List String) (ancestors : String → List String)
      (backup : String) (faults : Faults Tree) (store : Dict Tree) (directories : List String)
      (source destination : String) (overwrite : Bool) (left : Option String)
      → lookup backup store ≡ none
      → str_eq destination backup ≡ false
      → (move_path relative ancestors backup faults store directories source destination
          overwrite).0.1
        ≡ moved left
      → IsMoved ancestors source destination backup left store directories
          (move_path relative ancestors backup faults store directories source destination
            overwrite).0.0
          (move_path relative ancestors backup faults store directories source destination
            overwrite).1
  move_path-IsMoved relative ancestors backup faults store directories source destination overwrite
        left b other h =
      record {
        files =
            move_path-files relative ancestors backup faults store directories source destination
              overwrite left b other h;
        parents =
            move_path-parents relative ancestors backup faults store directories source destination
              overwrite left h;
      }
