-- ===== src/Files/Move/Outcome.antt =====
-- src/file-service.ts, `movePath`: what is where after a move, path by path.
use chatgpt_remote_mcp.Base.{
  ℕ, ◌≡◌, ◌≢◌, refl, sym, ap, subst, ◌∙◌, inl, inr, ◌⊎◌, Bool, false, Option, none, some, List,
  String, arith, str_eq, eq_iff, Dict, lookup, delete, lookup-delete, Bool-cases, Option-cases,
}
use chatgpt_remote_mcp.Files.Move.{
  exdev, other_code, MoveOutcome, remove_path, Faults, thrown, rename_path, set_path, attempt,
  move_path,
}
use chatgpt_remote_mcp.Files.Move.Directories.{IsGrown, move_path-IsGrown}
use chatgpt_remote_mcp.Files.Move.Paths.{
  lookup-set_path, lookup-rename_path, IsSame, cleared, lookup-remove_path, apart,
}
use chatgpt_remote_mcp.Files.Move.Cases.{stays, refused, alone, backed, move_case}

module _ {Tree : Type 0} where
  -- A source whose removal failed, or the store as it was.
  IsRestoredTo : Faults Tree → String → Dict Tree → Dict Tree → Type 0
  IsRestoredTo faults source store after =
      IsSame after store
      ⊎ ((partial : Option Tree) × (faults.remove_source ≡ some partial)
          × IsSame after (set_path source partial store))

  alone-restores :
      (faults : Faults Tree) (source destination : String) (store : Dict Tree) (n : ℕ)
      → lookup destination store ≡ none
      → str_eq source destination ≡ false
      → faults.remove_partial ≡ none
      → (attempt faults source destination none store).1 ≡ thrown n
      → IsRestoredTo faults source store (attempt faults source destination none store).0
  unfolding attempt IsRestoredTo
  alone-restores faults source destination store n b two d h =
      elim (Option-cases faults.rename_source) [
        | inl e ↦ cc (rw e at h)
        | inr (other_code, e) ↦ rw e (inl (λ p. refl))
        | inr (exdev, e) ↦ elim (Option-cases faults.copy) [
          | inr (partial, f) ↦
              rw (e, f, d)
                (inl (λ p.
                  ground (arith, cleared destination p partial store, eq_iff destination p, b)))
          | inl f ↦ elim (Option-cases faults.remove_source) [
            | inl c ↦ cc (rw (e, f, c) at h)
            | inr (partial, c) ↦ rw (e, f, c, d) (inr (partial, refl, λ p. half_removed partial p))
          ]
        ]
      ]
    where
      half_removed :
          (partial : Option Tree) (p : String)
          → lookup p (
              delete destination (
                remove_path faults.remove_copy destination
                  (set_path source partial (set_path destination (lookup source store) store))))
            ≡ lookup p (set_path source partial store)
      half_removed partial p =
          let copied = set_path destination (lookup source store) store in
          let left = set_path source partial copied in
          let gone =
            lookup-delete destination p (remove_path faults.remove_copy destination left) in
          let to = lookup-set_path source p partial store in
          elim (Bool-cases (str_eq destination p)) [
            | inl at ↦ ground (
              arith,
              gone,
              at,
              to,
              two,
              b,
              eq_iff destination p,
              eq_iff source p,
              eq_iff source destination,
            )
            | inr off ↦ ground (
              arith,
              gone,
              off,
              lookup-remove_path faults.remove_copy destination p left off,
              lookup-set_path source p partial copied,
              lookup-set_path destination p (lookup source store) store,
              to,
            )
          ]

  -- The same but at one path.
  abbrev IsSameBut : String → Dict Tree → Dict Tree → Type 0
  IsSameBut path s t = (p : String) → str_eq path p ≡ false → lookup p s ≡ lookup p t

  -- The backup is put back.
  restored-IsSame :
      (destination backup : String) (store held : Dict Tree)
      → lookup destination store ≢ none
      → lookup backup store ≡ none
      → IsSameBut destination held (rename_path destination backup store)
      → IsSame (rename_path backup destination (delete destination held)) store
  restored-IsSame destination backup store held b c k p =
      let two = apart destination backup store b c in
      let stored : lookup backup (delete destination held) ≡ lookup destination store = ground (
        arith,
        lookup-delete destination backup held,
        two,
        k backup two,
        lookup-rename_path destination backup backup store b,
        eq_iff backup backup,
      ) in
      let there : lookup backup (delete destination held) ≢ none = λ e. b (sym stored ∙ e) in
      let moved_back = lookup-rename_path backup destination p (delete destination held) there in
      elim (Bool-cases (str_eq destination p)) [
        | inl at ↦
            let same : destination ≡ p = (eq_iff destination p).0 at in
            moved_back ∙ rw at (stored ∙ ap (λ r. lookup r store) same)
        | inr off ↦
            let old = k p off ∙ lookup-rename_path destination backup p store b in
            ground
              (arith, moved_back, off, old, lookup-delete destination p held, eq_iff backup p, c)
      ]

  backed-restores :
      (faults : Faults Tree) (source destination backup : String) (store : Dict Tree) (n : ℕ)
      → lookup source store ≢ none
      → lookup destination store ≢ none
      → lookup backup store ≡ none
      → str_eq source destination ≡ false
      → faults.remove_partial ≡ none
      → faults.restore ≡ none
      → (attempt faults source destination (some backup) (rename_path destination backup store)).1
        ≡ thrown n
      → IsRestoredTo faults source store
          (attempt faults source destination (some backup) (rename_path destination backup store)).0
  unfolding attempt IsRestoredTo
  backed-restores faults source destination backup store n there a b two d r h =
      let moved_away = rename_path destination backup store in
      elim (Option-cases faults.rename_source) [
        | inl e ↦ cc (rw e at h)
        | inr (other_code, e) ↦
            rw (e, d, r)
              (inl (restored-IsSame destination backup store moved_away a b (λ q z. refl)))
        | inr (exdev, e) ↦ elim (Option-cases faults.copy) [
          | inr (partial, f) ↦
              rw (e, f, d, r)
                (inl (
                  restored-IsSame destination backup store (set_path destination partial moved_away)
                    a b
                    (λ q z. ground (arith, lookup-set_path destination q partial moved_away, z))))
          | inl f ↦ elim (Option-cases faults.remove_source) [
            | inl c ↦ cc (rw (e, f, c) at h)
            | inr (partial, c) ↦
                rw (e, f, c, d, r)
                  (inr (
                    partial,
                    refl,
                    restored-IsSame destination backup (set_path source partial store)
                        (remove_path faults.remove_copy destination (
                          set_path source partial
                            (set_path destination (lookup source moved_away) moved_away)))
                        (stands partial) (free partial) (half_removed partial),
                  ))
          ]
        ]
      ]
    where
      apart_backup : str_eq source backup ≡ false
      apart_backup = apart source backup store there b

      stands : (partial : Option Tree) → lookup destination (set_path source partial store) ≢ none
      stands partial e =
          a (ground (arith, e, two, lookup-set_path source destination partial store))

      free : (partial : Option Tree) → lookup backup (set_path source partial store) ≡ none
      free partial = ground (arith, b, apart_backup, lookup-set_path source backup partial store)

      half_removed :
          (partial : Option Tree) (p : String)
          → str_eq destination p ≡ false
          → lookup p (
              remove_path faults.remove_copy destination (
                set_path source partial (
                  set_path destination
                    (lookup source (rename_path destination backup store))
                    (rename_path destination backup store))))
            ≡ lookup p (rename_path destination backup (set_path source partial store))
      half_removed partial p off =
          let away = rename_path destination backup store in
          let copied = set_path destination (lookup source away) away in
          let left = set_path source partial copied in
          let to = lookup-set_path source p partial store in
          let to_destination = lookup-set_path source destination partial store in
          let other =
            lookup-rename_path destination backup p (set_path source partial store)
              (stands partial) in
          let was = lookup-rename_path destination backup p store a in
          lookup-remove_path faults.remove_copy destination p left off
          ∙ ground (
            arith,
            lookup-set_path source p partial copied,
            lookup-set_path destination p (lookup source away) away,
            off,
            to,
            to_destination,
            two,
            other,
            was,
            apart_backup,
            eq_iff source p,
            eq_iff backup p,
            eq_iff source backup,
          )

  pub record IsRestored (ancestors : String → List String) (faults : Faults Tree)
      (before : Dict Tree) (was : List String) (from destination : String)
      (after : (Dict Tree × MoveOutcome) × List String) : Type 0 where
    pub elsewhere : (p : String) → str_eq from p ≡ false → lookup p after.0.0 ≡ lookup p before
    pub source :
        (lookup from after.0.0 ≡ lookup from before)
        ⊎ ((partial : Option Tree) × (faults.remove_source ≡ some partial)
            × (lookup from after.0.0 ≡ partial))
    pub directories : IsGrown (ancestors destination) was after.1

  -- A move that is refused or fails, the path drawn for the backup is free, and the rollback does not fail:
  -- each path but the source holds what it held. So does the source, unless its removal after a copy failed:
  -- then it holds what that removal left. Directories were at most added, and only parents of the destination.
  pub move_path-restores :
      (relative : String → String → List String) (ancestors : String → List String)
      (backup : String) (faults : Faults Tree) (store : Dict Tree) (directories : List String)
      (source destination : String) (overwrite : Bool) (n : ℕ)
      → lookup backup store ≡ none
      → faults.remove_partial ≡ none
      → faults.restore ≡ none
      → (move_path relative ancestors backup faults store directories source destination
          overwrite).0.1
        ≡ thrown n
      → IsRestored ancestors faults store directories source destination (
          move_path relative ancestors backup faults store directories source destination overwrite)
  unfolding IsRestoredTo
  move_path-restores relative ancestors backup faults store directories source destination overwrite
        n b d r h =
      let after =
        (move_path relative ancestors backup faults store directories source destination
          overwrite).0.0 in
      let restored : IsRestoredTo faults source store after =
        elim (move_case relative ancestors backup faults store directories source destination
          overwrite) [
            | stays e ↦ absurd (cc (sym (ap (λ o. o.1) e) ∙ h))
            | refused e ↦ inl (λ p. ap (λ o. lookup p o.0) e)
            | alone two there free e ↦
                subst (λ o. IsRestoredTo faults source store o.0) (sym e)
                  (alone-restores faults source destination store n free two d
                    (sym (ap (λ o. o.1) e) ∙ h))
            | backed two there taken e ↦
                subst (λ o. IsRestoredTo faults source store o.0) (sym e)
                  (backed-restores faults source destination backup store n there taken b two d r
                    (sym (ap (λ o. o.1) e) ∙ h))
          ] in
      elim restored [
        | inl same ↦ record {
          elsewhere = λ p x. same p;
          source = inl (same source);
          directories =
              move_path-IsGrown relative ancestors backup faults store directories source
                destination overwrite;
        }
        | inr (partial, fails, same) ↦ record {
          elsewhere = λ p x. same p ∙ ground (arith, lookup-set_path source p partial store, x);
          source = inr (
            partial,
            fails,
            same source
                ∙ ground (arith, lookup-set_path source source partial store, eq_iff source source),
          );
          directories =
              move_path-IsGrown relative ancestors backup faults store directories source
                destination overwrite;
        }
      ]
