-- ===== src/Files/Move/Directories.antt =====
-- src/file-service.ts, `movePath`: the parents of the destination that it makes.
use chatgpt_remote_mcp.Base.{
  ℕ, zero, suc, ◌≡◌, refl, ap, ◌∙◌, ◌⊎◌, inl, inr, Bool, true, false, ◌||◌, Option, List, [], ◌∷◌,
  String, arith, str_eq, eq_iff, Dict, lookup, mem, add, take, mem-snoc, Bool-cases, Option-cases,
}
use chatgpt_remote_mcp.Files.Move.{Faults, is_path_within, make_directories, move_path, moved}

-- Directories are only added, and only some of those that may be made.
pub record IsGrown (made before after : List String) : Type 0 where
  pub kept : (p : String) → mem p before ≡ true → mem p after ≡ true
  pub only : (p : String) → mem p after ≡ true → (mem p before ≡ true) ⊎ (mem p made ≡ true)

mem-add : (p q : String) (ds : List String) → mem p (add q ds) ≡ (str_eq q p || mem p ds)
mem-add p q ds = elim (Bool-cases (mem q ds)) [
  | inr new ↦ rw new (ground (arith, mem-snoc q p ds))
  | inl old ↦ elim (Bool-cases (str_eq q p)) [
    | inr other ↦ rw (old, other) refl
    | inl at ↦
        let same : q ≡ p = (eq_iff q p).0 at in
        let there : mem p ds ≡ true = rw same at old in rw (old, at, there) refl
  ]
]

pub mem-make_directories :
    (p : String) (ps ds : List String) → mem p (make_directories ps ds) ≡ (mem p ps || mem p ds)
mem-make_directories p [] ds = refl
mem-make_directories p (q ∷ ps) ds =
    mem-make_directories p ps (add q ds)
    ∙ go (mem p ps) (mem p (add q ds)) (str_eq q p) (mem p ds) (mem-add p q ds)
  where
    go : (a b c d : Bool) → b ≡ (c || d) → (a || b) ≡ (c || a || d)
    go a b true d e = ground (arith, e)
    go a b false d e = ap (λ x. a || x) e

mem-take : (p : String) (n : ℕ) (ps : List String) → mem p (take n ps) ≡ true → mem p ps ≡ true
mem-take p zero ps h = cc h
mem-take p (suc n) [] h = h
mem-take p (suc n) (q ∷ ps) h = ground (arith, h, mem-take p n ps)

IsGrown-refl : (made ds : List String) → IsGrown made ds ds
IsGrown-refl made ds = record { kept = λ p h. h; only = λ p h. inl h }

make_directories-IsGrown :
    (made ps ds : List String)
    → ((p : String) → mem p ps ≡ true → mem p made ≡ true)
    → IsGrown made ds (make_directories ps ds)
make_directories-IsGrown made ps ds h = record {
  kept = λ p there. ground (arith, mem-make_directories p ps ds, there);
  only = λ p there. elim (Bool-cases (mem p ds)) [
    | inl old ↦ inl old
    | inr new ↦ inr (h p (ground (arith, mem-make_directories p ps ds, there, new)))
  ];
}

module _ {Tree : Type 0} where
  pub move_path-IsGrown :
      (relative : String → String → List String) (ancestors : String → List String)
      (backup : String) (faults : Faults Tree) (store : Dict Tree) (directories : List String)
      (source destination : String) (overwrite : Bool)
      → IsGrown
          (ancestors destination)
          directories
          (move_path relative ancestors backup faults store directories source destination
            overwrite).1
  unfolding move_path
  move_path-IsGrown relative ancestors backup faults store directories source destination
        overwrite =
      let nested =
        is_path_within relative source destination || is_path_within relative destination source in
      let same = IsGrown-refl (ancestors destination) directories in
      elim (Bool-cases (str_eq source destination)) [
        | inl one ↦ rw one same
        | inr two ↦ elim (Option-cases (lookup source store)) [
          | inl missing ↦ rw (two, missing) same
          | inr (tree, there) ↦ elim (Bool-cases nested) [
            | inl within ↦ rw (two, there, within) same
            | inr clear ↦ elim (Option-cases faults.make_parents) [
              | inl works ↦
                  rw (two, there, clear, works)
                    (make_directories-IsGrown (ancestors destination) (ancestors destination)
                      directories (λ p h. h))
              | inr (made, fails) ↦
                  rw (two, there, clear, fails)
                    (make_directories-IsGrown (ancestors destination)
                      (take made (ancestors destination)) directories
                      (λ p h. mem-take p made (ancestors destination) h))
            ]
          ]
        ]
      ]

  -- A move that succeeds has made all parents of the destination.
  pub move_path-parents :
      (relative : String → String → List String) (ancestors : String → List String)
      (backup : String) (faults : Faults Tree) (store : Dict Tree) (directories : List String)
      (source destination : String) (overwrite : Bool) (left : Option String)
      → (move_path relative ancestors backup faults store directories source destination
          overwrite).0.1
        ≡ moved left
      → (p : String)
      → mem p
          (move_path relative ancestors backup faults store directories source destination
            overwrite).1
        ≡ (mem p (ancestors destination) || mem p directories)
  unfolding move_path
  move_path-parents relative ancestors backup faults store directories source destination overwrite
        left h p =
      let nested =
        is_path_within relative source destination || is_path_within relative destination source in
      elim (Bool-cases (str_eq source destination)) [
        | inl one ↦ cc (rw one at h)
        | inr two ↦ elim (Option-cases (lookup source store)) [
          | inl missing ↦ cc (rw (two, missing) at h)
          | inr (tree, there) ↦ elim (Bool-cases nested) [
            | inl within ↦ cc (rw (two, there, within) at h)
            | inr clear ↦ elim (Option-cases faults.make_parents) [
              | inr (made, fails) ↦ cc (rw (two, there, clear, fails) at h)
              | inl works ↦
                  rw (two, there, clear, works)
                    (mem-make_directories p (ancestors destination) directories)
            ]
          ]
        ]
      ]
