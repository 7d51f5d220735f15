-- ===== src/Continuity/Journal/Records.antt =====
-- The records of a journal against the files, while `apply` copies them.
use chatgpt_remote_mcp.Base.{
  ◌≡◌, refl, ◌⊎◌, inl, inr, true, false, some, List, [], ◌∷◌, String, arith, str_eq, eq_iff, Dict,
  lookup, put, lookup-put, Bool-cases, All, map, mem, all,
}
use chatgpt_remote_mcp.Errors.{ok}
use chatgpt_remote_mcp.Continuity.Executions.{has_duplicate}
use chatgpt_remote_mcp.Continuity.Journal.{
  JournalRecord, Formats, check_current, path_of, has_digest,
}

abbrev pub HasAfter : Formats → Dict String → JournalRecord → Type 0
HasAfter fm files r = (c : String) × (lookup r.path files ≡ some c) × (fm.hash c ≡ r.after)

abbrev pub HasEither : Formats → Dict String → JournalRecord → Type 0
HasEither fm files r =
    (c : String) × (lookup r.path files ≡ some c) × ((fm.hash c ≡ r.before) ⊎ (fm.hash c ≡ r.after))

-- No record is of this path.
abbrev pub IsElsewhere : List JournalRecord → String → Type 0
IsElsewhere js p = All (λ r. str_eq r.path p ≡ false) js

-- Each file of the journal is as it was or as it will be; the other files are as they were.
pub record IsMixed (fm : Formats) (js : List JournalRecord) (old files : Dict String) : Type 0 where
  pub either : All (HasEither fm files) js
  pub others : (p : String) → IsElsewhere js p → lookup p files ≡ lookup p old

-- Each file of the journal is as it will be; the other files are as they were.
pub record IsWritten (fm : Formats) (js : List JournalRecord) (old files : Dict String)
    : Type 0 where
  pub after : All (HasAfter fm files) js
  pub others : (p : String) → IsElsewhere js p → lookup p files ≡ lookup p old

-- Writing `r` does not harm `x`.
abbrev pub IsCompatible : Formats → JournalRecord → JournalRecord → Type 0
IsCompatible fm r x = (str_eq r.path x.path ≡ false) ⊎ (fm.hash r.body ≡ x.after)

pub record IsIn (js : List JournalRecord) (r : JournalRecord) : Type 1 where
  pub at : (P : JournalRecord → Type 0) → All P js → P r

pub record IsSafeIn (fm : Formats) (js : List JournalRecord) (r : JournalRecord) : Type 1 where
  pub member : IsIn js r
  pub compatible : All (IsCompatible fm r) js
  pub right : fm.hash r.body ≡ r.after

abbrev pub AreDistinct : List JournalRecord → Type 0
AreDistinct [] = Unit
AreDistinct (r ∷ rs) = All (λ y. str_eq y.path r.path ≡ false) rs × AreDistinct rs

mem-All :
    (p : String) (rs : List JournalRecord)
    → mem p (map path_of rs) ≡ false
    → All (λ y. str_eq y.path p ≡ false) rs
mem-All p [] h = tt
mem-All p (r ∷ rs) h = (ground (arith, h), mem-All p rs (ground (arith, h)))

pub has_duplicate-AreDistinct :
    (rs : List JournalRecord) → has_duplicate (map path_of rs) ≡ false → AreDistinct rs
has_duplicate-AreDistinct [] h = tt
has_duplicate-AreDistinct (r ∷ rs) h =
    (mem-All r.path rs (ground (arith, h)), has_duplicate-AreDistinct rs (ground (arith, h)))

pub all-digests :
    (fm : Formats) (rs : List JournalRecord)
    → all (has_digest fm) rs ≡ true
    → All (λ r. fm.hash r.body ≡ r.after) rs
all-digests fm [] h = tt
all-digests fm (r ∷ rs) h =
    ((eq_iff (fm.hash r.body) r.after).0 (ground (arith, h)), all-digests fm rs (ground (arith, h)))

-- Among distinct paths each record may be written.
pub AreDistinct-IsSafeIn :
    (fm : Formats) (rs : List JournalRecord)
    → AreDistinct rs
    → All (λ r. fm.hash r.body ≡ r.after) rs
    → All (IsSafeIn fm rs) rs
AreDistinct-IsSafeIn fm [] d h = tt
AreDistinct-IsSafeIn fm (r ∷ rs) d h = (
  record { member = record { at = λ P a. a.0 }; compatible = (inr h.0, apart rs d.0); right = h.0 },
  grow rs rs d.0 (AreDistinct-IsSafeIn fm rs d.1 h.1),
)
  where
    apart :
        (ys : List JournalRecord)
        → All (λ y. str_eq y.path r.path ≡ false) ys
        → All (IsCompatible fm r) ys
    apart [] a = tt
    apart (y ∷ ys) a =
        (inl (ground (arith, a.0, eq_iff y.path r.path, eq_iff r.path y.path)), apart ys a.1)

    grow :
        (ys zs : List JournalRecord)
        → All (λ y. str_eq y.path r.path ≡ false) ys
        → All (IsSafeIn fm zs) ys
        → All (IsSafeIn fm (r ∷ zs)) ys
    grow [] zs a s = tt
    grow (y ∷ ys) zs a s = (
      record {
        member = record { at = λ P b. s.0.member.at P b.1 };
        compatible = (inl a.0, s.0.compatible);
        right = s.0.right;
      },
      grow ys zs a.1 s.1,
    )

module _ (fm : Formats) (r : JournalRecord) (files : Dict String) where
  put-HasEither :
      (x : JournalRecord)
      → IsCompatible fm r x
      → HasEither fm files x
      → HasEither fm (put r.path r.body files) x
  put-HasEither x (inl other) (c, at, e) =
      (c, rw (lookup-put r.path x.path r.body files, other) at, e)
  put-HasEither x (inr same) (c, at, e) = elim (Bool-cases (str_eq r.path x.path)) [
    | inl here ↦ (r.body, rw (lookup-put r.path x.path r.body files, here) refl, inr same)
    | inr other ↦ (c, rw (lookup-put r.path x.path r.body files, other) at, e)
  ]

  put-All-HasEither :
      (xs : List JournalRecord)
      → All (IsCompatible fm r) xs
      → All (HasEither fm files) xs
      → All (HasEither fm (put r.path r.body files)) xs
  put-All-HasEither [] c h = tt
  put-All-HasEither (x ∷ xs) c h = (put-HasEither x c.0 h.0, put-All-HasEither xs c.1 h.1)

  pub put_other-HasAfter :
      (x : JournalRecord)
      → str_eq r.path x.path ≡ false
      → HasAfter fm files x
      → HasAfter fm (put r.path r.body files) x
  put_other-HasAfter x other (c, at, e) =
      (c, rw (lookup-put r.path x.path r.body files, other) at, e)

  pub put_own-HasAfter : fm.hash r.body ≡ r.after → HasAfter fm (put r.path r.body files) r
  put_own-HasAfter e =
      (r.body, rw (lookup-put r.path r.path r.body files, (eq_iff r.path r.path).1 refl) refl, e)

  pub put-IsMixed :
      (js : List JournalRecord) (old : Dict String)
      → IsSafeIn fm js r
      → IsMixed fm js old files
      → IsMixed fm js old (put r.path r.body files)
  put-IsMixed js old s m = record {
    either = put-All-HasEither js s.compatible m.either;
    others = λ p e.
        let apart : str_eq r.path p ≡ false = s.member.at (λ y. str_eq y.path p ≡ false) e in
        rw (lookup-put r.path p r.body files, apart) (m.others p e);
  }

pub check_current-ok :
    (fm : Formats) (rs : List JournalRecord) (files : Dict String)
    → All (HasEither fm files) rs
    → check_current fm rs files ≡ ok tt
check_current-ok fm [] files h = refl
check_current-ok fm (r ∷ rs) files h =
    let (c, at, e) = h.0 in
    let rest = check_current-ok fm rs files h.1 in
    rw (at, check_current)
      (ground (arith, rest, e, eq_iff (fm.hash c) r.before, eq_iff (fm.hash c) r.after))
