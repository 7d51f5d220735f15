-- ===== src/Continuity/Journal/Writes.antt =====
-- `apply` from any mixture of old and new files.
use chatgpt_remote_mcp.Base.{
  ◌≡◌, refl, inl, inr, false, Option, List, [], ◌∷◌, String, str_eq, eq_iff, Dict, put, Bool-cases,
  All,
}
use chatgpt_remote_mcp.Continuity.Journal.{
  JournalRecord, Journal, Formats, Directory, ◌then_do◌, done, lift, check_current, put_file,
  write_record, write_records, apply,
}
use chatgpt_remote_mcp.Continuity.Journal.Runs.{
  Leads, Leads-done, Leads-lift, Leads-write, Leads-then, Leads-weaken,
}
use chatgpt_remote_mcp.Continuity.Journal.Records.{
  HasAfter, HasEither, IsMixed, IsWritten, IsSafeIn, AreDistinct, put-IsMixed, put_other-HasAfter,
  put_own-HasAfter, check_current-ok,
}

module _ (fm : Formats) (js : List JournalRecord) (old : Dict String)
    (journals : Dict (Option Journal)) (markers : Dict String) where
  -- The journal is committed, and its files are a mixture.
  pub record Copying (s : Directory) : Type 0 where
    pub same_journals : s.journals ≡ journals
    pub same_markers : s.markers ≡ markers
    pub mixed : IsMixed fm js old s.files

  abbrev Both : (Dict String → Type 0) → Directory → Type 0
  Both X s = Copying s × X s.files

  -- What a write of `r` keeps.
  abbrev IsKeptBy : (Dict String → Type 0) → JournalRecord → Type 0
  IsKeptBy X r = (files : Dict String) → X files → X (put r.path r.body files)

  write_record-Leads :
      (r : JournalRecord) (X : Dict String → Type 0)
      → IsSafeIn fm js r
      → IsKeptBy X r
      → Leads (Both X) Copying (Both (λ f. X f × HasAfter fm f r)) (write_record fm r)
  write_record-Leads r X safe keeps = record {
    at = λ d (c, x).
        let (current, found, e) = safe.member.at (HasEither fm d.directory.files) c.mixed.either in
        elim (Bool-cases (str_eq (fm.hash current) r.after)) [
          | inl same ↦
              let eq = (eq_iff (fm.hash current) r.after).0 same in
              rw (found, same, write_record) ((c, (x, (current, found, eq))), refl)
          | inr other ↦
              let written =
                Leads-write (Both X) Copying (Both (λ f. X f × HasAfter fm f r)) (put_file r)
                  (λ s p. p.0) (λ s p. p.0)
                  (λ s p. (
                    record {
                      same_journals = p.0.same_journals;
                      same_markers = p.0.same_markers;
                      mixed = put-IsMixed fm r s.files js old safe p.0.mixed;
                    },
                    (keeps s.files p.1, put_own-HasAfter fm r s.files safe.right),
                  )) in
              rw (found, other, write_record) (written.at d (c, x))
        ];
  }

  write_records-Leads :
      (rs : List JournalRecord) (X : Dict String → Type 0)
      → All (IsSafeIn fm js) rs
      → All (IsKeptBy X) rs
      → AreDistinct rs
      → Leads (Both X) Copying (Both (λ f. X f × All (HasAfter fm f) rs)) (write_records fm rs)
  unfolding write_records
  write_records-Leads [] X safe keeps d =
      Leads-weaken (Both X) (Both X) Copying Copying (Both X) (Both (λ f. X f × Unit {0})) done
        (λ s p. p) (λ s p. p) (λ s p. (p.0, (p.1, tt))) (Leads-done (Both X) Copying)
  write_records-Leads (r ∷ rs) X safe keeps d =
      let Y : Dict String → Type 0 = λ f. X f × HasAfter fm f r in
      let rest = write_records-Leads rs Y safe.1 (both rs keeps.1 d.0) d.1 in
      Leads-weaken (Both X) (Both X) Copying Copying (Both (λ f. Y f × All (HasAfter fm f) rs)) _
        (write_record fm r then_do write_records fm rs) (λ s p. p) (λ s p. p)
        (λ s p. (p.0, (p.1.0.0, (p.1.0.1, p.1.1))))
        (Leads-then (Both X) Copying (Both Y) (Both (λ f. Y f × All (HasAfter fm f) rs))
          (write_record fm r) (write_records fm rs) (write_record-Leads r X safe.0 keeps.0) rest)
    where
      both :
          (ys : List JournalRecord)
          → All (IsKeptBy X) ys
          → All (λ y. str_eq y.path r.path ≡ false) ys
          → All (IsKeptBy (λ f. X f × HasAfter fm f r)) ys
      both [] k a = tt
      both (y ∷ ys) k a =
          (λ files x. (k.0 files x.0, put_other-HasAfter fm y files r a.0 x.1), both ys k.1 a.1)

  pub record Copied (s : Directory) : Type 0 where
    pub same_journals : s.journals ≡ journals
    pub same_markers : s.markers ≡ markers
    pub written : IsWritten fm js old s.files

  -- Wherever it is stopped, the files are a mixture; at its end they are all new.
  pub apply-Leads :
      (j : Journal)
      → j.records ≡ js
      → All (IsSafeIn fm js) js
      → AreDistinct js
      → Leads Copying Copying Copied (apply fm j)
  unfolding apply
  apply-Leads j same safe distinct =
      let X : Dict String → Type 0 = λ f. Unit {0} in
      rw same (
        Leads-then Copying Copying Copying Copied (lift (λ s. check_current fm js s.files))
          (write_records fm js)
          (Leads-lift Copying Copying (λ s. check_current fm js s.files)
            (λ s c. check_current-ok fm js s.files c.mixed.either))
          (Leads-weaken (Both X) Copying Copying Copying (Both (λ f. X f × All (HasAfter fm f) js))
            Copied (write_records fm js) (λ s c. (c, tt)) (λ s c. c)
            (λ s p. record {
              same_journals = p.0.same_journals;
              same_markers = p.0.same_markers;
              written = record { after = p.1.1; others = p.0.mixed.others };
            })
            (write_records-Leads js X safe (free js) distinct)))
    where
      free : (ys : List JournalRecord) → All (IsKeptBy (λ f. Unit {0})) ys
      free [] = tt
      free (y ∷ ys) = (λ files x. tt, free ys)
