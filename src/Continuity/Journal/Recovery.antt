-- ===== src/Continuity/Journal/Recovery.antt =====
-- src/continuity/storage-journal.ts: what recovery does with the directories that a stopped commit or a
-- stopped recovery leaves.
use chatgpt_remote_mcp.Base.{
  ◌≡◌, refl, sym, subst, inl, inr, true, Option, none, some, [], String, str_eq, eq_iff, Dict,
  lookup, is_some, if◌then◌else◌,
}
use chatgpt_remote_mcp.Continuity.Journal.{
  Journal, Formats, Directory, Disk, finished, Io, ◌then_do◌, done, write_disk, remove_journal,
  remove_marker, recover_committed, recover_journal, recover_loop, sweep_marker, sweep_loop,
  recover_journals,
}
use chatgpt_remote_mcp.Continuity.Journal.Runs.{
  Ends, Leads, Leads-done, Leads-write, Leads-then, Leads-weaken,
}
use chatgpt_remote_mcp.Continuity.Journal.Atomic.{
  IsSound, journal_file, marker_file, IsBefore, IsDuring, IsAfter, IsStopped, before, during, after,
  IsSettled, IsSettled-IsStopped, IsCommitted, recover_committed-Leads,
}

module _ (fm : Formats) (j : Journal) (old : Dict String) where
  here : str_eq j.transaction_id j.transaction_id ≡ true
  here = (eq_iff j.transaction_id j.transaction_id).1 refl

  -- Recovery over these lists.
  abbrev over : Dict (Option Journal) → Dict String → Io
  over journals markers = recover_loop fm j.workspace_id journals then_do sweep_loop markers

  -- The directory that recovery starts from, with what it lists.
  record Lists (Facts : Directory → Type 0) (journals : Dict (Option Journal))
      (markers : Dict String) (s : Directory) : Type 0 where
    facts : Facts s
    same_journals : s.journals ≡ journals
    same_markers : s.markers ≡ markers

  over-Lists :
      (Facts : Directory → Type 0) (journals : Dict (Option Journal)) (markers : Dict String)
      → Leads
          (Lists Facts journals markers)
          (IsStopped fm j old)
          (IsSettled fm j old)
          (over journals markers)
      → (d : Disk) → Lists Facts journals markers d.directory
      → Ends
          (IsStopped fm j old)
          (IsSettled fm j old)
          d.budget
          (recover_journals fm j.workspace_id d)
  unfolding recover_journals
  over-Lists Facts journals markers h d p =
      subst
        (λ ms.
          Ends (IsStopped fm j old) (IsSettled fm j old) d.budget (over d.directory.journals ms d))
        (sym p.same_markers)
        (subst (λ js. Ends (IsStopped fm j old) (IsSettled fm j old) d.budget (over js markers d))
          (sym p.same_journals) (h.at d p))

  -- Nothing is listed.
  nothing-Leads :
      (Facts : Directory → Type 0)
      → ((s : Directory) → Lists Facts [] [] s → IsSettled fm j old s)
      → Leads (Lists Facts [] []) (IsStopped fm j old) (IsSettled fm j old) (over [] [])
  unfolding recover_loop sweep_loop
  nothing-Leads Facts h =
      let P = Lists Facts [] [] in
      Leads-weaken P P (IsStopped fm j old) (IsStopped fm j old) P (IsSettled fm j old) _ (λ s p. p)
        (λ s p. p) h
        (Leads-then P (IsStopped fm j old) P P done done (Leads-done P (IsStopped fm j old))
          (Leads-done P (IsStopped fm j old)))

  -- A journal without a marker is removed.
  unmarked-Leads :
      Leads
        (Lists (IsBefore fm j old) (journal_file j) [])
        (IsStopped fm j old)
        (IsSettled fm j old)
        (over (journal_file j) [])
  unfolding recover_loop sweep_loop
  unmarked-Leads =
      let P = Lists (IsBefore fm j old) (journal_file j) [] in
      let removal =
        Leads-write P (IsStopped fm j old) (IsSettled fm j old) (remove_journal j.transaction_id)
          (λ s p. before p.facts) (λ s h. IsSettled-IsStopped fm j old s h)
          (λ s p. record {
            journals = rw (p.same_journals, here) refl;
            markers = p.same_markers;
            files = inl p.facts.files;
          }) in
      let removes : Leads P (IsStopped fm j old) (IsSettled fm j old)
          (recover_journal fm j.workspace_id (j.transaction_id, some j)) =
        record {
          at = λ d p.
              subst
                (λ ms.
                  Ends (IsStopped fm j old) (IsSettled fm j old) d.budget
                    (elim (lookup j.transaction_id ms) [
                      | none ↦ write_disk (remove_journal j.transaction_id) d
                      | some marker ↦
                          recover_committed fm j.workspace_id j.transaction_id (some j) marker d
                    ]))
                (sym p.same_markers) (removal.at d p);
        } in
      let P' = IsStopped fm j old in
      let Q = IsSettled fm j old in
      Leads-then P P' Q Q _ done (Leads-then P P' Q Q _ done removes (Leads-done Q P'))
        (Leads-done Q P')

  -- A marker whose journal is not there is removed.
  unlisted-sweep :
      (P : Directory → Type 0)
      → Leads P
          (IsStopped fm j old)
          (IsSettled fm j old)
          (write_disk (remove_marker j.transaction_id))
      → ((s : Directory) → P s → s.journals ≡ [])
      → Leads P (IsStopped fm j old) (IsSettled fm j old) (sweep_marker j.transaction_id)
  unlisted-sweep P removal empty = record {
    at = λ d p.
        subst
          (λ js. Ends (IsStopped fm j old) (IsSettled fm j old) d.budget (
            if is_some (lookup j.transaction_id js)
            then finished d
            else write_disk (remove_marker j.transaction_id) d))
          (sym (empty d.directory p)) (removal.at d p);
  }

  -- The journal is committed.
  marked-Leads :
      IsSound fm j
      → Leads
          (Lists (IsDuring fm j old) (journal_file j) (marker_file fm j))
          (IsStopped fm j old)
          (IsSettled fm j old)
          (over (journal_file j) (marker_file fm j))
  unfolding recover_loop sweep_loop
  marked-Leads sound =
      let P = Lists (IsDuring fm j old) (journal_file j) (marker_file fm j) in
      let X = IsStopped fm j old in
      let C = IsCommitted fm j old in
      let Q = IsSettled fm j old in
      let commits : Leads P X C (recover_journal fm j.workspace_id (j.transaction_id, some j)) =
        record {
          at = λ d p.
              subst
                (λ ms. Ends X C d.budget (elim (lookup j.transaction_id ms) [
                  | none ↦ write_disk (remove_journal j.transaction_id) d
                  | some marker ↦
                      recover_committed fm j.workspace_id j.transaction_id (some j) marker d
                ]))
                (sym p.same_markers)
                (rw (here) ((recover_committed-Leads fm j old sound).at d p.facts));
        } in
      let sweeps : Leads C X Q (sweep_marker j.transaction_id) =
        unlisted-sweep C
          (Leads-write C X Q (remove_marker j.transaction_id)
            (λ s c.
              after
                (record { written = c.written; journals = c.journals; markers = inl c.markers }))
            (λ s h. IsSettled-IsStopped fm j old s h)
            (λ s c. record {
              journals = c.journals;
              markers = rw c.markers refl;
              files = inr c.written;
            }))
          (λ s c. c.journals) in
      Leads-then P X C Q _ _ (Leads-then P X C C _ done commits (Leads-done C X))
        (Leads-then C X Q Q _ done sweeps (Leads-done Q X))

  -- A marker without a journal is removed.
  orphan-Leads :
      Leads
        (Lists (IsAfter fm j old) [] (marker_file fm j))
        (IsStopped fm j old)
        (IsSettled fm j old)
        (over [] (marker_file fm j))
  unfolding recover_loop sweep_loop
  orphan-Leads =
      let P = Lists (IsAfter fm j old) [] (marker_file fm j) in
      let X = IsStopped fm j old in
      let Q = IsSettled fm j old in
      let removal =
        Leads-write P X Q (remove_marker j.transaction_id) (λ s p. after p.facts)
          (λ s h. IsSettled-IsStopped fm j old s h)
          (λ s p. record {
            journals = p.same_journals;
            markers = rw (p.same_markers, here) refl;
            files = inr p.facts.written;
          }) in
      Leads-then P X P Q done _ (Leads-done P X) (
        Leads-then P X Q Q _ done (unlisted-sweep P removal (λ s p. p.same_journals))
          (Leads-done Q X))

  -- A recovery ends with nothing left of the transaction, wherever what came before was stopped.
  pub recover-Leads :
      IsSound fm j
      → Leads
          (IsStopped fm j old)
          (IsStopped fm j old)
          (IsSettled fm j old)
          (recover_journals fm j.workspace_id)
  recover-Leads sound = record { at = λ d p. go d p }
    where
      go :
          (d : Disk)
          → IsStopped fm j old d.directory
          → Ends
              (IsStopped fm j old)
              (IsSettled fm j old)
              d.budget
              (recover_journals fm j.workspace_id d)
      go d (before b) = elim b.journals [
        | inl no_journal ↦
            over-Lists (IsBefore fm j old) [] []
              (nothing-Leads (IsBefore fm j old) (λ s p. record {
                journals = p.same_journals;
                markers = p.same_markers;
                files = inl p.facts.files;
              }))
              d (record { facts = b; same_journals = no_journal; same_markers = b.markers })
        | inr listed ↦
            over-Lists (IsBefore fm j old) (journal_file j) [] unmarked-Leads d
              (record { facts = b; same_journals = listed; same_markers = b.markers })
      ]
      go d (during c) =
          over-Lists (IsDuring fm j old) (journal_file j) (marker_file fm j) (marked-Leads sound) d
            (record { facts = c; same_journals = c.same_journals; same_markers = c.same_markers })
      go d (after a) = elim a.markers [
        | inl no_marker ↦
            over-Lists (IsAfter fm j old) [] []
              (nothing-Leads (IsAfter fm j old) (λ s p. record {
                journals = p.same_journals;
                markers = p.same_markers;
                files = inr p.facts.written;
              }))
              d (record { facts = a; same_journals = a.journals; same_markers = no_marker })
        | inr orphan ↦
            over-Lists (IsAfter fm j old) [] (marker_file fm j) orphan-Leads d
              (record { facts = a; same_journals = a.journals; same_markers = orphan })
      ]
