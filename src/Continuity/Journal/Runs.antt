-- ===== src/Continuity/Journal/Runs.antt =====
-- What holds after a run that may be killed or throw, with one rule for each way to build a run.
use chatgpt_remote_mcp.Base.{zero, suc, ◌≡◌, ◌∙◌, refl, sym, true, Option, none, some}
use chatgpt_remote_mcp.Errors.{Result, ok}
use chatgpt_remote_mcp.Continuity.Journal.{
  Fault, killed, unwritten, unsynced, kind_of, throws, Directory, Disk, Run, finished, failed,
  crashed, Io, ◌then_do◌, done, lift, spend, write_disk,
}

-- A run ends in `Post`, or in `Crash` where it is killed or throws, which it does only by such a fault.
abbrev pub Ends : (Directory → Type 0) → (Directory → Type 0) → Option Fault → Run → Type 0
Ends Crash Post budget (finished d) = Post d.directory × (kind_of d.budget ≡ kind_of budget)
Ends Crash Post budget (failed d e) = Crash d.directory × (throws (kind_of budget) ≡ true)
Ends Crash Post budget (crashed s) = Crash s × (kind_of budget ≡ some killed)

pub record Leads (Pre Crash Post : Directory → Type 0) (m : Io) : Type 0 where
  pub at : (d : Disk) → Pre d.directory → Ends Crash Post d.budget (m d)

pub Leads-done : (P Crash : Directory → Type 0) → Leads P Crash P done
Leads-done P Crash = record { at = λ d h. (h, refl) }

pub Leads-lift :
    (P Crash : Directory → Type 0) (test : Directory → Result (Unit {0}))
    → ((s : Directory) → P s → test s ≡ ok tt)
    → Leads P Crash P (lift test)
Leads-lift P Crash test h = record { at = λ d p. rw (h d.directory p, lift) (p, refl) }

spend-Ends :
    (Crash Post : Directory → Type 0) (budget : Option Fault) (change : Directory → Directory)
    (s : Directory)
    → Crash s
    → (Post (change s) → Crash (change s))
    → Post (change s)
    → Ends Crash Post budget (spend budget change s)
spend-Ends Crash Post none change s c q p = (p, refl)
spend-Ends Crash Post (some (zero, killed)) change s c q p = (c, refl)
spend-Ends Crash Post (some (zero, unwritten)) change s c q p = (c, refl)
spend-Ends Crash Post (some (zero, unsynced)) change s c q p = (q p, refl)
spend-Ends Crash Post (some (suc n, kind)) change s c q p = (p, refl)

pub Leads-write :
    (P Crash Post : Directory → Type 0) (change : Directory → Directory)
    → ((s : Directory) → P s → Crash s)
    → ((s : Directory) → Post s → Crash s)
    → ((s : Directory) → P s → Post (change s))
    → Leads P Crash Post (write_disk change)
Leads-write P Crash Post change c q h = record {
  at = λ d p.
      spend-Ends Crash Post d.budget change d.directory (c d.directory p) (q (change d.directory))
        (h d.directory p);
}

after-Ends :
    (Crash Middle Post : Directory → Type 0) (budget : Option Fault) (r : Run) (k : Io)
    → Leads Middle Crash Post k
    → Ends Crash Middle budget r
    → Ends Crash Post budget
        (elim r [ finished d' ↦ k d' | failed d' e ↦ failed d' e | crashed s ↦ crashed s ])
after-Ends Crash Middle Post budget (finished d) k h e = widen (k d) (h.at d e.0)
  where
    widen : (r : Run) → Ends Crash Post d.budget r → Ends Crash Post budget r
    widen (finished x) y = (y.0, y.1 ∙ e.1)
    widen (failed x thrown) y = (y.0, rw e.1 at y.1)
    widen (crashed x) y = (y.0, sym e.1 ∙ y.1)
after-Ends Crash Middle Post budget (failed d x) k h e = e
after-Ends Crash Middle Post budget (crashed s) k h e = e

pub Leads-then :
    (P Crash Middle Post : Directory → Type 0) (m k : Io)
    → Leads P Crash Middle m
    → Leads Middle Crash Post k
    → Leads P Crash Post (m then_do k)
Leads-then P Crash Middle Post m k f g = record {
  at = λ d p. after-Ends Crash Middle Post d.budget (m d) k g (f.at d p);
}

-- A weaker conclusion.
pub Leads-weaken :
    (P P' Crash Crash' Post Post' : Directory → Type 0) (m : Io)
    → ((s : Directory) → P' s → P s)
    → ((s : Directory) → Crash s → Crash' s)
    → ((s : Directory) → Post s → Post' s)
    → Leads P Crash Post m
    → Leads P' Crash' Post' m
Leads-weaken P P' Crash Crash' Post Post' m pre crash post f = record {
  at = λ d p. go d.budget (m d) (f.at d (pre d.directory p));
}
  where
    go : (b : Option Fault) (r : Run) → Ends Crash Post b r → Ends Crash' Post' b r
    go b (finished x) y = (post x.directory y.0, y.1)
    go b (failed x thrown) y = (crash x.directory y.0, y.1)
    go b (crashed x) y = (crash x y.0, y.1)
