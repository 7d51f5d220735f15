-- ===== src/Telemetry/Rotation.antt =====
-- src/telemetry.ts, `#rotate`: what it keeps of the files and their sizes.
use chatgpt_remote_mcp.Base.{
  ℕ, zero, suc, ◌+◌, ◌≤◌, ◌≡◌, refl, ◌∙◌, ◌⊎◌, inr, Bool, true, false, Option, none, some, List, [],
  ◌∷◌, ◌++◌, arith, length, take, drop, All, All-append,
}
use chatgpt_remote_mcp.Telemetry.{
  Line, UsageLogOptions, rotate, rotated, rotated_from, byte_length, current_file, Written,
  rotate_if,
}

-- A file is no larger than it may be, or it has one line.
pub record IsFile (max_bytes : ℕ) (file : List Line) : Type 0 where
  pub fits : (byte_length file ≤ max_bytes) ⊎ (length file ≤ 1)
  pub whole : All (λ line. 1 ≤ length line) file

pub byte_length-append :
    (xs ys : List Line) → byte_length (xs ++ ys) ≡ byte_length xs + byte_length ys
byte_length-append [] ys = omega arith
byte_length-append (x ∷ xs) ys = omega (arith, byte_length-append xs ys)

All-take :
    (max_bytes n : ℕ) (disk : List (List Line))
    → All (IsFile max_bytes) disk
    → All (IsFile max_bytes) (take n disk)
All-take max_bytes zero disk h = tt
All-take max_bytes (suc n) [] h = tt
All-take max_bytes (suc n) (file ∷ older) h = (h.0, All-take max_bytes n older h.1)

All-drop :
    (max_bytes n : ℕ) (disk : List (List Line))
    → All (IsFile max_bytes) disk
    → All (IsFile max_bytes) (drop n disk)
All-drop max_bytes zero disk h = h
All-drop max_bytes (suc n) [] h = tt
All-drop max_bytes (suc n) (file ∷ older) h = All-drop max_bytes n older h.1

rotated-files :
    (max_bytes files : ℕ) (disk : List (List Line))
    → All (IsFile max_bytes) disk
    → All (IsFile max_bytes) (rotated files disk)
unfolding rotated
rotated-files max_bytes zero disk h = h
rotated-files max_bytes (suc n) disk h = (
  record { fits = inr (omega arith); whole = tt },
  All-append (IsFile max_bytes) (take n disk) (drop (suc n) disk) (All-take max_bytes n disk h)
      (All-drop max_bytes (suc n) disk h),
)

rotated_from-files :
    (max_bytes stays files : ℕ) (disk : List (List Line))
    → All (IsFile max_bytes) disk
    → All (IsFile max_bytes) (rotated_from stays files disk)
unfolding rotated_from
rotated_from-files max_bytes zero files disk h = rotated-files max_bytes files disk h
rotated_from-files max_bytes (suc stays) zero disk h = h
rotated_from-files max_bytes (suc stays) (suc files) [] h = tt
rotated_from-files max_bytes (suc stays) (suc files) (file ∷ older) h =
    (h.0, rotated_from-files max_bytes stays files older h.1)

-- What `#writeLines` keeps: it knows the size of the current file, and no file is too large.
pub record IsKept (options : UsageLogOptions) (w : Written) : Type 0 where
  pub size : w.size ≡ byte_length (current_file w.disk)
  pub files : All (IsFile options.max_bytes) w.disk

pub rotate_if-IsKept :
    (due : Bool) (fault : Option ℕ) (options : UsageLogOptions) (w : Written)
    → IsKept options w
    → IsKept options (rotate_if due fault options w)
unfolding rotate rotated rotated_from
rotate_if-IsKept false fault options w h = h
rotate_if-IsKept true none options w h = record {
  size = refl;
  files = rotated-files options.max_bytes (suc options.older_files) w.disk h.files;
}
rotate_if-IsKept true (some index) options w h = record {
  size = h.size ∙ go w.disk;
  files = rotated_from-files options.max_bytes (suc index) (suc options.older_files) w.disk h.files;
}
  where
    go :
        (disk : List (List Line))
        → byte_length (current_file disk)
          ≡ byte_length (current_file (rotated_from (suc index) (suc options.older_files) disk))
    go [] = refl
    go (file ∷ older) = refl
