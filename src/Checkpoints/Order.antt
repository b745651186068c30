-- ===== src/Checkpoints/Order.antt =====
-- src/main/road-checkpoint-store.js: the files of a run come with the newest one first.
use gps_device_virtual_farm.Prelude.{
  ℕ, ◌+◌, ◌≤◌, ◌<◌, ◌≡◌, ◌≢◌, refl, true, ◌&&◌, List, [], ◌∷◌, arith, leb, ◌==◌, holds_if,
  holds_cases, All,
}
use gps_device_virtual_farm.Prelude.Texts.{same_text}
use gps_device_virtual_farm.Checkpoints.{DiskFile, insert_file, generation_files, unlink}

-- Each file of the run has a number that is at most the bound.
abbrev pub Below : List ℕ → ℕ → List DiskFile → Type 0
Below run n disk = All (λ f. same_text f.run run ≡ true → f.number ≤ n) disk

abbrev pub AtMost : ℕ → List DiskFile → Type 0
AtMost n fs = All (λ f. f.number ≤ n) fs

pub AtMost-le : (n k : ℕ) (fs : List DiskFile) → n ≤ k → AtMost n fs → AtMost k fs
AtMost-le n k [] h a = tt
AtMost-le n k (f ∷ fs) h a = (omega (arith, a.0), AtMost-le n k fs h a.1)

pub Below-le :
    (run : List ℕ) (n k : ℕ) (fs : List DiskFile) → n ≤ k → Below run n fs → Below run k fs
Below-le run n k [] h a = tt
Below-le run n k (f ∷ fs) h a = (λ e. omega (arith, a.0 e), Below-le run n k fs h a.1)

AtMost-insert_file :
    (n : ℕ) (f : DiskFile) (gs : List DiskFile)
    → f.number ≤ n
    → AtMost n gs
    → AtMost n (insert_file f gs)
unfolding insert_file
AtMost-insert_file n f [] h a = (h, tt)
AtMost-insert_file n f (g ∷ gs) h a =
    holds_if (AtMost n) (leb g.number f.number) (h, a) (a.0, AtMost-insert_file n f gs h a.1)

pub AtMost-generation_files :
    (run : List ℕ) (n : ℕ) (disk : List DiskFile)
    → Below run n disk
    → AtMost n (generation_files run disk)
unfolding generation_files
AtMost-generation_files run n [] b = tt
AtMost-generation_files run n (f ∷ fs) b =
    let rest = AtMost-generation_files run n fs b.1 in
    holds_cases (AtMost n) (same_text f.run run) (λ e. AtMost-insert_file n f _ (b.0 e) rest)
      (λ _. rest)

-- The number of the newest file.
unfoldable pub newest : List DiskFile → ℕ
newest [] = 0
newest (f ∷ fs) = f.number

newest-insert_file :
    (f : DiskFile) (gs : List DiskFile)
    → (f.number ≤ newest (insert_file f gs)) × (newest gs ≤ newest (insert_file f gs))
unfolding insert_file newest
newest-insert_file f [] = (omega arith, omega arith)
newest-insert_file f (g ∷ gs) = ground arith

pub Below-newest :
    (run : List ℕ) (disk : List DiskFile) → Below run (newest (generation_files run disk)) disk
unfolding generation_files
Below-newest run [] = tt
Below-newest run (f ∷ fs) =
    let rest = Below-newest run fs in
    let (above, grows) = newest-insert_file f (generation_files run fs) in
    holds_cases (λ gs. Below run (newest gs) (f ∷ fs)) (same_text f.run run)
      (λ e. (λ _. above, Below-le run _ _ fs grows rest))
      (λ other. (λ e. absurd (ground (arith, e, other)), rest))

-- The number of a listed file is not above that of the first.
pub AtMost-newest :
    (run : List ℕ) (disk : List DiskFile)
    → AtMost (newest (generation_files run disk)) (generation_files run disk)
AtMost-newest run disk = AtMost-generation_files run _ disk (Below-newest run disk)

-- A file that is newer than all others comes first.
insert_file-newer :
    (f : DiskFile) (gs : List DiskFile) (n : ℕ)
    → AtMost n gs
    → n < f.number
    → insert_file f gs ≡ f ∷ gs
unfolding insert_file
insert_file-newer f [] n a h = refl
insert_file-newer f (g ∷ gs) n a h = ground (arith, a.0, h)

pub generation_files-newer :
    (run : List ℕ) (f : DiskFile) (disk : List DiskFile) (n : ℕ)
    → same_text f.run run ≡ true
    → Below run n disk
    → n < f.number
    → generation_files run (f ∷ disk) ≡ f ∷ generation_files run disk
unfolding generation_files
generation_files-newer run f disk n own b h =
    rw own
      (insert_file-newer f (generation_files run disk) n (AtMost-generation_files run n disk b) h)

-- Removing files.
pub Below-unlink :
    (run : List ℕ) (n k : ℕ) (disk : List DiskFile)
    → Below run n disk
    → Below run n (unlink run k disk)
unfolding unlink
Below-unlink run n k [] b = tt
Below-unlink run n k (f ∷ fs) b =
    let rest = Below-unlink run n k fs b.1 in
    holds_if (Below run n) (same_text f.run run && f.number == k) rest (b.0, rest)

-- Without the file of the highest number, the bound is lower.
pub Below-unlink_top :
    (run : List ℕ) (n : ℕ) (disk : List DiskFile)
    → Below run (n + 1) disk
    → Below run n (unlink run (n + 1) disk)
unfolding unlink
Below-unlink_top run n [] b = tt
Below-unlink_top run n (f ∷ fs) b =
    let rest = Below-unlink_top run n fs b.1 in
    holds_cases (Below run n) (same_text f.run run && f.number == n + 1) (λ _. rest)
      (λ stays. (λ own. ground (arith, stays, own, b.0 own), rest))

pub unlink-other :
    (run : List ℕ) (k : ℕ) (f : DiskFile) (disk : List DiskFile)
    → f.number ≢ k
    → unlink run k (f ∷ disk) ≡ f ∷ unlink run k disk
unfolding unlink
unlink-other run k f disk ne = ground (arith, ne)
