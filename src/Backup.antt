-- ===== src/Backup.antt =====
-- The backup of a full ring ("forever log"): TraceFile::maybeBackupBuffer of QuickTrace.cpp.
-- The answers of `open`, `fstat` and `sendfile` come in as Booleans.
mod Tests
use quicktrace_public.Base.{ℕ, ◌+◌, ◌≡◌, Bool, true, false, ◌&&◌, ◌||◌, not, List, [], ◌∷◌}
use quicktrace_public.Base.{is_prefix, ◌==◌, if◌then◌else◌, arith}

-- The forever-log fields of TraceHandle; `copies` lists the index of each destination written,
-- newest first.
pub record ForeverLog : Type 0 where
  pub forever_log : Bool
  pub path : List ℕ
  pub index : ℕ
  pub copies : List ℕ

pub record BackupIo : Type 0 where
  pub src_open : Bool
  pub stat_ok : Bool
  pub dest_open : Bool
  pub sent : Bool

-- `text.find( pattern ) != npos`
unfoldable pub contains : List ℕ → List ℕ → Bool
unfolding is_prefix
contains pattern [] = is_prefix pattern []
contains pattern (y ∷ ys) = is_prefix pattern (y ∷ ys) || contains pattern ys

-- "null"
abbrev pub null_word : List ℕ
null_word = b'n' ∷ b'u' ∷ b'l' ∷ b'l' ∷ []

unfoldable pub is_empty : List ℕ → Bool
is_empty [] = true
is_empty (x ∷ xs) = false

-- Each failed system call gives up with the index unchanged.
unfoldable pub maybe_backup_buffer : BackupIo → ForeverLog → ForeverLog
unfolding is_empty
maybe_backup_buffer io f =
    if not f.forever_log
    then f
    else if is_empty f.path
    then f
    else if contains null_word f.path
    then f
    else if not io.src_open
    then f
    else if not io.stat_ok
    then f
    else if not io.dest_open
    then f
    else if not io.sent
    then f
    else record f { index = f.index + 1; copies = f.index ∷ f.copies }

-- The destinations of all backups so far are numbered in a row, from the first index to the last.
abbrev pub Numbered : ℕ → ℕ → List ℕ → Type 0
Numbered first next [] = next ≡ first
Numbered first next (c ∷ cs) = (next ≡ c + 1) × Numbered first c cs

-- A backup keeps the copies numbered without a gap: a failed copy does not use up an index, and a
-- later copy never has the index of an earlier one.
pub maybe_backup_buffer-Numbered :
    (io : BackupIo) (f : ForeverLog) (first : ℕ)
    → Numbered first f.index f.copies
    → let g = maybe_backup_buffer io f in Numbered first g.index g.copies
unfolding maybe_backup_buffer
maybe_backup_buffer-Numbered io f first h = ground arith

-- With every system call answered well, a copy is made exactly when a forever log is set up, has a
-- path, and the path does not name "null".
pub maybe_backup_buffer_copies :
    (io : BackupIo) (f : ForeverLog)
    → (io.src_open && io.stat_ok && io.dest_open && io.sent) ≡ true
    → (maybe_backup_buffer io f).index ≡ (
        if f.forever_log && not (is_empty f.path) && not (contains null_word f.path)
        then f.index + 1
        else f.index)
unfolding maybe_backup_buffer
maybe_backup_buffer_copies io f h = ground arith
