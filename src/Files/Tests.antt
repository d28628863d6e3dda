-- ===== src/Files/Tests.antt =====
-- A rotation with a compressed old file.
use quicktrace_public.Base.{ℕ, ◌≡◌, refl, none, some}
use quicktrace_public.Files.{Files, Rotated, save_old_files, save_old_files-Rotated}

abbrev files : Files ℕ
files = record { path = some 3; old = none; old_gz = some 2; oldest = none; oldest_gz = none }

save_old_files-Rotated_example : Rotated files (save_old_files files)
save_old_files-Rotated_example = save_old_files-Rotated files

save_old_files-test :
    save_old_files files
    ≡ record { path = none; old = some 3; old_gz = none; oldest = none; oldest_gz = some 2 }
unfolding save_old_files
save_old_files-test = refl
