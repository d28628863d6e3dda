-- ===== src/Backup/Tests.antt =====
-- Backups with concrete answers of the system.
use quicktrace_public.Base.{refl}
use quicktrace_public.Backup.{maybe_backup_buffer, Numbered, maybe_backup_buffer-Numbered}
use quicktrace_public.Examples.{io, forever}

maybe_backup_buffer-Numbered_example :
    Numbered 0 (maybe_backup_buffer io forever).index (maybe_backup_buffer io forever).copies
maybe_backup_buffer-Numbered_example =
    maybe_backup_buffer-Numbered io forever 0 (refl, (refl, refl))
