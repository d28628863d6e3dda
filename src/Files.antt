-- ===== src/Files.antt =====
-- The rotation of old trace files: saveOldFiles of QuickTrace.cpp.
mod Tests
use quicktrace_public.Base.{
  ◌≡◌, refl, Bool, true, false, not, ◌&&◌, ◌||◌, Option, none, some, if◌then◌else◌,
}

-- The files beside a path: the file itself, and those with the suffixes .1, .1.gz, .2 and .2.gz;
-- `some` is the content of one that exists.
pub record Files {ℓ} (A : Type ℓ) : Type ℓ where
  pub path : Option A
  pub old : Option A
  pub old_gz : Option A
  pub oldest : Option A
  pub oldest_gz : Option A

module _ {ℓ} {A : Type ℓ} where
  -- `access( f, F_OK ) == 0`
  unfoldable pub exists : Option A → Bool
  exists none = false
  exists (some a) = true

  -- What a `rename` leaves at its target; without a source it does nothing.
  unfoldable pub renamed : Option A → Option A → Option A
  renamed none target = target
  renamed (some a) target = some a

  -- The first part: an old file becomes the oldest, compressed or not, if there is no oldest yet;
  -- then a compressed old file that is left is removed.
  unfoldable pub age : Files A → Files A
  unfolding exists renamed
  age f =
      let free = not (exists f.oldest_gz) && not (exists f.oldest) in
      if exists f.old_gz
      then record f {
        old_gz = none;
        oldest_gz = if free then renamed f.old_gz f.oldest_gz else f.oldest_gz;
      }
      else if free
      then record f { old = none; oldest = renamed f.old f.oldest }
      else f

  -- `saveOldFiles`
  unfoldable pub save_old_files : Files A → Files A
  unfolding age
  save_old_files f = let g = age f in record g { path = none; old = renamed g.path g.old }

  -- What a rotation does to the five files.
  abbrev pub Rotated : Files A → Files A → Type ℓ
  Rotated f g =
      let has_oldest = exists f.oldest || exists f.oldest_gz in
      (g.path ≡ none)
      × (g.old_gz ≡ none)
      × (g.old ≡ (
          if exists f.path then f.path else if has_oldest || exists f.old_gz then f.old else none))
      × (g.oldest ≡ (if has_oldest || exists f.old_gz then f.oldest else f.old))
      × (g.oldest_gz ≡ (if has_oldest || not (exists f.old_gz) then f.oldest_gz else f.old_gz))

  renamed_over : (p target : Option A) → renamed p target ≡ (if exists p then p else target)
  unfolding renamed exists
  renamed_over none target = refl
  renamed_over (some a) target = refl

  renamed_free : (p : Option A) → renamed p none ≡ p
  unfolding renamed
  renamed_free none = refl
  renamed_free (some a) = refl

  rotated :
      (p o og d dg : Option A)
      → let f : Files A = record { path = p; old = o; old_gz = og; oldest = d; oldest_gz = dg } in
        Rotated f (save_old_files f)
  unfolding save_old_files
  rotated p o none none none = (refl, refl, renamed_over p none, renamed_free o, refl)
  rotated p o none none (some z) = (refl, refl, renamed_over p o, refl, refl)
  rotated p o none (some y) none = (refl, refl, renamed_over p o, refl, refl)
  rotated p o none (some y) (some z) = (refl, refl, renamed_over p o, refl, refl)
  rotated p o (some x) none none = (refl, refl, renamed_over p o, refl, refl)
  rotated p o (some x) none (some z) = (refl, refl, renamed_over p o, refl, refl)
  rotated p o (some x) (some y) none = (refl, refl, renamed_over p o, refl, refl)
  rotated p o (some x) (some y) (some z) = (refl, refl, renamed_over p o, refl, refl)

  -- After a rotation there is no file at the path and no compressed old file, and the file that was
  -- at the path, if any, is the old one. If there was an oldest file, compressed or not, both oldest
  -- files are as before; otherwise the compressed old file becomes the compressed oldest one, and
  -- without one the plain old file becomes the plain oldest one. Without a file at the path, the
  -- plain old file stays where it was unless it was moved so.
  pub save_old_files-Rotated : (f : Files A) → Rotated f (save_old_files f)
  save_old_files-Rotated f = rotated f.path f.old f.old_gz f.oldest f.oldest_gz
