-- ===== src/Sizes/Tests.antt =====
-- The layout of a concrete trace file.
use quicktrace_public.Base.{
  ◌≡◌, refl, arith, ℕ, ◌+◌, ◌*◌, ◌<◌, ◌≤◌, ◌^◌, true, [], ◌∷◌, some, get_elem?, All, length,
}
use quicktrace_public.Base.{zero, suc, none, leb, if◌then◌else◌, Text}
use quicktrace_public.Sizes.Parse.{tokens, size_of, initialize_sizes, handle_sizes}
use quicktrace_public.Sizes.Lists.{handle_sizes_lem}
use quicktrace_public.Examples.{log, clock}
use quicktrace_public.Ring.{buf_is, trailer_size}
use quicktrace_public.Reader.{Reader}
use quicktrace_public.Tail.{make_readers}
use quicktrace_public.Sizes.{SizeSpec, log_start, adjust_size_spec, file_header_size}
use quicktrace_public.Sizes.Layout.{total, IsLimited, log_places, adjust_size_spec-IsLimited}

abbrev sizes : SizeSpec
sizes = 8 ∷ 16 ∷ 8 ∷ []

log_places_example :
    let w = buf_is clock (log_start 12392 sizes 1) (16 * 1024) log in
    ((r : Reader) × (get_elem? (make_readers 0 12392 sizes) 1 ≡ some r)
      × (r.level ≡ 1)
      × (r.start ≡ w.buf + 4)
      × (r.fin ≡ w.buf_end)
      × (r.cur ≡ w.ptr))
    × ((j t : ℕ)
        → get_elem? sizes j ≡ some t
        → 1 < j
        → w.buf_end + trailer_size ≤ log_start 12392 sizes j)
    × (12392 ≤ w.buf)
    × (w.buf_end + trailer_size ≤ 12392 + total sizes * 1024)
log_places_example = log_places clock log 12392 sizes 1 16 (omega arith) refl (omega arith)

abbrev big_sizes : SizeSpec
big_sizes = 16384 ∷ 16384 ∷ 0 ∷ []

adjust_size_spec-IsLimited_example :
    let r = adjust_size_spec (λ a b s. 0) 4194304 true 512 big_sizes in
    All IsLimited r.1
    × (length r.1 ≡ length big_sizes)
    × (r.0 ≡ file_header_size 512 + total r.1 * 1024)
    × (total r.1 * 1024 < 2 ^ 32)
adjust_size_spec-IsLimited_example =
    adjust_size_spec-IsLimited (λ a b s. 0) 4194304 512 big_sizes (omega arith)
      (λ a b s. omega arith) (omega arith)

-- "3, 0,x" and eleven sizes
abbrev list_text : Text
list_text = b'3' ∷ b',' ∷ b' ' ∷ b'0' ∷ b',' ∷ b'x' ∷ []

abbrev eleven : Text
eleven = b'1' ∷ flat 10
  where
    flat : ℕ → Text
    flat zero = []
    flat (suc n) = b',' ∷ b'1' ∷ flat n

initialize_sizes-test :
    initialize_sizes (some list_text) ≡ 3 ∷ 1 ∷ 1 ∷ 8 ∷ 8 ∷ 8 ∷ 8 ∷ 8 ∷ 8 ∷ 8 ∷ []
unfolding initialize_sizes size_of tokens
initialize_sizes-test = refl

handle_sizes_lem_example :
    handle_sizes (some eleven)
    ≡ (if leb (length (tokens eleven)) 10 then some (initialize_sizes (some eleven)) else none)
handle_sizes_lem_example = handle_sizes_lem eleven

handle_sizes-test : handle_sizes (some eleven) ≡ none
unfolding handle_sizes tokens
handle_sizes-test = refl
