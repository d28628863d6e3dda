-- ===== src/Handle/Tests.antt =====
-- A handle with threads.
use quicktrace_public.Base.{◌≡◌, refl, true, false, [], ◌∷◌, none, some}
use quicktrace_public.Handle.{
  Handle, Setup, done, fault, ◌>>=◌, make_handle, blank_handle, maybe_create_mt_trace_file,
  trace_file, close, thread_exit, erase, set_thread,
}
use quicktrace_public.Handle.Sound.{IsLive, Reach, create, here, later}
use quicktrace_public.Handle.Live.{trace_file-IsLive, thread_exit-close}

abbrev setup : Setup
setup = record {
  multi_threading = true;
  forever_log = false;
  has_dir = true;
  works = true;
  name = [];
  size_spec = 8 ∷ [];
  mapped_size = 8192;
}

abbrev new : Handle
new = record (blank_handle setup) { initialized = true }

-- The thread 3 has traced.
abbrev used : Handle
used = record new {
  files = (0, b'a' ∷ []) ∷ [];
  thread_files = set_thread 3 (some 0) (λ t. none);
  fresh = 1;
}

made : make_handle setup ≡ done new
unfolding make_handle
made = refl

created : maybe_create_mt_trace_file 3 true (b'a' ∷ []) new ≡ done (some 0, used)
unfolding maybe_create_mt_trace_file
created = refl

reached : Reach (λ a b c. c) 9 512 new used
reached = later here (create 3 true (b'a' ∷ []) created)

trace_file-IsLive_example : IsLive used 0
trace_file-IsLive_example =
    trace_file-IsLive (λ a b c. c) 9 512 setup new used 3 0 made reached
      (unfold trace_file set_thread in refl)

thread_exit-close_example :
    (thread_exit 3 used
      ≡ done (record used {
        files = erase 0 used.files;
        thread_files = set_thread 3 none used.thread_files;
      }))
    × ((close used >>= thread_exit 3) ≡ fault)
thread_exit-close_example =
    thread_exit-close (λ a b c. c) 9 512 setup new used 3 0 made reached refl
      (unfold set_thread in refl)
