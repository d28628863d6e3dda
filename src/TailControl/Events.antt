-- ===== src/TailControl/Events.antt =====
-- The events that TailControl::watch of qttail.cpp reads: each goes to its watch, in their order.
use quicktrace_public.Base.{ℕ, zero, suc, ◌+◌, ◌^◌, ◌≤◌, ◌<◌, ◌≡◌, refl, sym, ap, ap₂, ◌∙◌}
use quicktrace_public.Base.{arith, List, [], ◌∷◌, ◌++◌, append_assoc}
use quicktrace_public.Base.{Text, All, length, drop, replicate, le_bytes, length-append}
use quicktrace_public.Base.{le_value-le_bytes, length-replicate}
use quicktrace_public.Tail.{Poll, polled, assertion, exited, no_round, ◌>>=◌}
use quicktrace_public.TailControl.{
  Watches, Event, kind_of, c_string, event_at, event_size, process_event, read_events,
}

-- An event as the kernel writes it, with what it writes besides.
pub record Written : Type 0 where
  pub event : Event
  pub mask : ℕ
  pub cookie : ℕ
  pub padding : ℕ

-- The name is text, without zeros, and a terminating zero stands behind it.
abbrev pub IsText : Text → Type 0
IsText t = All (λ c. 0 < c) t

pub record IsWritten (v : Written) : Type 0 where
  pub wd_fits : v.event.wd < 256 ^ 4
  pub mask_fits : v.mask < 256 ^ 4
  pub is_kind : kind_of v.mask ≡ v.event.kind
  pub len_fits : length v.event.name + (v.padding + 1) < 256 ^ 4
  pub is_text : IsText v.event.name

abbrev name_field : Written → List ℕ
name_field v = v.event.name ++ replicate (v.padding + 1) 0

unfoldable pub written : Written → List ℕ
written v =
    le_bytes 4 v.event.wd
    ++ (le_bytes 4 v.mask
        ++ (le_bytes 4 v.cookie
            ++ (le_bytes 4 (length v.event.name + (v.padding + 1)) ++ name_field v)))

unfoldable pub written_all : List Written → List ℕ
unfolding written
written_all [] = []
written_all (v ∷ vs) = written v ++ written_all vs

drop-length-append : (xs ys : List ℕ) → drop (length xs) (xs ++ ys) ≡ ys
drop-length-append [] ys = refl
drop-length-append (x ∷ xs) ys = drop-length-append xs ys

drop-add : (k n : ℕ) (xs : List ℕ) → drop (k + n) xs ≡ drop n (drop k xs)
drop-add zero n xs = let e : 0 + n ≡ n = omega arith in ap (λ m. drop m xs) e
drop-add (suc k) zero [] = let e : suc k + 0 ≡ suc k = omega arith in ap (λ m. drop m []) e
drop-add (suc k) (suc n) [] =
    let e : suc k + suc n ≡ suc (k + suc n) = omega arith in ap (λ m. drop m []) e
drop-add (suc k) n (x ∷ xs) =
    let e : suc k + n ≡ suc (k + n) = omega arith in ap (λ m. drop m (x ∷ xs)) e ∙ drop-add k n xs

c_string-append : (t rest : Text) → IsText t → c_string (t ++ (0 ∷ rest)) ≡ t
unfolding c_string
c_string-append [] rest h = refl
c_string-append (c ∷ cs) rest h = ground (arith, h.0, c_string-append cs rest h.1)

c_string-name_field :
    (v : Written) (rest : List ℕ)
    → IsText v.event.name
    → c_string (name_field v ++ rest) ≡ v.event.name
c_string-name_field v rest h =
    let e : v.padding + 1 ≡ suc v.padding = omega arith in
    rw (e, append_assoc v.event.name (0 ∷ replicate v.padding 0) rest)
      (c_string-append v.event.name (replicate v.padding 0 ++ rest) h)

length-name_field : (v : Written) → length (name_field v) ≡ length v.event.name + (v.padding + 1)
length-name_field v =
    length-append v.event.name (replicate (v.padding + 1) 0)
    ∙ ap (λ n. length v.event.name + n) (length-replicate (v.padding + 1) 0)

event_eq : (e e' : Event) → e.wd ≡ e'.wd → e.kind ≡ e'.kind → e.name ≡ e'.name → e ≡ e'
event_eq e e' p q r = λ i. record { wd = p i; kind = q i; name = r i }

-- The first event of some bytes, and the bytes behind it.
event_at-written :
    (v : Written) (rest : List ℕ)
    → IsWritten v
    → (event_at (written v ++ rest) ≡ v.event)
      × (drop (event_size (written v ++ rest)) (written v ++ rest) ≡ rest)
unfolding event_at event_size written le_bytes
event_at-written v rest h = (
  event_eq _ v.event (le_value-le_bytes 4 v.event.wd h.wd_fits)
      (ap kind_of (le_value-le_bytes 4 v.mask h.mask_fits) ∙ h.is_kind)
      (c_string-name_field v rest h.is_text),
  ap (λ n. drop (16 + n) (written v ++ rest))
        (le_value-le_bytes 4 (length v.event.name + (v.padding + 1)) h.len_fits)
      ∙ drop-add 16 (length v.event.name + (v.padding + 1)) (written v ++ rest)
      ∙ ap (λ n. drop n (name_field v ++ rest)) (sym (length-name_field v))
      ∙ drop-length-append (name_field v) rest,
)

-- The events one after the other.
unfoldable pub process_all : List Written → Watches → Poll Watches
process_all [] ws = polled ws
process_all (v ∷ vs) ws = process_event v.event ws >>= λ ws'. process_all vs ws'

read_events-cons :
    (fuel : ℕ) (v : Written) (rest : List ℕ) (ws : Watches)
    → read_events (suc fuel) (written v ++ rest) ws ≡ (
        process_event (event_at (written v ++ rest)) ws >>= λ ws'.
        read_events fuel (drop (event_size (written v ++ rest)) (written v ++ rest)) ws')
unfolding read_events written le_bytes
read_events-cons fuel v rest ws = refl

length-written : (v : Written) (rest : List ℕ) → suc (length rest) ≤ length (written v ++ rest)
unfolding written le_bytes
length-written v rest = omega (arith, length-append (name_field v) rest)

bind_same :
    (r : Poll Watches) (f g : Watches → Poll Watches)
    → ((ws : Watches) → f ws ≡ g ws)
    → (r >>= f) ≡ (r >>= g)
bind_same (polled ws) f g h = h ws
bind_same assertion f g h = refl
bind_same exited f g h = refl
bind_same no_round f g h = refl

-- Reading the bytes of events that the kernel writes (descriptor, mask, cookie and length of four bytes
-- each, and the name, without zeros, with its terminating and padding zeros) processes just these events
-- in their order; the number of the bytes is enough fuel.
pub read_events-written_all :
    (fuel : ℕ) (vs : List Written) (ws : Watches)
    → All IsWritten vs
    → length (written_all vs) ≤ fuel
    → read_events fuel (written_all vs) ws ≡ process_all vs ws
unfolding read_events written_all process_all
read_events-written_all fuel [] ws h k = refl
read_events-written_all zero (v ∷ vs) ws h k =
    absurd (omega (arith, length-written v (written_all vs)))
read_events-written_all (suc fuel) (v ∷ vs) ws h k =
    let (first, behind) = event_at-written v (written_all vs) h.0 in
    read_events-cons fuel v (written_all vs) ws
    ∙ ap₂ (λ e bs. process_event e ws >>= λ ws'. read_events fuel bs ws') first behind
    ∙ bind_same (process_event v.event ws) _ _ (λ ws'.
      read_events-written_all fuel vs ws' h.1 (omega (arith, length-written v (written_all vs))))
