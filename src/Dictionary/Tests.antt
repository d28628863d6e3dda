-- ===== src/Dictionary/Tests.antt =====
-- A concrete message description.
use quicktrace_public.Base.{
  ℕ, ◌+◌, ◌^◌, ◌≡◌, refl, arith, [], ◌∷◌, ◌++◌, some, none, Text, le_bytes, dec_text,
}
use quicktrace_public.Examples.{file_name, text}
use quicktrace_public.Dictionary.{
  signed_text, read_u64, msg_desc, desc_head, put_pstring, parse, parsed, load_messages, running,
  load_messages-zero,
}
use quicktrace_public.Dictionary.RoundTrip.{parse-msg_desc}

-- A time stamp with its highest bit set is printed as a negative number.
abbrev late : ℕ
late = 2 ^ 63 + 5

late-test : signed_text 64 late ≡ b'-' ∷ dec_text 9223372036854775803
unfolding signed_text
late-test = refl

no_number-test : read_u64 (32 ∷ b'-' ∷ b'x' ∷ []) ≡ (0, 32 ∷ b'-' ∷ b'x' ∷ [])
unfolding read_u64
no_number-test = refl

abbrev desc : Text
desc = elim (msg_desc late file_name 45 5 text (b'i' ∷ [])) [ none ↦ [] | some bytes ↦ bytes ]

desc-some : msg_desc late file_name 45 5 text (b'i' ∷ []) ≡ some desc
unfolding msg_desc desc_head signed_text put_pstring dec_text le_bytes
desc-some = refl

parse-msg_desc_example :
    parse 5 1 (desc ++ (49 ∷ []))
    ≡ parsed
        (record {
          tsc = late;
          msg_id = 5;
          lineno = 45;
          filename = file_name;
          msg = text;
          fmt = b'i' ∷ [];
        })
        (49 ∷ [])
parse-msg_desc_example =
    parse-msg_desc 5 1 late 45 5 file_name text (b'i' ∷ []) desc (49 ∷ []) (omega arith)
      (omega arith) (omega arith) (omega arith) (refl, (refl, (refl, tt))) (λ e. ground (arith, e))
      desc-some

load_messages-zero_example : load_messages 9 5 1 (0 ∷ desc) [] ≡ running
load_messages-zero_example = load_messages-zero 9 5 1 desc []
