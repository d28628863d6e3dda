-- ===== src/Formatter/Tests.antt =====
-- The decoder on a concrete message.
use quicktrace_public.Base.{◌≡◌, ◌≢◌, refl, [], ◌∷◌, List}
use quicktrace_public.Formatter.{message_length, message_format, LengthType}
use quicktrace_public.Formatter.Select.{built_in}
use quicktrace_public.Formatter.Init.{skip_wall_clock, text_loop, init, fail, past_end, stuck}
use quicktrace_public.Formatter.Agree.{Agrees, built_in-Agrees}
use quicktrace_public.Formatter.Paired.{Consumed}
use quicktrace_public.Formatter.Compiled.{
  Start, message_format-message_length, make_formatter-Consumed,
}
use quicktrace_public.Formatter.Fuel.{init-Ends}
use quicktrace_public.Reader.Stored.{fields_format}
use quicktrace_public.Base.{Text}
use quicktrace_public.Formatter.Spec.{get_format_param_spec}
use quicktrace_public.Examples.{
  made-fields, host, stream, file_name, text, fields, formatter, tables, zero_memory,
}

abbrev fmt : Text
fmt = fields_format fields

message_format-message_length_example :
    (message_format formatter zero_memory 40 stream).0 ≡ message_length formatter zero_memory 40
message_format-message_length_example =
    message_format-message_length (built_in host) file_name text fmt 12 formatter tables zero_memory
      40 stream (built_in-Agrees host) made-fields

make_formatter-Consumed_example :
    Agrees tables
    × (tables.lengths ≡ (built_in host).lengths)
    × (first : List LengthType) × (rest : Text) × Start (built_in host) 12 fmt first rest
    × Consumed (built_in host) first rest formatter.lengths []
make_formatter-Consumed_example =
    make_formatter-Consumed (built_in host) file_name text fmt 12 formatter tables
      (built_in-Agrees host) made-fields

init-Ends_example : init (built_in host) 12 text fmt ≢ fail stuck
init-Ends_example = init-Ends (built_in host) 12 text fmt

-- "n%" reads past the end of the text.
overread-test : init (built_in host) 12 (b'n' ∷ b'%' ∷ []) fmt ≡ fail past_end
unfolding init skip_wall_clock text_loop get_format_param_spec
overread-test = refl
