-- ===== src/Formatter/Stream.antt =====
-- What MessageFormatter.cpp and qttail.cpp use of a C++ output stream.
use quicktrace_public.Base.{ℕ, ◌-◌, Bool, true, false, ◌&&◌, List, [], ◌∷◌, ◌++◌}
use quicktrace_public.Base.{length, replicate, ◌!=◌, if◌then◌else◌, dec_text, hex_text}

-- The text so far and the stream's flags; `failed` is the fail bit.
pub record OStream : Type 0 where
  pub out : List ℕ
  pub failed : Bool
  pub hex : Bool
  pub showbase : Bool
  pub showpos : Bool
  pub fixed : Bool
  pub fill : ℕ
  pub width : ℕ
  pub precision : ℕ

unfoldable pub pad : OStream → List ℕ → List ℕ
pad os s = replicate (os.width - length s) os.fill ++ s

-- `os << s` for text: padded to the width, which is then reset. A failed stream prints nothing.
unfoldable pub insert : List ℕ → OStream → OStream
unfolding pad
insert s os = if os.failed then os else record os { out = os.out ++ pad os s; width = 0 }

-- `os.write`: no padding
unfoldable pub write_raw : List ℕ → OStream → OStream
write_raw s os = if os.failed then os else record os { out = os.out ++ s }

-- `os << n` for an unsigned number
unfoldable pub insert_number : ℕ → OStream → OStream
unfolding insert
insert_number n os =
    let prefix : List ℕ = if os.showbase && n != 0 then b'0' ∷ b'x' ∷ [] else [] in
    insert (if os.hex then prefix ++ hex_text n else dec_text n) os

-- `os << std::hex << n << std::dec`
unfoldable pub insert_hex : ℕ → OStream → OStream
unfolding insert_number
insert_hex n os =
    let shown = insert_number n (record os { hex = true }) in record shown { hex = false }
