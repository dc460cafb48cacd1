-- ===== src/Trace.antt =====
-- cci_daemon/src/core/cci_stack_trace.cpp: how a stack is printed. Parameters are what `backtrace`,
-- `backtrace_symbols`, `abi::__cxa_demangle` and `dladdr` give, and the memory that holds the frame pointers. A
-- pointer into a line is its distance from the line's start.
pub mod Scan
pub mod Walk
pub mod Shows
mod Tests
use cci_daemon.Base.{
  ℕ, zero, suc, ◌+◌, ◌-◌, ◌/◌, ◌%◌, ◌^◌, Bool, true, false, Option, none, some, List, [], ◌∷◌, ◌++◌,
  ltb, ◌==◌, if◌then◌else◌, Text, codes, take, drop,
}
use cci_daemon.Daemonize.PidFile.{digits}

pub record Marks : Type 0 where
  pub begin_name : Option ℕ
  pub begin_offset : Option ℕ
  pub end_offset : Option ℕ

abbrev pub no_marks : Marks
no_marks = record { begin_name = none; begin_offset = none; end_offset = none }

abbrev pub is_set : Option ℕ → Bool
is_set none = false
is_set (some p) = true

-- A byte that does not end the scan.
unfoldable pub mark : ℕ → ℕ → Marks → Marks
mark p c m =
    if c == b'('
    then record m { begin_name = some p }
    else if c == b'+'
    then record m { begin_offset = some p }
    else m

unfoldable pub ends_offset : ℕ → Marks → Bool
ends_offset c m = if c == b')' then is_set m.begin_offset else false

-- The loop over the bytes of a line from `p` on, up to its NUL.
unfoldable pub scan : ℕ → Text → Marks → Marks
scan p [] m = m
scan p (c ∷ line) m =
    let rest = scan (suc p) line (mark p c m) in
    if ends_offset c m then record m { end_offset = some p } else rest

-- The demangled name; `none` is a status other than 0.
abbrev pub Demangle : Type 0
Demangle = Text → Option Text

abbrev pub function_text : Demangle → Text → Text
function_text demangle name = elim (demangle name) [
  | some funcname ↦ funcname
  | none ↦ name ++ codes "()"
]

abbrev pub whole_line : Text → Text
whole_line line = codes "  " ++ (line ++ codes "\n")

abbrev pub resolved_line : Demangle → Text → Text → Text → Text
resolved_line demangle module_name name offset =
    codes "  "
    ++ (module_name
        ++ (codes " : " ++ (function_text demangle name ++ (codes "+" ++ (offset ++ codes "\n")))))

-- The three NULs cut the line into the module, the name and the offset.
unfoldable pub print_cut : Demangle → Text → ℕ → ℕ → ℕ → Text
print_cut demangle line begin_name begin_offset end_offset =
    resolved_line demangle (take begin_name line)
      (take (begin_offset - suc begin_name) (drop (suc begin_name) line))
      (take (end_offset - suc begin_offset) (drop (suc begin_offset) line))

unfoldable pub print_marked : Demangle → Text → Option ℕ → Option ℕ → Option ℕ → Text
print_marked demangle line (some begin_name) (some begin_offset) (some end_offset) =
    if ltb begin_name begin_offset
    then print_cut demangle line begin_name begin_offset end_offset
    else whole_line line
print_marked demangle line _ _ _ = whole_line line

unfoldable pub print_symbol : Demangle → Text → Text
print_symbol demangle line =
    let m = scan 0 line no_marks in
    print_marked demangle line m.begin_name m.begin_offset m.end_offset

unfoldable pub print_symbols : Demangle → List Text → Text
print_symbols demangle [] = []
print_symbols demangle (line ∷ lines) = print_symbol demangle line ++ print_symbols demangle lines

-- The first line is that of `print_stacktrace` itself.
abbrev pub skip_first : List Text → List Text
skip_first [] = []
skip_first (line ∷ lines) = lines

unfoldable pub print_addresses : (List ℕ → List Text) → Demangle → List ℕ → Text
print_addresses backtrace_symbols demangle [] = codes "  <empty, possibly corrupt>\n"
print_addresses backtrace_symbols demangle (addr ∷ addrs) =
    print_symbols demangle (skip_first (backtrace_symbols (addr ∷ addrs)))

-- `backtrace` gives at most as many addresses as it is asked for, and `backtrace_symbols` a line for each.
unfoldable pub print_stacktrace : (ℕ → List ℕ) → (List ℕ → List Text) → Demangle → ℕ → Text
print_stacktrace backtrace backtrace_symbols demangle max_frames =
    codes "stack trace:\n"
    ++ print_addresses backtrace_symbols demangle (backtrace (max_frames + 1))

-- A digit of "%x", and the eight that "%08x" prints of a pointer, of which it takes 32 bits.
abbrev pub hex_digit : ℕ → ℕ
hex_digit d = if ltb d 10 then b'0' + d else b'a' + (d - 10)

abbrev pub hex : ℕ → ℕ → Text
hex zero n = []
hex (suc f) n = hex f (n / 16) ++ hex_digit (n % 16) ∷ []

unfoldable pub print_hex : ℕ → Text
print_hex n = codes "0x" ++ hex 8 (n % 2 ^ 32)

unfoldable pub print_frame : ℕ → ℕ → ℕ → Text → Text
print_frame frame ebp ret name =
    codes "frame "
    ++ (digits 20 frame
        ++ (codes ": [ebp="
            ++ (print_hex ebp
                ++ (codes "] [ret=" ++ (print_hex ret ++ (codes "] " ++ (name ++ codes "\n")))))))

-- `dladdr` on a frame's return address, whose result is ignored: where it fails, `dlip` keeps the name it held.
unfoldable pub found_name : Option Text → Text → Text
found_name none dli_sname = dli_sname
found_name (some name) dli_sname = name

-- The loop of `print_walk_backtrace` over the frame pointers in `memory`, which has words of 8 bytes. `dladdr` gives
-- for an address the text of the name that it stores in `dlip`, or `none` where it fails; `dli_sname` is the text of
-- the name that `dlip`, which nothing initialises, holds before the round. `none` is a walk that its fuel does not
-- finish.
unfoldable pub walk_frames : (ℕ → ℕ) → (ℕ → Option Text) → ℕ → ℕ → Text → ℕ → Option Text
walk_frames memory dladdr zero frame dli_sname ebp = none
walk_frames memory dladdr (suc fuel) frame dli_sname ebp =
    let ret = memory (ebp + 8) in
    let name = found_name (dladdr ret) dli_sname in
    let rest = walk_frames memory dladdr fuel (frame + 1) name (memory ebp) in
    if memory ebp == 0 then some [] else elim rest [
      | none ↦ none
      | some text ↦ some (print_frame frame (memory ebp) ret name ++ text)
    ]

unfoldable pub print_walk_backtrace : (ℕ → ℕ) → (ℕ → Option Text) → Text → ℕ → ℕ → Option Text
print_walk_backtrace memory dladdr dli_sname fuel ebp =
    elim (walk_frames memory dladdr fuel 0 dli_sname ebp) [
      | none ↦ none
      | some text ↦ some (codes "stack backtrace walk: \n" ++ text)
    ]
