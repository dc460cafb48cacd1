-- ===== src/Trace/Tests.antt =====
-- A stack of two frames above that of the printing function.
use cci_daemon.Base.{
  ◌⊎◌, inl, inr, ℕ, Bool, false, ◌≡◌, refl, arith, Option, none, some, List, [], ◌∷◌, ◌++◌, ◌==◌,
  if◌then◌else◌, Text, codes, contains-Lacks, map,
}
use cci_daemon.Trace.{
  Demangle, print_symbol, print_marked, scan, mark, ends_offset, print_stacktrace, found_name,
  print_frame, print_hex, walk_frames, print_walk_backtrace,
}
use cci_daemon.Trace.Scan.{Frame, symbol, IsPlain, resolve_all, print_stacktrace-symbol}
use cci_daemon.Trace.Shows.{Shows, print_symbol-Shows}
use cci_daemon.Trace.Walk.{IsStack, Chain, frames_text, print_walk_backtrace-Chain}

abbrev loop_frame : Frame
loop_frame = record {
  module_name = codes "./daemon";
  name = codes "_Z4loopv";
  offset = codes "0x15c";
  address = codes " [0x8048a6d]";
}

abbrev lib_frame : Frame
lib_frame = record {
  module_name = codes "libstdc++.so";
  name = codes "main";
  offset = codes "0x1";
  address = codes " [0x8048b00]";
}

abbrev demangle : Demangle
demangle name = if contains_z name then some (codes "loop()") else none
  where
    contains_z : Text → Bool
    contains_z [] = false
    contains_z (c ∷ cs) = c == b'_'

loop-IsPlain : IsPlain loop_frame
loop-IsPlain = record {
  module_closes = contains-Lacks b')' loop_frame.module_name refl;
  name_closes = contains-Lacks b')' loop_frame.name refl;
  name_opens = contains-Lacks b'(' loop_frame.name refl;
  offset_closes = contains-Lacks b')' loop_frame.offset refl;
  offset_opens = contains-Lacks b'(' loop_frame.offset refl;
  offset_adds = contains-Lacks b'+' loop_frame.offset refl;
}

lib-IsPlain : IsPlain lib_frame
lib-IsPlain = record {
  module_closes = contains-Lacks b')' lib_frame.module_name refl;
  name_closes = contains-Lacks b')' lib_frame.name refl;
  name_opens = contains-Lacks b'(' lib_frame.name refl;
  offset_closes = contains-Lacks b')' lib_frame.offset refl;
  offset_opens = contains-Lacks b'(' lib_frame.offset refl;
  offset_adds = contains-Lacks b'+' lib_frame.offset refl;
}

abbrev frames : List Frame
frames = loop_frame ∷ lib_frame ∷ []

abbrev addresses : ℕ → List ℕ
addresses n = 10 ∷ 20 ∷ 30 ∷ []

abbrev lines : List ℕ → List Text
lines addrs = codes "own" ∷ map symbol frames

print_stacktrace-symbol_example :
    print_stacktrace addresses lines demangle 63
    ≡ codes "stack trace:\n" ++ resolve_all demangle frames
print_stacktrace-symbol_example =
    print_stacktrace-symbol addresses lines demangle 63 (codes "own") frames (cc) refl
      (loop-IsPlain, (lib-IsPlain, tt))

-- What is printed of it.
printed :
    resolve_all demangle frames ≡ codes "  ./daemon : loop()+0x15c\n  libstdc++.so : main()+0x1\n"
printed = refl

-- A plus sign and a closing parenthesis in the module cut the line too early: it is printed whole.
misread : print_symbol demangle (codes "a+b)(f+1) [2]") ≡ codes "  a+b)(f+1) [2]\n"
unfolding print_symbol print_marked scan mark ends_offset
misread = refl

print_symbol-Shows_example :
    Shows demangle (codes "a+b)(f+1) [2]") (print_symbol demangle (codes "a+b)(f+1) [2]"))
print_symbol-Shows_example = print_symbol-Shows demangle (codes "a+b)(f+1) [2]")

-- Two frames, with a return address beside the first pointer.
abbrev memory : ℕ → ℕ
memory p = if p == 100 then 140 else if p == 108 then 9000 else if p == 140 then 180 else 0

abbrev IsFrame : ℕ → Type 0
IsFrame p = (p ≡ 100) ⊎ ((p ≡ 140) ⊎ (p ≡ 180))

memory-IsStack : IsStack memory 180 IsFrame
memory-IsStack = record {
  links = λ p i n. elim i [
    | inl e ↦ rw e (inr (inl refl))
    | inr j ↦ elim j [ inl e ↦ rw e (inr (inr refl)) | inr e ↦ absurd (n (rw e refl)) ]
  ];
  above = λ p i n. ground arith;
  within = λ p i n. ground arith;
}

-- The symbol of the first frame is found, that of the second is not.
abbrev dladdr : ℕ → Option Text
dladdr ret = if ret == 9000 then some (codes "main") else none

walk_keeps_name :
    print_walk_backtrace memory dladdr (codes "?") 81 100
    ≡ some (
        codes "stack backtrace walk: \n"
        ++ codes "frame 0: [ebp=0x0000008c] [ret=0x00002328] main\n"
        ++ codes "frame 1: [ebp=0x000000b4] [ret=0x00000000] main\n")
unfolding print_walk_backtrace walk_frames found_name print_frame print_hex
walk_keeps_name = refl

print_walk_backtrace-Chain_example :
    (frames : List ℕ) × Chain memory 100 frames
    × (print_walk_backtrace memory dladdr (codes "?") 81 100
        ≡ some (
            codes "stack backtrace walk: \n"
            ++ frames_text memory dladdr (codes "?") 0 [] 100 frames))
print_walk_backtrace-Chain_example =
    print_walk_backtrace-Chain memory dladdr (codes "?") 180 81 100 IsFrame memory-IsStack
      (inl refl) (omega arith) (omega arith)
