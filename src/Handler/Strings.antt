-- ===== src/Handler/Strings.antt =====
-- The string utilities of `proc_handler` in cci_daemon/src/procs/proc_ace_handler.cpp: static
-- members that edit a `std::string` in place return the new text here.
pub mod Laws
use cci_daemon.Base.{
  ℕ, zero, suc, ◌-◌, Bool, true, false, ◌||◌, Option, none, some, List, [], ◌∷◌, ◌++◌, map, ◌==◌,
  leb, if◌then◌else◌, length, take, Text, codes, contains, find, find_first_of, find_last_of,
  substr, erase_at, dec_size, c_string, to_lower, to_upper,
}

abbrev cut_before : Text → Option ℕ → Text
cut_before str none = str
cut_before str (some idx) = substr str 0 (dec_size idx)

unfoldable pub chomp : Text → Text → Text
chomp [] token = []
chomp str token = cut_before str (find token str)

pub gnaw : Text → Text → Text
gnaw str token = elim (find token str) [ none ↦ str | some st ↦ take st str ]

-- `idx != str.size() - 1` returns, and `npos` is no such position.
abbrev cut_at_end : Text → Option ℕ → Text
cut_at_end str none = str
cut_at_end str (some idx) = if idx == length str - 1 then substr str 0 (dec_size idx) else str

unfoldable pub rtrimlast : Text → Text → Text
rtrimlast [] token = []
rtrimlast str token = cut_at_end str (find_last_of (c_string token) str)

-- `strchr( chars , c ) != NULL`; the terminator counts as a character of `chars`.
abbrev pub strchr : Text → ℕ → Bool
strchr chars c = c == 0 || contains (c_string chars) c

pub ltrim : Text → Text → Text
ltrim [] chars = []
ltrim (x ∷ xs) chars = if strchr chars x then ltrim xs chars else x ∷ xs

-- `s[s.length() - 1]`; the terminator if `s` is empty.
abbrev pub last : Text → ℕ
last [] = 0
last (x ∷ []) = x
last (x ∷ y ∷ ys) = last (y ∷ ys)

-- `s.replace( s.length() - 1 , 1 , "" )`.
abbrev pub drop_last : Text → Text
drop_last [] = []
drop_last (x ∷ []) = []
drop_last (x ∷ y ∷ ys) = x ∷ drop_last (y ∷ ys)

-- The loop, on fuel; each round makes the text shorter.
rtrim_loop : ℕ → Text → Text → Text
rtrim_loop zero s chars = s
rtrim_loop (suc fuel) s chars =
    let shorter = drop_last s in
    let rest = rtrim_loop fuel shorter chars in
    if strchr chars (last s) then (if leb (length shorter - 1) 0 then [] else rest) else s

pub rtrim : Text → Text → Text
rtrim s chars = if leb (length s - 1) 0 then [] else rtrim_loop (length s) s chars

unfoldable pub lcase : Text → Text
unfolding to_lower
lcase str = map to_lower str

unfoldable pub ucase : Text → Text
unfolding to_upper
ucase str = map to_upper str

abbrev erase_found : Text → Option ℕ → Text
erase_found s none = s
erase_found s (some idx) = erase_at s idx

erase_last_quote : Text → Text
erase_last_quote s = erase_found s (find_last_of (codes "\"") s)

pub extract_quoted_string : Text → Text
unfolding erase_last_quote
extract_quoted_string [] = []
extract_quoted_string s = elim (find_first_of (codes "\"") s) [
  | none ↦ s
  | some idx ↦ erase_last_quote (erase_at s idx)
]
