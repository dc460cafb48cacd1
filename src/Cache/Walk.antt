-- ===== src/Cache/Walk.antt =====
-- The walk over what inotify has written.
use cci_daemon.Base.{
  ℕ, zero, suc, ◌+◌, ◌/◌, ◌%◌, ◌==◌, if◌then◌else◌, codes, ◌≡◌, ◌≤◌, refl, ap, ◌∙◌, Option, some,
  is_empty, pos, false, List, [], ◌∷◌, ◌++◌, arith, Text, ltb, length, length-append, drop,
  c_string, c_string-append, append_assoc, Lacks, All,
}
use cci_daemon.Daemonize.PidFile.{digits}
use cci_daemon.Cache.{
  read_word, InotifyEvent, event_at, display_inotify_event, event_size, walk, read_events,
  print_int,
}

-- A word and an event as the kernel writes them.
abbrev pub word : ℕ → Text
word n = (n % 256) ∷ (n / 256 % 256) ∷ (n / 65536 % 256) ∷ (n / 16777216) ∷ []

abbrev pub encode : InotifyEvent → Text
encode e = word e.wd ++ (word e.mask ++ (word e.cookie ++ (word e.len ++ e.name)))

read_word-word : (n : ℕ) (rest : Text) → read_word (word n ++ rest) ≡ (n, rest)
unfolding read_word
read_word-word n rest = ap (λ (m : ℕ). (m, rest)) (omega arith)

-- An event as the kernel gives it: its name is absent, or ends in a NUL.
pub data Whole : InotifyEvent → Type 0 where
  unnamed :
      (wd mask cookie : ℕ)
      → Whole (record { wd = wd; mask = mask; cookie = cookie; len = 0; name = [] })
  named :
      (wd mask cookie len : ℕ) (shown pad : Text)
      → Lacks 0 shown
      → len ≡ length (shown ++ 0 ∷ pad)
      → Whole (record { wd = wd; mask = mask; cookie = cookie; len = len; name = shown ++ 0 ∷ pad })

abbrev after : InotifyEvent → Text → InotifyEvent
after e rest = record e { name = e.name ++ rest }

encode_shape :
    (e : InotifyEvent) (rest : Text)
    → encode e ++ rest
      ≡ word e.wd ++ (word e.mask ++ (word e.cookie ++ (word e.len ++ (e.name ++ rest))))
encode_shape e rest = refl

event_at-encode : (e : InotifyEvent) (rest : Text) → event_at (encode e ++ rest) ≡ after e rest
unfolding event_at
event_at-encode e rest =
    rw
      (
        read_word-word e.wd (word e.mask ++ (word e.cookie ++ (word e.len ++ (e.name ++ rest)))),
        read_word-word e.mask (word e.cookie ++ (word e.len ++ (e.name ++ rest))),
        read_word-word e.cookie (word e.len ++ (e.name ++ rest)),
        read_word-word e.len (e.name ++ rest),
      )
      refl

c_string_named : (shown pad : Text) → Lacks 0 shown → c_string (shown ++ 0 ∷ pad) ≡ shown
c_string_named shown pad l = c_string-append shown pad l

display_after :
    (e : InotifyEvent) (rest : Text)
    → Whole e
    → display_inotify_event (after e rest) ≡ display_inotify_event e
unfolding display_inotify_event
display_after _ rest (unnamed wd mask cookie) = refl
display_after _ rest (named wd mask cookie len shown pad l n) =
    rw
      (
        append_assoc shown (0 ∷ pad) rest,
        c_string_named shown (pad ++ rest) l,
        c_string_named shown pad l,
      )
      refl

drop_front : (s rest : Text) → drop (length s) (s ++ rest) ≡ rest
drop_front [] rest = refl
drop_front (x ∷ s) rest = drop_front s rest

drop-encode :
    (e : InotifyEvent) (rest : Text)
    → e.len ≡ length e.name
    → drop (event_size + e.len) (encode e ++ rest) ≡ rest
drop-encode e rest n =
    let k : event_size + e.len ≡ length (encode e) = omega (arith, n) in
    ap (λ (m : ℕ). drop m (encode e ++ rest)) k ∙ drop_front (encode e) rest

Whole-len : (e : InotifyEvent) → Whole e → e.len ≡ length e.name
Whole-len _ (unnamed wd mask cookie) = refl
Whole-len _ (named wd mask cookie len shown pad l n) = n

-- What a read gives of several events.
abbrev pub encode_all : List InotifyEvent → Text
encode_all [] = []
encode_all (e ∷ es) = encode e ++ encode_all es

-- What is to be said of an event: one line where bit 8 of its mask, IN_CREATE, is set, with the event's descriptor, its
-- cookie and the name up to its NUL, if it has one; and nothing otherwise.
abbrev pub name_text : Text → Text
name_text [] = []
name_text (b ∷ bs) = codes "name=" ++ c_string (b ∷ bs)

abbrev pub created_line : InotifyEvent → Text
created_line e =
    codes "<created> decriptor: "
    ++ print_int e.wd
    ++ codes " cookie:"
    ++ digits 20 e.cookie
    ++ codes " "
    ++ name_text e.name

abbrev pub reported : InotifyEvent → List Text
reported e = if e.mask / 256 % 2 == 1 then created_line e ∷ [] else []

shown_name :
    (len : ℕ) (name : Text)
    → len ≡ length name
    → (if ltb 0 len then codes "name=" ++ c_string name else []) ≡ name_text name
shown_name len [] n = rw n refl
shown_name len (b ∷ bs) n = ground arith

display-reported : (e : InotifyEvent) → Whole e → display_inotify_event e ≡ reported e
unfolding display_inotify_event
display-reported _ (unnamed wd mask cookie) = refl
display-reported _ (named wd mask cookie len shown pad l n) =
    rw (shown_name len (shown ++ 0 ∷ pad) n) refl

abbrev pub display_all : List InotifyEvent → List Text
display_all [] = []
display_all (e ∷ es) = reported e ++ display_all es

length-encode_all : (es : List InotifyEvent) → length es ≤ length (encode_all es)
length-encode_all [] = omega arith
length-encode_all (e ∷ es) =
    omega (arith, length-encode_all es, length-append e.name (encode_all es))

walk_round :
    (fuel : ℕ) (e : InotifyEvent) (rest : Text)
    → Whole e
    → walk (suc fuel) (encode e ++ rest) ≡ reported e ++ walk fuel rest
unfolding walk
walk_round fuel e rest w =
    rw
      (
        event_at-encode e rest,
        drop-encode e rest (Whole-len e w),
        display_after e rest w,
        display-reported e w,
      )
      refl

walk-encode_all :
    (fuel : ℕ) (es : List InotifyEvent)
    → All Whole es
    → length es ≤ fuel
    → walk fuel (encode_all es) ≡ display_all es
unfolding walk
walk-encode_all zero [] a w = refl
walk-encode_all (suc fuel) [] a w = refl
walk-encode_all zero (e ∷ es) a w = absurd (omega arith)
walk-encode_all (suc fuel) (e ∷ es) (h, a) w =
    walk_round fuel e (encode_all es) h
    ∙ ap (λ (ls : List Text). reported e ++ ls) (walk-encode_all fuel es a (omega arith))

encoded_nonempty :
    (e : InotifyEvent) (es : List InotifyEvent) → is_empty (encode_all (e ∷ es)) ≡ false
encoded_nonempty e es = refl

-- Several reads, each of at least one event.
abbrev pub encode_reads : List (InotifyEvent × List InotifyEvent) → List (Option Text)
encode_reads [] = []
encode_reads ((e, es) ∷ reads) = some (encode_all (e ∷ es)) ∷ encode_reads reads

abbrev pub display_reads : List (InotifyEvent × List InotifyEvent) → List Text
display_reads [] = []
display_reads ((e, es) ∷ reads) = display_all (e ∷ es) ++ display_reads reads

abbrev pub WholeReads : List (InotifyEvent × List InotifyEvent) → Type 0
WholeReads [] = Unit {0}
WholeReads ((e, es) ∷ reads) = All Whole (e ∷ es) × WholeReads reads

-- While the service runs and inotify reads whole events, whose names are absent or end in a NUL, the notification
-- thread logs one line for each event whose mask has bit 8, IN_CREATE, and none for others, in the order of the events, however
-- many there are in each read: the event's descriptor and cookie, and the name up to its NUL where it has one.
pub read_events-encode_reads :
    (reads : List (InotifyEvent × List InotifyEvent))
    → WholeReads reads
    → read_events (encode_reads reads) ≡ (display_reads reads, pos 0)
unfolding read_events
read_events-encode_reads [] a = refl
read_events-encode_reads ((e, es) ∷ reads) (h, a) =
    rw
      (
        walk-encode_all (length (encode_all (e ∷ es))) (e ∷ es) h (length-encode_all (e ∷ es)),
        read_events-encode_reads reads a,
      )
      refl
