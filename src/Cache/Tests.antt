-- ===== src/Cache/Tests.antt =====
-- A read of two events, and one of a third.
use cci_daemon.Base.{◌≡◌, refl, arith, List, [], ◌∷◌, ◌++◌, codes, contains-Lacks, pos}
use cci_daemon.Cache.{InotifyEvent, read_events}
use cci_daemon.Cache.Walk.{
  Whole, named, unnamed, encode_reads, display_reads, WholeReads, read_events-encode_reads,
}

abbrev created : InotifyEvent
created = record { wd = 1; mask = 256; cookie = 0; len = 8; name = codes "app.cfg" ++ 0 ∷ [] }

abbrev deleted : InotifyEvent
deleted = record { wd = 1; mask = 512; cookie = 0; len = 0; name = [] }

abbrev reads : List (InotifyEvent × List InotifyEvent)
reads = (created, deleted ∷ []) ∷ (created, []) ∷ []

created-Whole : Whole created
created-Whole =
    named 1 256 0 8 (codes "app.cfg") [] (contains-Lacks 0 (codes "app.cfg") refl) (omega arith)

reads-Whole : WholeReads reads
reads-Whole = ((created-Whole, (unnamed 1 512 0, tt)), ((created-Whole, tt), tt))

read_events-encode_reads_example : read_events (encode_reads reads) ≡ (display_reads reads, pos 0)
read_events-encode_reads_example = read_events-encode_reads reads reads-Whole
