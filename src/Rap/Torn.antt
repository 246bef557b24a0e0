-- ===== src/Rap/Torn.antt =====
-- packages/rap/src/pendingStore.ts: a crash in the middle of a line.
use pinout.Prelude.{
  ◌+◌, ◌<◌, ◌≡◌, refl, ap, ◌∙◌, true, Option, none, some, List, [], ◌∷◌, ◌++◌, arith, ltb, length,
  length-append, string_eq,
}
use pinout.Prelude.Map.{get, get-set_self}
use pinout.Rap.{
  PendingStore, put_call, apply, replay, get_call, from_snapshot, journal_lines_of, load,
  write_line, append, maybe_compact, upsert_call,
}
use pinout.Rap.Records.{PendingCallRecord, PendingEntry, upserted_call, Tables, Disk}

skip_unparsed :
    (t : Tables) (lines : List (Option PendingEntry))
    → replay t (lines ++ none ∷ []) ≡ replay t lines
unfolding replay
skip_unparsed t [] = refl
skip_unparsed t (none ∷ lines) = skip_unparsed t lines
skip_unparsed t (some e ∷ lines) = skip_unparsed (apply t e) lines

maybe_compact_small : (s : PendingStore) → ltb s.journal_lines 64 ≡ true → maybe_compact s ≡ s
unfolding maybe_compact
maybe_compact_small s h = rw (h, maybe_compact) refl

write_line_torn :
    (disk : Disk) (line : Option PendingEntry) (entry : PendingEntry)
    → disk.tail ≡ some line
    → write_line disk entry ≡ record disk { journal = disk.journal ++ none ∷ []; tail = none }
unfolding write_line
write_line_torn disk line entry h = rw (h, write_line) refl

-- If a crash cut the last line of the journal off before its newline, the first call that is stored
-- after the restart is written behind that line. The store answers with it, but unless the journal
-- is compacted at once, the next restart finds neither the call nor what the cut line told, which
-- the first restart had taken over if only the newline was missing: it finds what the files hold
-- without that line.
pub torn_line_swallows_next :
    (disk : Disk) (line : Option PendingEntry) (call : PendingCallRecord)
    → disk.tail ≡ some line
    → length disk.journal + 2 < 64
    → (get_call (upsert_call (load disk) call) call.key ≡ some call)
      × ((load (upsert_call (load disk) call).disk).tables
          ≡ (load (record disk { tail = none })).tables)
unfolding load upsert_call get_call
torn_line_swallows_next disk line call h p =
    let before = load disk in
    let put : PendingStore = record before { tables = put_call before.tables call } in
    let few : ltb (length (journal_lines_of disk) + 1) 64 ≡ true =
      rw h (ground (arith, p, length-append disk.journal (line ∷ []))) in
    let kept : upsert_call before call ≡ append put (upserted_call call) =
      maybe_compact_small (append put (upserted_call call)) few in
    (
      ap (λ s. get call.key s.tables.calls) kept ∙ get-set_self call.key call before.tables.calls,
      ap (λ s. (load s.disk).tables) kept
          ∙ ap (λ d. (load d).tables) (write_line_torn disk line (upserted_call call) h)
          ∙ skip_unparsed (from_snapshot disk.snapshot) disk.journal,
    )
