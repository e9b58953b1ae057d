-- ===== src/Agent/LogTailer/Blocks.antt =====
-- internal/agent/hook/traceback.go: a log that is written entry by entry is read back.
use intelligent_odoo_dev_too.Prelude.{
  ℕ, Bool, true, false, not, Option, none, some, List, [], ◌∷◌, ◌++◌, ◌≡◌, refl, sym, ap, ◌∙◌, all,
  arith, inl, inr, &&-eq-true_iff, append_assoc, append-nil, Option-cases,
}
use intelligent_odoo_dev_too.Prelude.Text.{Bytes}
use intelligent_odoo_dev_too.Agent.LogTailer.{
  LogEntry, EntryAccumulator, no_entry, is_empty, finished, continued, feed_continuation, feed,
  emit, flush, tail_file,
}
use intelligent_odoo_dev_too.Agent.LogTailer.Pieces.{
  is_plain, feed_all, finish, finish-append, finish-line, join_polls, texts_of, tail_file-feed_all,
}

-- An entry as it is written: its header and the lines after it.
pub record Block : Type 0 where
  pub header : Bytes
  pub entry : LogEntry
  pub continuation : List Bytes

abbrev pub with_newlines : List Bytes → Bytes
with_newlines [] = []
with_newlines (l ∷ ls) = 10 ∷ (l ++ with_newlines ls)

abbrev pub join_lines : List Bytes → Bytes
join_lines [] = []
join_lines (l ∷ ls) = l ++ with_newlines ls

abbrev pub block_entry : Block → LogEntry
block_entry b = record (b.entry) { contiguous = join_lines b.continuation }

abbrev pub block_lines : List Block → List Bytes
block_lines [] = []
block_lines (b ∷ bs) = (b.header ∷ b.continuation) ++ block_lines bs

abbrev pub block_entries : List Block → List LogEntry
block_entries [] = []
block_entries (b ∷ bs) = block_entry b ∷ block_entries bs

is_empty-append : (buf s : Bytes) → is_empty buf ≡ false → is_empty (buf ++ s) ≡ false
is_empty-append [] s h = cc
is_empty-append (c ∷ buf) s h = refl

flush-finished : (acc : EntryAccumulator) → (flush acc).0 ≡ finished acc.cont_buf acc.current
unfolding flush
flush-finished acc = elim (Option-cases acc.current) [ inl e ↦ rw e refl | inr (x, e) ↦ rw e refl ]

module _ (parse_header : Bytes → Option LogEntry) where
  abbrev pub is_continuation : Bytes → Bool
  is_continuation l = elim (parse_header l) [ none ↦ true | some e ↦ false ]

  abbrev pub starts_full : List Bytes → Bool
  starts_full [] = true
  starts_full (l ∷ ls) = not (is_empty l)

  -- Headers that are read as their entries, followed by lines that are none, the first not empty.
  pub data Written : List Block → Type 0 where
    nothing_written : Written []
    written :
        {b : Block} {bs : List Block}
        → parse_header b.header ≡ some b.entry
        → all is_continuation b.continuation ≡ true
        → starts_full b.continuation ≡ true
        → Written bs
        → Written (b ∷ bs)

  feed-continuation :
      (acc : EntryAccumulator) (l : Bytes)
      → is_continuation l ≡ true
      → feed parse_header acc l ≡ (none, feed_continuation l acc)
  unfolding feed
  feed-continuation acc l h = elim (Option-cases (parse_header l)) [
    | inl e ↦ rw e refl
    | inr (x, e) ↦ absurd (ground arith)
  ]

  feed-header :
      (acc : EntryAccumulator) (l : Bytes) (e : LogEntry)
      → parse_header l ≡ some e
      → feed parse_header acc l
        ≡ (finished acc.cont_buf acc.current, record { current = some e; cont_buf = [] })
  unfolding feed
  feed-header acc l e h = rw h refl

  feed_all-continued :
      (acc : EntryAccumulator) (l : Bytes) (ls : List Bytes)
      → is_continuation l ≡ true
      → feed_all parse_header acc (l ∷ ls) ≡ feed_all parse_header (feed_continuation l acc) ls
  unfolding feed_all
  feed_all-continued acc l ls h =
      ap (λ r. (emit r.0 (feed_all parse_header r.1 ls).0, (feed_all parse_header r.1 ls).1))
        (feed-continuation acc l h)

  feed_all-preamble :
      (ls : List Bytes)
      → all is_continuation ls ≡ true
      → feed_all parse_header no_entry ls ≡ ([], no_entry)
  unfolding feed_all
  feed_all-preamble [] h = refl
  feed_all-preamble (l ∷ ls) h =
      let (a, b) = (&&-eq-true_iff (is_continuation l) (all is_continuation ls)).0 h in
      feed_all-continued no_entry l ls a ∙ feed_all-preamble ls b

  -- The lines after a header that are appended to a buffer that is not empty.
  feed_all-continuation :
      (e : LogEntry) (buf : Bytes) (ls : List Bytes)
      → all is_continuation ls ≡ true
      → is_empty buf ≡ false
      → feed_all parse_header (record { current = some e; cont_buf = buf }) ls
        ≡ ([], record { current = some e; cont_buf = buf ++ with_newlines ls })
  unfolding feed_all
  feed_all-continuation e buf [] h f = rw (append-nil buf) refl
  feed_all-continuation e buf (l ∷ ls) h f =
      let (a, b) = (&&-eq-true_iff (is_continuation l) (all is_continuation ls)).0 h in
      let next : continued buf l ≡ buf ++ (10 ∷ l) = rw f refl in
      feed_all-continued (record { current = some e; cont_buf = buf }) l ls a
      ∙ ap (λ t. feed_all parse_header (record { current = some e; cont_buf = t }) ls) next
      ∙ feed_all-continuation e (buf ++ (10 ∷ l)) ls b (is_empty-append buf (10 ∷ l) f)
      ∙ ap (λ t. ([], record { current = some e; cont_buf = t }))
          (append_assoc buf (10 ∷ l) (with_newlines ls))

  feed_all-lines :
      (e : LogEntry) (ls : List Bytes)
      → all is_continuation ls ≡ true
      → starts_full ls ≡ true
      → feed_all parse_header (record { current = some e; cont_buf = [] }) ls
        ≡ ([], record { current = some e; cont_buf = join_lines ls })
  unfolding feed_all
  feed_all-lines e [] h f = refl
  feed_all-lines e (l ∷ ls) h f =
      let (a, b) = (&&-eq-true_iff (is_continuation l) (all is_continuation ls)).0 h in
      feed_all-continued (record { current = some e; cont_buf = [] }) l ls a
      ∙ feed_all-continuation e l ls b (ground arith)

  finish-blocks :
      (acc : EntryAccumulator) (bs : List Block)
      → Written bs
      → finish (feed_all parse_header acc (block_lines bs)) ≡ emit (flush acc).0 (block_entries bs)
  unfolding feed_all flush
  finish-blocks acc [] w = refl
  finish-blocks acc (b ∷ bs) (written h c f w) =
      let started : EntryAccumulator = record { current = some b.entry; cont_buf = [] } in
      let read : EntryAccumulator = record {
        current = some b.entry;
        cont_buf = join_lines b.continuation;
      } in
      finish-line parse_header acc b.header (b.continuation ++ block_lines bs)
      ∙ ap (λ r. emit r.0 (finish (feed_all parse_header r.1 (b.continuation ++ block_lines bs))))
          (feed-header acc b.header b.entry h)
      ∙ ap (emit (finished acc.cont_buf acc.current)) (
          finish-append parse_header started b.continuation (block_lines bs)
          ∙ ap (λ r. r.0 ++ finish (feed_all parse_header r.1 (block_lines bs)))
              (feed_all-lines b.entry b.continuation c f)
          ∙ finish-blocks read bs w)
      ∙ ap (λ o. emit o (block_entries (b ∷ bs))) (sym (flush-finished acc))

  -- If the lines that the polls read are plain, and are lines that are no headers followed by written
  -- entries, then the tailer gives these entries, each with its lines joined by newlines.
  pub tail_file-blocks :
      (max : ℕ) (polls : List (List Bytes)) (preamble : List Bytes) (bs : List Block)
      → all (is_plain max) (join_polls polls) ≡ true
      → join_polls polls ≡ preamble ++ block_lines bs
      → all is_continuation preamble ≡ true
      → Written bs
      → tail_file parse_header max no_entry (texts_of polls) ≡ block_entries bs
  unfolding flush
  tail_file-blocks max polls preamble bs h e c w =
      tail_file-feed_all parse_header max no_entry polls h
      ∙ ap (λ ls. finish (feed_all parse_header no_entry ls)) e
      ∙ finish-append parse_header no_entry preamble (block_lines bs)
      ∙ ap (λ r. r.0 ++ finish (feed_all parse_header r.1 (block_lines bs)))
          (feed_all-preamble preamble c)
      ∙ finish-blocks no_entry bs w
