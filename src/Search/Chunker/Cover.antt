-- ===== src/Search/Chunker/Cover.antt =====
-- The spans behind the chunks of src/search/chunker.rs.
use mathlib.Core.List.{append-nil, append_assoc}
use repolayer.Prelude.Rows.{where_rows}
use repolayer.Prelude.{
  ◌%◌, ◌^◌, max, true, ℕ, ◌+◌, ◌-◌, ◌≤◌, ◌≡◌, refl, sym, ap, ◌∙◌, subst, ◌⊎◌, inl, inr, Bool, false,
  List, [], ◌∷◌, ◌++◌, arith,
}
use repolayer.Prelude.Tests.{ltb, leb, nat_beq, if◌then◌else◌, Bool-cases, nat_eq}
use repolayer.Prelude.Lists.{length, take, drop, ◌∈◌, All, All-of_mem}
use repolayer.Prelude.Text.{Text, text_eq, path_eq}
use repolayer.Search.Chunker.Spans.{
  Rising, last, next, Tiles, none_left, tile, add_points-Rising, flat, flat-Tiles, take_all,
  length_zero,
}
use repolayer.Search.Chunker.{
  as_u32, newlines, Chunk, Child, Packing, add_points, split_points, windows, windows_from, slice,
  max_chars, push_chunk, pack_region, pack_regions, flush, pack, chunk_source,
}

-- the number of newlines among the first `n` bytes
abbrev pub lines_before : ℕ → Text → ℕ
lines_before n source = length (where_rows (λ c. nat_beq c 10) (take n source))

newlines_lem : (t : Text) → newlines t ≡ length (where_rows (λ c. nat_beq c 10) t)
unfolding where_rows
newlines_lem [] = refl
newlines_lem (c ∷ t) = ground (arith, newlines_lem t)

module _ (is_blank : Text → Bool) (source file_path lang_name : Text) where
  -- `push_chunk` for each span in turn
  emit : List (ℕ × ℕ) → List Chunk → List Chunk
  emit [] out = out
  emit ((a, b) ∷ spans) out = emit spans (push_chunk is_blank source file_path lang_name a b out)

  -- The chunk of the bytes from `a` to `b`; its lines are counted from 1, the numbers kept to 32 bits.
  pub record IsChunk (a b : ℕ) (c : Chunk) : Type 0 where
    pub content : c.content ≡ take (b - a) (drop a source)
    pub file : c.file_path ≡ file_path
    pub start_line : c.start_line ≡ lines_before a source % 2 ^ 32 + 1
    pub end_line : c.end_line ≡ lines_before (max (b - 1) a) source % 2 ^ 32 + 1
    pub start_byte : c.start_byte ≡ a % 2 ^ 32
    pub end_byte : c.end_byte ≡ b % 2 ^ 32
    pub language : c.language ≡ lang_name

  -- One chunk after the other for the spans whose text is not blank.
  pub data ChunksOf : List (ℕ × ℕ) → List Chunk → Type 0 where
    no_span : ChunksOf [] []
    blank :
        {a b : ℕ} {spans : List (ℕ × ℕ)} {cs : List Chunk}
        → is_blank (take (b - a) (drop a source)) ≡ true
        → ChunksOf spans cs
        → ChunksOf ((a, b) ∷ spans) cs
    chunk :
        {a b : ℕ} {spans : List (ℕ × ℕ)} {c : Chunk} {cs : List Chunk}
        → is_blank (take (b - a) (drop a source)) ≡ false
        → IsChunk a b c
        → ChunksOf spans cs
        → ChunksOf ((a, b) ∷ spans) (c ∷ cs)

  emit-ChunksOf :
      (spans : List (ℕ × ℕ)) (out : List Chunk)
      → (cs : List Chunk) × ChunksOf spans cs × (emit spans out ≡ out ++ cs)
  unfolding emit push_chunk
  emit-ChunksOf [] out = ([], no_span, sym (append-nil out))
  emit-ChunksOf ((a, b) ∷ spans) out = elim (Bool-cases (is_blank (slice source a b))) [
    | inl t ↦ let (cs, of, e) = emit-ChunksOf spans out in (cs, blank t of, rw (t, emit) e)
    | inr f ↦
        let c : Chunk = record {
          content = slice source a b;
          file_path = file_path;
          start_line = as_u32 (newlines (take a source)) + 1;
          end_line = as_u32 (newlines (take (max (b - 1) a) source)) + 1;
          start_byte = as_u32 a;
          end_byte = as_u32 b;
          language = lang_name;
        } in
        let (cs, of, e) = emit-ChunksOf spans (out ++ c ∷ []) in
        let is_chunk : IsChunk a b c = record {
          content = refl;
          file = refl;
          start_line = ap (λ n. n % 2 ^ 32 + 1) (newlines_lem (take a source));
          end_line = ap (λ n. n % 2 ^ 32 + 1) (newlines_lem (take (max (b - 1) a) source));
          start_byte = refl;
          end_byte = refl;
          language = refl;
        } in
        (c ∷ cs, chunk f is_chunk of, rw (f, emit) (e ∙ append_assoc out (c ∷ []) cs))
  ]

  module _ (Region : ℕ × ℕ → Type 0) where
    -- A span is short, or it is one region.
    abbrev pub Fits : ℕ × ℕ → Type 0
    Fits span = (span.1 - span.0 ≤ max_chars) ⊎ Region span

    pack-spans :
        (p b : ℕ) (ps : List ℕ) (s : Packing)
        → Rising p ps b
        → All Region (windows_from p ps)
        → s.cur_end ≡ p
        → s.cur_start ≤ p
        → Fits (s.cur_start, p)
        → (spans : List (ℕ × ℕ)) × Tiles s.cur_start spans b
          × All Fits spans
          × (flush is_blank source file_path lang_name
                (pack_regions is_blank source file_path lang_name s (windows_from p ps))
              ≡ emit spans s.chunks)
    unfolding pack_regions pack_region flush emit
    pack-spans p b [] s last regions here le fits = elim (Bool-cases (ltb s.cur_start p)) [
      | inl more ↦
          ((s.cur_start, p) ∷ [], tile (ground arith) none_left, (fits, tt), rw (here, more, flush))
      | inr done ↦ (
        [],
        subst (λ c. Tiles s.cur_start [] c) (ground arith) none_left,
        tt,
        rw (here, done, flush),
      )
    ]
    pack-spans p b (q ∷ ps) s (next lt rise) regions here le fits =
        elim (Bool-cases (nat_beq (s.cur_end - s.cur_start) 0)) [
          | inl empty ↦
              let s' : Packing = record s { cur_start = p; cur_end = q } in
              let (spans, t, f, e) =
                pack-spans q b ps s' rise regions.1 refl (omega arith) (inr regions.0) in
              (spans, subst (λ c. Tiles c spans b) (ground arith) t, f, rw (empty, pack_regions) e)
          | inr full ↦ elim (Bool-cases (leb (s.cur_end - s.cur_start + (q - p)) max_chars)) [
            | inl room ↦
                let s' : Packing = record s { cur_end = q } in
                let (spans, t, f, e) =
                  pack-spans q b ps s' rise regions.1 refl (omega arith) (inl (ground arith)) in
                (spans, t, f, rw (full, room, pack_regions) e)
            | inr over ↦
                let s' : Packing = record {
                  chunks =
                      push_chunk is_blank source file_path lang_name s.cur_start s.cur_end s.chunks;
                  cur_start = p;
                  cur_end = q;
                } in
                let (spans, t, f, e) =
                  pack-spans q b ps s' rise regions.1 refl (omega arith) (inr regions.0) in
                (
                  (s.cur_start, p) ∷ spans,
                  tile (ground arith) t,
                  (fits, f),
                  rw (full, over, pack_regions)
                      (e
                        ∙ ap
                            (λ c. emit spans (
                              push_chunk is_blank source file_path lang_name s.cur_start c
                                s.chunks))
                            here),
                )
          ]
        ]

chunk_source-emit :
    (is_blank : Text → Bool) (source file_path lang_name : Text) (children : List Child)
    → is_blank source ≡ false
    → (spans : List (ℕ × ℕ)) × Tiles 0 spans (length source)
      × (flat source spans ≡ source)
      × All
          (Fits is_blank source file_path lang_name
            (λ r. r ∈ windows (split_points (length source) children)))
          spans
      × (chunk_source is_blank source file_path lang_name children
          ≡ emit is_blank source file_path lang_name spans [])
unfolding chunk_source split_points flat emit
chunk_source-emit is_blank source file_path lang_name children some_text =
    by_points (length source) refl (add_points (length source) 0 children)
      (add_points-Rising (length source) 0 children (omega arith))
  where
    by_points :
        (b : ℕ)
        → b ≡ length source
        → (ps : List ℕ) → Rising 0 ps b
        → (spans : List (ℕ × ℕ)) × Tiles 0 spans b
          × (flat source spans ≡ source)
          × All (Fits is_blank source file_path lang_name (λ r. r ∈ windows_from 0 ps)) spans
          × ((if is_blank source then [] else pack is_blank source file_path lang_name (0 ∷ ps))
              ≡ emit is_blank source file_path lang_name spans [])
    by_points b e [] last = ([], none_left, sym (length_zero source e), tt, rw some_text)
    by_points b e (q ∷ ps) rise =
        let (spans, t, fits, chunks) =
          pack-spans is_blank source file_path lang_name (λ r. r ∈ windows_from 0 (q ∷ ps)) 0 b
            (q ∷ ps) (record { chunks = []; cur_start = 0; cur_end = 0 }) rise
            (All-of_mem _ (windows_from 0 (q ∷ ps)) (λ r i. i)) refl (omega arith)
            (inl (omega arith)) in
        (
          spans,
          t,
          flat-Tiles source t
              ∙ (ap (λ n. take n source) {x = b - 0} {y = length source} (omega arith)
                  ∙ take_all source),
          fits,
          rw some_text chunks,
        )

-- The chunks of a source that is not blank belong to spans that tile it from end to end, so that the
-- texts of the spans put together are the source. A span whose text is blank has no chunk, any other
-- has one, with its text, its bytes and its lines; each span is at most `max_chars` long or is one
-- region between split points.
pub chunk_source_covers :
    (is_blank : Text → Bool) (source file_path lang_name : Text) (children : List Child)
    → is_blank source ≡ false
    → (spans : List (ℕ × ℕ)) × Tiles 0 spans (length source)
      × (flat source spans ≡ source)
      × All
          (Fits is_blank source file_path lang_name
            (λ r. r ∈ windows (split_points (length source) children)))
          spans
      × ChunksOf is_blank source file_path lang_name spans
          (chunk_source is_blank source file_path lang_name children)
chunk_source_covers is_blank source file_path lang_name children some_text =
    let (spans, t, all, fits, e) =
      chunk_source-emit is_blank source file_path lang_name children some_text in
    let (cs, of, out) = emit-ChunksOf is_blank source file_path lang_name spans [] in
    (
      spans,
      t,
      all,
      fits,
      subst (λ l. ChunksOf is_blank source file_path lang_name spans l) (sym (e ∙ out)) of,
    )
