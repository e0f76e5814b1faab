-- ===== src/Search/Chunker.antt =====
-- src/search/chunker.rs: source text cut into chunks at declaration boundaries.
-- The parsers are not modelled: `Child` holds what the chunker reads of a top-level syntax node.
pub mod Spans
pub mod Cover
mod Tests
use repolayer.Prelude.{
  ℕ, zero, suc, ◌+◌, ◌-◌, ◌*◌, ◌/◌, ◌%◌, ◌^◌, ◌≤◌, ◌<◌, min, max, ◌≡◌, refl, sym, ap, ◌∙◌, subst,
  ◌≢◌, ◌↔◌, ◌⊎◌, inl, inr, ⊎_elim, Bool, true, false, not, ◌&&◌, ◌||◌, Option, none, some, List, [],
  ◌∷◌, ◌++◌, map, arith,
}
use repolayer.Prelude.Tests.{
  ltb, leb, nat_beq, if◌then◌else◌, nat_beq_iff, Bool-cases, Option-cases, PartialEq, ◌==◌, nat_eq,
  beq-cases, beq_refl, beq_of_ne,
}
use repolayer.Prelude.Lists.{
  length, get_elem?, get_or, set, take, drop, replicate, ◌∈◌, All, Distinct,
}
use repolayer.Prelude.Dict.{Dict, contains, lookup, insert, update, keys, or_default}
use repolayer.Prelude.Text.{
  Text, FilePath, bytes, text_eq, path_eq, text_beq_iff, path_beq_iff, starts_with,
}

abbrev pub max_chars : ℕ
max_chars = 1500

pub record Chunk : Type 0 where
  pub content : Text
  pub file_path : Text
  pub start_line : ℕ
  pub end_line : ℕ
  pub start_byte : ℕ
  pub end_byte : ℕ
  pub language : Text

-- `wanted` is `is_named` under ast-grep, and the kind test `section | fenced_code_block` in Markdown.
pub record Child : Type 0 where
  pub wanted : Bool
  pub end : ℕ

-- The loop over the children: `points.push(end)` where the end lies past the last point.
unfoldable pub add_points : ℕ → ℕ → List Child → List ℕ
add_points len last [] = if ltb last len then len ∷ [] else []
add_points len last (c ∷ children) =
    let skipped = add_points len last children in
    let pushed = c.end ∷ add_points len c.end children in
    if c.wanted && (ltb last c.end && leb c.end len) then pushed else skipped

-- `ast_grep_split_points` and `markdown_split_points`
unfoldable pub split_points : ℕ → List Child → List ℕ
unfolding add_points
split_points len children = 0 ∷ add_points len 0 children

-- `split_points.windows(2)`
abbrev pub windows_from : ℕ → List ℕ → List (ℕ × ℕ)
windows_from p [] = []
windows_from p (q ∷ qs) = (p, q) ∷ windows_from q qs

abbrev pub windows : List ℕ → List (ℕ × ℕ)
windows [] = []
windows (p ∷ ps) = windows_from p ps

-- `&source[start..end]`
abbrev pub slice : Text → ℕ → ℕ → Text
slice source start end = take (end - start) (drop start source)

-- `as u32`
abbrev pub as_u32 : ℕ → ℕ
as_u32 n = n % 2 ^ 32

abbrev pub newlines : Text → ℕ
newlines [] = 0
newlines (c ∷ t) = if nat_beq c 10 then suc (newlines t) else newlines t

-- the variables of `pack`
pub record Packing : Type 0 where
  pub chunks : List Chunk
  pub cur_start : ℕ
  pub cur_end : ℕ

-- `is_blank t` is `t.trim().is_empty()`.
module _ (is_blank : Text → Bool) (source file_path lang_name : Text) where
  unfoldable pub push_chunk : ℕ → ℕ → List Chunk → List Chunk
  push_chunk start end out =
      let content = slice source start end in
      let last_byte = max (end - 1) start in
      if is_blank content
      then out
      else out
        ++ (record {
          content = content;
          file_path = file_path;
          start_line = as_u32 (newlines (take start source)) + 1;
          end_line = as_u32 (newlines (take last_byte source)) + 1;
          start_byte = as_u32 start;
          end_byte = as_u32 end;
          language = lang_name;
        })
          ∷ []

  -- the body of the loop over the windows
  unfoldable pub pack_region : Packing → ℕ × ℕ → Packing
  unfolding push_chunk
  pack_region s (start, end) =
      let region_size = end - start in
      let cur_size = s.cur_end - s.cur_start in
      if nat_beq cur_size 0
      then record s { cur_start = start; cur_end = end }
      else if leb (cur_size + region_size) max_chars
      then record s { cur_end = end }
      else (record {
        chunks = push_chunk s.cur_start s.cur_end s.chunks;
        cur_start = start;
        cur_end = end;
      })

  unfoldable pub pack_regions : Packing → List (ℕ × ℕ) → Packing
  unfolding pack_region
  pack_regions s [] = s
  pack_regions s (w ∷ ws) = pack_regions (pack_region s w) ws

  -- the last `push_chunk`
  unfoldable pub flush : Packing → List Chunk
  unfolding push_chunk
  flush s =
      if ltb s.cur_start s.cur_end then push_chunk s.cur_start s.cur_end s.chunks else s.chunks

  unfoldable pub pack : List ℕ → List Chunk
  unfolding flush pack_regions
  pack [] = []
  pack (p ∷ []) = []
  pack (p ∷ q ∷ ps) =
      flush
        (pack_regions (record { chunks = []; cur_start = p; cur_end = p }) (windows (p ∷ q ∷ ps)))

  unfoldable pub chunk_source : List Child → List Chunk
  unfolding pack split_points
  chunk_source children =
      if is_blank source then [] else pack (split_points (length source) children)
