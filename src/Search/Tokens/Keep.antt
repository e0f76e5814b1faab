-- ===== src/Search/Tokens/Keep.antt =====
-- Splitting an identifier loses no letter and no digit.

use repolayer.Prelude.{
  ℕ, zero, suc, ◌+◌, ◌≤◌, ◌≡◌, refl, sym, ap, ◌∙◌, inl, inr, Bool, true, false, ◌||◌, Option, none,
  some, List, [], ◌∷◌, ◌++◌, arith,
}
use repolayer.Prelude.Tests.{Bool-cases, nat_eq}
use repolayer.Prelude.Lists.{length, All}
use repolayer.Prelude.Text.{Text, text_eq, path_eq}
use repolayer.Search.Tokens.{
  is_digit, is_upper, span, split_last, is_lower, camel_split, next_part, split_loop, upper_part,
  followed_by_lower, push_part,
}
use repolayer.Prelude.Rows.{where_rows}

abbrev pub in_word : ℕ → Bool
in_word c = is_digit c || (is_upper c || is_lower c)

-- the letters and digits of a text
abbrev pub letters : Text → Text
letters = where_rows in_word

abbrev pub join : List Text → Text
join [] = []
join (part ∷ parts) = part ++ join parts

abbrev pub part_text : Option Text → Text
part_text none = []
part_text (some part) = part

-- a run, the rest, and the letters of both
record Kept (run rest whole : Text) : Type 0 where
  all : run ++ letters rest ≡ letters whole
  shorter : length rest ≤ length whole

span-Kept :
    (p : ℕ → Bool) (s : Text)
    → ((c : ℕ) → p c ≡ true → in_word c ≡ true)
    → Kept (span p s).0 (span p s).1 s
unfolding span where_rows
span-Kept p [] h = record { all = refl; shorter = omega arith }
span-Kept p (c ∷ s) h = elim (Bool-cases (p c)) [
  | inl t ↦ rw t (record {
    all = rw (h c t, (span-Kept p s h).all) refl;
    shorter = omega (arith, (span-Kept p s h).shorter);
  })
  | inr f ↦ rw f (record { all = refl; shorter = omega arith })
]

span-All : (p : ℕ → Bool) (s : Text) → All (λ c. p c ≡ true) (span p s).0
unfolding span
span-All p [] = tt
span-All p (c ∷ s) = elim (Bool-cases (p c)) [ inl t ↦ rw t (t, span-All p s) | inr f ↦ rw f tt ]

upper_in_word : (c : ℕ) → is_upper c ≡ true → in_word c ≡ true
upper_in_word c t = ground arith

split_last-letters :
    (c : ℕ) (run rest : Text)
    → is_upper c ≡ true
    → All (λ d. is_upper d ≡ true) run
    → (split_last c run rest).0 ++ letters (split_last c run rest).1 ≡ c ∷ (run ++ letters rest)
unfolding split_last where_rows
split_last-letters c [] rest t h = rw (upper_in_word c t) refl
split_last-letters c (d ∷ run) rest t h = ap (λ l. c ∷ l) (split_last-letters d run rest h.0 h.1)

length-split_last : (c : ℕ) (run rest : Text) → length (split_last c run rest).1 ≡ length rest + 1
unfolding split_last
length-split_last c [] rest = omega arith
length-split_last c (d ∷ run) rest = length-split_last d run rest

upper_part-letters :
    (c : ℕ) (run rest : Text)
    → is_upper c ≡ true
    → All (λ d. is_upper d ≡ true) run
    → (upper_part c run rest).0 ++ letters (upper_part c run rest).1 ≡ c ∷ (run ++ letters rest)
unfolding upper_part
upper_part-letters c [] rest t h =
    ap (λ l. c ∷ l) (span-Kept is_lower rest (λ d l. ground arith)).all
upper_part-letters c (d ∷ run) rest t h = elim (Bool-cases (followed_by_lower rest)) [
  | inl l ↦ rw l (split_last-letters c (d ∷ run) rest t h)
  | inr l ↦ rw l refl
]

length-upper_part :
    (c : ℕ) (run rest : Text) → length (upper_part c run rest).1 ≤ length run + length rest
unfolding upper_part
length-upper_part c [] rest = omega (arith, (span-Kept is_lower rest (λ d l. ground arith)).shorter)
length-upper_part c (d ∷ run) rest = elim (Bool-cases (followed_by_lower rest)) [
  | inl l ↦ rw l (omega (arith, length-split_last c (d ∷ run) rest))
  | inr l ↦ rw l (omega arith)
]

length-span : (p : ℕ → Bool) (s : Text) → length (span p s).0 + length (span p s).1 ≡ length s
unfolding span
length-span p [] = omega arith
length-span p (c ∷ s) = elim (Bool-cases (p c)) [
  | inl t ↦ rw t (omega (arith, length-span p s))
  | inr f ↦ rw f (omega arith)
]

-- one round of the loop
record Step (c : ℕ) (s : Text) : Type 0 where
  all : part_text (next_part c s).0 ++ letters (next_part c s).1 ≡ letters (c ∷ s)
  shorter : length (next_part c s).1 ≤ length s

letters_nil : letters [] ≡ []
unfolding where_rows
letters_nil = refl

letters-cons : (c : ℕ) (s : Text) → in_word c ≡ true → letters (c ∷ s) ≡ c ∷ letters s
unfolding where_rows
letters-cons c s t = rw t refl

letters-skip : (c : ℕ) (s : Text) → in_word c ≡ false → letters (c ∷ s) ≡ letters s
unfolding where_rows
letters-skip c s f = rw f refl

next_part-Step : (c : ℕ) (s : Text) → Step c s
unfolding next_part
next_part-Step c s = elim (Bool-cases (is_digit c)) [
  | inl d ↦ record {
    all =
        rw (letters-cons c s (ground arith), d, next_part)
          (ap (λ l. c ∷ l) (span-Kept is_digit s (λ e t. ground arith)).all);
    shorter = rw (d, next_part) (span-Kept is_digit s (λ e t. ground arith)).shorter;
  }
  | inr d ↦ elim (Bool-cases (is_upper c)) [
    | inl u ↦ record {
      all =
          rw (letters-cons c s (ground arith), d, u, next_part)
            (upper_part-letters c (span is_upper s).0 (span is_upper s).1 u (span-All is_upper s)
              ∙ ap (λ l. c ∷ l) (span-Kept is_upper s (λ e t. ground arith)).all);
      shorter =
          rw (d, u, next_part)
            (omega (
              arith,
              length-upper_part c (span is_upper s).0 (span is_upper s).1,
              length-span is_upper s,
            ));
    }
    | inr u ↦ elim (Bool-cases (is_lower c)) [
      | inl l ↦ record {
        all =
            rw (letters-cons c s (ground arith), d, u, l, next_part)
              (ap (λ l. c ∷ l) (span-Kept is_lower s (λ e t. ground arith)).all);
        shorter = rw (d, u, l, next_part) (span-Kept is_lower s (λ e t. ground arith)).shorter;
      }
      | inr l ↦ record {
        all = rw (letters-skip c s (ground arith), d, u, l, next_part) refl;
        shorter = rw (d, u, l, next_part) (omega arith);
      }
    ]
  ]
]

join-push_part :
    (o : Option Text) (parts : List Text) → join (push_part o parts) ≡ part_text o ++ join parts
join-push_part none parts = refl
join-push_part (some part) parts = refl

split_loop-letters : (fuel : ℕ) (s : Text) → length s ≤ fuel → join (split_loop fuel s) ≡ letters s
unfolding split_loop
split_loop-letters zero [] h = sym letters_nil
split_loop-letters zero (c ∷ s) h = absurd (omega (arith, h))
split_loop-letters (suc fuel) [] h = sym letters_nil
split_loop-letters (suc fuel) (c ∷ s) h =
    join-push_part (next_part c s).0 (split_loop fuel (next_part c s).1)
    ∙ ap (λ l. part_text (next_part c s).0 ++ l)
        (split_loop-letters fuel (next_part c s).1 (omega (arith, h, (next_part-Step c s).shorter)))
    ∙ (next_part-Step c s).all

-- The parts of an identifier, put together again, are its letters and digits in their order.
pub camel_split_keeps : (s : Text) → join (camel_split s) ≡ letters s
unfolding camel_split
camel_split_keeps s = split_loop-letters (length s) s (omega arith)
