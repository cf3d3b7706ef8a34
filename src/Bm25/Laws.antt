-- ===== src/Bm25/Laws.antt =====
-- About the tokens of a text and the order of the scores (bm25.ts).
use ctxlite.Prelude.{
  ℕ, ◌≤◌, ◌≡◌, refl, Bool, true, false, List, [], ◌∷◌, arith, Text, str, length, filter_by, any,
  All,
}
use mathlib.Core.List.{Perm}
use ctxlite.Runtime.{Runtime}
use ctxlite.Bm25.{
  split_camel, is_separator, separators, blank_separators, grow_first, text_pieces, is_digits,
  is_stop_word, is_token, prepare, tokenize, Bm25, ScoredDoc, score_from, score_all,
}
use ctxlite.Prelude.{IsDescending, if-either, is_space}
use ctxlite.Prelude.{sort_descending-perm}
use ctxlite.Prelude.{sort_descending-IsDescending}

-- A unit of a token: no white space, and no character that the source turns into a blank.
abbrev pub IsPlain : ℕ → Type 0
IsPlain c = (is_space c ≡ false) × (is_separator c ≡ false)

-- A text without a character that the source turns into a blank.
abbrev NoSeparators : Text → Type 0
NoSeparators = All (λ c. is_separator c ≡ false)

blank-not_separator : is_separator 32 ≡ false
unfolding is_separator separators any str
blank-not_separator = refl

blank_separators-NoSeparators : (s : Text) → NoSeparators (blank_separators s)
unfolding blank_separators
blank_separators-NoSeparators [] = tt
blank_separators-NoSeparators (c ∷ s) = (
  if-either (λ d. is_separator d ≡ false) (is_separator c) _ _ (λ e. blank-not_separator) (λ e. e),
  blank_separators-NoSeparators s,
)

grow_first-IsPlain :
    (c : ℕ) (ws : List Text)
    → IsPlain c
    → All (All IsPlain) ws
    → All (All IsPlain) (grow_first c ws)
grow_first-IsPlain c [] p h = ((p, tt), tt)
grow_first-IsPlain c (w ∷ ws) p (h, hs) = ((p, h), hs)

text_pieces-IsPlain : (s : Text) → NoSeparators s → All (All IsPlain) (text_pieces s)
unfolding text_pieces
text_pieces-IsPlain [] h = (tt, tt)
text_pieces-IsPlain (c ∷ s) (p, h) =
    if-either (All (All IsPlain)) (is_space c) _ _ (λ e. (tt, text_pieces-IsPlain s h))
      (λ e. grow_first-IsPlain c (text_pieces s) (e, p) (text_pieces-IsPlain s h))

filter-All :
    {A : Type 0} (P Q : A → Type 0) (test : A → Bool) (xs : List A)
    → ((x : A) → test x ≡ true → Q x)
    → All P xs
    → All (λ x. P x × Q x) (filter_by test xs)
unfolding filter_by
filter-All P Q test [] q h = tt
filter-All P Q test (x ∷ xs) q (p, h) =
    if-either (All (λ x. P x × Q x)) (test x) _ _ (λ e. ((p, q x e), filter-All P Q test xs q h))
      (λ e. filter-All P Q test xs q h)

-- What a token is: two units at least, none of them a blank or a separator, no stop word and no number.
pub record IsToken (t : Text) : Type 0 where
  pub plain : All IsPlain t
  pub long : 2 ≤ length t
  pub no_stop_word : is_stop_word t ≡ false
  pub no_number : is_digits t ≡ false

abbrev IsKept : Text → Type 0
IsKept t = (2 ≤ length t) × (is_stop_word t ≡ false) × (is_digits t ≡ false)

is_token-IsKept : (t : Text) → is_token t ≡ true → IsKept t
unfolding is_token
is_token-IsKept t h = ground (arith, h)

All-map :
    {A : Type 0} (P Q : A → Type 0) (xs : List A) → ((x : A) → P x → Q x) → All P xs → All Q xs
All-map P Q [] f h = tt
All-map P Q (x ∷ xs) f (p, h) = (f x p, All-map P Q xs f h)

-- Every token of every text is one: two units at least, of which none is white space or a separator,
-- no stop word and no number, whatever `toLowerCase` does to the text.
pub tokenize-IsToken : (rt : Runtime) (text : Text) → All IsToken (tokenize rt text)
unfolding tokenize prepare
tokenize-IsToken rt text =
    let lowered = rt.lower (split_camel text) in
    let words = text_pieces (blank_separators lowered) in
    All-map (λ t. All IsPlain t × IsKept t) IsToken (filter_by is_token words)
      (λ t (plain, (long, stop, number)). record {
        plain = plain;
        long = long;
        no_stop_word = stop;
        no_number = number;
      })
      (filter-All (All IsPlain) IsKept is_token words is_token-IsKept
        (text_pieces-IsPlain (blank_separators lowered) (blank_separators-NoSeparators lowered)))

-- The ranking has each document once, and no score is greater than one in front of it, where the scores
-- are ordered as numbers are.
pub score_all-IsDescending :
    (rt : Runtime) (bm : Bm25 rt) (query : Text)
    → ((a b : rt.Double) → rt.lt a b ≡ true → rt.lt b a ≡ false)
    → ((a b c : rt.Double) → rt.lt a b ≡ false → rt.lt b c ≡ false → rt.lt a c ≡ false)
    → Perm (score_all rt bm query) (score_from rt bm query 0 bm.tokenized)
      × IsDescending rt.lt (λ (d : ScoredDoc rt). d.score) (score_all rt bm query)
unfolding score_all
score_all-IsDescending rt bm query asym trans = (
  sort_descending-perm rt.lt (λ (d : ScoredDoc rt). d.score) _,
  sort_descending-IsDescending rt.lt (λ (d : ScoredDoc rt). d.score) asym trans _,
)
