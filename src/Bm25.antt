-- ===== src/Bm25.antt =====
-- packages/core/src/bm25.ts: the tokens of a text and the scores of documents for a query.
pub mod Laws
pub mod Tests
use ctxlite.Prelude.{
  ℕ, zero, suc, ◌+◌, ◌-◌, ◌*◌, ◌/◌, ◌%◌, ◌≤◌, ◌<◌, min, max, String, ◌≡◌, refl, sym, ap, ap₂, ◌∙◌,
  ◌≢◌, ◌↔◌, ◌⊎◌, inl, inr, Bool, true, false, ◌&&◌, ◌||◌, not, Option, none, some, List, [], ◌∷◌,
  ◌++◌, map, append_assoc, append-nil, map-append, arith, Text, str, text_eq, text_eq_iff,
  text_eq_refl, length, length-append, join, Dict, dict_get, dict_set, dict_delete, get-set,
  get-delete, or_else, slice, take, drop, filter_by, any, all, All, trim_end, starts_with,
  ends_with, includes, ltb, leb, ◌==◌, if◌then◌else◌, Option-cases, Bool-cases, print_nat,
  round_seven_tenths, lines_of, unlines, lower_unit, length-take, length-drop, take-append-drop,
}
use ctxlite.Runtime.{Runtime}
use ctxlite.Prelude.{is_space, sort_descending}

unfoldable pub stop_words : List Text
stop_words =
    str "the"
    ∷ str "a"
    ∷ str "an"
    ∷ str "is"
    ∷ str "it"
    ∷ str "in"
    ∷ str "on"
    ∷ str "at"
    ∷ str "to"
    ∷ str "for"
    ∷ str "of"
    ∷ str "and"
    ∷ str "or"
    ∷ str "but"
    ∷ str "not"
    ∷ str "with"
    ∷ str "this"
    ∷ str "that"
    ∷ str "be"
    ∷ str "as"
    ∷ str "are"
    ∷ str "was"
    ∷ str "were"
    ∷ str "been"
    ∷ str "have"
    ∷ str "has"
    ∷ str "had"
    ∷ str "return"
    ∷ str "returns"
    ∷ str "const"
    ∷ str "let"
    ∷ str "var"
    ∷ str "function"
    ∷ str "class"
    ∷ str "import"
    ∷ str "export"
    ∷ str "from"
    ∷ str "default"
    ∷ str "type"
    ∷ str "interface"
    ∷ str "extends"
    ∷ str "implements"
    ∷ str "new"
    ∷ str "if"
    ∷ str "else"
    ∷ str "for"
    ∷ str "while"
    ∷ str "do"
    ∷ str "switch"
    ∷ str "case"
    ∷ str "break"
    ∷ str "continue"
    ∷ str "throw"
    ∷ str "try"
    ∷ str "catch"
    ∷ str "async"
    ∷ str "await"
    ∷ str "void"
    ∷ str "null"
    ∷ str "undefined"
    ∷ str "true"
    ∷ str "false"
    ∷ []

unfoldable pub is_lower_letter : ℕ → Bool
is_lower_letter c = leb b'a' c && leb c b'z'

unfoldable pub is_upper_letter : ℕ → Bool
is_upper_letter c = leb b'A' c && leb c b'Z'

-- `text.replace(/([a-z])([A-Z])/g, "$1 $2")`: the second letter of a match is never the first of another
unfoldable pub split_camel : Text → Text
unfolding is_lower_letter is_upper_letter
split_camel [] = []
split_camel (c ∷ []) = c ∷ []
split_camel (c ∷ d ∷ s) =
    let rest = split_camel (d ∷ s) in
    if is_lower_letter c && is_upper_letter d then c ∷ 32 ∷ rest else c ∷ rest

-- the characters of the class that becomes a blank
unfoldable pub separators : Text
separators = str "_-./\\(){}[];:,<>'\"#@!?=+*&|^%$~`"

unfoldable pub is_separator : ℕ → Bool
unfolding separators any
is_separator c = any (λ d. d == c) separators

unfoldable pub blank_separators : Text → Text
unfolding is_separator
blank_separators s = map (λ c. if is_separator c then 32 else c) s

-- the piece in front of the first white space, and those behind it
abbrev pub grow_first : ℕ → List Text → List Text
grow_first c [] = (c ∷ []) ∷ []
grow_first c (w ∷ ws) = (c ∷ w) ∷ ws

-- `s.split(/\s+/)`, with an empty piece for each further blank of a run: all callers drop the short pieces
unfoldable pub text_pieces : Text → List Text
unfolding is_space
text_pieces [] = [] ∷ []
text_pieces (c ∷ s) =
    let rest = text_pieces s in if is_space c then [] ∷ rest else grow_first c rest

unfoldable pub is_digits : Text → Bool
is_digits t = all (λ c. leb b'0' c && leb c b'9') t

unfoldable pub is_stop_word : Text → Bool
unfolding stop_words any
is_stop_word t = any (λ w. text_eq w t) stop_words

-- the filter of `tokenize`; a token is not empty, so that `/^\d+$/` asks for digits alone
unfoldable pub is_token : Text → Bool
unfolding is_digits is_stop_word
is_token t = leb 2 (length t) && not (is_stop_word t) && not (is_digits t)

-- the changes of the text in front of the split
unfoldable pub prepare : Runtime → Text → Text
unfolding split_camel blank_separators
prepare rt text = blank_separators (rt.lower (split_camel text))

unfoldable pub tokenize : Runtime → Text → List Text
unfolding prepare text_pieces is_token filter_by
tokenize rt text = filter_by is_token (text_pieces (prepare rt text))

-- `map.set(key, (map.get(key) ?? 0) + 1)`
abbrev pub increment : Text → Dict ℕ → Dict ℕ
increment key counts = dict_set key (or_else (dict_get key counts) 0 + 1) counts

-- how often each token is there
unfoldable pub count_tokens : List Text → Dict ℕ → Dict ℕ
count_tokens [] counts = counts
count_tokens (t ∷ ts) counts = count_tokens ts (increment t counts)

-- the tokens that are seen for the first time, in their order
unfoldable pub first_tokens : List Text → List Text → List Text
first_tokens seen [] = []
first_tokens seen (t ∷ ts) =
    let known = first_tokens seen ts in
    let new = t ∷ first_tokens (t ∷ seen) ts in if any (λ s. text_eq s t) seen then known else new

-- `df`: in how many documents each token is
unfoldable pub document_counts : List (List Text) → Dict ℕ → Dict ℕ
unfolding count_tokens first_tokens
document_counts [] counts = counts
document_counts (doc ∷ docs) counts =
    document_counts docs (count_tokens (first_tokens [] doc) counts)

abbrev total_length : List (List Text) → ℕ
total_length [] = 0
total_length (doc ∷ docs) = length doc + total_length docs

module _ (rt : Runtime) where
  open rt use {Double, of_nat, ratio, add, sub, mul, div, natural_log, lt}

  pub record Bm25 : Type 0 where
    pub tokenized : List (List Text)
    pub avg_doc_len : Double
    pub idf : Dict Double
    pub k1 : Double
    pub b : Double

  -- `Math.log((N - freq + 0.5) / (freq + 0.5) + 1)`; a token is in at most all documents
  unfoldable pub idf_of : ℕ → ℕ → Double
  idf_of n freq =
      natural_log
        (add (div (add (of_nat (n - freq)) (ratio 1 2)) (add (of_nat freq) (ratio 1 2))) (of_nat 1))

  unfoldable pub compute_idf : List (List Text) → Dict Double
  unfolding idf_of document_counts
  compute_idf docs =
      map (λ (term, freq). (term, idf_of (length docs) freq)) (document_counts docs [])

  abbrev average_length : List (List Text) → Double
  average_length [] = of_nat 1
  average_length (doc ∷ docs) =
      div (of_nat (total_length (doc ∷ docs))) (of_nat (length (doc ∷ docs)))

  unfoldable pub new_bm25 : List Text → Bm25
  unfolding tokenize compute_idf
  new_bm25 docs =
      let tokenized = map (λ d. tokenize rt d) docs in
      record {
        tokenized = tokenized;
        avg_doc_len = average_length tokenized;
        idf = compute_idf tokenized;
        k1 = ratio 3 2;
        b = ratio 3 4;
      }

  -- `freq + k1 * (1 - b + b * (docLen / avgDocLen))`
  unfoldable pub bm25_denominator : Bm25 → ℕ → ℕ → Double
  bm25_denominator bm freq doc_len =
      add (of_nat freq)
        (mul bm.k1 (add (sub (of_nat 1) bm.b) (mul bm.b (div (of_nat doc_len) bm.avg_doc_len))))

  -- what a token of the query adds to the score
  unfoldable pub term_score : Bm25 → ℕ → Dict ℕ → Text → Double
  unfolding bm25_denominator
  term_score bm doc_len tf qt =
      let freq = or_else (dict_get qt tf) 0 in
      mul (or_else (dict_get qt bm.idf) (of_nat 0))
        (div (mul (of_nat freq) (add bm.k1 (of_nat 1))) (bm25_denominator bm freq doc_len))

  unfoldable pub sum_scores : Bm25 → ℕ → Dict ℕ → Double → List Text → Double
  unfolding term_score
  sum_scores bm doc_len tf score [] = score
  sum_scores bm doc_len tf score (qt ∷ qts) =
      sum_scores bm doc_len tf (add score (term_score bm doc_len tf qt)) qts

  unfoldable pub score_doc : Bm25 → List Text → Text → Double
  unfolding sum_scores
  score_doc bm doc query =
      sum_scores bm (length doc) (count_tokens doc []) (of_nat 0) (tokenize rt query)

  -- A document's place and its score.
  pub record ScoredDoc : Type 0 where
    pub index : ℕ
    pub score : Double

  unfoldable pub score_from : Bm25 → Text → ℕ → List (List Text) → List ScoredDoc
  unfolding score_doc
  score_from bm query i [] = []
  score_from bm query i (doc ∷ docs) =
      record { index = i; score = score_doc bm doc query } ∷ score_from bm query (i + 1) docs

  unfoldable pub score_all : Bm25 → Text → List ScoredDoc
  unfolding score_from
  score_all bm query =
      sort_descending lt (λ (d : ScoredDoc). d.score) (score_from bm query 0 bm.tokenized)
