-- ===== src/Compliance.antt =====
-- packages/shared-core/src/compliance.ts: whether an inbound text asks to be left alone, or to be
-- written to again. Changing case is that of the ASCII letters. A missing text is none.
pub mod Exclusive
pub mod Tests
use hy_fib_wa_app.Prelude.{
  ℕ, zero, suc, ◌+◌, ◌-◌, Bool, true, false, not, ◌&&◌, ◌||◌, List, [], ◌∷◌, ◌++◌, map, Option,
  none, some, Text, codes, text_eq, to_lower, is_space, any, all, filter, length, leb, ◌==◌,
  if◌then◌else◌,
}
use hy_fib_wa_app.Csv.{join}
use hy_fib_wa_app.Authorization.{starts_with}
use hy_fib_wa_app.RateLimit.{listed}

pub data KeywordSource : Type 0 where
  typed selection : KeywordSource

pub opt_out_anywhere : List Text
opt_out_anywhere = codes "unsubscribe" ∷ codes "optout" ∷ codes "stopall" ∷ []

pub opt_out_whole_message : List Text
opt_out_whole_message = codes "cancel" ∷ codes "end" ∷ codes "quit" ∷ []

pub opt_in_whole_message : List Text
opt_in_whole_message = codes "start" ∷ codes "unstop" ∷ codes "subscribe" ∷ codes "optin" ∷ []

pub opt_in_selection : List Text
opt_in_selection = codes "unstop" ∷ codes "subscribe" ∷ codes "optin" ∷ []

-- The letters and digits of a lower-cased text; its underscores are gone.
is_word_unit : ℕ → Bool
is_word_unit c =
    (leb b'a' c && leb c b'z') || (leb b'A' c && leb c b'Z') || (leb b'0' c && leb c b'9')

-- The words of a text that single spaces separate, with the word so far; runs of other units split.
pub split_words : Text → Text → List Text
split_words cur [] = cur ∷ []
split_words cur (c ∷ s) =
    let next = cur ∷ split_words [] s in
    let same = split_words (cur ++ c ∷ []) s in if is_word_unit c then same else next

pub words_of : Text → List Text
words_of s = filter (λ w. leb 1 (length w)) (split_words [] s)

pub stop_filler : List Text
stop_filler =
    words_of (codes "i id u you me us my it this can could would like want wanna need to said told")
    ++ (words_of (codes "please pls plz kindly thanks thank thx just now all again already anymore")
        ++ words_of (codes "the these those any more hi hello hey sir madam mam ok okay"))

pub stop_object : List Text
stop_object =
    words_of
      (codes "sending messaging texting contacting receiving spamming messages message msgs msg")
    ++ words_of (
        codes
          "texts text sms whatsapp number updates notifications offers promotions promotional marketing spam")

-- `replace(/_/g, " ")`
pub spaced : Text → Text
spaced s = map (λ c. if c == b'_' then 32 else c) s

is_boundary : Text → Bool
is_boundary [] = true
is_boundary (c ∷ s) = not (is_word_unit c)

drop_units : ℕ → Text → Text
drop_units zero s = s
drop_units (suc n) [] = []
drop_units (suc n) (c ∷ s) = drop_units n s

-- The word at the head of a text, and a word boundary after it.
is_whole : Text → Text → Bool
is_whole word s = starts_with s word && is_boundary (drop_units (length word) s)

-- `(out|in)\b`
ending : Text → Option Text
ending s =
    if is_whole (codes "out") s
    then some (codes "out")
    else if is_whole (codes "in") s
    then some (codes "in")
    else none

-- `[\s-]*(out|in)\b`: what ends the match, and how many units came before it.
separated : Text → Option (Text × ℕ)
separated [] = none
separated (c ∷ s) =
    let later = separated s in
    if is_space c || c == b'-'
    then elim later [ none ↦ none | some (e, n) ↦ some (e, suc n) ]
    else elim (ending (c ∷ s)) [ none ↦ none | some e ↦ some (e, 0) ]

-- `opt[\s-]*(out|in)\b`: the ending, and the units of the match after its first.
opt_match : Text → Option (Text × ℕ)
opt_match s =
    if starts_with s (codes "opt")
    then elim (separated (drop_units 3 s)) [
      | none ↦ none
      | some (e, n) ↦ some (e, 2 + n + length e)
    ]
    else none

-- `replace(/\bopt[\s-]*(out|in)\b/g, "opt$1")`: `skip` units more belong to a match; the flag tells
-- that a word unit comes before.
pub join_opt : (skip : ℕ) → Bool → Text → Text
join_opt skip after [] = []
join_opt (suc skip) after (c ∷ s) = join_opt skip true s
join_opt zero after (c ∷ s) =
    let plain = c ∷ join_opt zero (is_word_unit c) s in
    if after then plain else elim (opt_match (c ∷ s)) [
      | none ↦ plain
      | some (e, n) ↦ codes "opt" ++ (e ++ join_opt n true s)
    ]

-- `replace(/['’]/g, "")`
pub without_apostrophes : Text → Text
without_apostrophes s = filter (λ c. not (c == 39 || c == 0x2019)) s

pub tokenize : Text → List Text
tokenize text = words_of (without_apostrophes (join_opt 0 false (spaced (to_lower text))))

-- The words after the leading "stop"s, and how many those are.
pub strip_stops : List Text → ℕ × List Text
strip_stops [] = (0, [])
strip_stops (w ∷ ws) =
    let (n, rest) = strip_stops ws in
    if text_eq w (codes "stop") then (suc n, rest) else (0, w ∷ ws)

pub is_stop_request : List Text → Bool
is_stop_request words =
    let (stops, rest) = strip_stops (filter (λ w. not (listed stop_filler w)) words) in
    leb 1 stops && all (listed stop_object) rest

pub is_typed : KeywordSource → Bool
is_typed typed = true
is_typed selection = false

pub asks_out : List Text → KeywordSource → Bool
asks_out words source =
    any (listed opt_out_anywhere) words
    || (is_typed source && listed opt_out_whole_message (join (codes " ") words))
    || is_stop_request words

pub opt_in_keywords : KeywordSource → List Text
opt_in_keywords typed = opt_in_whole_message
opt_in_keywords selection = opt_in_selection

pub asks_in : List Text → KeywordSource → Bool
asks_in words source = listed (opt_in_keywords source) (join (codes " ") words)

-- The test for truth of a text that may be missing.
pub is_given : Option Text → Bool
is_given none = false
is_given (some text) = leb 1 (length text)

abbrev pub or_blank : Option Text → Text
or_blank none = []
or_blank (some text) = text

pub is_opt_out_keyword : Option Text → KeywordSource → Bool
is_opt_out_keyword text source = is_given text && asks_out (tokenize (or_blank text)) source

pub is_opt_in_keyword : Option Text → KeywordSource → Bool
is_opt_in_keyword text source = is_given text && asks_in (tokenize (or_blank text)) source
