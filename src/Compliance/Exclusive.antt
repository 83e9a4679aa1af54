-- ===== src/Compliance/Exclusive.antt =====
-- No text asks both of what packages/shared-core/src/compliance.ts listens for.
use hy_fib_wa_app.Prelude.{
  ◌≡◌, refl, sym, subst, Bool, true, false, List, [], ◌∷◌, ◌++◌, Option, Text, codes, text_eq,
  text_eq_iff, any, arith, ◌==◌, inl, inr, ap, ◌⊎◌,
}
use hy_fib_wa_app.Csv.{join}
use hy_fib_wa_app.RateLimit.{listed}
use hy_fib_wa_app.Compliance.{
  KeywordSource, typed, selection, opt_in_keywords, opt_in_whole_message, opt_in_selection,
  opt_out_anywhere, opt_out_whole_message, is_typed, is_stop_request, strip_stops, stop_filler,
  stop_object, words_of, split_words, is_word_unit, asks_in, asks_out, or_blank, tokenize,
  is_opt_in_keyword, is_opt_out_keyword,
}

has_space : Text → Bool
has_space s = any (λ c. c == 32) s

has_space-append : (s t : Text) → has_space (s ++ 32 ∷ t) ≡ true
unfolding has_space
has_space-append [] t = refl
has_space-append (c ∷ s) t = ground (arith, has_space-append s t)

-- Words that are joined to a keyword without a space are that one word, or none.
join-single :
    (words : List Text) (keyword : Text)
    → has_space keyword ≡ false
    → join (codes " ") words ≡ keyword
    → (words ≡ []) ⊎ (words ≡ keyword ∷ [])
unfolding join
join-single [] keyword n e = inl refl
join-single (w ∷ []) keyword n e = inr (ap (λ k. k ∷ []) e)
join-single (v ∷ w ∷ ws) keyword n e =
    let spaced : has_space keyword ≡ true =
      subst (λ k. has_space k ≡ true) e (has_space-append v (join (codes " ") (w ∷ ws))) in
    ground arith

quiet :
    (words : List Text) (source : KeywordSource) (keyword : Text)
    → has_space keyword ≡ false
    → asks_out [] source ≡ false
    → asks_out (keyword ∷ []) source ≡ false
    → join (codes " ") words ≡ keyword
    → asks_out words source ≡ false
quiet words source keyword n none_out one_out e = elim (join-single words keyword n e) [
  | inl h ↦ subst (λ ws. asks_out ws source ≡ false) (sym h) none_out
  | inr h ↦ subst (λ ws. asks_out ws source ≡ false) (sym h) one_out
]

keyword_cases :
    (s : Text) (source : KeywordSource)
    → listed (opt_in_keywords source) s ≡ true
    → (s ≡ codes "start") ⊎ (s ≡ codes "unstop") ⊎ (s ≡ codes "subscribe") ⊎ (s ≡ codes "optin")
unfolding listed opt_in_keywords opt_in_whole_message opt_in_selection
keyword_cases s typed h = ground (
  arith,
  text_eq_iff (codes "start") s,
  text_eq_iff (codes "unstop") s,
  text_eq_iff (codes "subscribe") s,
  text_eq_iff (codes "optin") s,
)
keyword_cases s selection h = ground (
  arith,
  text_eq_iff (codes "unstop") s,
  text_eq_iff (codes "subscribe") s,
  text_eq_iff (codes "optin") s,
)

asks_out-keyword :
    (words : List Text) (source : KeywordSource)
    → asks_in words source ≡ true
    → asks_out words source ≡ false
unfolding asks_in asks_out opt_out_anywhere opt_out_whole_message listed text_eq join is_typed
    is_stop_request strip_stops stop_filler stop_object words_of split_words is_word_unit has_space
asks_out-keyword words typed h = elim (keyword_cases (join (codes " ") words) typed h) [
  | inl e ↦ quiet words typed (codes "start") refl refl refl e
  | inr (inl e) ↦ quiet words typed (codes "unstop") refl refl refl e
  | inr (inr (inl e)) ↦ quiet words typed (codes "subscribe") refl refl refl e
  | inr (inr (inr e)) ↦ quiet words typed (codes "optin") refl refl refl e
]
asks_out-keyword words selection h = elim (keyword_cases (join (codes " ") words) selection h) [
  | inl e ↦ quiet words selection (codes "start") refl refl refl e
  | inr (inl e) ↦ quiet words selection (codes "unstop") refl refl refl e
  | inr (inr (inl e)) ↦ quiet words selection (codes "subscribe") refl refl refl e
  | inr (inr (inr e)) ↦ quiet words selection (codes "optin") refl refl refl e
]

-- An inbound text that is taken for an opt-in is never taken for an opt-out too, typed or tapped.
pub is_opt_out_keyword-opt_in :
    (text : Option Text) (source : KeywordSource)
    → is_opt_in_keyword text source ≡ true
    → is_opt_out_keyword text source ≡ false
unfolding is_opt_in_keyword is_opt_out_keyword
is_opt_out_keyword-opt_in text source h =
    ground (arith, asks_out-keyword (tokenize (or_blank text)) source)
