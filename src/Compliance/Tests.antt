-- ===== src/Compliance/Tests.antt =====
-- Texts that packages/shared-core/src/compliance.ts listens to.
use hy_fib_wa_app.Prelude.{
  ◌≡◌, refl, true, false, some, ◌∷◌, [], codes, text_eq, to_lower, is_space,
}
use hy_fib_wa_app.Authorization.{starts_with}
use hy_fib_wa_app.Compliance.Exclusive.{is_opt_out_keyword-opt_in}
use hy_fib_wa_app.Csv.{join}
use hy_fib_wa_app.RateLimit.{listed}
use hy_fib_wa_app.Compliance.{
  typed, selection, opt_out_anywhere, opt_out_whole_message, opt_in_whole_message, opt_in_selection,
  is_word_unit, split_words, words_of, stop_filler, stop_object, spaced, is_boundary, drop_units,
  is_whole, ending, separated, opt_match, join_opt, without_apostrophes, tokenize, strip_stops,
  is_stop_request, is_typed, asks_out, opt_in_keywords, asks_in, is_given, is_opt_out_keyword,
  is_opt_in_keyword,
}

listening : Unit {0}
unfolding opt_out_anywhere opt_out_whole_message opt_in_whole_message opt_in_selection is_word_unit
    split_words words_of stop_filler stop_object spaced is_boundary drop_units is_whole ending
    separated opt_match join_opt without_apostrophes tokenize strip_stops is_stop_request is_typed
    asks_out opt_in_keywords asks_in is_given is_opt_out_keyword is_opt_in_keyword text_eq to_lower
    is_space starts_with join listed
listening = tt

words :
    (tokenize (codes "Don't OPT - out, opt_in optional")
      ≡ codes "dont" ∷ codes "optout" ∷ codes "optin" ∷ codes "optional" ∷ [])
unfolding listening
words = refl

asked :
    (is_opt_out_keyword (some (codes "Can you please STOP sending me messages?")) typed ≡ true)
    × (is_opt_out_keyword (some (codes "can you cancel my order?")) typed ≡ false)
    × (is_opt_out_keyword (some (codes "Cancel")) typed ≡ true)
    × (is_opt_out_keyword (some (codes "Cancel")) selection ≡ false)
    × (is_opt_in_keyword (some (codes "Start!")) typed ≡ true)
    × (is_opt_in_keyword (some (codes "Start!")) selection ≡ false)
unfolding listening
asked = (refl, refl, refl, refl, refl, refl)

is_opt_out_keyword-opt_in_example : is_opt_out_keyword (some (codes "Start!")) typed ≡ false
unfolding listening
is_opt_out_keyword-opt_in_example = is_opt_out_keyword-opt_in (some (codes "Start!")) typed refl
