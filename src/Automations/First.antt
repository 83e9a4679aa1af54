-- ===== src/Automations/First.antt =====
-- Which rule of services/notification-worker/src/autoreply.ts answers a message.
use hy_fib_wa_app.Prelude.Slices.{has_part, has_prefix}
use hy_fib_wa_app.Prelude.{
  ℕ, ◌≡◌, ◌≢◌, ◌↔◌, inl, inr, refl, sym, ap, subst, Bool, true, false, not, ◌&&◌, ◌||◌, List, [],
  ◌∷◌, ◌++◌, Option, none, some, Text, text_eq_iff, to_lower, trim, arith, All, Bool-cases,
}
use hy_fib_wa_app.Automations.{
  keyword_match, MatchType, AutoReplyRule, is_given, or_empty, is_true, needs_keyword, matches_type,
  rule_matches, first_match, match_auto_reply, contains, regex, any_text,
}

-- One text stands within another.
pub record IsWithin (part : Text) (s : Text) : Type 0 where
  pub before : Text
  pub after : Text
  pub split : s ≡ before ++ part ++ after

has_prefix-after : (p s : Text) → has_prefix p s ≡ true → (after : Text) × (s ≡ p ++ after)
unfolding has_prefix
has_prefix-after [] s h = (s, refl)
has_prefix-after (c ∷ p) [] h = cc
has_prefix-after (c ∷ p) (d ∷ s) h =
    let same : c ≡ d = ground arith in
    let (after, e) = has_prefix-after p s (ground arith) in (after, cc)

has_prefix-append : (p after : Text) → has_prefix p (p ++ after) ≡ true
unfolding has_prefix
has_prefix-append [] after = refl
has_prefix-append (c ∷ p) after = ground (arith, has_prefix-append p after)

has_part-IsWithin : (part s : Text) → has_part part s ≡ true → IsWithin part s
unfolding has_part
has_part-IsWithin part [] h =
    let (after, e) = has_prefix-after part [] h in record { before = []; after = after; split = e }
has_part-IsWithin part (c ∷ s) h = elim (Bool-cases (has_prefix part (c ∷ s))) [
  | inl y ↦
      let (after, e) = has_prefix-after part (c ∷ s) y in
      record { before = []; after = after; split = e }
  | inr n ↦
      let rest = has_part-IsWithin part s (ground arith) in
      record { before = c ∷ rest.before; after = rest.after; split = ap (λ t. c ∷ t) rest.split }
]

within-has_part : (part before after : Text) → has_part part (before ++ part ++ after) ≡ true
unfolding has_part
within-has_part part [] after = here (part ++ after) (has_prefix-append part after)
  where
    here : (s : Text) → has_prefix part s ≡ true → has_part part s ≡ true
    here [] h = h
    here (c ∷ s) h = rw h refl
within-has_part part (c ∷ before) after = ground (arith, within-has_part part before after)

given_of : (o : Option Text) → (is_given o ≡ true) ↔ (or_empty o ≢ [])
given_of none = (λ h. cc, λ h. absurd (h refl))
given_of (some []) = (λ h. cc, λ h. absurd (h refl))
given_of (some (c ∷ s)) = (λ h e. cc, λ h. refl)

is_true-some : (o : Option Bool) → (is_true o ≡ true) ↔ (o ≡ some true)
is_true-some none = (λ h. cc, λ h. cc)
is_true-some (some true) = (λ h. refl, λ h. refl)
is_true-some (some false) = (λ h. cc, λ h. cc)

module _ (regex_test : (pattern text : Text) → Option Bool) where
  abbrev pub AppliesBy : MatchType → Text → Text → Type 0
  AppliesBy any_text pattern text = Unit
  AppliesBy keyword_match pattern text = (pattern ≢ []) × (text ≡ to_lower (trim pattern))
  AppliesBy contains pattern text = (pattern ≢ []) × IsWithin (to_lower (trim pattern)) text
  AppliesBy regex pattern text = (pattern ≢ []) × (regex_test pattern text ≡ some true)

  -- A rule that is enabled and whose pattern fits the text.
  pub record Applies (rule : AutoReplyRule) (text : Text) : Type 0 where
    pub enabled : rule.enabled ≡ true
    pub fits : AppliesBy rule.match_type (or_empty rule.keyword) text

  -- The tests of a rule of one type, against what they mean.
  fits_lem :
      (type : MatchType) (keyword : Option Text) (text : Text)
      → ((not (needs_keyword type) || is_given keyword)
            && matches_type regex_test type (or_empty keyword) text
          ≡ true)
        ↔ AppliesBy type (or_empty keyword) text
  unfolding matches_type
  fits_lem any_text keyword text = (λ h. tt, λ h. refl)
  fits_lem keyword_match kw text =
      let given = given_of kw in
      let same = text_eq_iff text (to_lower (trim (or_empty kw))) in
      (
        λ h. (given.0 (ground arith), same.0 (ground arith)),
        λ h. let a = given.1 h.0 in let b = same.1 h.1 in rw (a, b) refl,
      )
  fits_lem contains kw text =
      let given = given_of kw in
      let part = to_lower (trim (or_empty kw)) in
      (
        λ h. (given.0 (ground arith), has_part-IsWithin part text (ground arith)),
        λ h.
            let a = given.1 h.0 in
            let b : has_part part text ≡ true =
              subst (λ t. has_part part t ≡ true) (sym h.1.split)
                (within-has_part part h.1.before h.1.after) in
            rw (a, b) refl,
      )
  fits_lem regex kw text =
      let given = given_of kw in
      let found = is_true-some (regex_test (or_empty kw) text) in
      (
        λ h. (given.0 (ground arith), found.0 (ground arith)),
        λ h. let a = given.1 h.0 in let b = found.1 h.1 in rw (a, b) refl,
      )

  rule_matches-Applies :
      (rule : AutoReplyRule) (text : Text)
      → (rule_matches regex_test rule text ≡ true) ↔ Applies rule text
  unfolding rule_matches
  rule_matches-Applies rule text =
      let fits = fits_lem rule.match_type rule.keyword text in
      (
        λ h. record { enabled = ground arith; fits = fits.0 (ground arith) },
        λ a. let e = fits.1 a.fits in let o = a.enabled in ground arith,
      )

  -- A rule that applies, after rules that do not.
  pub record IsFirst (rules : List AutoReplyRule) (rule : AutoReplyRule) (text : Text)
      : Type 0 where
    pub before : List AutoReplyRule
    pub after : List AutoReplyRule
    pub split : rules ≡ before ++ rule ∷ after
    pub skipped : All (λ r. Applies r text → ⊥) before
    pub applies : Applies rule text

  first_match-IsFirst :
      (rules : List AutoReplyRule) (rule : AutoReplyRule) (text : Text)
      → first_match regex_test text rules ≡ some rule
      → IsFirst rules rule text
  unfolding first_match
  first_match-IsFirst [] rule text h = cc
  first_match-IsFirst (r ∷ rules) rule text h = elim (Bool-cases (rule_matches regex_test r text)) [
    | inl y ↦
        let same : r ≡ rule = cc (rw (y, first_match) at h) in
        record {
          before = [];
          after = rules;
          split = ap (λ q. q ∷ rules) same;
          skipped = tt;
          applies = subst (λ q. Applies q text) same ((rule_matches-Applies r text).0 y);
        }
    | inr n ↦
        let rest = first_match-IsFirst rules rule text (rw (n, first_match) at h) in
        record {
          before = r ∷ rest.before;
          after = rest.after;
          split = ap (λ rs. r ∷ rs) rest.split;
          skipped = (λ a. let y = (rule_matches-Applies r text).1 a in cc, rest.skipped);
          applies = rest.applies;
        }
  ]

  first_match-found :
      (before after : List AutoReplyRule) (rule : AutoReplyRule) (text : Text)
      → All (λ r. Applies r text → ⊥) before
      → Applies rule text
      → first_match regex_test text (before ++ rule ∷ after) ≡ some rule
  unfolding first_match
  first_match-found [] after rule text q a = rw ((rule_matches-Applies rule text).1 a) refl
  first_match-found (r ∷ before) after rule text (q, qs) a =
      elim (Bool-cases (rule_matches regex_test r text)) [
        | inl y ↦ absurd (q ((rule_matches-Applies r text).0 y))
        | inr n ↦ rw n (first_match-found before after rule text qs a)
      ]

  -- A message that is not empty is answered by a rule exactly when this is the first that is
  -- enabled and fits the trimmed text in lower case: any text, the pattern itself, a text that
  -- holds it, or one that the regular expression accepts. A rule that needs a pattern and has none
  -- is passed over.
  pub match_auto_reply-IsFirst :
      (c : ℕ) (s : Text) (rules : List AutoReplyRule) (rule : AutoReplyRule)
      → (match_auto_reply regex_test (some (c ∷ s)) rules ≡ some rule)
        ↔ IsFirst rules rule (to_lower (trim (c ∷ s)))
  unfolding match_auto_reply
  match_auto_reply-IsFirst c s rules rule =
      let text = to_lower (trim (c ∷ s)) in
      (
        first_match-IsFirst rules rule text,
        λ f. rw f.split (first_match-found f.before f.after rule text f.skipped f.applies),
      )
