-- ===== src/Configuration/Bandwidth.antt =====
-- Which spellings of a bandwidth cap are the same (quelay-agent/src/config.rs).
use mathlib.Core.List.{reverse, reverse-reverse}
use quelay.Common.{
  ℕ, ◌≡◌, ◌≢◌, refl, sym, ap, ◌∙◌, true, false, Option-cases, inl, inr, List, [], ◌∷◌, ◌++◌, map,
  append-nil, append_assoc, All-append, All-mono, take-append_length, drop-append_length,
}
use quelay.Configuration.{
  F64, is_whitespace, is_alphabetic, to_lower, trim_start, trim, read_value, parse_bandwidth,
}
use quelay.Configuration.Trim.{
  Blank, Letters, NoLetters, Solid, letter_is_solid, blank_is_no_letter, to_lower_idem,
  lower_letter, All-reverse, reverse-nonempty, trim_start-Solid, trim-around, position-append,
}

-- The text of a number: it is not empty, has no letter, and begins and ends with no blank.
pub record IsNumberText (num : List ℕ) : Type 0 where
  pub no_letters : NoLetters num
  pub front : List ℕ
  pub after : List ℕ
  pub begins : num ≡ front ++ after
  pub front_solid : Solid front
  pub front_there : front ≢ []
  pub before : List ℕ
  pub back : List ℕ
  pub stops : num ≡ before ++ back
  pub back_solid : Solid back
  pub back_there : back ≢ []

Letters-Solid : (s : List ℕ) → Letters s → Solid s
Letters-Solid s h =
    All-mono (λ c. is_alphabetic c ≡ true) (λ c. is_whitespace c ≡ false) letter_is_solid s h

trim-Solid : (u : List ℕ) → Solid u → u ≢ [] → trim u ≡ u
unfolding trim
trim-Solid u h n =
    let whole = λ (v : List ℕ) (hv : Solid v) (nv : v ≢ []).
      ap trim_start (sym (append-nil v)) ∙ trim_start-Solid v [] hv nv ∙ append-nil v in
    ap (λ s. reverse (trim_start (reverse s))) (whole u h n)
    ∙ ap reverse
        (whole (reverse u) (All-reverse (λ c. is_whitespace c ≡ false) u h) (reverse-nonempty u n))
    ∙ reverse-reverse u

trim-number : (num b : List ℕ) → IsNumberText num → Blank b → trim (num ++ b) ≡ num
trim-number num b n hb =
    trim-around [] num n.front n.after n.before n.back b (tt) hb n.begins n.front_solid
      n.front_there n.stops n.back_solid n.back_there

trim-setting :
    (w num b u x : List ℕ)
    → Blank w
    → IsNumberText num
    → Solid u
    → u ≢ []
    → Blank x
    → trim (w ++ ((num ++ (b ++ u)) ++ x)) ≡ (num ++ b) ++ u
trim-setting w num b u x hw n hu nu hx =
    trim-around w (num ++ (b ++ u)) n.front (n.after ++ (b ++ u)) (num ++ b) u x hw hx
      (ap (λ s. s ++ (b ++ u)) n.begins ∙ append_assoc n.front n.after (b ++ u)) n.front_solid
      n.front_there (sym (append_assoc num b u)) hu nu
    ∙ sym (append_assoc num b u)

-- The parts that `parse_bandwidth` finds.
pub split_lem :
    (f : F64) (w num b unit x : List ℕ)
    → Blank w
    → IsNumberText num
    → Blank b
    → Letters unit
    → unit ≢ []
    → Blank x
    → parse_bandwidth f (w ++ ((num ++ (b ++ unit)) ++ x)) ≡ read_value f num unit
unfolding parse_bandwidth
split_lem f w num b [] x hw hn hb hu nu hx = absurd (nu refl)
split_lem f w num b (l ∷ unit) x hw hn hb hu nu hx =
    let solid = Letters-Solid (l ∷ unit) hu in
    let silent : NoLetters (num ++ b) =
      All-append (λ c. is_alphabetic c ≡ false) num b hn.no_letters
        (All-mono (λ c. is_whitespace c ≡ true) (λ c. is_alphabetic c ≡ false) blank_is_no_letter b
          hb) in
    let trimmed = trim-setting w num b (l ∷ unit) x hw hn solid nu hx in
    rw (parse_bandwidth, trimmed, position-append is_alphabetic (num ++ b) l unit silent hu.0)
      (rw
        (
          trimmed,
          take-append_length (num ++ b) (l ∷ unit),
          drop-append_length (num ++ b) (l ∷ unit),
          trim-number num b hn hb,
          trim-Solid (l ∷ unit) solid nu,
        )
        refl)

map-to_lower_idem : (s : List ℕ) → map to_lower (map to_lower s) ≡ map to_lower s
map-to_lower_idem [] = refl
map-to_lower_idem (c ∷ s) = cc (to_lower_idem c, map-to_lower_idem s)

Letters-lower : (s : List ℕ) → Letters s → Letters (map to_lower s)
Letters-lower [] h = tt
Letters-lower (c ∷ s) h = (lower_letter c h.0, Letters-lower s h.1)

read_value-lower :
    (f : F64) (num unit : List ℕ) → read_value f num unit ≡ read_value f num (map to_lower unit)
unfolding read_value
read_value-lower f num unit = elim (Option-cases (f.parse num)) [
  | inl n ↦ rw (read_value, n) refl
  | inr (v, s) ↦ rw (read_value, s, map-to_lower_idem unit) refl
]

-- Blanks before, between and behind the number and the unit do not matter, nor does the case of the
-- unit: the setting is read like its shortest spelling, in lower case.
pub parse_bandwidth-spelling :
    (f : F64) (w num b unit x : List ℕ)
    → Blank w
    → IsNumberText num
    → Blank b
    → Letters unit
    → unit ≢ []
    → Blank x
    → parse_bandwidth f (w ++ ((num ++ (b ++ unit)) ++ x))
      ≡ parse_bandwidth f (num ++ map to_lower unit)
parse_bandwidth-spelling f w num b [] x hw hn hb hu nu hx = absurd (nu refl)
parse_bandwidth-spelling f w num b (l ∷ unit) x hw hn hb hu nu hx =
    let lower = map to_lower (l ∷ unit) in
    split_lem f w num b (l ∷ unit) x hw hn hb hu nu hx
    ∙ read_value-lower f num (l ∷ unit)
    ∙ sym (split_lem f [] num [] lower [] (tt) hn (tt) (Letters-lower (l ∷ unit) hu) (λ e. cc) (tt))
    ∙ ap (parse_bandwidth f) (append-nil (num ++ lower))
