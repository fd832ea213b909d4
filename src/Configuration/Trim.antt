-- ===== src/Configuration/Trim.antt =====
-- What `str::trim` does in quelay-agent/src/config.rs.
use mathlib.Core.List.{reverse, reverse-append, reverse-reverse, reverse-cons}
use quelay.Common.{
  ℕ, ◌≡◌, ◌≢◌, refl, sym, ap, ◌∙◌, subst, Bool, true, false, some, List, [], ◌∷◌, ◌++◌, length,
  append-nil, append_assoc, arith, All, All-append, position,
}
use quelay.Configuration.{is_whitespace, is_alphabetic, to_lower, trim_start, trim}

abbrev pub Blank : List ℕ → Type 0
Blank s = All (λ c. is_whitespace c ≡ true) s

abbrev pub Letters : List ℕ → Type 0
Letters s = All (λ c. is_alphabetic c ≡ true) s

abbrev pub NoLetters : List ℕ → Type 0
NoLetters s = All (λ c. is_alphabetic c ≡ false) s

abbrev pub Solid : List ℕ → Type 0
Solid s = All (λ c. is_whitespace c ≡ false) s

pub letter_is_solid : (c : ℕ) → is_alphabetic c ≡ true → is_whitespace c ≡ false
unfolding is_alphabetic is_whitespace
letter_is_solid c h = ground arith

pub blank_is_no_letter : (c : ℕ) → is_whitespace c ≡ true → is_alphabetic c ≡ false
unfolding is_alphabetic is_whitespace
blank_is_no_letter c h = ground arith

pub to_lower_idem : (c : ℕ) → to_lower (to_lower c) ≡ to_lower c
unfolding to_lower
to_lower_idem c = ground arith

pub lower_letter : (c : ℕ) → is_alphabetic c ≡ true → is_alphabetic (to_lower c) ≡ true
unfolding to_lower is_alphabetic
lower_letter c h = ground arith

pub All-reverse : (P : ℕ → Type 0) (s : List ℕ) → All P s → All P (reverse s)
All-reverse P [] h = tt
All-reverse P (c ∷ s) h =
    subst (All P) (sym (reverse-cons c s))
      (All-append P (reverse s) (c ∷ []) (All-reverse P s h.1) (h.0, tt))

pub reverse-nonempty : (s : List ℕ) → s ≢ [] → reverse s ≢ []
reverse-nonempty s h e = h (sym (reverse-reverse s) ∙ ap reverse e)

trim_start-Blank : (w s : List ℕ) → Blank w → trim_start (w ++ s) ≡ trim_start s
unfolding trim_start
trim_start-Blank [] s h = refl
trim_start-Blank (c ∷ w) s h = rw h.0 (trim_start-Blank w s h.1)

pub trim_start-Solid : (v s : List ℕ) → Solid v → v ≢ [] → trim_start (v ++ s) ≡ v ++ s
unfolding trim_start
trim_start-Solid [] s h n = absurd (n refl)
trim_start-Solid (c ∷ v) s h n = rw h.0 refl

trim_start-between :
    (w s v m x : List ℕ)
    → Blank w
    → s ≡ v ++ m
    → Solid v
    → v ≢ []
    → trim_start (w ++ (s ++ x)) ≡ s ++ x
trim_start-between w s v m x hw e hv nv =
    let whole : s ++ x ≡ v ++ (m ++ x) = ap (λ t. t ++ x) e ∙ append_assoc v m x in
    trim_start-Blank w (s ++ x) hw
    ∙ ap trim_start whole
    ∙ trim_start-Solid v (m ++ x) hv nv
    ∙ sym whole

-- `trim` takes the blanks around a text that begins and ends solid, and nothing else.
pub trim-around :
    (w s v m m' u x : List ℕ)
    → Blank w
    → Blank x
    → s ≡ v ++ m
    → Solid v
    → v ≢ []
    → s ≡ m' ++ u
    → Solid u
    → u ≢ []
    → trim (w ++ (s ++ x)) ≡ s
unfolding trim
trim-around w s v m m' u x hw hx e hv nv e' hu nu =
    ap (λ t. reverse (trim_start (reverse t))) (trim_start-between w s v m x hw e hv nv)
    ∙ ap (λ t. reverse (trim_start t))
        (reverse-append s x ∙ ap (λ t. reverse x ++ t) (sym (append-nil (reverse s))))
    ∙ ap reverse (
        trim_start-between (reverse x) (reverse s) (reverse u) (reverse m') []
          (All-reverse (λ c. is_whitespace c ≡ true) x hx) (ap reverse e' ∙ reverse-append m' u)
          (All-reverse (λ c. is_whitespace c ≡ false) u hu) (reverse-nonempty u nu))
    ∙ ap reverse (append-nil (reverse s))
    ∙ reverse-reverse s

pub position-append :
    (p : ℕ → Bool) (xs : List ℕ) (y : ℕ) (ys : List ℕ)
    → All (λ c. p c ≡ false) xs
    → p y ≡ true
    → position p (xs ++ y ∷ ys) ≡ some (length xs)
unfolding position
position-append p [] y ys h e = rw e refl
position-append p (x ∷ xs) y ys h e = rw (h.0, position-append p xs y ys h.1 e) refl
