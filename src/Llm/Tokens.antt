-- ===== src/Llm/Tokens.antt =====
-- src/Tokenizer.hpp, `WhitespaceTokenizer`: a text, given by its bytes, is counted by its words.
use mathlib.Core.List.{append-nil}
use neuriplo_kserve_runtime.Prelude.{
  ℕ, zero, suc, ◌≡◌, refl, ap, ◌∙◌, Bool, true, false, ◌||◌, List, [], ◌∷◌, ◌++◌, if◌then◌else◌,
  ◌==◌, ◌+◌, length, All, ◌⊎◌, sym, arith, Bool-cases, inl, inr,
}

-- A blank, a tab, a line feed or a carriage return.
unfoldable pub is_blank : ℕ → Bool
is_blank c = c == 32 || c == 9 || c == 10 || c == 13

unfoldable pub count_from : Bool → List ℕ → ℕ
count_from in_word [] = 0
count_from in_word (c ∷ cs) =
    if is_blank c
    then count_from false cs
    else if in_word
    then count_from true cs
    else suc (count_from true cs)

unfoldable pub count_tokens : List ℕ → ℕ
unfolding count_from
count_tokens text = count_from false text

unfoldable pub ids_from : ℕ → ℕ → List ℕ
ids_from i zero = []
ids_from i (suc n) = i ∷ ids_from (suc i) n

unfoldable pub encode : List ℕ → List ℕ
unfolding count_tokens ids_from
encode text = ids_from 0 (count_tokens text)

abbrev pub is_empty : List ℕ → Bool
is_empty [] = true
is_empty (c ∷ cs) = false

-- A space, a tab, a line feed or a carriage return, by their codes.
abbrev pub Blank : ℕ → Type 0
Blank c = (c ≡ 32) ⊎ ((c ≡ 9) ⊎ ((c ≡ 10) ⊎ (c ≡ 13)))

Blank-is_blank : (c : ℕ) → Blank c → is_blank c ≡ true
unfolding is_blank
Blank-is_blank c h = ground arith

is_blank-Blank : (c : ℕ) → is_blank c ≡ true → Blank c
unfolding is_blank
is_blank-Blank c h = ground arith

byte_solid : (c : ℕ) → is_blank c ≡ false → ¬ Blank c
byte_solid c h b = let e = Blank-is_blank c b in cc

solid_byte : (c : ℕ) → ¬ Blank c → is_blank c ≡ false
solid_byte c h = elim (Bool-cases (is_blank c)) [
  | inl b ↦ elim (h (is_blank-Blank c b)) [ ]
  | inr n ↦ n
]

-- A word, which is not empty, and the blanks behind it, of which there is one at least.
pub record Item : Type 0 where
  pub first : ℕ
  pub rest : List ℕ
  pub blank : ℕ
  pub blanks : List ℕ

-- The words with their blanks, and `last` behind them.
pub render : List Item → List ℕ → List ℕ
render [] last = last
render (w ∷ ws) last = (w.first ∷ w.rest) ++ ((w.blank ∷ w.blanks) ++ render ws last)

abbrev pub IsItem : Item → Type 0
IsItem w = All (λ c. ¬ Blank c) (w.first ∷ w.rest) × All (λ c. Blank c) (w.blank ∷ w.blanks)

inside :
    (cs more : List ℕ)
    → All (λ c. ¬ Blank c) cs
    → count_from true (cs ++ more) ≡ count_from true more
unfolding count_from
inside [] more h = refl
inside (c ∷ cs) more (h, hs) = rw (solid_byte c h) (inside cs more hs)

between :
    (cs more : List ℕ)
    → All (λ c. Blank c) cs
    → count_from false (cs ++ more) ≡ count_from false more
unfolding count_from
between [] more h = refl
between (c ∷ cs) more (h, hs) = rw (Blank-is_blank c h) (between cs more hs)

one_word :
    (w : Item) (more : List ℕ)
    → IsItem w
    → count_from false ((w.first ∷ w.rest) ++ ((w.blank ∷ w.blanks) ++ more))
      ≡ suc (count_from false more)
unfolding count_from
one_word w more ((f, fs), (b, bs)) = rw (solid_byte w.first f) (
    ap suc (
      inside w.rest ((w.blank ∷ w.blanks) ++ more) fs
      ∙ rw (Blank-is_blank w.blank b) (between w.blanks more bs)))

-- The last word, which is empty or stands at the end of the text.
last_word :
    (last : List ℕ)
    → All (λ c. ¬ Blank c) last
    → count_from false last ≡ (if is_empty last then 0 else 1)
unfolding count_from
last_word [] h = refl
last_word (c ∷ cs) (h, hs) =
    rw (solid_byte c h) (ap suc (ap (count_from true) (sym (append-nil cs)) ∙ inside cs [] hs))

all_words :
    (ws : List Item) (last : List ℕ)
    → All IsItem ws
    → All (λ c. ¬ Blank c) last
    → count_from false (render ws last) ≡ length ws + (if is_empty last then 0 else 1)
unfolding render
all_words [] last h l = last_word last l ∙ omega arith
all_words (w ∷ ws) last (h, hs) l =
    one_word w (render ws last) h ∙ (ap suc (all_words ws last hs l) ∙ omega arith)

-- A text by its words: blanks in front, words with blanks behind them, and a last word without,
-- which may be empty.
pub record Words (text : List ℕ) : Type 0 where
  pub leading : List ℕ
  pub words : List Item
  pub last : List ℕ
  pub blanks : All (λ c. Blank c) leading
  pub items : All IsItem words
  pub solid : All (λ c. ¬ Blank c) last
  pub made_of : text ≡ leading ++ render words last

Blank-Words : (c : ℕ) (text : List ℕ) → Blank c → Words text → Words (c ∷ text)
Blank-Words c text b ws = record {
  leading = c ∷ ws.leading;
  words = ws.words;
  last = ws.last;
  blanks = (b, ws.blanks);
  items = ws.items;
  solid = ws.solid;
  made_of = ap (λ t. c ∷ t) ws.made_of;
}

-- One more byte of a word: of a new one in front of the blanks, or of the first one.
solid-Words :
    (c : ℕ) (text leading : List ℕ) (words : List Item) (last : List ℕ)
    → ¬ Blank c
    → All (λ c. Blank c) leading
    → All IsItem words
    → All (λ c. ¬ Blank c) last
    → text ≡ leading ++ render words last
    → Words (c ∷ text)
unfolding render
solid-Words c text (b ∷ bs) words last n (h, hs) items solid e = record {
  leading = [];
  words = record { first = c; rest = []; blank = b; blanks = bs } ∷ words;
  last = last;
  blanks = tt;
  items = (((n, tt), (h, hs)), items);
  solid = solid;
  made_of = ap (λ t. c ∷ t) e;
}
solid-Words c text [] [] last n h items solid e = record {
  leading = [];
  words = [];
  last = c ∷ last;
  blanks = tt;
  items = tt;
  solid = (n, solid);
  made_of = ap (λ t. c ∷ t) e;
}
solid-Words c text [] (w ∷ ws) last n h ((solid_word, behind), items) solid e = record {
  leading = [];
  words = record { first = c; rest = w.first ∷ w.rest; blank = w.blank; blanks = w.blanks } ∷ ws;
  last = last;
  blanks = tt;
  items = (((n, solid_word), behind), items);
  solid = solid;
  made_of = ap (λ t. c ∷ t) e;
}

text-Words : (text : List ℕ) → Words text
unfolding render
text-Words [] = record {
  leading = [];
  words = [];
  last = [];
  blanks = tt;
  items = tt;
  solid = tt;
  made_of = refl;
}
text-Words (c ∷ cs) =
    let ws = text-Words cs in
    elim (Bool-cases (is_blank c)) [
      | inl b ↦ Blank-Words c cs (is_blank-Blank c b) ws
      | inr n ↦
          solid-Words c cs ws.leading ws.words ws.last (byte_solid c n) ws.blanks ws.items ws.solid
            ws.made_of
    ]

-- Every text falls into words, each without a blank and followed by one blank or more, behind any
-- number of leading blanks, and a last word, which may be empty and has no blank behind it; and it
-- has as many tokens as there are such words, the last one included where it is not empty.
pub count_tokens-Words :
    (text : List ℕ)
    → (ws : Words text) × (count_tokens text
        ≡ length ws.words + (if is_empty ws.last then 0 else 1))
unfolding count_tokens
count_tokens-Words text =
    let ws = text-Words text in
    (
      ws,
      ap (count_from false) ws.made_of
          ∙ (between ws.leading (render ws.words ws.last) ws.blanks
              ∙ all_words ws.words ws.last ws.items ws.solid),
    )
