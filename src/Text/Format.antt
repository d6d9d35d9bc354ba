-- ===== src/Text/Format.antt =====
-- `any__fmt_any` and `any__fmt` of lib/basics.h against the text that a template stands for.
use dumboss.Base.{
  ℕ, ◌+◌, ◌-◌, ◌^◌, ◌≤◌, ◌≡◌, refl, ap, sym, inl, inr, not, Option, none, some, List, [], ◌∷◌, ◌++◌,
  length, length-append, ltb, leb, min, ◌==◌, if◌then◌else◌, Bool-cases, Option-cases, ltb→lt,
  le→leb, arith, Res, ok,
}
use mathlib.Core.Path.{subst}
use mathlib.Core.List.{append_assoc, append-nil}
use dumboss.Base.Int.{ℤ, pos, negsuc}
use dumboss.Text.{
  Bytes, Str, Any, bool, unsigned, signed, char, char_ptr, unknown, magnitude, word_true,
  word_false, out_buffer, fmt_any, fmt_loop, fmt, directive, proceed, str_suffix,
}
use dumboss.Text.Digits.{decimal, signed_decimal}
use dumboss.Text.Put.{put, put-append, put-suc, put-none, copy_text-put}
use dumboss.Text.Print.{fmt_u64-put, fmt_i64-put}

-- The text of a value, if its type is one of the enumerators.
unfoldable pub text_of : Any → Option (List ℕ)
text_of (bool b) = some (if b then word_true else word_false)
text_of (unsigned n) = some (decimal n)
text_of (signed z) = some (signed_decimal z)
text_of (char c) = some (c ∷ [])
text_of (char_ptr none) = some []
text_of (char_ptr (some cs)) = some cs
text_of unknown = none

-- An `s64` is within its range.
abbrev pub IsAny : Any → Type 0
IsAny (signed z) = magnitude z ≤ 2 ^ 63
IsAny _ = Unit

some_inj : (xs ys : List ℕ) → some xs ≡ some ys → xs ≡ ys
some_inj xs ys e = cc

to_text :
    (r : ℤ × Bytes) (out : Str) (m : Bytes) (xs text : List ℕ)
    → r ≡ (pos (length xs), put m out.address out.count xs)
    → some xs ≡ some text
    → r ≡ (pos (length text), put m out.address out.count text)
to_text r out m xs text h e =
    subst (λ t. r ≡ (pos (length t), put m out.address out.count t)) (some_inj xs text e) h

one_char :
    (out : Str) (c : ℕ) (m : Bytes)
    → fmt_any out (char c) m ≡ (pos 1, put m out.address out.count (c ∷ []))
unfolding fmt_any put
one_char out c m = elim (Bool-cases (leb 1 out.count)) [
  | inl fits ↦ rw (fits, put-suc m out.address out.count c [] (ground arith))
  | inr full ↦ let none_left : out.count ≡ 0 = ground arith in rw none_left
]

abbrev pub AllAny : List Any → Type 0
AllAny [] = Unit
AllAny (a ∷ args) = IsAny a × AllAny args

-- `any__fmt_any`, on a value whose type is one of the enumerators and that is within the range of
-- that type, puts the text of the value into the buffer, as much as fits, and returns the length of
-- the whole text.
pub fmt_any-put :
    (out : Str) (a : Any) (m : Bytes) (text : List ℕ)
    → IsAny a
    → text_of a ≡ some text
    → fmt_any out a m ≡ (pos (length text), put m out.address out.count text)
unfolding fmt_any text_of put
fmt_any-put out (bool b) m text ok_any e =
    to_text _ out m _ text (copy_text-put out (if b then word_true else word_false) m) e
fmt_any-put out (unsigned n) m text ok_any e =
    to_text _ out m _ text (ap (λ r. (pos r.0, r.1)) (fmt_u64-put out n m)) e
fmt_any-put out (signed z) m text ok_any e =
    to_text _ out m _ text (ap (λ r. (pos r.0, r.1)) (fmt_i64-put out z m ok_any)) e
fmt_any-put out (char c) m text ok_any e = to_text _ out m _ text (one_char out c m) e
fmt_any-put out (char_ptr none) m text ok_any e = to_text _ out m [] text refl e
fmt_any-put out (char_ptr (some cs)) m text ok_any e =
    to_text _ out m _ text (copy_text-put out cs m) e
fmt_any-put out unknown m text ok_any e = cc

-- A template's text with a piece in front.
abbrev prefix : List ℕ → Option (List ℕ) → Option (List ℕ)
prefix cs none = none
prefix cs (some text) = some (cs ++ text)

abbrev with_text : Option (List ℕ) → Option (List ℕ) → Option (List ℕ)
with_text none o = none
with_text (some cs) o = prefix cs o

abbrev with_arg : (List Any → Option (List ℕ)) → List Any → Option (List ℕ)
with_arg next [] = none
with_arg next (a ∷ args) = with_text (text_of a) (next args)

-- The text that a template and its arguments stand for: `%f` is the next argument, `%%` a percent
-- sign. There is none if another character follows a `%`, or if the arguments do not come out even.
unfoldable pub render : List ℕ → List Any → Option (List ℕ)
render [] [] = some []
render [] (a ∷ args) = none
render (c ∷ []) args = if c == b'%' then none else prefix (c ∷ []) (render [] args)
render (c ∷ d ∷ template) args =
    if not (c == b'%')
    then prefix (c ∷ []) (render (d ∷ template) args)
    else if d == b'%'
    then prefix (b'%' ∷ []) (render template args)
    else if not (d == b'f')
    then none
    else with_arg (render template) args

-- Where the text `xs` is out and `used` arguments are, the call writes the rest of the text, and
-- returns the length of all; or it returns -(1 + the number of arguments used).
abbrev Formats : Str → Bytes → List ℕ → ℕ → List Any → Option (List ℕ) → Res (ℤ × Bytes) → Type 0
Formats out m xs used args none r =
    (k : ℕ) × (m' : Bytes) × (r ≡ ok (negsuc k, m')) × (used ≤ k) × (k ≤ used + length args)
Formats out m xs used args (some text) r =
    r ≡ ok (pos (length (xs ++ text)), put m out.address out.count (xs ++ text))

module _ (out : Str) (m : Bytes) where
  Formats-prefix :
      (xs cs : List ℕ) (used : ℕ) (args : List Any) (o : Option (List ℕ)) (r : Res (ℤ × Bytes))
      → Formats out m (xs ++ cs) used args o r
      → Formats out m xs used args (prefix cs o) r
  Formats-prefix xs cs used args none r h = h
  Formats-prefix xs cs used args (some text) r h = rw (← append_assoc xs cs text) h

  Formats-weaken :
      (xs : List ℕ) (used : ℕ) (a : Any) (args : List Any) (o : Option (List ℕ))
      (r : Res (ℤ × Bytes))
      → Formats out m xs (used + 1) args o r
      → Formats out m xs used (a ∷ args) o r
  Formats-weaken xs used a args none r (k, m', e, lo, hi) = (k, m', e, omega arith, omega arith)
  Formats-weaken xs used a args (some text) r h = h

  -- One character more.
  out_buffer-put :
      (xs : List ℕ) (c : ℕ)
      → out_buffer c out.address (length xs) out.count (put m out.address out.count xs)
        ≡ put m out.address out.count (xs ++ (c ∷ []))
  unfolding put
  out_buffer-put xs c = elim (Bool-cases (ltb (length xs) out.count)) [
    | inl fits ↦
        let room = ltb→lt (length xs) out.count fits in
        let at : min (length xs) out.count ≡ length xs = omega arith in
        rw (fits, put-append m out.address out.count xs (c ∷ []), at)
          (sym (put-suc _ (out.address + length xs) (out.count - length xs) c [] (omega arith)))
    | inr full ↦
        let at : out.count - min (length xs) out.count ≡ 0 = ground arith in
        rw (full, put-append m out.address out.count xs (c ∷ []), at)
          (sym (put-none _ (out.address + min (length xs) out.count) (c ∷ [])))
  ]

  length-snoc : (xs : List ℕ) (c : ℕ) → length xs + 1 ≡ length (xs ++ (c ∷ []))
  length-snoc xs c = omega (arith, length-append xs (c ∷ []))

  -- What is left of the buffer behind the text that is out.
  abbrev pub rest_of : List ℕ → Str
  rest_of xs = record {
    address = out.address + min (length xs) out.count;
    count = out.count - min (length xs) out.count;
  }

  pub str_suffix-ok : (xs : List ℕ) → str_suffix out (min (length xs) out.count) ≡ ok (rest_of xs)
  unfolding str_suffix
  str_suffix-ok xs = rw (le→leb (min (length xs) out.count) out.count (omega arith))

  pub fmt_any-rest :
      (xs cs : List ℕ) (a : Any)
      → IsAny a
      → text_of a ≡ some cs
      → fmt_any (rest_of xs) a (put m out.address out.count xs)
        ≡ (pos (length cs), put m out.address out.count (xs ++ cs))
  fmt_any-rest xs cs a ok_any e =
      rw (put-append m out.address out.count xs cs)
        (fmt_any-put (rest_of xs) a (put m out.address out.count xs) cs ok_any e)

fmt_any-unknown :
    (out : Str) (a : Any) (m : Bytes) → text_of a ≡ none → fmt_any out a m ≡ (negsuc 0, m)
unfolding fmt_any text_of
fmt_any-unknown out (bool b) m e = cc
fmt_any-unknown out (unsigned n) m e = cc
fmt_any-unknown out (signed z) m e = cc
fmt_any-unknown out (char c) m e = cc
fmt_any-unknown out (char_ptr none) m e = cc
fmt_any-unknown out (char_ptr (some cs)) m e = cc
fmt_any-unknown out unknown m e = refl

module _ (out : Str) (m : Bytes) (next : ℕ → ℕ → List Any → Bytes → Res (ℤ × Bytes))
    (tail : List Any → Option (List ℕ))
    (keeps : (xs : List ℕ) (used : ℕ) (args : List Any)
      → AllAny args
      → Formats out m xs used args
          (tail args)
          (next used (length xs) args (put m out.address out.count xs))) where
  -- A directive, if what follows it keeps its promise.
  directive-Formats :
      (xs : List ℕ) (used : ℕ) (args : List Any)
      → AllAny args
      → Formats out m xs used args
          (with_arg tail args)
          (directive out next used (length xs) args (put m out.address out.count xs))
  directive-Formats xs used [] all = (used, _, refl, omega arith, omega arith)
  directive-Formats xs used (a ∷ args) all = elim (Option-cases (text_of a)) [
    | inl e ↦
        rw
          (
            e,
            with_text,
            str_suffix-ok out m xs,
            fmt_any-unknown (rest_of out m xs) a (put m out.address out.count xs) e,
            proceed,
          )
          (used, _, refl, omega arith, omega arith)
    | inr (cs, e) ↦
        rw
          (
            e,
            with_text,
            str_suffix-ok out m xs,
            fmt_any-rest out m xs cs a all.0 e,
            proceed,
            ← length-append xs cs,
          )
          (Formats-prefix out m xs cs used (a ∷ args) (tail args) _ (
            Formats-weaken out m (xs ++ cs) used a args (tail args) _
              (keeps (xs ++ cs) (used + 1) args all.1)))
  ]

fmt_loop-Formats :
    (out : Str) (m : Bytes) (template xs : List ℕ) (used : ℕ) (args : List Any)
    → AllAny args
    → Formats out m xs used args
        (render template args)
        (fmt_loop out template used (length xs) args (put m out.address out.count xs))
unfolding fmt_loop render
fmt_loop-Formats out m [] xs used [] all = rw append-nil
fmt_loop-Formats out m [] xs used (a ∷ args) all = (used, _, refl, omega arith, omega arith)
fmt_loop-Formats out m (c ∷ []) xs used [] all = elim (Bool-cases (c == b'%')) [
  | inl percent ↦ rw percent (used, _, refl, omega arith, omega arith)
  | inr plain ↦ rw (plain, out_buffer-put out m xs c, length-snoc out m xs c)
]
fmt_loop-Formats out m (c ∷ []) xs used (a ∷ args) all = elim (Bool-cases (c == b'%')) [
  | inl percent ↦ rw percent (used, _, refl, omega arith, omega arith)
  | inr plain ↦ rw plain (used, _, refl, omega arith, omega arith)
]
fmt_loop-Formats out m (c ∷ d ∷ template) xs used args all = elim (Bool-cases (c == b'%')) [
  | inr plain ↦
      rw (plain, out_buffer-put out m xs c, length-snoc out m xs c)
        (Formats-prefix out m xs (c ∷ []) used args (render (d ∷ template) args) _
          (fmt_loop-Formats out m (d ∷ template) (xs ++ (c ∷ [])) used args all))
  | inl percent ↦ elim (Bool-cases (d == b'%')) [
    | inl again ↦
        rw (percent, again, out_buffer-put out m xs b'%', length-snoc out m xs b'%')
          (Formats-prefix out m xs (b'%' ∷ []) used args (render template args) _
            (fmt_loop-Formats out m template (xs ++ (b'%' ∷ [])) used args all))
    | inr other ↦ elim (Bool-cases (d == b'f')) [
      | inr unknown_directive ↦
          rw (percent, other, unknown_directive) (used, _, refl, omega arith, omega arith)
      | inl value ↦
          rw (percent, other, value)
            (directive-Formats out m (fmt_loop out template) (render template)
              (λ ys k rest ok_rest. fmt_loop-Formats out m template ys k rest ok_rest) xs used args
              all)
    ]
  ]
]

-- What a call of `any__fmt` returns, and what it leaves in memory.
unfoldable pub Prints : Str → Bytes → List Any → Option (List ℕ) → Res (ℤ × Bytes) → Type 0
Prints out m args none r = (k : ℕ) × (m' : Bytes) × (r ≡ ok (negsuc k, m')) × (k ≤ length args)
Prints out m args (some text) r = r ≡ ok (pos (length text), put m out.address out.count text)

-- `any__fmt`, where every `s64` among the arguments is within its range: on a template that fits its
-- arguments it puts the text that they stand for into the
-- buffer, as much as fits, and returns the length of the whole; on any other it returns -(k + 1),
-- where `k`, the number of arguments used, is at most the number of arguments. It never fails an
-- assertion.
pub fmt-Prints :
    (out : Str) (m : Bytes) (template : List ℕ) (args : List Any)
    → AllAny args
    → Prints out m args (render template args) (fmt out template args m)
unfolding Prints fmt put
fmt-Prints out m template args all =
    go (render template args) (fmt_loop-Formats out m template [] 0 args all)
  where
    go :
        (o : Option (List ℕ))
        → Formats out m [] 0 args o (fmt_loop out template 0 0 args m)
        → Prints out m args o (fmt out template args m)
    go none (k, m', e, lo, hi) = (k, m', e, omega arith)
    go (some text) e = e
