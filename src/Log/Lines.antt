-- ===== src/Log/Lines.antt =====
-- The line that `ext__log` and `ext__log_fmt` send to the serial port.
use dumboss.Base.{
  ℕ, ◌≤◌, ◌<◌, ◌≡◌, refl, false, List, [], ◌∷◌, ◌++◌, Option, none, some, length, length-append,
  min, leb, arith, Res, ok, panic,
}
use mathlib.Core.Path.{subst}
use mathlib.Core.List.{append_assoc, append-nil}
use dumboss.Base.Int.{pos}
use dumboss.Text.{Bytes, Str, CString, Any, char_ptr, unsigned, str_suffix, fmt}
use dumboss.Text.Digits.{decimal}
use dumboss.Text.Put.{put, put-append}
use dumboss.Text.Format.{
  AllAny, text_of, render, Prints, fmt-Prints, rest_of, str_suffix-ok, fmt_any-rest,
}
use dumboss.Log.{
  Sloc, buf_size, prefix_template, newline, Ending, sent, calls_itself, write_prefix_to_buffer,
  finish, log_args, log, log_fmt,
}
use dumboss.Log.Serial.{shown, clip-shown}

abbrev file_text : CString → List ℕ
file_text none = []
file_text (some cs) = cs

-- "[file:line]: "
abbrev pub prefix_text : Sloc → List ℕ
prefix_text loc =
    b'[' ∷ file_text loc.file ++ (b':' ∷ decimal loc.line ++ (b']' ∷ b':' ∷ b' ' ∷ []))

render-prefix :
    (loc : Sloc)
    → render prefix_template (char_ptr loc.file ∷ unsigned loc.line ∷ []) ≡ some (prefix_text loc)
unfolding render text_of
render-prefix loc = go loc.file
  where
    go :
        (file : CString)
        → render prefix_template (char_ptr file ∷ unsigned loc.line ∷ [])
          ≡ some (prefix_text (record { file = file; line = loc.line }))
    go none = refl
    go (some cs) = refl

write_prefix_to_buffer-put :
    (out : Str) (loc : Sloc) (m : Bytes)
    → write_prefix_to_buffer out loc m
      ≡ ok (pos (length (prefix_text loc)), put m out.address out.count (prefix_text loc))
unfolding write_prefix_to_buffer Prints
write_prefix_to_buffer-put out loc m =
    subst
      (λ o.
        Prints out m (char_ptr loc.file ∷ unsigned loc.line ∷ []) o
          (fmt out prefix_template (char_ptr loc.file ∷ unsigned loc.line ∷ []) m))
      (render-prefix loc)
      (fmt-Prints out m prefix_template (char_ptr loc.file ∷ unsigned loc.line ∷ []) (tt, (tt, tt)))

module _ (buffer : ℕ) (loc : Sloc) where
  -- How a call of `ext__log_fmt` ends for a template that stands for a text, and for one that does
  -- not.
  abbrev pub Ends : Option (List ℕ) → Res (Ending × Bytes) → Type 0
  Ends none r = (m' : Bytes) × (r ≡ ok (calls_itself, m'))
  Ends (some text) r =
      (m' : Bytes) × (r ≡ ok (sent (shown (prefix_text loc ++ text) ++ (newline ∷ [])), m'))

  abbrev out : Str
  out = record { address = buffer; count = buf_size }

  sends :
      (m : Bytes) (text : List ℕ)
      → (m' : Bytes) × (finish out (length text) (put m buffer buf_size text)
          ≡ ok (sent (shown text ++ (newline ∷ [])), m'))
  sends m text = let (n, m', clips, line) = clip-shown buffer m text in rw (clips, line) (m', refl)

  formatted :
      (m : Bytes) (template : List ℕ) (args : List Any)
      → AllAny args
      → length (prefix_text loc) ≤ buf_size
      → (o : Option (List ℕ)) → render template args ≡ o
      → Ends o (log_fmt false buffer loc template args m)
  unfolding log_fmt Prints
  formatted m template args all fits none e =
      let short : min (length (prefix_text loc)) buf_size ≡ length (prefix_text loc) =
        omega arith in
      let suffix = rw short at (str_suffix-ok out m (prefix_text loc)) in
      let (k, m', printed, le) =
        rw (e, short) at
          (fmt-Prints (rest_of out m (prefix_text loc)) (put m buffer buf_size (prefix_text loc))
            template args all) in
      rw (write_prefix_to_buffer-put out loc m, suffix, printed) (m', refl)
  formatted m template args all fits (some text) e =
      let short : min (length (prefix_text loc)) buf_size ≡ length (prefix_text loc) =
        omega arith in
      let suffix = rw short at (str_suffix-ok out m (prefix_text loc)) in
      let printed =
        rw (e, short) at
          (fmt-Prints (rest_of out m (prefix_text loc)) (put m buffer buf_size (prefix_text loc))
            template args all) in
      let both = rw short at (put-append m buffer buf_size (prefix_text loc) text) in
      rw
        (
          write_prefix_to_buffer-put out loc m,
          suffix,
          printed,
          ← both,
          ← length-append (prefix_text loc) text,
        )
        (sends m (prefix_text loc ++ text))

  -- `ext__log_fmt`, with the serial port in use, where the place, which is the file's name and the
  -- line, is at most 200 bytes and every `s64` is within its range. If the template fits its arguments, the port is sent the place and
  -- the text, cut off with a note if they are more than 200 bytes, and a newline. If it does not,
  -- `ext__log_fmt` calls itself with the mutex still locked.
  pub log_fmt-Ends :
      (m : Bytes) (template : List ℕ) (args : List Any)
      → AllAny args
      → length (prefix_text loc) ≤ buf_size
      → Ends (render template args) (log_fmt false buffer loc template args m)
  log_fmt-Ends m template args all fits =
      formatted m template args all fits (render template args) refl

  -- Where the place alone does not fit the buffer, `ext__log_fmt` fails the assertion of
  -- `Str__suffix`.
  pub log_fmt-panic :
      (m : Bytes) (template : List ℕ) (args : List Any)
      → buf_size < length (prefix_text loc)
      → log_fmt false buffer loc template args m ≡ panic
  unfolding log_fmt str_suffix
  log_fmt-panic m template args long =
      let out_of_room : leb (length (prefix_text loc)) buf_size ≡ false = ground arith in
      rw (write_prefix_to_buffer-put out loc m, out_of_room)

-- The texts of all arguments, if each has one.
abbrev joined : Option (List ℕ) → Option (List ℕ) → Option (List ℕ)
joined none o = none
joined (some cs) none = none
joined (some cs) (some text) = some (cs ++ text)

unfoldable pub text_all : List Any → Option (List ℕ)
text_all [] = some []
text_all (a ∷ args) = joined (text_of a) (text_all args)

-- Either no text, or that of the first argument and that of the others.
text_all-cases :
    (a : Any) (args : List Any) (text : List ℕ)
    → text_all (a ∷ args) ≡ some text
    → (cs rest : List ℕ) × (text_of a ≡ some cs) × (text_all args ≡ some rest) × (cs ++ rest ≡ text)
unfolding text_all
text_all-cases a args text e = go (text_of a) (text_all args) refl refl e
  where
    go :
        (o r : Option (List ℕ))
        → text_of a ≡ o
        → text_all args ≡ r
        → joined o r ≡ some text
        → (cs rest : List ℕ) × (text_of a ≡ some cs)
          × (text_all args ≡ some rest)
          × (cs ++ rest ≡ text)
    go none r f g j = cc
    go (some cs) none f g j = cc
    go (some cs) (some rest) f g j = (cs, rest, f, g, cc)

module _ (buffer : ℕ) (m : Bytes) where
  abbrev whole : Str
  whole = record { address = buffer; count = buf_size }

  log_args-put :
      (args : List Any) (xs text : List ℕ)
      → AllAny args
      → text_all args ≡ some text
      → log_args whole (length xs) args (put m buffer buf_size xs)
        ≡ ok (length (xs ++ text), put m buffer buf_size (xs ++ text))
  unfolding log_args text_all
  log_args-put [] xs text all e =
      let none_left : [] ≡ text = cc in rw (← none_left, append-nil) refl
  log_args-put (a ∷ args) xs text all e =
      let (cs, rest, first, others, split) = text_all-cases a args text e in
      rw
        (
          str_suffix-ok whole m xs,
          fmt_any-rest whole m xs cs a all.0 first,
          ← length-append xs cs,
          ← split,
          ← append_assoc xs cs rest,
        )
        (log_args-put args (xs ++ cs) rest all.1 others)

  -- `ext__log`, with the serial port in use, where every argument has a text and every `s64` is within
  -- its range: the port is sent the place and the texts, cut off with a note if they are more than 200
  -- bytes, and a newline.
  pub log-sent :
      (loc : Sloc) (args : List Any) (text : List ℕ)
      → AllAny args
      → text_all args ≡ some text
      → (m' : Bytes) × (log false buffer loc args m
          ≡ ok (sent (shown (prefix_text loc ++ text) ++ (newline ∷ [])), m'))
  unfolding log
  log-sent loc args text all e =
      rw (write_prefix_to_buffer-put whole loc m, log_args-put args (prefix_text loc) text all e)
        (sends buffer loc m (prefix_text loc ++ text))
