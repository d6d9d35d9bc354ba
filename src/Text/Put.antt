-- ===== src/Text/Put.antt =====
-- What the writers of lib/basics.h leave in memory: a text, cut off at the end of the buffer.
use dumboss.Base.{
  ℕ, zero, suc, ◌+◌, ◌-◌, ◌≤◌, ◌<◌, ◌≡◌, refl, sym, inl, inr, List, [], ◌∷◌, ◌++◌, length, min, ltb,
  leb, ◌&&◌, ◌==◌, if◌then◌else◌, Bool-cases, ltb→lt, arith, some, get_or,
}
use dumboss.Text.{Bytes, write, Str, emit_all, copy_loop, drop, strcpy_s, strlen, copy_text}
use dumboss.Base.Int.{pos}

-- `text` at address `p`, as much of it as fits `room` bytes.
unfoldable pub put : Bytes → ℕ → ℕ → List ℕ → Bytes
put m p room [] = m
put m p zero (c ∷ text) = m
put m p (suc room) (c ∷ text) = put (write m p c) (p + 1) room text

pub put-none : (m : Bytes) (p : ℕ) (text : List ℕ) → put m p 0 text ≡ m
unfolding put
put-none m p [] = refl
put-none m p (c ∷ text) = refl

pub put-append :
    (m : Bytes) (p room : ℕ) (xs ys : List ℕ)
    → put m p room (xs ++ ys)
      ≡ put (put m p room xs) (p + min (length xs) room) (room - min (length xs) room) ys
unfolding put
put-append m p room [] ys =
    let at : p + min 0 room ≡ p = omega arith in
    let left : room - min 0 room ≡ room = omega arith in rw (at, left)
put-append m p zero (x ∷ xs) ys =
    let left : 0 - min (suc (length xs)) 0 ≡ 0 = omega arith in rw left (sym (put-none m _ ys))
put-append m p (suc room) (x ∷ xs) ys =
    let at : p + min (suc (length xs)) (suc room) ≡ p + 1 + min (length xs) room = omega arith in
    let left : suc room - min (suc (length xs)) (suc room) ≡ room - min (length xs) room =
      omega arith in
    rw (at, left) (put-append (write m p x) (p + 1) room xs ys)

-- One character more.
pub put-suc :
    (m : Bytes) (p room c : ℕ) (text : List ℕ)
    → 0 < room
    → put m p room (c ∷ text) ≡ put (write m p c) (p + 1) (room - 1) text
unfolding put
put-suc m p zero c text h = absurd (omega arith)
put-suc m p (suc room) c text h = let left : suc room - 1 ≡ room = omega arith in rw left

-- A byte of the text is at its place, and no byte outside the buffer has changed.
pub put-at :
    (m : Bytes) (p room : ℕ) (text : List ℕ) (q : ℕ)
    → put m p room text q
      ≡ (if leb p q && ltb q (p + min (length text) room) then get_or text (q - p) 0 else m q)
unfolding put
put-at m p room [] q = ground arith
put-at m p zero (c ∷ text) q = ground arith
put-at m p (suc room) (c ∷ text) q = elim (Bool-cases (p == q)) [
  | inl here ↦
      let first : q - p ≡ 0 = ground arith in
      rw (put-at (write m p c) (p + 1) room text q, first) (ground arith)
  | inr other ↦ elim (Bool-cases (ltb p q)) [
    | inl behind ↦
        let later : q - p ≡ suc (q - (p + 1)) = ground arith in
        rw (put-at (write m p c) (p + 1) room text q, later) (ground arith)
    | inr before ↦ rw (put-at (write m p c) (p + 1) room text q) (ground arith)
  ]
]

-- `_out_rev`'s loop puts its characters behind those that are out.
pub emit_all-put :
    (buffer maxlen : ℕ) (text : List ℕ) (idx : ℕ) (m : Bytes)
    → emit_all buffer maxlen text (record { idx = idx; memory = m })
      ≡ record { idx = idx + length text; memory = put m (buffer + idx) (maxlen - idx) text }
unfolding put
emit_all-put buffer maxlen [] idx m = let at : idx + 0 ≡ idx = omega arith in rw at
emit_all-put buffer maxlen (c ∷ text) idx m =
    let count : idx + suc (length text) ≡ idx + 1 + length text = omega arith in
    let at : buffer + (idx + 1) ≡ buffer + idx + 1 = omega arith in
    elim (Bool-cases (ltb idx maxlen)) [
      | inl fits ↦
          let room = ltb→lt idx maxlen fits in
          let left : maxlen - (idx + 1) ≡ maxlen - idx - 1 = omega arith in
          rw (
            fits,
            emit_all-put buffer maxlen text (idx + 1) (write m (buffer + idx) c),
            count,
            at,
            left,
            put-suc m (buffer + idx) (maxlen - idx) c text (omega arith),
          )
      | inr full ↦
          let none_now : maxlen - idx ≡ 0 = ground arith in
          let none_then : maxlen - (idx + 1) ≡ 0 = ground arith in
          rw (
            full,
            emit_all-put buffer maxlen text (idx + 1) m,
            count,
            none_now,
            none_then,
            put-none m (buffer + (idx + 1)) text,
          )
    ]

copy_loop-put :
    (dest : Str) (cs : List ℕ) (written : ℕ) (m : Bytes)
    → written ≤ dest.count
    → copy_loop dest cs written m ≡ (
      written + min (length cs) (dest.count - written),
      put m (dest.address + written) (dest.count - written) cs,
    )
unfolding copy_loop put
copy_loop-put dest [] written m le =
    let at : written + min 0 (dest.count - written) ≡ written = omega arith in rw at
copy_loop-put dest (c ∷ cs) written m le = elim (Bool-cases (ltb written dest.count)) [
  | inl fits ↦
      let room = ltb→lt written dest.count fits in
      let at : dest.address + (written + 1) ≡ dest.address + written + 1 = omega arith in
      let left : dest.count - (written + 1) ≡ dest.count - written - 1 = omega arith in
      let count : written + min (suc (length cs)) (dest.count - written)
          ≡ written + 1 + min (length cs) (dest.count - written - 1) =
        omega arith in
      rw (
        fits,
        copy_loop-put dest cs (written + 1) (write m (dest.address + written) c) (omega arith),
        at,
        left,
        count,
        put-suc m (dest.address + written) (dest.count - written) c cs (omega arith),
      )
  | inr full ↦
      let none : dest.count - written ≡ 0 = ground arith in
      let count : written + min (suc (length cs)) 0 ≡ written = omega arith in
      rw (full, none, count)
]

length-drop : (n : ℕ) (cs : List ℕ) → length (drop n cs) ≡ length cs - n
length-drop zero cs = omega arith
length-drop (suc n) [] = omega arith
length-drop (suc n) (c ∷ cs) = omega (arith, length-drop n cs)

-- `strcpy_s` copies as many characters as fit the destination, from its start, and returns how many
-- that is.
pub strcpy_s-put :
    (dest : Str) (cs : List ℕ) (m : Bytes)
    → strcpy_s dest (some cs) m ≡ (min (length cs) dest.count, put m dest.address dest.count cs)
unfolding strcpy_s
strcpy_s-put dest cs m =
    let at : dest.address + 0 ≡ dest.address = omega arith in
    let left : dest.count - 0 ≡ dest.count = omega arith in
    let count : 0 + min (length cs) dest.count ≡ min (length cs) dest.count = omega arith in
    rw (copy_loop-put dest cs 0 m (omega arith), at, left, count)

pub copy_text-put :
    (out : Str) (cs : List ℕ) (m : Bytes)
    → copy_text out cs m ≡ (pos (length cs), put m out.address out.count cs)
unfolding copy_text strlen
copy_text-put out cs m =
    let whole : min (length cs) out.count + length (drop (min (length cs) out.count) cs)
        ≡ length cs =
      omega (arith, length-drop (min (length cs) out.count) cs) in
    rw (strcpy_s-put out cs m, whole)
