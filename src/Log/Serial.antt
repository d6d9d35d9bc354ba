-- ===== src/Log/Serial.antt =====
-- What the log of kern/__lib_impl__.c sends to the serial port once a text is in its buffer.
use dumboss.Base.{
  ℕ, suc, ◌+◌, ◌-◌, ◌≤◌, ◌<◌, ◌≡◌, refl, ap, sym, ◌∙◌, inl, inr, List, [], ◌∷◌, ◌++◌, length,
  length-append, ltb, ltb→lt, Bool-cases, if◌then◌else◌, get_or, take, length-take_of_le,
  get_or-take, get_or-append_left, get_or-append_right, arith, ok,
}
use mathlib.Core.Path.{subst}
use dumboss.Text.{Bytes, str_suffix}
use dumboss.Text.Put.{put, put-at, strcpy_s-put}
use dumboss.Log.{buf_size, clipped, newline, clip, serial}

-- A text as it is shown: whole, if it fits the buffer, and else with a note over its last bytes.
unfoldable pub shown : List ℕ → List ℕ
shown text =
    if ltb buf_size (length text) then take (buf_size - length clipped) text ++ clipped else text

-- The port is sent what the bytes are, and the end of the line.
serial-eq :
    (m : Bytes) (p : ℕ) (text : List ℕ)
    → ((j : ℕ) → j < length text → m (p + j) ≡ get_or text j 0)
    → serial m p (length text) ≡ text ++ (newline ∷ [])
unfolding serial
serial-eq m p [] same = refl
serial-eq m p (c ∷ text) same =
    let at : p + 0 ≡ p = omega arith in
    let first : m p ≡ c = ap m (sym at) ∙ same 0 (omega arith) in
    rw first (
      ap (λ rest. c ∷ rest)
        (serial-eq m (p + 1) text (λ j lt.
          let next : p + 1 + j ≡ p + suc j = omega arith in
          ap m next ∙ same (suc j) (omega arith))))

put-inside :
    (m : Bytes) (p room : ℕ) (text : List ℕ) (j : ℕ)
    → j < length text
    → j < room
    → put m p room text (p + j) ≡ get_or text j 0
put-inside m p room text j lt fits =
    let at : p + j - p ≡ j = omega arith in
    rw (put-at m p room text (p + j)) (ground (arith, ap (λ i. get_or text i 0) at))

put-before : (m : Bytes) (p room : ℕ) (text : List ℕ) (q : ℕ) → q < p → put m p room text q ≡ m q
put-before m p room text q lt = rw (put-at m p room text q) (ground arith)

-- A note behind the first `k` bytes of a text.
noted :
    (m : Bytes) (buffer k : ℕ) (text note : List ℕ) (j : ℕ)
    → k ≤ length text
    → j < k + length note
    → put (put m buffer (k + length note) text) (buffer + k) (length note) note (buffer + j)
      ≡ get_or (take k text ++ note) j 0
noted m buffer k text note j le lt =
    let kept = length-take_of_le k text le in
    elim (Bool-cases (ltb j k)) [
      | inl early ↦
          let inside = ltb→lt j k early in
          put-before (put m buffer (k + length note) text) (buffer + k) (length note) note
            (buffer + j) (omega arith)
          ∙ put-inside m buffer (k + length note) text j (omega arith) lt
          ∙ sym (get_or-take k text j 0 inside)
          ∙ sym (get_or-append_left (take k text) note j 0 (omega arith))
      | inr late ↦
          let from : k ≤ j = ground (arith, late) in
          let at : buffer + j ≡ buffer + k + (j - k) = omega arith in
          let there : j ≡ length (take k text) + (j - k) = omega arith in
          ap (put (put m buffer (k + length note) text) (buffer + k) (length note) note) at
          ∙ put-inside (put m buffer (k + length note) text) (buffer + k) (length note) note (j - k)
              (omega arith) (omega arith)
          ∙ sym (get_or-append_right (take k text) note (j - k) 0)
          ∙ sym (ap (λ i. get_or (take k text ++ note) i 0) there)
    ]

noted-serial :
    (m : Bytes) (buffer k : ℕ) (text note : List ℕ)
    → k ≤ length text
    → serial
        (put (put m buffer (k + length note) text) (buffer + k) (length note) note)
        buffer
        (k + length note)
      ≡ take k text ++ note ++ (newline ∷ [])
noted-serial m buffer k text note le =
    let kept = length-take_of_le k text le in
    let full : length (take k text ++ note) ≡ k + length note =
      omega (arith, length-append (take k text) note) in
    let after = put (put m buffer (k + length note) text) (buffer + k) (length note) note in
    subst (λ n. serial after buffer n ≡ take k text ++ note ++ (newline ∷ [])) full
      (serial-eq after buffer (take k text ++ note)
        (λ j lt. noted m buffer k text note j le (omega arith)))

-- What `ext__log` and `ext__log_fmt` do behind the formatting.
pub clip-shown :
    (buffer : ℕ) (m : Bytes) (text : List ℕ)
    → (n : ℕ) × (m' : Bytes) × (clip
          (record { address = buffer; count = buf_size })
          (length text)
          (put m buffer buf_size text)
        ≡ ok (n, m'))
      × (serial m' buffer n ≡ shown text ++ (newline ∷ []))
unfolding clip shown str_suffix
clip-shown buffer m text = elim (Bool-cases (ltb buf_size (length text))) [
  | inr short ↦
      let fits : length text ≤ buf_size = ground (arith, short) in
      rw short (
        length text,
        put m buffer buf_size text,
        refl,
        serial-eq (put m buffer buf_size text) buffer text
            (λ j lt. put-inside m buffer buf_size text j lt (omega arith)),
      )
  | inl long ↦
      let some_more = ltb→lt buf_size (length text) long in
      rw long (
        buf_size,
        put (put m buffer buf_size text) (buffer + 187) 13 clipped,
        ap (λ (r : ℕ × Bytes). ok (buf_size, r.1))
            (strcpy_s-put (record { address = buffer + 187; count = 13 }) clipped
              (put m buffer buf_size text)),
        noted-serial m buffer 187 text clipped (omega arith),
      )
]
