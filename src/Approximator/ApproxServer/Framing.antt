-- ===== src/Approximator/ApproxServer/Framing.antt =====
-- The search for CRLF in client_buffers, and the map itself.
use computer_networks_course.Prelude.{
  ℕ, ◌<◌, ◌≡◌, refl, ap, inl, inr, false, ◌&&◌, Option, none, some, List, [], ◌∷◌, ◌++◌, arith,
  ◌==◌, if◌then◌else◌, Bool-cases, length, length-append, Text,
}
use computer_networks_course.Approximator.Constants.{crlf}

unfoldable pub prepend : ℕ → Option (Text × Text) → Option (Text × Text)
prepend c none = none
prepend c (some (line, rest)) = some (c ∷ line, rest)

-- `find(crlf)`, `substr(0, crlf_pos)` and `erase(0, crlf_pos + 2)`: the first line, and what is behind
-- its CRLF; `none` is npos.
unfoldable pub next_line : Text → Option (Text × Text)
next_line [] = none
next_line (c ∷ []) = none
next_line (c ∷ e ∷ s) =
    let later = prepend c (next_line (e ∷ s)) in
    if c == b'\r' && e == b'\n' then some ([], s) else later

-- `client_buffers[fd]`
unfoldable pub buffer_of : ℕ → List (ℕ × Text) → Text
buffer_of fd [] = []
buffer_of fd ((k, b) ∷ bs) = if k == fd then b else buffer_of fd bs

-- `client_buffers[fd] = b`
unfoldable pub put_buffer : ℕ → Text → List (ℕ × Text) → List (ℕ × Text)
put_buffer fd b [] = (fd, b) ∷ []
put_buffer fd b ((k, a) ∷ bs) = if k == fd then (k, b) ∷ bs else (k, a) ∷ put_buffer fd b bs

-- `client_buffers.erase(fd)`
unfoldable pub erase_buffer : ℕ → List (ℕ × Text) → List (ℕ × Text)
erase_buffer fd [] = []
erase_buffer fd ((k, b) ∷ bs) = if k == fd then bs else (k, b) ∷ erase_buffer fd bs

-- No CRLF stands in the text.
abbrev pub NoCrlf : Text → Type 0
NoCrlf s = next_line s ≡ none

prepend-some :
    (c : ℕ) (o : Option (Text × Text)) (line rest : Text)
    → prepend c o ≡ some (line, rest)
    → (l : Text) × (line ≡ c ∷ l) × (o ≡ some (l, rest))
unfolding prepend
prepend-some c none line rest h = cc
prepend-some c (some (l, r)) line rest h = (l, cc h, cc h)

-- A line is cut off at a CRLF, and nothing is lost but that.
pub next_line_sound :
    (s line rest : Text) → next_line s ≡ some (line, rest) → s ≡ line ++ (crlf ++ rest)
unfolding next_line
next_line_sound [] line rest h = cc
next_line_sound (c ∷ []) line rest h = cc
next_line_sound (c ∷ e ∷ s) line rest h = elim (Bool-cases (c == b'\r' && e == b'\n')) [
  | inl here ↦
      let got : some ([], s) ≡ some (line, rest) = rw here at h in
      let el : [] ≡ line = cc got in
      let er : s ≡ rest = cc got in
      let ec : c ≡ b'\r' = ground arith in
      let ee : e ≡ b'\n' = ground arith in rw (← el, ← er, ec, ee) refl
  | inr not_here ↦
      let got : prepend c (next_line (e ∷ s)) ≡ some (line, rest) = rw not_here at h in
      let (l, el, h') = prepend-some c (next_line (e ∷ s)) line rest got in
      rw el (ap (◌∷◌ c) (next_line_sound (e ∷ s) l rest h'))
]

-- Each line makes the buffer shorter.
pub length-next_line :
    (s line rest : Text) → next_line s ≡ some (line, rest) → length rest < length s
length-next_line s line rest h =
    omega (arith, ap length (next_line_sound s line rest h), length-append line (crlf ++ rest))

-- A line is cut off at the first CRLF: it holds none, not even one that its end would make with the
-- carriage return.
pub next_line_first :
    (s line rest : Text) → next_line s ≡ some (line, rest) → NoCrlf (line ++ b'\r' ∷ [])
unfolding next_line prepend
next_line_first [] line rest h = cc
next_line_first (c ∷ []) line rest h = cc
next_line_first (c ∷ e ∷ s) line rest h = elim (Bool-cases (c == b'\r' && e == b'\n')) [
  | inl here ↦
      let got : some ([], s) ≡ some (line, rest) = rw here at h in
      let el : [] ≡ line = cc got in rw (← el) refl
  | inr not_here ↦
      let got : prepend c (next_line (e ∷ s)) ≡ some (line, rest) = rw not_here at h in
      let (l, el, h') = prepend-some c (next_line (e ∷ s)) line rest got in
      rw el
        (behind l (next_line_first (e ∷ s) l rest h') (next_line_sound (e ∷ s) l rest h') not_here)
]
  where
    behind :
        (l : Text)
        → NoCrlf (l ++ b'\r' ∷ [])
        → e ∷ s ≡ l ++ (crlf ++ rest)
        → (c == b'\r' && e == b'\n') ≡ false
        → NoCrlf (c ∷ l ++ b'\r' ∷ [])
    behind [] h es n = ground arith
    behind (x ∷ l) h es n =
        let ex : e ≡ x = cc es in
        let no : (c == b'\r' && x == b'\n') ≡ false = rw (← ex) n in rw (no, h)
