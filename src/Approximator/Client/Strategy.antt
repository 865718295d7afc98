-- ===== src/Approximator/Client/Strategy.antt =====
-- The strategies of client_logic.cpp: the lines of the player, and the automatic choice of a put.
pub mod Maximum
pub mod BestPut
pub mod Poly
pub mod Accepted
use computer_networks_course.Prelude.{
  ℕ, zero, suc, ◌+◌, ◌*◌, ◌^◌, Bool, true, false, Option, none, some, List, [], ◌∷◌, ◌++◌, ltb,
  ◌==◌, if◌then◌else◌, get_elem?, length, set, Text, codes, ℤ, pos,
}
use computer_networks_course.Outcome.{Outcome, done, fatal, fault, ◌>>=◌, or_fault}
use computer_networks_course.Approximator.Constants.{Double, min_put_value, max_put_value}
use computer_networks_course.Approximator.MsgParser.Integer.{to_string}
use computer_networks_course.Approximator.MsgParser.Message.{validate_int_double_pair}
use computer_networks_course.Approximator.MsgParser.Params.{split_params}
use computer_networks_course.Approximator.MsgParser.Printer.{create_put, double_to_string}
use computer_networks_course.Approximator.Client.Queue.{push}
use computer_networks_course.Approximator.Client.State.{
  Client, log_stdout, log_stderr, increment_puts_without_answer, wait_for_puts,
}

-- A product of two `int`s that are not negative; an overflow is undefined behaviour.
unfoldable pub times : ℕ → ℕ → Outcome ℕ
times a b = if ltb (a * b) (2 ^ 31) then done (a * b) else fault

module _ {F : Type 0} ⦃d : Double F⦄ where
  -- The loop of poly_at with `rounds` rounds left, at the index `i`.
  unfoldable pub poly_at_loop : List F → ℕ → ℕ → ℕ → F → ℕ → Outcome F
  poly_at_loop coeffs x zero i result x_pow = done result
  poly_at_loop coeffs x (suc rounds) i result x_pow = do
    c ← or_fault (get_elem? coeffs i)
    x_pow' ← times x_pow x
    poly_at_loop coeffs x rounds (i + 1) (d.add result (d.mul c (d.of_int (pos x_pow)))) x_pow'

  unfoldable pub poly_at : Client F → ℕ → Outcome F
  poly_at c x = poly_at_loop c.coeffs x (c.n + 1) 0 (d.literal (pos 0) 0) 1

  unfoldable pub send_put_message : ℤ → F → Client F → Client F
  send_put_message point value c =
      let msg =
        codes "Putting " ++ (double_to_string value ++ (codes " in point " ++ to_string point)) in
      let c' = log_stdout msg c in
      record c' { outgoing_messages = push (create_put point value) c'.outgoing_messages }

  -- std::transform over `count` entries of both vectors; reading behind an end is a fault.
  unfoldable pub squared_differences : ℕ → List F → List F → Outcome (List F)
  squared_differences zero xs ys = done []
  squared_differences (suc count) [] ys = fault
  squared_differences (suc count) (a ∷ xs) [] = fault
  squared_differences (suc count) (a ∷ xs) (b ∷ ys) = do
    rest ← squared_differences count xs ys
    done (d.mul (d.sub a b) (d.sub a b) ∷ rest)

  -- The loop of std::max_element: the index of the largest so far, its value, the next index.
  unfoldable pub max_loop : ℕ → F → ℕ → List F → ℕ
  max_loop largest v i [] = largest
  max_loop largest v i (x ∷ xs) =
      max_loop (if d.lt v x then i else largest) (if d.lt v x then x else v) (i + 1) xs

  -- `std::distance` to std::max_element; 0 for an empty range.
  unfoldable pub max_index : List F → ℕ
  max_index [] = 0
  max_index (x ∷ xs) = max_loop 0 x 1 xs

  -- std::clamp
  unfoldable pub clamp : F → F → F → F
  clamp v lo hi = if d.lt v lo then lo else if d.lt hi v then hi else v

  unfoldable pub get_best_put : Client F → Outcome (Client F × ℕ × F)
  get_best_put c = do
    let max_point = if c.k_set then c.k else 1
    squares ← squared_differences (max_point + 1) c.current_approximation c.real_values
    let max_idx = max_index squares
    real ← or_fault (get_elem? c.real_values max_idx)
    current ← or_fault (get_elem? c.current_approximation max_idx)
    let value_to_put = clamp (d.sub real current) min_put_value max_put_value
    done (
      record c {
        current_approximation = set c.current_approximation max_idx (d.add current value_to_put);
      },
      max_idx,
      value_to_put,
    )

  -- A line of the player: two parameters, an integer and a decimal.
  unfoldable pub manual_line : Text → Client F → Client F
  manual_line line c =
      let invalid = log_stderr (codes "invalid input line " ++ line) c in
      elim (split_params line) [
        | none ↦ invalid
        | some params ↦ elim (validate_int_double_pair {F = F} params) [
          | none ↦ invalid
          | some (point, value) ↦ send_put_message point value c
        ]
      ]

-- `find('\n')`, `substr(0, newline_pos)` and `erase(0, newline_pos + 1)`
unfoldable pub cut_line : Text → Option (Text × Text)
cut_line [] = none
cut_line (c ∷ s) =
    let later : Option (Text × Text) = elim (cut_line s) [
      | none ↦ none
      | some (line, rest) ↦ some (c ∷ line, rest)
    ] in
    if c == b'\n' then some ([], s) else later

-- What the turn of manual_strategy meets: `poll` fails, times out, reports no POLLIN; `read` fails,
-- or reads bytes, none at the end of the input.
pub data Input : Type 0 where
  poll_error poll_timeout not_readable read_error : Input
  read_bytes : Text → Input

module _ {F : Type 0} ⦃d : Double F⦄ where
  -- The loop over the lines of the buffer, for more fuel than the buffer has characters.
  unfoldable pub manual_lines : ℕ → Text → Client F → Text × Client F
  manual_lines zero buffer c = (buffer, c)
  manual_lines (suc fuel) buffer c = elim (cut_line buffer) [
    | none ↦ (buffer, c)
    | some (line, rest) ↦ manual_lines fuel rest (manual_line line c)
  ]

  -- A turn of manual_strategy: the buffer and the client; `fatal` is syserr.
  unfoldable pub manual_strategy : Input → Text → Client F → Outcome (Text × Client F)
  manual_strategy poll_error buffer c = fatal
  manual_strategy poll_timeout buffer c = done (buffer, c)
  manual_strategy not_readable buffer c = done (manual_lines (length buffer + 1) buffer c)
  manual_strategy read_error buffer c =
      done (buffer, log_stderr (codes "Error reading from stdin.") c)
  manual_strategy (read_bytes bytes) buffer c =
      let buffer' = buffer ++ bytes in done (manual_lines (length buffer' + 1) buffer' c)

-- What the thread of the automatic strategy does next; between two of these the other threads may
-- run.
pub data Phase (F : Type 0) : Type 0 where
  waiting incrementing choosing : Phase F
  sending : ℕ → F → Phase F

module _ {F : Type 0} ⦃d : Double F⦄ where
  -- auto_strategy, from one access to what the threads share to the next; a phase in the middle
  -- of the loop does not look at `game_over`.
  unfoldable pub auto_strategy : Phase F → Client F → Outcome (Phase F × Client F)
  auto_strategy waiting c =
      done ((if c.game_over then waiting else if wait_for_puts c then incrementing else waiting), c)
  auto_strategy incrementing c = done (choosing, increment_puts_without_answer c)
  auto_strategy choosing c = do
    (c', max_idx, value) ← get_best_put c
    done (sending max_idx value, c')
  auto_strategy (sending point value) c = done (waiting, send_put_message (pos point) value c)
