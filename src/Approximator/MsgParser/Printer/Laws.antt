-- ===== src/Approximator/MsgParser/Printer/Laws.antt =====
-- Round trips of the messages.
use computer_networks_course.Prelude.{
  ℕ, ◌+◌, ◌≤◌, ◌≡◌, refl, sym, ap, ◌∙◌, ◌≢◌, Bool, true, false, some, List, [], ◌∷◌, ◌++◌, map,
  append_assoc, arith, ==-refl, length, length-map, All, All-append, Text, codes, text_eq, ℤ,
}
use computer_networks_course.Approximator.Constants.{Double, max_k, crlf}
use computer_networks_course.Approximator.MsgParser.Chars.{
  isdigit, islower, isalnum, is_alphanumeric, IsDigit,
}
use computer_networks_course.Approximator.MsgParser.Integer.{to_string}
use computer_networks_course.Approximator.MsgParser.Integer.Laws.{
  minus, in_int, parse_integer-to_string, parse_integer_sound,
}
use computer_networks_course.Approximator.MsgParser.Decimal.{parse_double, is_valid_double_format}
use computer_networks_course.Approximator.MsgParser.Decimal.Laws.{
  point, IsDecimal, spell, body-ne-nil, format_complete,
}
use computer_networks_course.Approximator.MsgParser.Params.{is_param_char}
use computer_networks_course.Approximator.MsgParser.Params.Laws.{IsToken, join}
use computer_networks_course.Approximator.MsgParser.Params.Command.{Lacks}
use computer_networks_course.Approximator.MsgParser.Message.{
  Message, Body, hello, put, bad_put, state, penalty, validate_int_double_pair, parse_values,
  parse_hello, parse_state, parse_pair, parse_message, create_message_with_crlf,
}
use computer_networks_course.Approximator.MsgParser.Message.Laws.{line_of, create_message_line}
use computer_networks_course.Approximator.MsgParser.Printer.{
  pop_back, double_to_string, create_hello, create_put, create_bad_put, create_penalty, write_pair,
  write_values, create_state,
}

digit-param : (c : ℕ) → IsDigit c → is_param_char c ≡ true
unfolding is_param_char isdigit islower
digit-param c h = ground arith

digits-param : (s : Text) → All IsDigit s → All (λ c. is_param_char c ≡ true) s
digits-param [] h = tt
digits-param (c ∷ s) h = (digit-param c h.0, digits-param s h.1)

minus-param : (neg : Bool) → All (λ c. is_param_char c ≡ true) (minus neg)
unfolding is_param_char isdigit islower
minus-param true = (refl, tt)
minus-param false = tt

point-param : (dot : Bool) → All (λ c. is_param_char c ≡ true) (point dot)
unfolding is_param_char isdigit islower
point-param true = (refl, tt)
point-param false = tt

pub append-ne-nil : (s t : Text) → t ≢ [] → s ++ t ≢ []
append-ne-nil [] t n = n
append-ne-nil (c ∷ s) t n = λ e. cc

-- A printed integer is a token: it is what `parseInteger` accepts.
to_string-IsToken : (z : ℤ) → in_int z ≡ true → IsToken (to_string z)
to_string-IsToken z h =
    let (neg, ds, e, n, digits, ez, fits) =
      parse_integer_sound (to_string z) z (parse_integer-to_string z h) in
    rw e (
      append-ne-nil (minus neg) ds n,
      All-append _ (minus neg) ds (minus-param neg) (digits-param ds digits),
    )

-- A decimal number is a token.
spell-IsToken :
    (neg : Bool) (lead : Text) (dot : Bool) (frac : Text)
    → IsDecimal lead dot frac
    → IsToken (spell neg lead dot frac)
spell-IsToken neg lead dot frac v = (
  append-ne-nil (minus neg) _ (body-ne-nil lead dot frac v.some_digit),
  All-append _ (minus neg) _ (minus-param neg) (
      All-append _ lead _ (digits-param lead v.lead_digits)
        (All-append _ (point dot) frac (point-param dot) (digits-param frac v.frac_digits))),
)

pub pop_back-concat : (s : Text) (c : ℕ) → pop_back (s ++ c ∷ []) ≡ s
unfolding pop_back
pop_back-concat [] c = refl
pop_back-concat (x ∷ []) c = refl
pop_back-concat (x ∷ y ∷ s) c = ap (◌∷◌ x) (pop_back-concat (y ∷ s) c)

isalnum-param : (c : ℕ) → isalnum c ≡ true → is_param_char c ≡ true
unfolding is_param_char isalnum isdigit islower
isalnum-param c h = ground arith

pub alphanumeric-param : (s : Text) → is_alphanumeric s ≡ true → All (λ c. is_param_char c ≡ true) s
unfolding is_alphanumeric
alphanumeric-param [] h = tt
alphanumeric-param (c ∷ s) h = (isalnum-param c (ground arith), alphanumeric-param s (ground arith))

module _ {F : Type 0} ⦃d : Double F⦄ where
  -- The value `v` prints as a decimal number that `std::stod` reads, to its end, as `v'`.
  pub record ReadsBack (v v' : F) : Type 0 where
    pub neg : Bool
    pub lead : Text
    pub dot : Bool
    pub frac : Text
    pub printed : double_to_string v ≡ spell neg lead dot frac
    pub decimal : IsDecimal lead dot frac
    pub reads : d.stod (double_to_string v) ≡ some (v', length (double_to_string v))

  pub parse_double-print : (v v' : F) → ReadsBack v v' → parse_double (double_to_string v) ≡ some v'
  unfolding parse_double
  parse_double-print v v' r = rw (
    ap is_valid_double_format r.printed ∙ format_complete r.neg r.decimal,
    r.reads,
    ==-refl (length (double_to_string v)),
  )

  pub print-IsToken : (v v' : F) → ReadsBack v v' → IsToken (double_to_string v)
  print-IsToken v v' r = rw r.printed (spell-IsToken r.neg r.lead r.dot r.frac r.decimal)

  parse_pair-print :
      (kind : ℤ → F → Body F) (p : ℤ) (v v' : F)
      → in_int p ≡ true
      → ReadsBack v v'
      → parse_pair kind (to_string p ∷ double_to_string v ∷ []) ≡ some (kind p v')
  unfolding parse_pair validate_int_double_pair
  parse_pair-print kind p v v' h r = rw (parse_integer-to_string p h, parse_double-print v v' r)

  -- The message that a command with a point and a value gives back.
  abbrev pub pair_message : Text → (ℤ → F → Body F) → ℤ → F → F → Message F
  pair_message command kind p v v' = record {
    raw_message = write_pair command p v ++ crlf;
    params = to_string p ∷ double_to_string v ∷ [];
    body = kind p v';
  }

  create_pair :
      (command : Text) (kind : ℤ → F → Body F) (p : ℤ) (v v' : F)
      → command ≢ []
      → Lacks b' ' command
      → ((ps : List Text) → parse_message command ps ≡ parse_pair kind ps)
      → in_int p ≡ true
      → ReadsBack v v'
      → create_message_with_crlf (write_pair command p v) ≡ some (pair_message command kind p v v')
  unfolding write_pair join
  create_pair command kind p v v' n l dispatch h r =
      create_message_line command (to_string p) (double_to_string v ∷ []) (kind p v') n l
        (to_string-IsToken p h, (print-IsToken v v' r, tt))
        (dispatch _ ∙ parse_pair-print kind p v v' h r)

  -- PUT, BAD_PUT and PENALTY messages whose point is an `int` and whose value prints as a decimal
  -- that reads back are read back as they were written: the same point, and the value that reading
  -- the printed value gives.
  pub create_put-RoundTrip :
      (p : ℤ) (v v' : F)
      → in_int p ≡ true
      → ReadsBack v v'
      → (create_put p v ≡ some (pair_message (codes "PUT") put p v v'))
        × (create_bad_put p v ≡ some (pair_message (codes "BAD_PUT") bad_put p v v'))
        × (create_penalty p v ≡ some (pair_message (codes "PENALTY") penalty p v v'))
  unfolding create_put create_bad_put create_penalty parse_message text_eq
  create_put-RoundTrip p v v' h r = (
    create_pair (codes "PUT") put p v v' (λ e. cc) (omega arith) (λ ps. refl) h r,
    create_pair (codes "BAD_PUT") bad_put p v v' (λ e. cc) (omega arith) (λ ps. refl) h r,
    create_pair (codes "PENALTY") penalty p v v' (λ e. cc) (omega arith) (λ ps. refl) h r,
  )

  abbrev pub ReadBack : List F → List F → Type 0
  ReadBack [] [] = Unit
  ReadBack [] (w ∷ ws) = ⊥
  ReadBack (v ∷ vs) [] = ⊥
  ReadBack (v ∷ vs) (w ∷ ws) = ReadsBack v w × ReadBack vs ws

  parse_values-print :
      (vs ws : List F) → ReadBack vs ws → parse_values (map double_to_string vs) ≡ some ws
  unfolding parse_values
  parse_values-print [] [] r = refl
  parse_values-print [] (w ∷ ws) r = absurd r
  parse_values-print (v ∷ vs) [] r = absurd r
  parse_values-print (v ∷ vs) (w ∷ ws) r =
      rw (parse_double-print v w r.0, parse_values-print vs ws r.1)

  pub print-All : (vs ws : List F) → ReadBack vs ws → All IsToken (map double_to_string vs)
  print-All [] [] r = tt
  print-All [] (w ∷ ws) r = absurd r
  print-All (v ∷ vs) [] r = absurd r
  print-All (v ∷ vs) (w ∷ ws) r = (print-IsToken v w r.0, print-All vs ws r.1)

  pub write_values-join :
      (v : F) (vs : List F)
      → write_values (v ∷ vs) ≡ join (map double_to_string (v ∷ vs)) ++ b' ' ∷ []
  unfolding write_values join
  write_values-join v [] = refl
  write_values-join v (w ∷ vs) =
      ap (λ s. double_to_string v ++ (b' ' ∷ s)) (write_values-join w vs)
      ∙ sym (
          append_assoc (double_to_string v) (b' ' ∷ join (map double_to_string (w ∷ vs)))
            (b' ' ∷ []))

  parse_state-print :
      (vs ws : List F)
      → vs ≢ []
      → length vs ≤ max_k + 1
      → ReadBack vs ws
      → parse_state (map double_to_string vs) ≡ some (state ws)
  unfolding parse_state
  parse_state-print [] ws n few r = absurd (n refl)
  parse_state-print (v ∷ vs) ws n few r =
      rw (parse_values-print (v ∷ vs) ws r) (ground (arith, length-map double_to_string vs))

  -- A STATE message with 1 to K_max + 1 values is read back with as many values, each the one that
  -- reading its print gives, if they all print as decimals that read back.
  pub create_state-RoundTrip :
      (vs ws : List F)
      → vs ≢ []
      → length vs ≤ max_k + 1
      → ReadBack vs ws
      → create_state vs
        ≡ some (record {
          raw_message = line_of (codes "STATE") (map double_to_string vs) ++ crlf;
          params = map double_to_string vs;
          body = state ws;
        })
  unfolding create_state parse_message text_eq
  create_state-RoundTrip [] ws n few r = absurd (n refl)
  create_state-RoundTrip (v ∷ vs) ws n few r =
      ap (λ s. create_message_with_crlf (codes "STATE " ++ s))
        (ap pop_back (write_values-join v vs) ∙ pop_back-concat _ b' ')
      ∙ create_message_line (codes "STATE") (double_to_string v) (map double_to_string vs)
          (state ws) (λ e. cc) (omega arith) (print-All (v ∷ vs) ws r)
          (dispatch (map double_to_string (v ∷ vs)) ∙ parse_state-print (v ∷ vs) ws n few r)
    where
      dispatch : (ps : List Text) → parse_message {F = F} (codes "STATE") ps ≡ parse_state ps
      dispatch ps = refl

  -- For an id that is alphanumeric and not empty there is a HELLO message, which carries that id.
  pub create_hello-RoundTrip :
      (player_id : Text)
      → player_id ≢ []
      → is_alphanumeric player_id ≡ true
      → create_hello {F = F} player_id
        ≡ some (record {
          raw_message = codes "HELLO " ++ player_id ++ crlf;
          params = player_id ∷ [];
          body = hello player_id;
        })
  unfolding create_hello parse_message text_eq parse_hello join
  create_hello-RoundTrip player_id n h =
      create_message_line (codes "HELLO") player_id [] (hello player_id) (λ e. cc) (omega arith)
        ((n, alphanumeric-param player_id h), tt) (rw h)

-- Every value prints as a decimal number that reads back as some value: what the library does with
-- the finite values.
abbrev pub Printable : {F : Type 0} → Double F → Type 0
Printable {F} d = (v : F) → (w : F) × ReadsBack ⦃d = d⦄ v w

module _ {F : Type 0} ⦃d : Double F⦄ (printable : Printable d) where
  reread : List F → List F
  reread [] = []
  reread (v ∷ vs) = (printable v).0 ∷ reread vs

  reread-ReadBack : (vs : List F) → ReadBack vs (reread vs)
  unfolding reread
  reread-ReadBack [] = tt
  reread-ReadBack (v ∷ vs) = ((printable v).1, reread-ReadBack vs)

  -- The message of a state, and those of a point, exist.
  pub create_state_total :
      (vs : List F) → vs ≢ [] → length vs ≤ max_k + 1 → (m : Message F) × (create_state vs ≡ some m)
  create_state_total vs n few = (
    record {
      raw_message = line_of (codes "STATE") (map double_to_string vs) ++ crlf;
      params = map double_to_string vs;
      body = state (reread vs);
    },
    create_state-RoundTrip vs (reread vs) n few (reread-ReadBack vs),
  )

  pub create_penalty_total :
      (p : ℤ) (v : F) → in_int p ≡ true → (m : Message F) × (create_penalty p v ≡ some m)
  create_penalty_total p v h = (
    pair_message (codes "PENALTY") penalty p v (printable v).0,
    (create_put-RoundTrip p v (printable v).0 h (printable v).1).2,
  )

  pub create_bad_put_total :
      (p : ℤ) (v : F) → in_int p ≡ true → (m : Message F) × (create_bad_put p v ≡ some m)
  create_bad_put_total p v h = (
    pair_message (codes "BAD_PUT") bad_put p v (printable v).0,
    (create_put-RoundTrip p v (printable v).0 h (printable v).1).1,
  )
